-- ===== src/Handoff/Manifest/Table.antt =====
-- crates/kvpack-handoff/src/manifest/validation.rs: labels, digests, and which layout tables are
-- accepted.
use kvpack.Base.{ℕ, ◌+◌, ◌*◌, ◌/◌, ◌%◌, max, List, [], ◌∷◌, ◌++◌}
use kvpack.Base.{Bool, true, false, not, ◌&&◌, ◌||◌, ltb, leb, ◌==◌, if◌then◌else◌, length, ascii}
use kvpack.Base.{bytes_eq, Result, ok, ◌>>=◌, ◌>>◌, fail_if}
use kvpack.Handoff.{HandoffError, validation, text}
use kvpack.Handoff.Manifest.{
  BeginManifest, LayoutClass, TensorRole, key, value, ValidationLimits, same_role,
}
use kvpack.Handoff.Manifest.Layout.{
  ok_or, layers, plane_element_bytes_v2, window, plane_bytes, payload_overflow, range,
}

-- `is_ascii_graphic`, without the backslash, the slash and the quotation mark.
unfoldable pub is_label_byte : ℕ → Bool
is_label_byte byte =
    leb 33 byte && leb byte 126 && not (byte == 92) && not (byte == 47) && not (byte == 34)

unfoldable pub all : {A : Type 0} → (A → Bool) → List A → Bool
all test [] = true
all test (x ∷ xs) = test x && all test xs

unfoldable pub valid_label : List ℕ → ℕ → Bool
valid_label label max_len =
    not (length label == 0) && leb (length label) max_len && all is_label_byte label

unfoldable pub is_hex_byte : ℕ → Bool
is_hex_byte byte = (leb 48 byte && leb byte 57) || (leb 97 byte && leb byte 102)

unfoldable pub valid_sha256 : List ℕ → Bool
valid_sha256 digest = length digest == 64 && all is_hex_byte digest

-- `f32::is_finite` of four little-endian bytes: the exponent is not all ones.
unfoldable pub is_finite : ℕ → ℕ → Bool
is_finite third fourth = not (fourth % 128 * 2 + third / 128 == 255)

unfoldable pub finite_elements : List ℕ → Bool
finite_elements (a ∷ b ∷ c ∷ d ∷ rest) = is_finite c d && finite_elements rest
finite_elements _ = true

unfoldable pub validate_prerope_key_plane_finite : List ℕ → Result HandoffError (Unit {0})
validate_prerope_key_plane_finite payload = do
  fail_if (not (length payload % 4 == 0))
      (validation (text "pre-RoPE Key plane length is not a multiple of the f32 element width"))
  fail_if (not (finite_elements payload))
      (validation (text "pre-RoPE Key plane contains a non-finite (NaN/Inf) f32 element"))
  ok tt

-- `sort_unstable` and `dedup` of numbers.
unfoldable pub insert_sorted : ℕ → List ℕ → List ℕ
insert_sorted x [] = x ∷ []
insert_sorted x (y ∷ ys) =
    let rest = insert_sorted x ys in if leb x y then (x ∷ y ∷ ys) else (y ∷ rest)

unfoldable pub sort_unstable : List ℕ → List ℕ
sort_unstable [] = []
sort_unstable (x ∷ xs) = insert_sorted x (sort_unstable xs)

unfoldable pub dedup_after : ℕ → List ℕ → List ℕ
dedup_after x [] = []
dedup_after x (y ∷ ys) = let rest = dedup_after y ys in if x == y then rest else (y ∷ rest)

unfoldable pub dedup : List ℕ → List ℕ
dedup [] = []
dedup (x ∷ xs) = x ∷ dedup_after x xs

unfoldable pub same_roles : List TensorRole → List TensorRole → Bool
same_roles [] [] = true
same_roles [] (s ∷ ss) = false
same_roles (r ∷ rs) [] = false
same_roles (r ∷ rs) (s ∷ ss) = same_role r s && same_roles rs ss

-- The widest element of the roles, 2 where there is none.
unfoldable pub max_element_bytes : BeginManifest → List TensorRole → ℕ
max_element_bytes begin [] = 2
max_element_bytes begin (role ∷ []) = plane_element_bytes_v2 begin role
max_element_bytes begin (role ∷ role' ∷ roles) =
    max (plane_element_bytes_v2 begin role) (max_element_bytes begin (role' ∷ roles))

unfoldable pub any_outside : ℕ → ℕ → List ℕ → Bool
any_outside from until [] = false
any_outside from until (layer ∷ layers) =
    ltb layer from || leb until layer || any_outside from until layers

unfoldable pub roles_ok : LayoutClass → Bool
roles_ok c =
    same_roles c.roles (key ∷ value ∷ [])
    || (bytes_eq c.class (ascii "mla-latent") && same_roles c.roles (key ∷ []))

unfoldable pub invalid_class : HandoffError
invalid_class = validation (text "layout table contains an invalid layer class")

-- The body of the loop over the classes, which returns the layers that the class covers.
unfoldable pub validate_class :
    BeginManifest → ValidationLimits → LayoutClass → Result HandoffError (List ℕ)
validate_class begin limits c = do
  fail_if (c.step == 0 || leb c.until c.from || ltb begin.geometry.num_layers c.until) invalid_class
  per_plane ←
      ok_or (plane_bytes (window begin c) c (max_element_bytes begin c.roles)) payload_overflow
  fail_if (ltb limits.max_frame_bytes per_plane)
      (validation (text "layout table class exceeds the per-frame byte bound"))
  fail_if
      (not (length (dedup (sort_unstable c.except)) == length c.except)
        || any_outside c.from c.until c.except)
      (validation (text "layout table contains an out-of-range or duplicate except entry"))
  fail_if (not (roles_ok c))
      (validation (text "layout table classes must declare roles [key, value]"))
  fail_if
      (not (valid_label c.class 64)
        || length (layers c) == 0
        || c.kv_heads == 0
        || c.head_dim == 0
        || not (bytes_eq c.dtype (ascii "float16")))
      invalid_class
  ok (layers c)

unfoldable pub validate_classes :
    BeginManifest → ValidationLimits → List LayoutClass → List ℕ → Result HandoffError (List ℕ)
validate_classes begin limits [] covered = ok covered
validate_classes begin limits (c ∷ cs) covered = do
  covers ← validate_class begin limits c
  validate_classes begin limits cs (covered ++ covers)

unfoldable pub flat_geometry : BeginManifest → Result HandoffError (Unit {0})
flat_geometry begin = elim begin.layout_table [
  | c ∷ [] ↦
      fail_if
        (not (begin.geometry.num_kv_heads == c.kv_heads)
          || not (begin.geometry.head_dim == c.head_dim))
        (validation (text "flat geometry disagrees with the single-class layout table"))
  | _ ↦
      fail_if (not (begin.geometry.num_kv_heads == 0) || not (begin.geometry.head_dim == 0))
        (validation (text "multi-class layout table requires zero flat kv_heads/head_dim"))
]

unfoldable pub validate_layout_table :
    BeginManifest → ValidationLimits → Result HandoffError (Unit {0})
validate_layout_table begin limits = do
  covered ← validate_classes begin limits begin.layout_table []
  let unique = dedup (sort_unstable covered) in
      do
        fail_if (not (length unique == length covered))
            (validation (text "layout table assigns a layer to more than one class"))
        fail_if
            (not (length unique == begin.geometry.num_layers)
              || not (bytes_eq unique (range 0 (length unique))))
            (validation (text "layout table must cover every declared layer exactly once"))
        flat_geometry begin
