-- ===== src/Handoff/Manifest/Layout.antt =====
-- crates/kvpack-handoff/src/manifest.rs: the layers of a class, the walk over the layout table, and
-- the frames and bytes that a table declares.
use kvpack.Base.{ℕ, zero, suc, ◌+◌, ◌-◌, ◌*◌, ◌/◌, min, List, [], ◌∷◌, ◌++◌, Option, none, some}
use kvpack.Base.{
  not, Bool, true, false, ◌&&◌, ◌||◌, ltb, leb, ◌==◌, if◌then◌else◌, length, get_elem?,
}
use kvpack.Base.{ascii, bytes_eq, Result, ok, err, ◌>>=◌, max_u64}
use kvpack.Handoff.{HandoffError, validation, text, numbered}
use kvpack.Handoff.Manifest.{
  BeginManifest, LayoutClass, TensorRole, is_key, portable_kv_abi_v2_prerope,
  wire_schedule_decode_priority,
}

unfoldable pub contains : List ℕ → ℕ → Bool
contains [] x = false
contains (y ∷ ys) x = (x == y) || contains ys x

-- `u64::checked_mul` and `u64::checked_add`.
unfoldable pub checked_mul : ℕ → ℕ → Option ℕ
checked_mul a b = if leb (a * b) max_u64 then some (a * b) else none

unfoldable pub checked_add : ℕ → ℕ → Option ℕ
checked_add a b = if leb (a + b) max_u64 then some (a + b) else none

unfoldable pub and_then : {A B : Type 0} → Option A → (A → Option B) → Option B
and_then none f = none
and_then (some a) f = f a

unfoldable pub ok_or : {A : Type 0} → Option A → HandoffError → Result HandoffError A
ok_or none e = err e
ok_or (some a) e = ok a

-- `(from..until).step_by(step)`, of which `count` numbers are in the range.
unfoldable pub stepped : ℕ → ℕ → ℕ → List ℕ
stepped zero from step = []
stepped (suc count) from step = from ∷ stepped count (from + step) step

unfoldable pub without : List ℕ → List ℕ → List ℕ
without except [] = []
without except (layer ∷ layers) =
    let rest = without except layers in if contains except layer then rest else (layer ∷ rest)

unfoldable pub layers : LayoutClass → List ℕ
layers c =
    if (c.step == 0) || leb c.until c.from
    then []
    else without c.except (stepped ((c.until - c.from + (c.step - 1)) / c.step) c.from c.step)

unfoldable pub is_v2 : BeginManifest → Bool
is_v2 begin = elim begin.layout_table [ [] ↦ false | c ∷ cs ↦ true ]

unfoldable pub is_prerope_v2 : BeginManifest → Bool
is_prerope_v2 begin = is_v2 begin && bytes_eq begin.portable_abi portable_kv_abi_v2_prerope

unfoldable pub plane_element_bytes_v2 : BeginManifest → TensorRole → ℕ
plane_element_bytes_v2 begin role = if is_prerope_v2 begin && is_key role then 4 else 2

unfoldable pub expected_plane_dtype_v2 : BeginManifest → LayoutClass → TensorRole → List ℕ
expected_plane_dtype_v2 begin c role =
    if is_prerope_v2 begin && is_key role then ascii "float32" else c.dtype

unfoldable pub plane_payload_extension : BeginManifest → TensorRole → List ℕ
plane_payload_extension begin role =
    if is_prerope_v2 begin && is_key role then ascii "f32le" else ascii "f16le"

-- `0..count`.
unfoldable pub range : ℕ → ℕ → List ℕ
range first zero = []
range first (suc count) = first ∷ range (first + 1) count

-- The classes of the table that stream a window, or the ones that do not, with their places.
unfoldable pub windowed : Bool → ℕ → List LayoutClass → List ℕ
windowed wanted index [] = []
windowed wanted index (c ∷ cs) =
    let rest = windowed wanted (index + 1) cs in
    let chosen = if wanted then ltb 0 c.window_tokens else not (ltb 0 c.window_tokens) in
    if chosen then (index ∷ rest) else rest

unfoldable pub schedule_class_order : BeginManifest → List ℕ
schedule_class_order begin = elim begin.schedule [
  | none ↦ range 0 (length begin.layout_table)
  | some schedule ↦
      if bytes_eq schedule wire_schedule_decode_priority
      then windowed true 0 begin.layout_table ++ windowed false 0 begin.layout_table
      else range 0 (length begin.layout_table)
]

unfoldable pub walk_roles : ℕ → ℕ → List TensorRole → List (ℕ × ℕ × TensorRole)
walk_roles class_index layer [] = []
walk_roles class_index layer (role ∷ roles) =
    (class_index, layer, role) ∷ walk_roles class_index layer roles

unfoldable pub walk_layers : ℕ → List TensorRole → List ℕ → List (ℕ × ℕ × TensorRole)
walk_layers class_index roles [] = []
walk_layers class_index roles (layer ∷ layers) =
    walk_roles class_index layer roles ++ walk_layers class_index roles layers

-- The places that `schedule_class_order` gives are in the table, so `none` is never met.
unfoldable pub walk_class : ℕ → Option LayoutClass → List (ℕ × ℕ × TensorRole)
walk_class index none = []
walk_class index (some c) = walk_layers index c.roles (layers c)

unfoldable pub walk_classes : List LayoutClass → List ℕ → List (ℕ × ℕ × TensorRole)
walk_classes table [] = []
walk_classes table (index ∷ order) =
    walk_class index (get_elem? table index) ++ walk_classes table order

unfoldable pub layout_walk_v2 : BeginManifest → List (ℕ × ℕ × TensorRole)
layout_walk_v2 begin = walk_classes begin.layout_table (schedule_class_order begin)

pub record ExpectedPlane : Type 0 where
  pub class : LayoutClass
  pub layer : ℕ
  pub role : TensorRole
  pub range_start : ℕ
  pub range_end : ℕ

-- The tokens of a class that are streamed.
unfoldable pub window : BeginManifest → LayoutClass → ℕ
window begin c =
    if c.window_tokens == 0
    then begin.cached_token_count
    else min c.window_tokens begin.cached_token_count

-- `none` where the source indexes the table out of its range, which a walk of this table never does.
unfoldable pub expected_from_walk_entry : BeginManifest → ℕ × ℕ × TensorRole → Option ExpectedPlane
expected_from_walk_entry begin (class_index, layer, role) =
    and_then (get_elem? begin.layout_table class_index) (λ c. some (record {
      class = c;
      layer = layer;
      role = role;
      range_start = begin.cached_token_count - window begin c;
      range_end = begin.cached_token_count;
    }))

unfoldable pub expected_plane_at : BeginManifest → ℕ → Result HandoffError ExpectedPlane
expected_plane_at begin sequence =
    ok_or (and_then (get_elem? (layout_walk_v2 begin) sequence) (expected_from_walk_entry begin))
      (validation (numbered "layer frame is outside the declared layout table" sequence))

-- The bytes of one plane of `tokens` tokens.
unfoldable pub plane_bytes : ℕ → LayoutClass → ℕ → Option ℕ
plane_bytes tokens c element =
    and_then (and_then (checked_mul tokens c.kv_heads) (λ v. checked_mul v c.head_dim))
      (λ v. checked_mul v element)

unfoldable pub payload_overflow : HandoffError
payload_overflow = validation (text "declared payload size overflows u64")

-- The loop over the roles of a class, on the frames and bytes counted so far.
unfoldable pub count_roles :
    BeginManifest → LayoutClass → ℕ → List TensorRole → ℕ × ℕ → Result HandoffError (ℕ × ℕ)
count_roles begin c layers [] counted = ok counted
count_roles begin c layers (role ∷ roles) (frames, bytes) = do
  per_plane ←
      ok_or (plane_bytes (window begin c) c (plane_element_bytes_v2 begin role)) payload_overflow
  frames' ← ok_or (checked_add frames layers) (validation (text "layer-frame count overflow"))
  planes ← ok_or (checked_mul layers per_plane) payload_overflow
  bytes' ← ok_or (checked_add bytes planes) payload_overflow
  count_roles begin c layers roles (frames', bytes')

unfoldable pub count_classes :
    BeginManifest → List LayoutClass → ℕ × ℕ → Result HandoffError (ℕ × ℕ)
count_classes begin [] counted = ok counted
count_classes begin (c ∷ cs) counted = do
  counted' ← count_roles begin c (length (layers c)) c.roles counted
  count_classes begin cs counted'

unfoldable pub v2_frame_counts : BeginManifest → Result HandoffError (ℕ × ℕ)
v2_frame_counts begin = do
  (frames, bytes) ← count_classes begin begin.layout_table (0, 0)
  if ltb 0xffff_ffff frames
      then err (validation (text "layer-frame count overflow"))
      else ok (frames, bytes)
