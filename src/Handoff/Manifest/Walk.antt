-- ===== src/Handoff/Manifest/Walk.antt =====
-- Sums over the walk of a layout table, the same under both schedules.
use kvpack.Base.{
  ℕ, zero, suc, ◌+◌, ◌*◌, ◌≡◌, refl, sym, ap, ◌∙◌, List, [], ◌∷◌, ◌++◌, Option, none, some,
}
use kvpack.Base.{
  Bool, true, false, ltb, if◌then◌else◌, length, get_elem?, not, drop, arith, length-append,
}
use kvpack.Base.{Option-cases, inl, inr, bytes_eq}
use kvpack.Handoff.Manifest.{BeginManifest, LayoutClass, TensorRole, wire_schedule_decode_priority}
use kvpack.Handoff.Manifest.Layout.{
  layers, plane_element_bytes_v2, range, windowed, schedule_class_order, walk_layers, walk_classes,
  walk_roles, walk_class, window,
}

-- The bytes of one plane of a class, and of an entry of the walk.
unfoldable pub plane : BeginManifest → LayoutClass → TensorRole → ℕ
plane begin c role = window begin c * c.kv_heads * c.head_dim * plane_element_bytes_v2 begin role

unfoldable pub at_index : (LayoutClass → ℕ) → List LayoutClass → ℕ → ℕ
at_index g table index = elim (get_elem? table index) [ none ↦ 0 | some c ↦ g c ]

unfoldable pub walk_bytes : BeginManifest → List (ℕ × ℕ × TensorRole) → ℕ
walk_bytes begin [] = 0
walk_bytes begin ((index, layer, role) ∷ walk) =
    at_index (λ c. plane begin c role) begin.layout_table index + walk_bytes begin walk

unfoldable pub sum_over : {A : Type 0} → (A → ℕ) → List A → ℕ
sum_over g [] = 0
sum_over g (x ∷ xs) = g x + sum_over g xs

-- A place of the table is found where the rest of the table begins.
get_elem?-drop :
    (table : List LayoutClass) (index : ℕ) (c : LayoutClass) (cs : List LayoutClass)
    → drop index table ≡ c ∷ cs
    → (get_elem? table index ≡ some c) × (drop (index + 1) table ≡ cs)
get_elem?-drop [] zero c cs e = cc
get_elem?-drop [] (suc index) c cs e = cc
get_elem?-drop (x ∷ xs) zero c cs e = ground arith
get_elem?-drop (x ∷ xs) (suc index) c cs e =
    let (found, rest) = get_elem?-drop xs index c cs e in
    let next : suc index + 1 ≡ suc (index + 1) = omega arith in (found, rw next rest)

at_index-some :
    (g : LayoutClass → ℕ) (table : List LayoutClass) (index : ℕ) (c : LayoutClass)
    → get_elem? table index ≡ some c
    → at_index g table index ≡ g c
unfolding at_index
at_index-some g table index c found = rw (found, at_index) refl

-- A place goes to one of the two lists.
split :
    (chosen : Bool) (g : ℕ → ℕ) (index : ℕ) (yes_list no_list : List ℕ) {here total : ℕ}
    → g index ≡ here
    → sum_over g yes_list + sum_over g no_list ≡ total
    → sum_over g (if (if true then chosen else not chosen) then (index ∷ yes_list) else yes_list)
        + sum_over g (if (if false then chosen else not chosen) then (index ∷ no_list) else no_list)
      ≡ here + total
unfolding sum_over
split true g index yes_list no_list at whole = omega (arith, at, whole)
split false g index yes_list no_list at whole = omega (arith, at, whole)

range-sum :
    (g : LayoutClass → ℕ) (table : List LayoutClass) (index : ℕ) (cs : List LayoutClass)
    → drop index table ≡ cs
    → sum_over (at_index g table) (range index (length cs)) ≡ sum_over g cs
unfolding sum_over range
range-sum g table index [] e = refl
range-sum g table index (c ∷ cs) e =
    let (found, rest) = get_elem?-drop table index c cs e in
    omega (arith, at_index-some g table index c found, range-sum g table (index + 1) cs rest)

windowed-sum :
    (g : LayoutClass → ℕ) (table : List LayoutClass) (index : ℕ) (cs : List LayoutClass)
    → drop index table ≡ cs
    → sum_over (at_index g table) (windowed true index cs)
        + sum_over (at_index g table) (windowed false index cs)
      ≡ sum_over g cs
unfolding sum_over windowed
windowed-sum g table index [] e = refl
windowed-sum g table index (c ∷ cs) e =
    let (found, rest) = get_elem?-drop table index c cs e in
    let whole = windowed-sum g table (index + 1) cs rest in
    let here = at_index-some g table index c found in
    split (ltb 0 c.window_tokens) (at_index g table) index (windowed true (index + 1) cs)
      (windowed false (index + 1) cs) here whole

sum_over-append :
    {A : Type 0} (g : A → ℕ) (xs ys : List A)
    → sum_over g (xs ++ ys) ≡ sum_over g xs + sum_over g ys
unfolding sum_over
sum_over-append g [] ys = omega arith
sum_over-append g (x ∷ xs) ys = omega (arith, sum_over-append g xs ys)

-- Both schedules visit every class once.
pub schedule-sum :
    (g : LayoutClass → ℕ) (begin : BeginManifest)
    → sum_over (at_index g begin.layout_table) (schedule_class_order begin)
      ≡ sum_over g begin.layout_table
unfolding schedule_class_order
schedule-sum g begin =
    let table = begin.layout_table in
    let in_order = range-sum g table 0 table refl in
    elim (Option-cases begin.schedule) [
      | inl absent ↦ rw absent in_order
      | inr (schedule, given) ↦ rw given (
          if-either (bytes_eq schedule wire_schedule_decode_priority)
            (λ order. sum_over (at_index g table) order ≡ sum_over g table)
            (sum_over-append (at_index g table) (windowed true 0 table) (windowed false 0 table)
              ∙ windowed-sum g table 0 table refl)
            in_order)
    ]
  where
    if-either : (b : Bool) (P : List ℕ → Type 0) {x y : List ℕ} → P x → P y → P (if b then x else y)
    if-either true P h k = h
    if-either false P h k = k

-- The frames of a class, its bytes, and the same over the walk.
unfoldable pub frames_of : LayoutClass → ℕ
frames_of c = length (layers c) * length c.roles

unfoldable pub roles_bytes : BeginManifest → LayoutClass → List TensorRole → ℕ
roles_bytes begin c [] = 0
roles_bytes begin c (role ∷ roles) = plane begin c role + roles_bytes begin c roles

unfoldable pub bytes_of : BeginManifest → LayoutClass → ℕ
bytes_of begin c = length (layers c) * roles_bytes begin c c.roles

length-walk_roles :
    (index l : ℕ) (roles : List TensorRole) → length (walk_roles index l roles) ≡ length roles
unfolding walk_roles
length-walk_roles index l [] = refl
length-walk_roles index l (role ∷ roles) = ap suc (length-walk_roles index l roles)

length-walk_layers :
    (index : ℕ) (roles : List TensorRole) (ls : List ℕ)
    → length (walk_layers index roles ls) ≡ length ls * length roles
unfolding walk_layers
length-walk_layers index roles [] = omega arith
length-walk_layers index roles (l ∷ ls) = grind (
  arith,
  length-append (walk_roles index l roles) (walk_layers index roles ls),
  length-walk_roles index l roles,
  length-walk_layers index roles ls,
)

walk_bytes-append :
    (begin : BeginManifest) (xs ys : List (ℕ × ℕ × TensorRole))
    → walk_bytes begin (xs ++ ys) ≡ walk_bytes begin xs + walk_bytes begin ys
unfolding walk_bytes
walk_bytes-append begin [] ys = omega arith
walk_bytes-append begin ((i, l, r) ∷ xs) ys = omega (arith, walk_bytes-append begin xs ys)

module _ (begin : BeginManifest) (index : ℕ) (c : LayoutClass)
    (found : get_elem? begin.layout_table index ≡ some c) where
  walk_bytes-roles :
      (l : ℕ) (roles : List TensorRole)
      → walk_bytes begin (walk_roles index l roles) ≡ roles_bytes begin c roles
  unfolding walk_bytes roles_bytes walk_roles
  walk_bytes-roles l [] = refl
  walk_bytes-roles l (role ∷ roles) = omega (
    arith,
    at_index-some (λ c. plane begin c role) begin.layout_table index c found,
    walk_bytes-roles l roles,
  )

  walk_bytes-layers :
      (roles : List TensorRole) (ls : List ℕ)
      → walk_bytes begin (walk_layers index roles ls) ≡ length ls * roles_bytes begin c roles
  unfolding walk_layers walk_bytes
  walk_bytes-layers roles [] = omega arith
  walk_bytes-layers roles (l ∷ ls) = grind (
    arith,
    walk_bytes-append begin (walk_roles index l roles) (walk_layers index roles ls),
    walk_bytes-roles l roles,
    walk_bytes-layers roles ls,
  )

at_index-none :
    (g : LayoutClass → ℕ) (table : List LayoutClass) (index : ℕ)
    → get_elem? table index ≡ none
    → at_index g table index ≡ 0
unfolding at_index
at_index-none g table index missing = rw (missing, at_index) refl

class-sums :
    (begin : BeginManifest) (index : ℕ) (found : Option LayoutClass)
    → get_elem? begin.layout_table index ≡ found
    → (length (walk_class index found) ≡ at_index frames_of begin.layout_table index)
      × (walk_bytes begin (walk_class index found)
          ≡ at_index (bytes_of begin) begin.layout_table index)
unfolding walk_class walk_bytes frames_of at_index roles_bytes bytes_of
class-sums begin index none e = (
  sym (at_index-none frames_of begin.layout_table index e),
  sym (at_index-none (bytes_of begin) begin.layout_table index e),
)
class-sums begin index (some c) e = (
  length-walk_layers index c.roles (layers c)
      ∙ sym (at_index-some frames_of begin.layout_table index c e),
  walk_bytes-layers begin index c e c.roles (layers c)
      ∙ sym (at_index-some (bytes_of begin) begin.layout_table index c e),
)

pub walk-sums :
    (begin : BeginManifest) (order : List ℕ)
    → (length (walk_classes begin.layout_table order)
        ≡ sum_over (at_index frames_of begin.layout_table) order)
      × (walk_bytes begin (walk_classes begin.layout_table order)
          ≡ sum_over (at_index (bytes_of begin) begin.layout_table) order)
unfolding walk_classes sum_over walk_bytes
walk-sums begin [] = (refl, refl)
walk-sums begin (index ∷ order) =
    let table = begin.layout_table in
    let first = walk_class index (get_elem? table index) in
    let rest = walk_classes table order in
    let (frames, bytes) = class-sums begin index (get_elem? table index) refl in
    let (frames', bytes') = walk-sums begin order in
    (omega (arith, length-append first rest), omega (arith, walk_bytes-append begin first rest))
