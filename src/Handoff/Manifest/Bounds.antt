-- ===== src/Handoff/Manifest/Bounds.antt =====
-- The frames and bytes that a layout table declares are those of its walk, under both schedules.
use kvpack.Base.{ℕ, ◌+◌, ◌*◌, ◌≡◌, sym, ap, ◌∙◌, List, [], ◌∷◌}
use kvpack.Base.{false, ltb, length, arith}
use kvpack.Base.{ok, >>=-eq-ok, ok-injective}
use kvpack.Handoff.Manifest.{BeginManifest, LayoutClass, TensorRole}
use kvpack.Handoff.Manifest.Layout.{
  layers, plane_element_bytes_v2, schedule_class_order, layout_walk_v2, window, plane_bytes,
  payload_overflow, count_roles, count_classes, v2_frame_counts, checked_mul, checked_add, ok_or,
}
use kvpack.Handoff.Manifest.Checked.{checked_add-ok, checked_mul-ok, plane_bytes-ok}
use kvpack.Handoff.Manifest.Walk.{
  sum_over, frames_of, roles_bytes, bytes_of, plane, walk_bytes, schedule-sum, walk-sums,
}

count_roles-sums :
    (begin : BeginManifest) (c : LayoutClass) (n : ℕ) (roles : List TensorRole) (f b : ℕ)
    {f' b' : ℕ}
    → count_roles begin c n roles (f, b) ≡ ok (f', b')
    → (f' ≡ f + n * length roles) × (b' ≡ b + n * roles_bytes begin c roles)
unfolding count_roles roles_bytes plane
count_roles-sums begin c n [] f b h =
    let same = ok-injective h in
    (omega (arith, ap (λ p. p.0) same), omega (arith, ap (λ p. p.1) same))
count_roles-sums begin c n (role ∷ roles) f b h =
    let (per_plane, size, h₁) =
      >>=-eq-ok
        (ok_or (plane_bytes (window begin c) c (plane_element_bytes_v2 begin role))
          payload_overflow)
        _ h in
    let (frames, framed, h₂) = >>=-eq-ok (ok_or (checked_add f n) _) _ h₁ in
    let (planes, multiplied, h₃) = >>=-eq-ok (ok_or (checked_mul n per_plane) _) _ h₂ in
    let (bytes, added, h₄) = >>=-eq-ok (ok_or (checked_add b planes) _) _ h₃ in
    let (whole, whole') = count_roles-sums begin c n roles frames bytes h₄ in
    let one : per_plane ≡ plane begin c role =
      (plane_bytes-ok (window begin c) c (plane_element_bytes_v2 begin role) _ size) in
    let e₁ = checked_add-ok f n _ framed in
    let e₂ = checked_mul-ok n per_plane _ multiplied in
    let e₃ = checked_add-ok b planes _ added in
    let e₄ : planes ≡ n * plane begin c role = e₂ ∙ ap (λ p. n * p) one in
    (grind (arith, whole, e₁), grind (arith, whole', e₃, e₄))

count_classes-sums :
    (begin : BeginManifest) (cs : List LayoutClass) (f b : ℕ) {f' b' : ℕ}
    → count_classes begin cs (f, b) ≡ ok (f', b')
    → (f' ≡ f + sum_over frames_of cs) × (b' ≡ b + sum_over (bytes_of begin) cs)
unfolding count_classes sum_over frames_of bytes_of
count_classes-sums begin [] f b h =
    let same = ok-injective h in
    (omega (arith, ap (λ p. p.0) same), omega (arith, ap (λ p. p.1) same))
count_classes-sums begin (c ∷ cs) f b h =
    let ((f₁, b₁), first, h₁) =
      >>=-eq-ok (count_roles begin c (length (layers c)) c.roles (f, b)) _ h in
    let (e₁, e₂) = count_roles-sums begin c (length (layers c)) c.roles f b first in
    let (e₃, e₄) = count_classes-sums begin cs f₁ b₁ h₁ in
    (omega (arith, e₁, e₃), omega (arith, e₂, e₄))

-- The frames that a layout table declares are as many as the entries of its walk, and the bytes that
-- it declares are the sum of the planes of the walk, whichever schedule the BEGIN names.
pub v2_frame_counts-walk :
    (begin : BeginManifest) {frames bytes : ℕ}
    → v2_frame_counts begin ≡ ok (frames, bytes)
    → (frames ≡ length (layout_walk_v2 begin)) × (bytes ≡ walk_bytes begin (layout_walk_v2 begin))
unfolding v2_frame_counts layout_walk_v2
v2_frame_counts-walk begin h =
    let ((f, b), counted, h₁) = >>=-eq-ok (count_classes begin begin.layout_table (0, 0)) _ h in
    let (e₁, e₂) = count_classes-sums begin begin.layout_table 0 0 counted in
    let (w₁, w₂) = walk-sums begin (schedule_class_order begin) in
    let s₁ = schedule-sum frames_of begin in
    let s₂ = schedule-sum (bytes_of begin) begin in
    let small : ltb 0xffff_ffff f ≡ false = ground arith in
    let same = ok-injective (rw small at h₁) in
    (
      sym (ap (λ p. p.0) same) ∙ omega (arith, e₁, w₁, s₁),
      sym (ap (λ p. p.1) same) ∙ omega (arith, e₂, w₂, s₂),
    )
