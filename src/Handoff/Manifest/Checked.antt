-- ===== src/Handoff/Manifest/Checked.antt =====
-- What the checked arithmetic returns.
use kvpack.Base.{ℕ, ◌+◌, ◌*◌, ◌≡◌, ok, arith}
use kvpack.Handoff.{HandoffError}
use kvpack.Handoff.Manifest.{LayoutClass}
use kvpack.Handoff.Manifest.Layout.{plane_bytes, checked_mul, checked_add, and_then, ok_or}

pub checked_add-ok :
    (a b : ℕ) (e : HandoffError) {total : ℕ} → ok_or (checked_add a b) e ≡ ok total → total ≡ a + b
unfolding ok_or checked_add
checked_add-ok a b e h = ground arith

pub checked_mul-ok :
    (a b : ℕ) (e : HandoffError) {total : ℕ} → ok_or (checked_mul a b) e ≡ ok total → total ≡ a * b
unfolding ok_or checked_mul
checked_mul-ok a b e h = ground arith

pub plane_bytes-ok :
    (tokens : ℕ) (c : LayoutClass) (element : ℕ) (e : HandoffError) {total : ℕ}
    → ok_or (plane_bytes tokens c element) e ≡ ok total
    → total ≡ tokens * c.kv_heads * c.head_dim * element
unfolding ok_or plane_bytes checked_mul and_then
plane_bytes-ok tokens c element e h = ground arith
