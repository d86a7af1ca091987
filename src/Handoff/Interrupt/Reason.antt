-- ===== src/Handoff/Interrupt/Reason.antt =====
-- The first reason of an interruption stays.
use kvpack.Base.{ℕ, ◌<◌, ◌≡◌, refl, arith, err, Result, true, Bool-cases, ◌==◌, inl, inr, ◌∙◌}
use kvpack.Handoff.{HandoffError, cancelled, deadline_exceeded, validation, text}
use kvpack.Handoff.Interrupt.{
  ReceiverInterrupt, is_interrupted, compare_exchange, shutdown_sockets, check, push, clear_sockets,
  normalize, prefer, Threads, Step, exchanged, shut, began, added, registered, refused, dropped,
  interrupt_none,
}

pub data Later (s : Threads) : Threads → Type 0 where
  now : Later s s
  later : {t u : Threads} → Later s t → Step t u → Later s u

exchange-reason :
    (s : ReceiverInterrupt) (reason : ℕ)
    → 0 < s.reason
    → (compare_exchange s reason).reason ≡ s.reason
unfolding compare_exchange
exchange-reason s reason set = elim (Bool-cases (s.reason == interrupt_none)) [
  | inl h ↦ absurd (ground arith)
  | inr h ↦ rw h refl
]

Step-reason : {s t : Threads} → Step s t → 0 < s.shared.reason → t.shared.reason ≡ s.shared.reason
unfolding shutdown_sockets push clear_sockets
Step-reason (exchanged {s = s} reason) set = exchange-reason s reason set
Step-reason shut set = refl
Step-reason (began socket h) set = refl
Step-reason added set = refl
Step-reason (registered h) set = refl
Step-reason (refused e h) set = refl
Step-reason dropped set = refl

Later-reason : (s t : Threads) → Later s t → 0 < s.shared.reason → t.shared.reason ≡ s.shared.reason
Later-reason s t now set = refl
Later-reason s t (later {t = r} run h) set =
    let same : r.shared.reason ≡ s.shared.reason = Later-reason s r run set in
    Step-reason h (omega arith) ∙ same

check-err : (s : ReceiverInterrupt) → 0 < s.reason → (e : HandoffError) × (check s ≡ err e)
unfolding check
check-err s set = elim (Bool-cases (s.reason == 1)) [
  | inl h ↦ (cancelled, ground arith)
  | inr h ↦ elim (Bool-cases (s.reason == 2)) [
    | inl d ↦ (deadline_exceeded, ground arith)
    | inr d ↦ (validation (text "receiver interrupt entered an invalid state"), ground arith)
  ]
]

check-same : (s t : ReceiverInterrupt) → t.reason ≡ s.reason → check t ≡ check s
unfolding check
check-same s t h = rw h refl

positive : (s : ReceiverInterrupt) → is_interrupted s ≡ true → 0 < s.reason
unfolding is_interrupted
positive s h = ground arith

-- Once a receiver is interrupted, `check` refuses with an error, and `normalize` of any result gives
-- that same error in every later state, whatever other calls interrupt the receiver after it.
pub normalize_interrupted :
    {A : Type 0} (s t : Threads)
    → Later s t
    → is_interrupted s.shared ≡ true
    → (result : Result HandoffError A)
    → (e : HandoffError) × ((check s.shared ≡ err e) × (normalize t.shared result ≡ err e))
unfolding normalize prefer
normalize_interrupted s t run h result =
    let set = positive s.shared h in
    let (e, fails) = check-err s.shared set in
    let same = check-same s.shared t.shared (Later-reason s t run set) ∙ fails in
    (e, (fails, rw same refl))
