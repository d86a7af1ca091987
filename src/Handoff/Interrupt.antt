-- ===== src/Handoff/Interrupt.antt =====
-- crates/kvpack-handoff/src/receiver/interrupt.rs: `ReceiverInterruptV1`, the reason and the sockets
-- that the threads of one receiver share. A socket is a number, which its clones have too; what was
-- shut down is part of the state. A load, an exchange or a section under the lock is one step, and a
-- poisoned lock is not modelled.
pub mod Cover
pub mod Reason
use kvpack.Base.{ℕ, suc, ◌≡◌, List, [], ◌∷◌, ◌++◌, Bool, not, ◌==◌, if◌then◌else◌, Result, ok, err}
use kvpack.Handoff.{HandoffError, cancelled, deadline_exceeded, validation, text}

abbrev pub interrupt_none : ℕ
interrupt_none = 0

abbrev pub interrupt_cancelled : ℕ
interrupt_cancelled = 1

abbrev pub interrupt_deadline : ℕ
interrupt_deadline = 2

pub record ReceiverInterrupt : Type 0 where
  pub reason : ℕ
  pub sockets : List ℕ
  pub shut_down : List ℕ

unfoldable pub new : ReceiverInterrupt
new = record { reason = interrupt_none; sockets = []; shut_down = [] }

unfoldable pub is_cancelled : ReceiverInterrupt → Bool
is_cancelled s = s.reason == interrupt_cancelled

unfoldable pub is_interrupted : ReceiverInterrupt → Bool
is_interrupted s = not (s.reason == interrupt_none)

-- The two steps of `interrupt`: the first reason stays, and what is registered is shut down.
unfoldable pub compare_exchange : ReceiverInterrupt → ℕ → ReceiverInterrupt
compare_exchange s reason = if s.reason == interrupt_none then record s { reason = reason } else s

unfoldable pub shutdown_sockets : ReceiverInterrupt → ReceiverInterrupt
shutdown_sockets s = record s { shut_down = s.sockets ++ s.shut_down }

unfoldable pub interrupt : ReceiverInterrupt → ℕ → ReceiverInterrupt
interrupt s reason = shutdown_sockets (compare_exchange s reason)

unfoldable pub cancel : ReceiverInterrupt → ReceiverInterrupt
cancel s = interrupt s interrupt_cancelled

unfoldable pub deadline : ReceiverInterrupt → ReceiverInterrupt
deadline s = interrupt s interrupt_deadline

unfoldable pub check : ReceiverInterrupt → Result HandoffError (Unit {0})
check s =
    if s.reason == interrupt_none
    then ok tt
    else (if s.reason == interrupt_cancelled
        then err cancelled
        else (if s.reason == interrupt_deadline
            then err deadline_exceeded
            else err (validation (text "receiver interrupt entered an invalid state"))))

-- `register` between its two checks.
unfoldable pub push : ReceiverInterrupt → ℕ → ReceiverInterrupt
push s socket = record s { sockets = s.sockets ++ (socket ∷ []) }

unfoldable pub clear_sockets : ReceiverInterrupt → ReceiverInterrupt
clear_sockets s = record s { sockets = [] }

module _ {A : Type 0} where
  unfoldable pub prefer :
      Result HandoffError (Unit {0}) → Result HandoffError A → Result HandoffError A
  prefer (ok _) result = result
  prefer (err interrupted) result = err interrupted

  unfoldable pub normalize : ReceiverInterrupt → Result HandoffError A → Result HandoffError A
  normalize s result = prefer (check s) result

-- Where the receiver's thread is in `register`: outside, after the first check, after the push.
pub data Phase : Type 0 where
  idle : Phase
  checked pushed : ℕ → Phase

-- The shared state, the receiver's thread, the sockets that `register` accepted and whose guard is
-- not dropped, and the calls of `interrupt` that have not shut the sockets down yet.
pub record Threads : Type 0 where
  pub shared : ReceiverInterrupt
  pub phase : Phase
  pub accepted : List ℕ
  pub interrupting : ℕ

pub data Step : Threads → Threads → Type 0 where
  exchanged :
      {s : ReceiverInterrupt} {phase : Phase} {accepted : List ℕ} {n : ℕ} (reason : ℕ)
      → Step
          (record { shared = s; phase = phase; accepted = accepted; interrupting = n })
          (record {
            shared = compare_exchange s reason;
            phase = phase;
            accepted = accepted;
            interrupting = suc n;
          })
  shut :
      {s : ReceiverInterrupt} {phase : Phase} {accepted : List ℕ} {n : ℕ}
      → Step
          (record { shared = s; phase = phase; accepted = accepted; interrupting = suc n })
          (record {
            shared = shutdown_sockets s;
            phase = phase;
            accepted = accepted;
            interrupting = n;
          })
  began :
      {s : ReceiverInterrupt} {accepted : List ℕ} {n : ℕ} (socket : ℕ)
      → check s ≡ ok tt
      → Step
          (record { shared = s; phase = idle; accepted = accepted; interrupting = n })
          (record { shared = s; phase = checked socket; accepted = accepted; interrupting = n })
  added :
      {s : ReceiverInterrupt} {accepted : List ℕ} {n : ℕ} {socket : ℕ}
      → Step
          (record { shared = s; phase = checked socket; accepted = accepted; interrupting = n })
          (record {
            shared = push s socket;
            phase = pushed socket;
            accepted = accepted;
            interrupting = n;
          })
  registered :
      {s : ReceiverInterrupt} {accepted : List ℕ} {n : ℕ} {socket : ℕ}
      → check s ≡ ok tt
      → Step
          (record { shared = s; phase = pushed socket; accepted = accepted; interrupting = n })
          (record { shared = s; phase = idle; accepted = socket ∷ accepted; interrupting = n })
  refused :
      {s : ReceiverInterrupt} {accepted : List ℕ} {n : ℕ} {socket : ℕ} (e : HandoffError)
      → check s ≡ err e
      → Step
          (record { shared = s; phase = pushed socket; accepted = accepted; interrupting = n })
          (record { shared = s; phase = idle; accepted = accepted; interrupting = n })
  dropped :
      {s : ReceiverInterrupt} {accepted : List ℕ} {n : ℕ}
      → Step
          (record { shared = s; phase = idle; accepted = accepted; interrupting = n })
          (record { shared = clear_sockets s; phase = idle; accepted = []; interrupting = n })

pub data Reachable : Threads → Type 0 where
  fresh : Reachable (record { shared = new; phase = idle; accepted = []; interrupting = 0 })
  step : {s t : Threads} → Reachable s → Step s t → Reachable t
