-- ===== src/Handoff/Interrupt/Cover.antt =====
-- An interruption reaches every accepted socket, however the threads interleave.
use kvpack.Base.{
  ℕ, ◌<◌, ◌≡◌, refl, arith, List, All, All-imp, ok, true, Bool-cases, ◌==◌, ◌⊎◌, inl, inr,
}
use mathlib.Core.List.{Mem, mem-cons_self, mem-append_left, mem-append_right}
use kvpack.Handoff.Interrupt.{
  ReceiverInterrupt, new, is_interrupted, compare_exchange, shutdown_sockets, check, push,
  clear_sockets, Phase, idle, checked, pushed, Threads, Step, exchanged, shut, began, added,
  registered, refused, dropped, Reachable, fresh, step, interrupt_none,
}

IsPushed : Phase → List ℕ → Type 0
IsPushed idle sockets = Unit
IsPushed (checked t) sockets = Unit
IsPushed (pushed t) sockets = Mem t sockets

IsCovered : Threads → Type 0
IsCovered s =
    All (λ t. Mem t s.shared.sockets) s.accepted
    × (IsPushed s.phase s.shared.sockets
        × ((s.shared.reason ≡ 0)
            ⊎ ((0 < s.interrupting) ⊎ All (λ t. Mem t s.shared.shut_down) s.accepted)))

check-none : (s : ReceiverInterrupt) → check s ≡ ok tt → s.reason ≡ 0
unfolding check
check-none s h = ground arith

exchange-sockets :
    (s : ReceiverInterrupt) (reason : ℕ) → (compare_exchange s reason).sockets ≡ s.sockets
unfolding compare_exchange
exchange-sockets s reason = elim (Bool-cases (s.reason == interrupt_none)) [
  | inl h ↦ rw h refl
  | inr h ↦ rw h refl
]

Step-IsCovered : {s t : Threads} → Step s t → IsCovered s → IsCovered t
unfolding IsCovered shutdown_sockets push clear_sockets IsPushed
Step-IsCovered (exchanged {s = s} reason) (all, (at, _)) =
    let same = exchange-sockets s reason in (rw same all, (rw same at, inr (inl (omega arith))))
Step-IsCovered (shut {s = s}) (all, (at, _)) =
    (all, (at, inr (inr (All-imp (λ t h. mem-append_left s.shut_down h) _ all))))
Step-IsCovered (began socket h) (all, (_, rest)) = (all, (tt, rest))
Step-IsCovered (added {s = s}) (all, (_, rest)) =
    (All-imp (λ t h. mem-append_left _ h) _ all, (mem-append_right s.sockets mem-cons_self, rest))
Step-IsCovered (registered {s = s} h) (all, (at, _)) = ((at, all), (tt, inl (check-none s h)))
Step-IsCovered (refused e h) (all, (_, rest)) = (all, (tt, rest))
Step-IsCovered dropped (all, (_, _)) = (tt, (tt, inr (inr tt)))

Reachable-IsCovered : (s : Threads) → Reachable s → IsCovered s
unfolding IsCovered IsPushed new
Reachable-IsCovered s fresh = (tt, (tt, inl refl))
Reachable-IsCovered s (step r h) = Step-IsCovered h (Reachable-IsCovered _ r)

settled :
    (s : Threads)
    → (s.shared.reason ≡ 0)
      ⊎ ((0 < s.interrupting) ⊎ All (λ t. Mem t s.shared.shut_down) s.accepted)
    → is_interrupted s.shared ≡ true
    → s.interrupting ≡ 0
    → All (λ t. Mem t s.shared.shut_down) s.accepted
unfolding is_interrupted
settled s (inl none_yet) h done = absurd (ground arith)
settled s (inr (inl running)) h done = absurd (omega arith)
settled s (inr (inr all)) h done = all

-- In every reachable state, when the receiver is interrupted and every call of `interrupt` has
-- returned, each socket that `register` accepted, and whose guard is not dropped, is shut down.
pub interrupt_reaches :
    (s : Threads)
    → Reachable s
    → is_interrupted s.shared ≡ true
    → s.interrupting ≡ 0
    → All (λ t. Mem t s.shared.shut_down) s.accepted
unfolding IsCovered
interrupt_reaches s r h done = let (_, (_, rest)) = Reachable-IsCovered s r in settled s rest h done
