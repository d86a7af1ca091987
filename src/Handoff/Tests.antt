-- ===== src/Handoff/Tests.antt =====
-- crates/kvpack-handoff: the theorems at concrete runs.
use kvpack.Base.{
  true, err, Result, ℕ, ◌<◌, ◌⊎◌, none, ◌≤◌, ◌≡◌, refl, List, [], ◌∷◌, map, length, get_elem?, All,
  ok, some,
}
use kvpack.Handoff.Mux.{SprayLayerFrame, SequenceMux, Call, arrive, pop, new, accept, pop_ready}
use kvpack.Handoff.Mux.{pop_into, run, contains_key, is_complete}
use kvpack.Handoff.Mux.Steps.{upto}
use kvpack.Handoff.Mux.Order.{arrivals, run-in_order, run-delivers}
use kvpack.Base.Maps.{lookup, insert, remove}
use mathlib.Core.List.{Mem}
use kvpack.Handoff.Interrupt as Interrupt
use kvpack.Handoff.Interrupt.{
  Threads, ReceiverInterrupt, Phase, idle, check, push, shutdown_sockets, compare_exchange,
  is_interrupted, normalize, exchanged, shut, began, added, registered,
}
use kvpack.Handoff.Interrupt.Cover.{interrupt_reaches}
use kvpack.Handoff.Interrupt.Reason.{now, later, Later, normalize_interrupted}
use kvpack.Handoff.{HandoffError}
use kvpack.Handoff.Permits
use kvpack.Handoff.Permits.{
  PermitPool, try_acquire, release_inner, Reachable, fresh, step, acquired,
}
use kvpack.Handoff.Permits.Progress.{taken, try_acquire_progress}
use kvpack.Handoff.Permits.Conservation.{IsConserved, Reachable-IsConserved}

abbrev frame0 : SprayLayerFrame ℕ
frame0 = record { sequence = 0; body = 70 }

abbrev frame1 : SprayLayerFrame ℕ
frame1 = record { sequence = 1; body = 71 }

-- The second frame arrives first, and a pop in between finds nothing.
abbrev calls : List (Call ℕ)
calls = arrive frame1 ∷ pop ∷ arrive frame0 ∷ pop ∷ pop ∷ []

abbrev drained : SequenceMux ℕ
drained = record { expected = 2; next = 2; stash = [] }

calls-run : run calls (new 2, []) ≡ ok (drained, frame0 ∷ frame1 ∷ [])
unfolding run accept contains_key pop_into pop_ready new lookup insert remove
calls-run = refl

run-in_order_example :
    (map (λ (f : SprayLayerFrame ℕ). f.sequence) (frame0 ∷ frame1 ∷ []) ≡ upto 2)
    × ((length (frame0 ∷ frame1 ∷ []) ≡ 2) × (2 ≤ 2))
run-in_order_example = run-in_order 2 calls drained (frame0 ∷ frame1 ∷ []) calls-run

drained_complete : is_complete drained ≡ true
unfolding is_complete
drained_complete = refl

run-delivers_example :
    All (λ f. get_elem? (frame0 ∷ frame1 ∷ []) f.sequence ≡ some f) (arrivals calls)
run-delivers_example =
    run-delivers 2 calls drained (frame0 ∷ frame1 ∷ []) calls-run drained_complete

abbrev full : PermitPool
full = record { capacity = 2; available = 2; in_use = 0 }

abbrev one_taken : PermitPool
one_taken = record { capacity = 2; available = 1; in_use = 1 }

full-new : Permits.new 2 ≡ ok full
unfolding Permits.new
full-new = refl

one_taken_acquired : try_acquire full ≡ some one_taken
unfolding try_acquire
one_taken_acquired = refl

Reachable-IsConserved_example : IsConserved 2 (one_taken, 1)
Reachable-IsConserved_example =
    Reachable-IsConserved 2 (one_taken, 1) (step (fresh full-new) (acquired one_taken_acquired))

abbrev none_left : PermitPool
none_left = record { capacity = 2; available = 0; in_use = 2 }

none_left_acquired : try_acquire one_taken ≡ some none_left
unfolding try_acquire
none_left_acquired = refl

try_acquire_progress_example :
    ((2 < 2) × (try_acquire none_left ≡ some (taken none_left)))
    ⊎ ((0 < 2)
        × ((◌≡◌ {A = ℕ} 2 2)
            × ((try_acquire none_left ≡ none)
                × (try_acquire (release_inner none_left) ≡ some none_left))))
try_acquire_progress_example =
    try_acquire_progress 2 2 none_left
      (step (step (fresh full-new) (acquired one_taken_acquired)) (acquired none_left_acquired))

-- Socket 7 is registered, then the receiver is cancelled.
abbrev cancelled_run : Threads
cancelled_run = record {
  shared = record { reason = 1; sockets = 7 ∷ []; shut_down = 7 ∷ [] };
  phase = idle;
  accepted = 7 ∷ [];
  interrupting = 0;
}

cancelled_run-Reachable : Interrupt.Reachable cancelled_run
unfolding check push shutdown_sockets compare_exchange Interrupt.new
cancelled_run-Reachable =
    Interrupt.step
      (Interrupt.step
        (Interrupt.step (Interrupt.step (Interrupt.step Interrupt.fresh (began 7 refl)) added)
          (registered refl))
        (exchanged 1))
      shut

cancelled_run-interrupted : is_interrupted cancelled_run.shared ≡ true
unfolding is_interrupted
cancelled_run-interrupted = refl

interrupt_reaches_example : All (λ t. Mem t cancelled_run.shared.shut_down) cancelled_run.accepted
interrupt_reaches_example =
    interrupt_reaches cancelled_run cancelled_run-Reachable cancelled_run-interrupted refl

-- The deadline passes after the cancellation.
abbrev late_deadline : Threads
late_deadline = record cancelled_run { interrupting = 1 }

late_deadline-Later : Later cancelled_run late_deadline
unfolding compare_exchange
late_deadline-Later = later now (exchanged 2)

abbrev session_result : Result HandoffError ℕ
session_result = ok 5

normalize_interrupted_example :
    (e : HandoffError) × ((check cancelled_run.shared ≡ err e)
      × (normalize late_deadline.shared session_result ≡ err e))
normalize_interrupted_example =
    normalize_interrupted cancelled_run late_deadline late_deadline-Later cancelled_run-interrupted
      session_result
