-- ===== src/Scheduler/Running.antt =====
-- What becomes of a fiber that was swapped in.
use sylar.Common.{
  ℕ, ◌≡◌, refl, sym, true, false, none, some, List, [], ◌∷◌, ◌++◌, sub_u64, ◌==◌, arith,
}
use sylar.Common.Outcome.{ok}
use sylar.Scheduler.{
  State, FiberAndThread, Scheduler, schedule_no_lock, run_fiber, swap_in, after_swap, set_state,
  is_exec, init_state, hold_state, exec_state, term_state, ready_state, excep_state,
}
use sylar.Scheduler.Queue.{append_nil}

abbrev pub settled : State → State
settled exec_state = hold_state
settled init_state = hold_state
settled st = st

abbrev pub queued : ℕ → State → List FiberAndThread
queued f ready_state = record { fiber = some f; cb = none; thread = none } ∷ []
queued f st = []

same_id : (f : ℕ) → (f == f) ≡ true
same_id f = ground arith

after_swap-settled :
    (f : ℕ) (st : State) (u : Scheduler)
    → u.states f ≡ st
    → ((after_swap f u).states f ≡ settled st)
      × ((after_swap f u).fibers ≡ u.fibers ++ queued f st)
      × ((after_swap f u).active_thread_count ≡ u.active_thread_count)
unfolding after_swap schedule_no_lock
after_swap-settled f init_state u e = (
  rw (e, after_swap) (rw (same_id f) refl),
  rw (e, after_swap) (sym (append_nil u.fibers)),
  rw (e, after_swap) refl,
)
after_swap-settled f hold_state u e = (
  rw (e, after_swap) (rw (same_id f) refl),
  rw (e, after_swap) (sym (append_nil u.fibers)),
  rw (e, after_swap) refl,
)
after_swap-settled f exec_state u e = (
  rw (e, after_swap) (rw (same_id f) refl),
  rw (e, after_swap) (sym (append_nil u.fibers)),
  rw (e, after_swap) refl,
)
after_swap-settled f term_state u e =
    (rw (e, after_swap) e, rw (e, after_swap) (sym (append_nil u.fibers)), rw (e, after_swap) refl)
after_swap-settled f ready_state u e =
    (rw (e, after_swap) e, rw (e, after_swap) refl, rw (e, after_swap) refl)
after_swap-settled f excep_state u e =
    (rw (e, after_swap) e, rw (e, after_swap) (sym (append_nil u.fibers)), rw (e, after_swap) refl)

-- `run` with a fiber that is not running swaps it in, and when it swaps out leaves it in no running state: READY is
-- kept and the fiber is queued again, TERM and EXCEP are kept, all else becomes HOLD. The count of active threads is
-- one less.
run_fiber_lem :
    (f : ℕ) (left : State) (s : Scheduler)
    → is_exec (s.states f) ≡ false
    → (n : Scheduler) × (run_fiber f left s ≡ ok n)
      × (n.states f ≡ settled left)
      × (n.fibers ≡ s.fibers ++ queued f left)
      × (n.active_thread_count ≡ sub_u64 s.active_thread_count 1)
unfolding run_fiber swap_in
run_fiber_lem f left s idle =
    let u = record s {
      states = set_state f left s.states;
      active_thread_count = sub_u64 s.active_thread_count 1;
    } in
    let (state, queue, count) = after_swap-settled f left u (rw (same_id f) refl) in
    (after_swap f u, rw (idle, run_fiber) refl, state, queue, count)
