-- ===== src/Scheduler/Examples.antt =====
-- Runs on a queue of three tasks, and the theorems at such queues.
use sylar.Common.{ℕ, ◌≡◌, refl, ◌⊎◌, true, false, some, none, List, [], ◌∷◌}
use sylar.Common.Outcome.{ok, ◌>>=◌}
use sylar.Scheduler.{State, hold_state, term_state, FiberAndThread, Scheduler, scan, run_fiber}
use sylar.Scheduler.Queue.{Takes, FindsNone, scan_lem}

abbrev callback : ℕ → FiberAndThread
callback k = record { fiber = none; cb = some k; thread = none }

abbrev on_thread : ℕ → ℕ → FiberAndThread
on_thread me k = record { fiber = none; cb = some k; thread = some me }

-- A task of thread 2, one of any thread, and one of thread 1.
abbrev queue : List FiberAndThread
queue = on_thread 2 20 ∷ callback 30 ∷ on_thread 1 40 ∷ []

abbrev all_held : ℕ → State
all_held f = hold_state

abbrev scheduler : Scheduler
scheduler = record {
  states = all_held;
  fibers = queue;
  active_thread_count = 1;
  auto_stop = false;
  stopping_flag = false;
}

passes_over :
    scan all_held 1 queue ≡ ok (some (callback 30), on_thread 2 20 ∷ on_thread 1 40 ∷ [], true)
unfolding scan
passes_over = refl

-- A fiber that has terminated is swapped in again.
runs_finished :
    (run_fiber 5 term_state (record scheduler { states = λ f. term_state }) >>= λ n.
    ok (n.states 5))
    ≡ ok term_state
unfolding run_fiber
runs_finished = refl

scan_lem_example :
    Takes all_held 1 queue (scan all_held 1 queue)
    ⊎ FindsNone all_held 1 queue (scan all_held 1 queue)
scan_lem_example = scan_lem all_held 1 queue refl
