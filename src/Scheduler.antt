-- ===== src/Scheduler.antt =====
-- sylar/scheduler.h, scheduler.cpp and the states of sylar/fiber.cpp: the queue of tasks that the threads of a
-- scheduler share. Fibers, callbacks and threads are numbers; each section under the lock is one step. What a
-- fiber does while it runs is the state that it leaves itself in.
pub mod Queue
pub mod Running
mod Examples
use sylar.Common.{
  ℕ, zero, suc, ◌+◌, ◌-◌, ◌^◌, Bool, true, false, not, ◌&&◌, ◌||◌, Option, none, some, List, [],
  ◌∷◌, ◌++◌, leb, ◌==◌, if◌then◌else◌, sub_u64,
}
use sylar.Common.Outcome.{Outcome, ok, aborted, ◌>>=◌, ◌>>◌, assert}

-- Fiber::State; the enumerators are INIT, HOLD, EXEC, TERM, READY and EXCEP.
pub data State : Type 0 where
  init_state : State
  hold_state : State
  exec_state : State
  term_state : State
  ready_state : State
  excep_state : State

abbrev pub is_exec : State → Bool
is_exec exec_state = true
is_exec s = false

abbrev pub is_done : State → Bool
is_done term_state = true
is_done excep_state = true
is_done s = false

-- `thread` is none for -1, any thread.
pub record FiberAndThread : Type 0 where
  pub fiber : Option ℕ
  pub cb : Option ℕ
  pub thread : Option ℕ

-- `states` is the state of each fiber, `fibers` the list m_fibers.
pub record Scheduler : Type 0 where
  pub states : ℕ → State
  pub fibers : List FiberAndThread
  pub active_thread_count : ℕ
  pub auto_stop : Bool
  pub stopping_flag : Bool

abbrev pub is_some : Option ℕ → Bool
is_some none = false
is_some (some a) = true

abbrev pub has_work : FiberAndThread → Bool
has_work t = is_some t.fiber || is_some t.cb

abbrev pub is_empty : List FiberAndThread → Bool
is_empty [] = true
is_empty (t ∷ ts) = false

-- The second result says that the queue was empty, and a thread must be woken.
unfoldable pub schedule_no_lock : FiberAndThread → Scheduler → Scheduler × Bool
schedule_no_lock t s =
    (if has_work t then record s { fibers = s.fibers ++ (t ∷ []) } else s, is_empty s.fibers)

-- schedule(begin, end).
unfoldable pub schedule_all : List FiberAndThread → Bool → Scheduler → Scheduler × Bool
unfolding schedule_no_lock
schedule_all [] need_tickle s = (s, need_tickle)
schedule_all (t ∷ ts) need_tickle s =
    let (n, first) = schedule_no_lock t s in schedule_all ts (first || need_tickle) n

-- `it->thread != -1 && it->thread != GetThreadId()`.
abbrev pub is_elsewhere : ℕ → FiberAndThread → Bool
is_elsewhere me t = elim t.thread [ none ↦ false | some thread ↦ not (thread == me) ]

abbrev pub is_executing : (ℕ → State) → FiberAndThread → Bool
is_executing states t = elim t.fiber [ none ↦ false | some f ↦ is_exec (states f) ]

-- The loop of `run` over m_fibers: the task that is taken, the tasks that are left, and tickle_me.
unfoldable pub scan :
    (ℕ → State)
    → ℕ
    → List FiberAndThread
    → Outcome (Option FiberAndThread × List FiberAndThread × Bool)
scan states me [] = ok (none, [], false)
scan states me (t ∷ ts) =
    let later = scan states me ts in
    if is_elsewhere me t
    then (do (taken, left, tickle_me) ← later; ok (taken, t ∷ left, true))
    else (if not (has_work t)
        then aborted
        else (if is_executing states t
            then (do (taken, left, tickle_me) ← later; ok (taken, t ∷ left, tickle_me))
            else ok (some t, ts, false)))

-- The section of `run` under the lock; `++m_activeThreadCount` if a task was taken.
unfoldable pub take_task : ℕ → Scheduler → Outcome (Option FiberAndThread × Scheduler × Bool)
unfolding scan
take_task me s = do
  (taken, left, tickle_me) ← scan s.states me s.fibers
  ok (
    taken,
    elim taken [
      | none ↦ s
      | some t ↦ record s { fibers = left; active_thread_count = s.active_thread_count + 1 }
    ],
    tickle_me,
  )

abbrev pub set_state : ℕ → State → (ℕ → State) → ℕ → State
set_state f st states g = if g == f then st else states g

-- Fiber::swapIn, until the fiber swaps out in the state `left`.
unfoldable pub swap_in : ℕ → State → (ℕ → State) → Outcome (ℕ → State)
swap_in f left states = assert (not (is_exec (states f))) >> ok (set_state f left states)

-- What `run` does with a fiber that has swapped out: READY goes back to the queue, TERM and EXCEP stay, and all
-- else becomes HOLD.
unfoldable pub after_swap : ℕ → Scheduler → Scheduler
unfolding schedule_no_lock
after_swap f s = elim (s.states f) [
  | ready_state ↦ (schedule_no_lock (record { fiber = some f; cb = none; thread = none }) s).0
  | term_state ↦ s
  | excep_state ↦ s
  | _ ↦ record s { states = set_state f hold_state s.states }
]

-- The branch of `run` for a fiber; its test `!= EXCEP || != TERM` holds in every state.
unfoldable pub run_fiber : ℕ → State → Scheduler → Outcome Scheduler
unfolding swap_in after_swap
run_fiber f left s = do
  states ← swap_in f left s.states
  ok (
      after_swap f
        (record s { states = states; active_thread_count = sub_u64 s.active_thread_count 1 }))

unfoldable pub stopping : Scheduler → Bool
stopping s = ((s.auto_stop && s.stopping_flag) && is_empty s.fibers) && (s.active_thread_count == 0)
