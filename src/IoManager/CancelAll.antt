-- ===== src/IoManager/CancelAll.antt =====
-- cancelAll.
use sylar.Common.{
  ℕ, ◌≡◌, refl, arith, inl, inr, Bool, not, ◌&&◌, List, ◌++◌, length, set, ◌==◌, if◌then◌else◌,
  Bool-cases,
}
use sylar.Common.Outcome.{ok}
use sylar.IoManager.{Task, CtlOp, ctl_del, cancel_all}
use sylar.IoManager.Registry.{
  idle, Slots, empty_slots, reading, writing, put, tasks_of, events_in, manager_of,
  get_elem?-contexts_from,
}
use sylar.IoManager.Operations.{slots_at, get_elem?-slots_at, slots_at-outside, no_context}
use native.Mathlib.Decide.{dec_lt}
use sylar.IoManager.Taking.{set-set, get_elem?-set, append_assoc, fire_if_busy}

-- `cancel_all`, on any descriptor, does nothing and returns false if no task waits or the kernel refuses the
-- removal; else it schedules what waits, the task for reading first, and leaves both slots empty.
pub cancel_all_lem :
    (epoll_ctl : CtlOp → ℕ → ℕ → Bool) (fd : ℕ) (l : List Slots) (out : List (ℕ × Task))
    → cancel_all epoll_ctl fd (manager_of l out)
      ≡ ok (
        if not (events_in (slots_at fd l) == 0) && epoll_ctl ctl_del fd 0
            then manager_of
                (set l fd empty_slots)
                (out ++ (tasks_of (slots_at fd l).reader ++ tasks_of (slots_at fd l).writer))
            else manager_of l out,
        not (events_in (slots_at fd l) == 0) && epoll_ctl ctl_del fd 0,
      )
unfolding cancel_all
cancel_all_lem epoll_ctl fd l out = elim (dec_lt fd (length l)) [
  | no h ↦
      rw (no_context 0 fd l (omega arith), cancel_all)
        (rw (slots_at-outside fd l (omega arith)) refl)
  | yes h ↦
      let x = slots_at fd l in
      let found = get_elem?-slots_at fd l h in
      let found' = get_elem?-set l fd x (put reading idle x) found in
      rw (get_elem?-contexts_from fd l x found, cancel_all)
        (elim (Bool-cases (events_in x == 0)) [
          | inl e ↦ rw e refl
          | inr e ↦ rw e (elim (Bool-cases (epoll_ctl ctl_del fd 0)) [
            | inr f ↦ rw f refl
            | inl f ↦ rw f (
                rw (fire_if_busy reading l out fd x found) (
                  rw
                    (
                      fire_if_busy writing (set l fd (put reading idle x))
                          (out ++ tasks_of x.reader) fd (put reading idle x) found',
                      set-set l fd (put reading idle x) empty_slots,
                      append_assoc out (tasks_of x.reader) (tasks_of x.writer),
                    )
                    refl))
          ])
        ])
]
