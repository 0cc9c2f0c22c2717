-- ===== src/IoManager/Dispatch.antt =====
-- The events that epoll_wait reports, as `idle` treats them.
use sylar.Common.{
  ℕ, ◌<◌, ◌≡◌, refl, ◌∙◌, inl, inr, Bool, true, false, not, ◌&&◌, ◌||◌, List, ◌++◌, length, set,
  ◌==◌, if◌then◌else◌, bit_and, bit_or, ◌^◌, Bool-cases,
}
use sylar.Common.Outcome.{ok, aborted}
use sylar.IoManager.{
  Task, CtlOp, ctl_mod, ctl_del, without, has_bit, read_event, write_event, ready, with_errors,
  real_events, dispatch,
}
use sylar.IoManager.Registry.{
  Slot, idle, waiting, Slots, Kind, reading, writing, busy, events_of, manager_of,
  get_elem?-contexts_from,
}
use sylar.IoManager.Operations.{slots_at, get_elem?-slots_at}
use sylar.IoManager.Taking.{fire_both, take_both, tasks_both, lacks}

-- The two conditions of a report: what epoll_wait says, with an error or a hang-up counted as both.
abbrev pub reports : ℕ → Kind → Bool
reports events reading = not (bit_and (with_errors events) 1 == 0)
reports events writing = not (bit_and (with_errors events) 4 == 0)

abbrev mask_for : Bool → Bool → ℕ
mask_for false false = 0
mask_for true false = 1
mask_for false true = 4
mask_for true true = 5

real_events-mask_for :
    (events : ℕ) → real_events events ≡ mask_for (reports events reading) (reports events writing)
unfolding real_events
real_events-mask_for events = elim (Bool-cases (bit_and (with_errors events) 1 == 0)) [
  | inl e ↦ rw e (elim (Bool-cases (bit_and (with_errors events) 4 == 0)) [
    | inl f ↦ rw f refl
    | inr f ↦ rw f refl
  ])
  | inr e ↦ rw e (elim (Bool-cases (bit_and (with_errors events) 4 == 0)) [
    | inl f ↦ rw f refl
    | inr f ↦ rw f refl
  ])
]

has_bit-mask_for :
    (a b : Bool)
    → (has_bit (mask_for a b) read_event ≡ a) × (has_bit (mask_for a b) write_event ≡ b)
has_bit-mask_for false false = (refl, refl)
has_bit-mask_for false true = (refl, refl)
has_bit-mask_for true false = (refl, refl)
has_bit-mask_for true true = (refl, refl)

-- What is reported meets what is waited for.
abbrev pub meets : Bool → Bool → Slots → Bool
meets a b x = (a && busy x.reader) || (b && busy x.writer)

meets-bit_and :
    (a b : Bool) (r w : Slot)
    → (bit_and (events_of r w) (mask_for a b) == 0)
      ≡ not (meets a b (record { reader = r; writer = w }))
meets-bit_and false false idle idle = refl
meets-bit_and false false idle (waiting s t) = refl
meets-bit_and false false (waiting s t) idle = refl
meets-bit_and false false (waiting s t) (waiting s' t') = refl
meets-bit_and false true idle idle = refl
meets-bit_and false true idle (waiting s t) = refl
meets-bit_and false true (waiting s t) idle = refl
meets-bit_and false true (waiting s t) (waiting s' t') = refl
meets-bit_and true false idle idle = refl
meets-bit_and true false idle (waiting s t) = refl
meets-bit_and true false (waiting s t) idle = refl
meets-bit_and true false (waiting s t) (waiting s' t') = refl
meets-bit_and true true idle idle = refl
meets-bit_and true true idle (waiting s t) = refl
meets-bit_and true true (waiting s t) idle = refl
meets-bit_and true true (waiting s t) (waiting s' t') = refl

-- The events that are waited for and not reported.
abbrev pub left_over : Bool → Bool → Slots → ℕ
left_over a b x = mask_for (not a && busy x.reader) (not b && busy x.writer)

without-mask_for :
    (a b : Bool) (r w : Slot)
    → without (events_of r w) (mask_for a b) ≡ left_over a b (record { reader = r; writer = w })
without-mask_for false false idle idle = refl
without-mask_for false false idle (waiting s t) = refl
without-mask_for false false (waiting s t) idle = refl
without-mask_for false false (waiting s t) (waiting s' t') = refl
without-mask_for false true idle idle = refl
without-mask_for false true idle (waiting s t) = refl
without-mask_for false true (waiting s t) idle = refl
without-mask_for false true (waiting s t) (waiting s' t') = refl
without-mask_for true false idle idle = refl
without-mask_for true false idle (waiting s t) = refl
without-mask_for true false (waiting s t) idle = refl
without-mask_for true false (waiting s t) (waiting s' t') = refl
without-mask_for true true idle idle = refl
without-mask_for true true idle (waiting s t) = refl
without-mask_for true true (waiting s t) idle = refl
without-mask_for true true (waiting s t) (waiting s' t') = refl

-- The kernel is asked to wait for those only, edge-triggered, or to forget the descriptor when there are none.
abbrev pub kernel_agrees : (CtlOp → ℕ → ℕ → Bool) → ℕ → ℕ → Bool
kernel_agrees epoll_ctl fd left =
    epoll_ctl (if left == 0 then ctl_del else ctl_mod) fd (bit_or (2 ^ 31) left)

dispatch_found :
    (a b : Bool) (epoll_ctl : CtlOp → ℕ → ℕ → Bool) (fd events : ℕ) (l : List Slots)
    (out : List (ℕ × Task))
    → fd < length l
    → real_events events ≡ mask_for a b
    → dispatch (ready fd events epoll_ctl) (manager_of l out) ≡ (
        if not (meets a b (slots_at fd l))
          || not (kernel_agrees epoll_ctl fd (left_over a b (slots_at fd l)))
        then ok (manager_of l out)
        else (if lacks a b (slots_at fd l)
            then aborted
            else ok (
                manager_of
                  (set l fd (take_both a b (slots_at fd l)))
                  (out ++ tasks_both a b (slots_at fd l)))))
unfolding dispatch
dispatch_found a b epoll_ctl fd events l out h e =
    let x = slots_at fd l in
    let found = get_elem?-slots_at fd l h in
    let (read_bit, write_bit) = has_bit-mask_for a b in
    let agrees = kernel_agrees epoll_ctl fd (left_over a b x) in
    rw (get_elem?-contexts_from fd l x found, dispatch)
      (rw
        (
          e,
          meets-bit_and a b x.reader x.writer,
          without-mask_for a b x.reader x.writer,
          read_bit,
          write_bit,
        )
        (elim (Bool-cases (not (meets a b x) || not agrees)) [
          | inl f ↦ rw f refl
          | inr f ↦ rw f (fire_both a b l out fd x found)
        ]))

-- `dispatch` of a report for a descriptor asks the kernel to wait, edge-triggered, for what is waited for and not
-- reported, or to forget the descriptor when that is nothing. Nothing happens if no reported event is waited for, or
-- the kernel refuses this. Else, if every reported event is waited for, exactly their tasks are scheduled, the one for
-- reading first, their slots are emptied and the other slot is kept. If a reported event is not waited for while
-- the other is, the assertion of triggerEvent fails and the process aborts.
pub dispatch_lem :
    (epoll_ctl : CtlOp → ℕ → ℕ → Bool) (fd events : ℕ) (l : List Slots) (out : List (ℕ × Task))
    → fd < length l
    → dispatch (ready fd events epoll_ctl) (manager_of l out) ≡ (
        if not (meets (reports events reading) (reports events writing) (slots_at fd l))
          || not (
              kernel_agrees epoll_ctl fd
                (left_over (reports events reading) (reports events writing) (slots_at fd l)))
        then ok (manager_of l out)
        else (if lacks (reports events reading) (reports events writing) (slots_at fd l)
            then aborted
            else ok (
                manager_of
                  (set l fd
                    (take_both (reports events reading) (reports events writing) (slots_at fd l)))
                  (out
                    ++ tasks_both
                        (reports events reading)
                        (reports events writing)
                        (slots_at fd l)))))
dispatch_lem epoll_ctl fd events l out h =
    dispatch_found (reports events reading) (reports events writing) epoll_ctl fd events l out h
      (real_events-mask_for events)

-- A report that counts as both events aborts the process when a task waits for reading alone: `idle` does not
-- mask the report with the events that are registered.
dispatch-aborts :
    (fd events s : ℕ) (t : Task) (l : List Slots) (out : List (ℕ × Task))
    → fd < length l
    → slots_at fd l ≡ record { reader = waiting s t; writer = idle }
    → reports events reading ≡ true
    → reports events writing ≡ true
    → dispatch (ready fd events (λ op f mask. true)) (manager_of l out) ≡ aborted
dispatch-aborts fd events s t l out h only r w =
    dispatch_lem (λ op f mask. true) fd events l out h ∙ (rw (r, w, only) refl)
