-- ===== src/IoManager/Adding.antt =====
-- addEvent.
use sylar.Common.{
  ℕ, suc, ◌+◌, ◌*◌, ◌/◌, ◌-◌, ◌%◌, ◌^◌, ◌≤◌, ◌<◌, ◌≡◌, refl, arith, inl, inr, Bool, true, false,
  Option, none, some, List, length, length-append, length-replicate, replicate, get_elem?, set, ltb,
  ◌==◌, if◌then◌else◌, bit_or, Bool-cases,
}
use sylar.Common.Int.{pos, negsuc}
use sylar.Common.Outcome.{ok, aborted}
use sylar.IoManager.{
  Task, cb_task, fiber_task, CtlOp, ctl_add, ctl_mod, epoll_et, room_for, Caller, fill_context,
  add_event,
}
use sylar.IoManager.Registry.{
  Slot, idle, waiting, Slots, empty_slots, Kind, reading, writing, event_of, slot_of, put, busy,
  count_of, waiting_count, events_in, context_of, manager_of, contexts_from,
  get_elem?-contexts_from, set-contexts_from, waiting_count-set, with_room, room_for-with_room,
  waiting_count-with_room,
}
use sylar.IoManager.Events.{event_bit, bit_or-put, get_context_lem, set_context-put}
use sylar.IoManager.Operations.{slots_at, get_elem?-slots_at}

-- What the call makes wait: the callback if there is one, else the fiber that calls.
abbrev pub task_for : Caller → Option ℕ → Task
task_for caller none = fiber_task caller.fiber
task_for caller (some k) = cb_task k

fill_context_lem :
    (caller : Caller) (cb : Option ℕ) (s : ℕ)
    → caller.scheduler ≡ some s
    → caller.executing ≡ true
    → fill_context caller cb (context_of idle) ≡ ok (context_of (waiting s (task_for caller cb)))
unfolding fill_context
fill_context_lem caller none s e f = rw (e, f) refl
fill_context_lem caller (some k) s e f = rw e refl

idle_of : (y : Slot) → busy y ≡ false → y ≡ idle
idle_of idle e = refl
idle_of (waiting s t) e = cc

idle_count :
    (k : Kind) (x : Slots) (s : ℕ) (t : Task)
    → slot_of k x ≡ idle
    → count_of (put k (waiting s t) x).reader + count_of (put k (waiting s t) x).writer
      ≡ suc (count_of x.reader + count_of x.writer)
idle_count reading x s t e = rw e (omega arith)
idle_count writing x s t e = rw e (omega arith)

length-with_room : (fd : ℕ) (l : List Slots) → 2 ≤ length l → fd < length (with_room fd l)
length-with_room fd l h = elim (Bool-cases (ltb fd (length l))) [
  | inl e ↦ rw e (ground (arith, e))
  | inr e ↦
      let n = fd * 3 / 2 - length l in
      rw e (
        rw (length-append l (replicate n empty_slots), length-replicate n empty_slots)
          (ground (arith, e, h)))
]

-- What the kernel is asked for: a new descriptor is added, a known one gets the larger mask.
abbrev pub adds : (CtlOp → ℕ → ℕ → Bool) → ℕ → ℕ → ℕ → Bool
adds epoll_ctl fd before after =
    epoll_ctl (if before == 0 then ctl_add else ctl_mod) fd (bit_or epoll_et after)

module _ (epoll_ctl : CtlOp → ℕ → ℕ → Bool) (caller : Caller) (cb : Option ℕ) (s fd : ℕ) (k : Kind)
    (l table : List Slots) (x : Slots) (out : List (ℕ × Task)) (current : caller.scheduler ≡ some s)
    (executing : caller.executing ≡ true)
    (room : room_for fd (contexts_from 0 l) ≡ contexts_from 0 table)
    (same : waiting_count table ≡ waiting_count l) (found : get_elem? table fd ≡ some x) where
  abbrev filled : Slots
  filled = put k (waiting s (task_for caller cb)) x

  added_count :
      slot_of k x ≡ idle
      → (waiting_count l % 2 ^ 64 + 1) % 2 ^ 64 ≡ waiting_count (set table fd filled) % 2 ^ 64
  added_count e =
      let more : waiting_count (set table fd filled) ≡ suc (waiting_count l) = omega (
        arith,
        waiting_count-set fd table x filled found,
        idle_count k x s (task_for caller cb) e,
        same,
      ) in
      rw more (omega arith)

  add_event_at : add_event epoll_ctl caller fd (event_of k) cb (manager_of l out) ≡ (
      if busy (slot_of k x)
      then aborted
      else (if adds epoll_ctl fd (events_in x) (events_in filled)
          then ok (manager_of (set table fd filled) out, pos 0)
          else ok (manager_of table out, negsuc 0)))
  unfolding add_event
  add_event_at =
      rw (room, add_event)
        (rw (get_elem?-contexts_from fd table x found) (
          rw (event_bit k x) (elim (Bool-cases (busy (slot_of k x))) [
            | inl e ↦ rw e refl
            | inr e ↦
                rw (e, bit_or-put k x s (task_for caller cb))
                  (elim (Bool-cases (adds epoll_ctl fd (events_in x) (events_in filled))) [
                    | inr a ↦ rw (a, same) refl
                    | inl a ↦
                        let empty = idle_of (slot_of k x) e in
                        rw a (
                          rw
                            (
                              get_context_lem k (events_in filled) fd x,
                              empty,
                              fill_context_lem caller cb s current executing,
                            )
                            (rw
                              (
                                set_context-put k fd x (waiting s (task_for caller cb)),
                                set-contexts_from fd table filled,
                                added_count empty,
                              )
                              refl))
                  ])
          ])))

-- `add_event`, called by a running fiber of a scheduler, on a table of at least two descriptors (the constructor
-- makes 32): a second task for the same event aborts; if the kernel refuses, it returns -1 and nothing waits
-- that did not wait before; else the callback or the fiber waits in the slot, the count of pending events is the
-- number of waiting tasks again, and it returns 0. A missing descriptor gets its slots first.
pub add_event_lem :
    (epoll_ctl : CtlOp → ℕ → ℕ → Bool) (caller : Caller) (cb : Option ℕ) (s fd : ℕ) (k : Kind)
    (l : List Slots) (out : List (ℕ × Task))
    → 2 ≤ length l
    → caller.scheduler ≡ some s
    → caller.executing ≡ true
    → add_event epoll_ctl caller fd (event_of k) cb (manager_of l out) ≡ (
        if busy (slot_of k (slots_at fd (with_room fd l)))
        then aborted
        else (if adds epoll_ctl fd
              (events_in (slots_at fd (with_room fd l)))
              (events_in (put k (waiting s (task_for caller cb)) (slots_at fd (with_room fd l))))
            then ok (
              manager_of
                  (set
                    (with_room fd l)
                    fd
                    (put k (waiting s (task_for caller cb)) (slots_at fd (with_room fd l))))
                  out,
              pos 0,
            )
            else ok (manager_of (with_room fd l) out, negsuc 0)))
add_event_lem epoll_ctl caller cb s fd k l out many current executing =
    add_event_at epoll_ctl caller cb s fd k l (with_room fd l) (slots_at fd (with_room fd l)) out
      current executing (room_for-with_room fd l) (waiting_count-with_room fd l)
      (get_elem?-slots_at fd (with_room fd l) (length-with_room fd l many))
