-- ===== src/IoManager/Operations.antt =====
-- The methods of the manager on the table of slots.
use sylar.Common.{
  ℕ, zero, suc, ◌+◌, ◌%◌, ◌^◌, ◌≤◌, ◌<◌, ◌≡◌, refl, ap, arith, inl, inr, Bool, true, false, ◌&&◌,
  none, some, List, [], ◌∷◌, ◌++◌, length, get_elem?, get_or, set, if◌then◌else◌, sub_u64,
  Bool-cases,
}
use sylar.Common.Outcome.{ok}
use sylar.IoManager.{
  bits, Task, IoManager, CtlOp, registered, del_event, fire_event, cancel_event, set_context,
  reset_context, without,
}
use sylar.IoManager.Registry.{
  Slot, idle, waiting, Slots, empty_slots, Kind, reading, writing, event_of, slot_of, put, busy,
  tasks_of, count_of, waiting_count, events_in, fd_context_of, context_of, manager_of,
  contexts_from, get_elem?-contexts_from, set-contexts_from, waiting_count-set,
}
use sylar.IoManager.Events.{
  event_bit, without-put, trigger_event_lem, get_context_lem, set_context-put, accepted,
}
use native.Mathlib.Decide.{dec_lt}

busy_count :
    (k : Kind) (x : Slots)
    → busy (slot_of k x) ≡ true
    → count_of x.reader + count_of x.writer
      ≡ suc (count_of (put k idle x).reader + count_of (put k idle x).writer)
busy_count k x e = go k x.reader x.writer e
  where
    go :
        (k : Kind) (r w : Slot)
        → busy (slot_of k (record { reader = r; writer = w })) ≡ true
        → count_of r + count_of w
          ≡ suc (
              count_of (put k idle (record { reader = r; writer = w })).reader
              + count_of (put k idle (record { reader = r; writer = w })).writer)
    go reading idle w e = cc
    go reading (waiting s t) w e = omega arith
    go writing r idle e = cc
    go writing r (waiting s t) e = omega arith

pub busy-waiting : (y : Slot) → busy y ≡ true → (s : ℕ) × (t : Task) × (y ≡ waiting s t)
busy-waiting idle e = cc
busy-waiting (waiting s t) e = (s, t, refl)

module _ (epoll_ctl : CtlOp → ℕ → ℕ → Bool) (l : List Slots) (out : List (ℕ × Task)) (fd : ℕ)
    (x : Slots) (found : get_elem? l fd ≡ some x) (k : Kind) where
  here : get_elem? (contexts_from 0 l) fd ≡ some (fd_context_of fd x)
  here = get_elem?-contexts_from fd l x found

  abbrev released : List Slots
  released = set l fd (put k idle x)

  abbrev releases : Bool
  releases = busy (slot_of k x) && accepted epoll_ctl fd (events_in (put k idle x))

  released_count :
      busy (slot_of k x) ≡ true
      → sub_u64 (waiting_count l % 2 ^ 64) 1 ≡ waiting_count released % 2 ^ 64
  released_count e =
      let changed = waiting_count-set fd l x (put k idle x) found in
      let less : waiting_count l ≡ suc (waiting_count released) =
        omega (arith, changed, busy_count k x e) in
      ground (arith, less)

  manager_released :
      (tasks : List (ℕ × Task))
      → busy (slot_of k x) ≡ true
      → ◌≡◌ {A = IoManager}
          (record {
            fd_contexts = set (contexts_from 0 l) fd (fd_context_of fd (put k idle x));
            pending_event_count = sub_u64 (waiting_count l % 2 ^ 64) 1;
            scheduled = tasks;
          })
          (manager_of released tasks)
  manager_released tasks e = rw (set-contexts_from fd l (put k idle x), released_count e) refl

  -- `triggerEvent` and the count, on a slot where a task waits.
  pub fire_event_lem :
      (s : ℕ) (t : Task)
      → slot_of k x ≡ waiting s t
      → fire_event fd (event_of k) (fd_context_of fd x) (manager_of l out)
        ≡ ok (fd_context_of fd (put k idle x), manager_of released (out ++ (s, t) ∷ []))
  unfolding fire_event
  fire_event_lem s t e =
      rw (trigger_event_lem k fd x s t e, fire_event)
        (ap (λ m. ok (fd_context_of fd (put k idle x), m))
          (manager_released (out ++ (s, t) ∷ []) (rw e refl)))

  emptied :
      set_context
        (event_of k)
        (reset_context (context_of (slot_of k x)))
        (record (fd_context_of fd x) { events = without (events_in x) (bits (event_of k)) })
      ≡ fd_context_of fd (put k idle x)
  unfolding reset_context
  emptied = rw (without-put k x) (set_context-put k fd x idle)

  registered_lem :
      registered epoll_ctl fd (event_of k) (manager_of l out)
      ≡ (if releases then some (fd_context_of fd x) else none)
  unfolding registered
  registered_lem =
      rw (here, registered)
        (rw (event_bit k x, without-put k x)
          (elim (Bool-cases (busy (slot_of k x))) [
            | inl e ↦ rw e (elim (Bool-cases (accepted epoll_ctl fd (events_in (put k idle x)))) [
              | inl a ↦ rw a refl
              | inr a ↦ rw a refl
            ])
            | inr e ↦ rw e refl
          ]))

  del_event_lem :
      del_event epoll_ctl fd (event_of k) (manager_of l out)
      ≡ ok (if releases then manager_of released out else manager_of l out, releases)
  unfolding del_event
  del_event_lem =
      rw (registered_lem, del_event)
        (elim (Bool-cases releases) [
          | inl e ↦
              let full : busy (slot_of k x) ≡ true = ground (arith, e) in
              rw e (
                rw (get_context_lem k (without (events_in x) (bits (event_of k))) fd x)
                  (rw emptied (ap (λ m. ok (m, true)) (manager_released out full))))
          | inr e ↦ rw e refl
        ])

  cancel_event_lem :
      cancel_event epoll_ctl fd (event_of k) (manager_of l out)
      ≡ ok (
        if releases then manager_of released (out ++ tasks_of (slot_of k x)) else manager_of l out,
        releases,
      )
  unfolding cancel_event
  cancel_event_lem =
      rw (registered_lem, cancel_event)
        (elim (Bool-cases releases) [
          | inl e ↦
              let (s, t, full) = busy-waiting (slot_of k x) (ground (arith, e)) in
              rw e (rw (fire_event_lem s t full, full) refl)
          | inr e ↦ rw e refl
        ])

-- The slots of a descriptor; those that the table does not reach are empty.
abbrev pub slots_at : ℕ → List Slots → Slots
slots_at fd l = get_or l fd empty_slots

pub get_elem?-slots_at :
    (fd : ℕ) (l : List Slots) → fd < length l → get_elem? l fd ≡ some (slots_at fd l)
get_elem?-slots_at fd [] h = absurd (omega arith)
get_elem?-slots_at zero (x ∷ l) h = refl
get_elem?-slots_at (suc fd) (x ∷ l) h = get_elem?-slots_at fd l (omega arith)

pub slots_at-outside : (fd : ℕ) (l : List Slots) → length l ≤ fd → slots_at fd l ≡ empty_slots
slots_at-outside fd [] h = refl
slots_at-outside zero (x ∷ l) h = absurd (omega arith)
slots_at-outside (suc fd) (x ∷ l) h = slots_at-outside fd l (omega arith)

pub no_context :
    (i fd : ℕ) (l : List Slots) → length l ≤ fd → get_elem? (contexts_from i l) fd ≡ none
no_context i fd [] h = refl
no_context i zero (x ∷ l) h = absurd (omega arith)
no_context i (suc fd) (x ∷ l) h = no_context (suc i) fd l (omega arith)

-- Whether a call takes out what waits in a slot: something waits, and the kernel accepts the mask that is left.
abbrev pub takes : (CtlOp → ℕ → ℕ → Bool) → ℕ → Kind → List Slots → Bool
takes epoll_ctl fd k l =
    busy (slot_of k (slots_at fd l))
    && accepted epoll_ctl fd (events_in (put k idle (slots_at fd l)))

abbrev pub without_task : ℕ → Kind → List Slots → List Slots
without_task fd k l = set l fd (put k idle (slots_at fd l))

registered-outside :
    (epoll_ctl : CtlOp → ℕ → ℕ → Bool) (fd : ℕ) (k : Kind) (l : List Slots) (out : List (ℕ × Task))
    → length l ≤ fd
    → (registered epoll_ctl fd (event_of k) (manager_of l out) ≡ none)
      × (busy (slot_of k (slots_at fd l)) ≡ false)
unfolding registered
registered-outside epoll_ctl fd k l out h =
    (rw (no_context 0 fd l h, registered) refl, rw (slots_at-outside fd l h) (idle_both k))
  where
    idle_both : (k : Kind) → busy (slot_of k empty_slots) ≡ false
    idle_both reading = refl
    idle_both writing = refl

-- `del_event`, on any descriptor and any answers of the kernel, empties the slot of the event, schedules
-- nothing, and returns whether a task waited there and the kernel accepted the mask that is left; else it
-- changes nothing. It asks for a removal when no event is left and for a change otherwise. The count of
-- pending events stays the number of waiting tasks.
del_event-takes :
    (epoll_ctl : CtlOp → ℕ → ℕ → Bool) (fd : ℕ) (k : Kind) (l : List Slots) (out : List (ℕ × Task))
    → del_event epoll_ctl fd (event_of k) (manager_of l out)
      ≡ ok (
        if takes epoll_ctl fd k l then manager_of (without_task fd k l) out else manager_of l out,
        takes epoll_ctl fd k l,
      )
unfolding del_event
del_event-takes epoll_ctl fd k l out = elim (dec_lt fd (length l)) [
  | yes h ↦ del_event_lem epoll_ctl l out fd (slots_at fd l) (get_elem?-slots_at fd l h) k
  | no h ↦
      let (gone, empty) = registered-outside epoll_ctl fd k l out (omega arith) in
      rw (gone, del_event) (rw empty refl)
]

-- `cancel_event` does the same and schedules the task that waited, on its own scheduler.
pub cancel_event-takes :
    (epoll_ctl : CtlOp → ℕ → ℕ → Bool) (fd : ℕ) (k : Kind) (l : List Slots) (out : List (ℕ × Task))
    → cancel_event epoll_ctl fd (event_of k) (manager_of l out)
      ≡ ok (
        if takes epoll_ctl fd k l
            then manager_of (without_task fd k l) (out ++ tasks_of (slot_of k (slots_at fd l)))
            else manager_of l out,
        takes epoll_ctl fd k l,
      )
unfolding cancel_event
cancel_event-takes epoll_ctl fd k l out = elim (dec_lt fd (length l)) [
  | yes h ↦ cancel_event_lem epoll_ctl l out fd (slots_at fd l) (get_elem?-slots_at fd l h) k
  | no h ↦
      let (gone, empty) = registered-outside epoll_ctl fd k l out (omega arith) in
      rw (gone, cancel_event) (rw empty refl)
]
