-- ===== src/IoManager/Events.antt =====
-- What each call does to the contexts of one descriptor.
use sylar.Common.{
  ℕ, ◌≡◌, refl, sym, ap, ◌∙◌, Bool, not, [], ◌∷◌, ◌==◌, if◌then◌else◌, bit_and, bit_or,
}
use sylar.Common.Outcome.{ok, aborted}
use sylar.IoManager.{
  bits, without, Task, cb_task, fiber_task, CtlOp, ctl_mod, ctl_del, epoll_et, get_context,
  set_context, schedule_context, trigger_event,
}
use sylar.IoManager.Registry.{
  Slot, idle, waiting, Slots, Kind, reading, writing, event_of, slot_of, put, busy, context_of,
  events_of, events_in, fd_context_of, put-slot_of,
}

-- The bit of an event is set when its slot is busy.
events-busy :
    (k : Kind) (r w : Slot)
    → (bit_and (events_of r w) (bits (event_of k)) == 0)
      ≡ not (busy (slot_of k (record { reader = r; writer = w })))
events-busy reading idle idle = refl
events-busy reading idle (waiting s t) = refl
events-busy reading (waiting s t) idle = refl
events-busy reading (waiting s t) (waiting s' t') = refl
events-busy writing idle idle = refl
events-busy writing idle (waiting s t) = refl
events-busy writing (waiting s t) idle = refl
events-busy writing (waiting s t) (waiting s' t') = refl

pub event_bit :
    (k : Kind) (s : Slots)
    → (bit_and (events_in s) (bits (event_of k)) == 0) ≡ not (busy (slot_of k s))
event_bit k s = events-busy k s.reader s.writer

without-put_of :
    (k : Kind) (r w : Slot)
    → without (events_of r w) (bits (event_of k))
      ≡ events_in (put k idle (record { reader = r; writer = w }))
without-put_of reading idle idle = refl
without-put_of reading idle (waiting s t) = refl
without-put_of reading (waiting s t) idle = refl
without-put_of reading (waiting s t) (waiting s' t') = refl
without-put_of writing idle idle = refl
without-put_of writing idle (waiting s t) = refl
without-put_of writing (waiting s t) idle = refl
without-put_of writing (waiting s t) (waiting s' t') = refl

pub without-put :
    (k : Kind) (s : Slots) → without (events_in s) (bits (event_of k)) ≡ events_in (put k idle s)
without-put k s = without-put_of k s.reader s.writer

bit_or-put_of :
    (k : Kind) (r w : Slot) (s : ℕ) (t : Task)
    → bit_or (events_of r w) (bits (event_of k))
      ≡ events_in (put k (waiting s t) (record { reader = r; writer = w }))
bit_or-put_of reading idle idle s t = refl
bit_or-put_of reading idle (waiting u v) s t = refl
bit_or-put_of reading (waiting u v) idle s t = refl
bit_or-put_of reading (waiting u v) (waiting u' v') s t = refl
bit_or-put_of writing idle idle s t = refl
bit_or-put_of writing idle (waiting u v) s t = refl
bit_or-put_of writing (waiting u v) idle s t = refl
bit_or-put_of writing (waiting u v) (waiting u' v') s t = refl

pub bit_or-put :
    (k : Kind) (x : Slots) (s : ℕ) (t : Task)
    → bit_or (events_in x) (bits (event_of k)) ≡ events_in (put k (waiting s t) x)
bit_or-put k x s t = bit_or-put_of k x.reader x.writer s t

-- triggerEvent schedules the task that waits and empties its slot.
pub trigger_event_lem :
    (k : Kind) (fd : ℕ) (x : Slots) (s : ℕ) (t : Task)
    → slot_of k x ≡ waiting s t
    → trigger_event (event_of k) (fd_context_of fd x)
      ≡ ok (fd_context_of fd (put k idle x), (s, t) ∷ [])
unfolding trigger_event get_context schedule_context
trigger_event_lem k fd x s t e =
    let same : put k (waiting s t) x ≡ x = ap (λ y. put k y x) (sym e) ∙ put-slot_of k x in
    ap (λ y. trigger_event (event_of k) (fd_context_of fd y)) (sym same) ∙ go k x.reader x.writer t
  where
    go :
        (k : Kind) (r w : Slot) (t : Task)
        → trigger_event
            (event_of k)
            (fd_context_of fd (put k (waiting s t) (record { reader = r; writer = w })))
          ≡ ok (fd_context_of fd (put k idle (record { reader = r; writer = w })), (s, t) ∷ [])
    go reading r idle (cb_task c) = refl
    go reading r (waiting u v) (cb_task c) = refl
    go reading r idle (fiber_task f) = refl
    go reading r (waiting u v) (fiber_task f) = refl
    go writing idle w (cb_task c) = refl
    go writing (waiting u v) w (cb_task c) = refl
    go writing idle w (fiber_task f) = refl
    go writing (waiting u v) w (fiber_task f) = refl

-- On an idle slot it fails its assertion.
pub trigger_event-idle :
    (k : Kind) (fd : ℕ) (x : Slots)
    → slot_of k x ≡ idle
    → trigger_event (event_of k) (fd_context_of fd x) ≡ aborted
unfolding trigger_event
trigger_event-idle k fd x e = rw (event_bit k x, e) refl

pub get_context_lem :
    (k : Kind) (events fd : ℕ) (x : Slots)
    → get_context (event_of k) (record (fd_context_of fd x) { events = events })
      ≡ ok (context_of (slot_of k x))
unfolding get_context
get_context_lem reading events fd x = refl
get_context_lem writing events fd x = refl

pub set_context-put :
    (k : Kind) (fd : ℕ) (x : Slots) (y : Slot)
    → set_context
        (event_of k)
        (context_of y)
        (record (fd_context_of fd x) { events = events_in (put k y x) })
      ≡ fd_context_of fd (put k y x)
set_context-put reading fd x y = refl
set_context-put writing fd x y = refl

-- What the kernel is asked for when the mask of a registered descriptor becomes `events`.
abbrev pub accepted : (CtlOp → ℕ → ℕ → Bool) → ℕ → ℕ → Bool
accepted epoll_ctl fd events =
    epoll_ctl (if events == 0 then ctl_del else ctl_mod) fd (bit_or epoll_et events)
