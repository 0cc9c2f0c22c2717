-- ===== src/IoManager.antt =====
-- sylar/iomanager.h and iomanager.cpp: the events that wait on file descriptors. Schedulers, fibers and
-- callbacks are numbers; a file descriptor is a number from 0 on. Each method is one step, as its
-- locks make it; epoll_ctl's answer (whether it returned 0) is an argument. What `schedule` is called
-- with is appended to `scheduled`.
pub mod Registry
pub mod Events
pub mod Operations
pub mod Adding
pub mod Taking
pub mod CancelAll
pub mod Dispatch
mod Examples
use sylar.Common.{
  ℕ, zero, suc, ◌+◌, ◌-◌, ◌*◌, ◌/◌, ◌%◌, ◌^◌, Bool, true, false, not, ◌&&◌, ◌||◌, Option, none,
  some, List, [], ◌∷◌, ◌++◌, length, get_elem?, set, take, ltb, ◌==◌, if◌then◌else◌, sub_u64,
  bit_and, bit_or,
}
use sylar.Common.Int.{ℤ, pos, negsuc}
use sylar.Common.Outcome.{Outcome, ok, aborted, ◌>>=◌, ◌>>◌, assert, deref}

pub data Event : Type 0 where
  no_event : Event
  read_event : Event
  write_event : Event

-- NONE, READ and WRITE, which are 0, EPOLLIN and EPOLLOUT.
abbrev pub bits : Event → ℕ
bits no_event = 0
bits read_event = 1
bits write_event = 4

-- `events & ~event`, on 32 bits.
abbrev pub without : ℕ → ℕ → ℕ
without events mask = bit_and events (2 ^ 32 - 1 - mask)

pub record EventContext : Type 0 where
  pub scheduler : Option ℕ
  pub fiber : Option ℕ
  pub cb : Option ℕ

pub record FdContext : Type 0 where
  pub read : EventContext
  pub write : EventContext
  pub fd : ℕ
  pub events : ℕ

pub data Task : Type 0 where
  cb_task : ℕ → Task
  fiber_task : ℕ → Task

pub record IoManager : Type 0 where
  pub fd_contexts : List FdContext
  pub pending_event_count : ℕ
  pub scheduled : List (ℕ × Task)

pub data CtlOp : Type 0 where
  ctl_add : CtlOp
  ctl_mod : CtlOp
  ctl_del : CtlOp

abbrev pub epoll_et : ℕ
epoll_et = 2 ^ 31

abbrev pub blank : EventContext
blank = record { scheduler = none; fiber = none; cb = none }

abbrev pub is_null : Option ℕ → Bool
is_null none = true
is_null (some p) = false

abbrev pub is_blank : EventContext → Bool
is_blank c = (is_null c.scheduler && is_null c.fiber) && is_null c.cb

unfoldable pub new_fd_context : ℕ → FdContext
new_fd_context fd = record { read = blank; write = blank; fd = fd; events = 0 }

unfoldable pub get_context : Event → FdContext → Outcome EventContext
get_context read_event c = ok c.read
get_context write_event c = ok c.write
get_context no_event c = aborted

-- A write through the reference that getContext returned.
abbrev pub set_context : Event → EventContext → FdContext → FdContext
set_context read_event ctx c = record c { read = ctx }
set_context write_event ctx c = record c { write = ctx }
set_context no_event ctx c = c

unfoldable pub reset_context : EventContext → EventContext
reset_context ctx = record ctx { scheduler = none; fiber = none; cb = none }

-- `schedule(&ctx.cb)` or `schedule(&ctx.fiber)`, which swap the argument away and queue it unless it
-- is null, and `ctx.scheduler = nullptr`.
unfoldable pub schedule_context : EventContext → Outcome (EventContext × List (ℕ × Task))
schedule_context ctx = do
  s ← deref ctx.scheduler
  elim ctx.cb [
    | some k ↦ ok (record ctx { scheduler = none; cb = none }, (s, cb_task k) ∷ [])
    | none ↦ ok (
      record ctx { scheduler = none; fiber = none },
      elim ctx.fiber [ some f ↦ (s, fiber_task f) ∷ [] | none ↦ [] ],
    )
  ]

unfoldable pub trigger_event : Event → FdContext → Outcome (FdContext × List (ℕ × Task))
unfolding get_context schedule_context
trigger_event event c = do
  assert (not (bit_and c.events (bits event) == 0))
  let d = record c { events = without c.events (bits event) }
  ctx ← get_context event d
  (ctx', tasks) ← schedule_context ctx
  ok (set_context event ctx' d, tasks)

unfoldable pub new_contexts : ℕ → ℕ → List FdContext
unfolding new_fd_context
new_contexts fd zero = []
new_contexts fd (suc n) = new_fd_context fd ∷ new_contexts (suc fd) n

unfoldable pub context_resize : ℕ → List FdContext → List FdContext
unfolding new_contexts
context_resize size l = take size l ++ new_contexts (length l) (size - length l)

-- IOManager(threads, use_caller, name), after the calls that set up epoll and the pipe.
unfoldable pub new_io_manager : IoManager
unfolding context_resize
new_io_manager = record {
  fd_contexts = context_resize 32 [];
  pending_event_count = 0;
  scheduled = [];
}

-- Scheduler::GetThis(), Fiber::GetThis() and whether that fiber is in the state EXEC.
pub record Caller : Type 0 where
  pub scheduler : Option ℕ
  pub fiber : ℕ
  pub executing : Bool

unfoldable pub room_for : ℕ → List FdContext → List FdContext
room_for fd l = if ltb fd (length l) then l else context_resize (fd * 3 / 2) l

-- The end of addEvent, which fills the context.
unfoldable pub fill_context : Caller → Option ℕ → EventContext → Outcome EventContext
fill_context caller cb ctx = do
  assert (is_blank ctx)
  elim cb [
    | some k ↦ ok (record ctx { scheduler = caller.scheduler; cb = some k })
    | none ↦ do
      assert caller.executing
      ok (record ctx { scheduler = caller.scheduler; fiber = some caller.fiber })
  ]

unfoldable pub add_event :
    (CtlOp → ℕ → ℕ → Bool) → Caller → ℕ → Event → Option ℕ → IoManager → Outcome (IoManager × ℤ)
unfolding get_context room_for context_resize
add_event epoll_ctl caller fd event cb m = do
  let contexts = room_for fd m.fd_contexts
  c ← deref (get_elem? contexts fd)
  assert (bit_and c.events (bits event) == 0)
  let op = if c.events == 0 then ctl_add else ctl_mod
  if not (epoll_ctl op fd (bit_or epoll_et (bit_or c.events (bits event))))
      then ok (record m { fd_contexts = contexts }, negsuc 0)
      else (do
        let d = record c { events = bit_or c.events (bits event) }
        ctx ← get_context event d
        ctx' ← fill_context caller cb ctx
        ok (
          record m {
            fd_contexts = set contexts fd (set_context event ctx' d);
            pending_event_count = (m.pending_event_count + 1) % 2 ^ 64;
          },
          pos 0,
        ))

-- The tests that delEvent and cancelEvent begin with: the context, unless they return false.
unfoldable pub registered : (CtlOp → ℕ → ℕ → Bool) → ℕ → Event → IoManager → Option FdContext
registered epoll_ctl fd event m = elim (get_elem? m.fd_contexts fd) [
  | none ↦ none
  | some c ↦
      let new_events = without c.events (bits event) in
      let op = if new_events == 0 then ctl_del else ctl_mod in
      if bit_and c.events (bits event) == 0
      then none
      else (if epoll_ctl op fd (bit_or epoll_et new_events) then some c else none)
]

unfoldable pub del_event :
    (CtlOp → ℕ → ℕ → Bool) → ℕ → Event → IoManager → Outcome (IoManager × Bool)
unfolding registered get_context reset_context
del_event epoll_ctl fd event m = elim (registered epoll_ctl fd event m) [
  | none ↦ ok (m, false)
  | some c ↦ do
    let d = record c { events = without c.events (bits event) }
    ctx ← get_context event d
    ok (
      record m {
        fd_contexts = set m.fd_contexts fd (set_context event (reset_context ctx) d);
        pending_event_count = sub_u64 m.pending_event_count 1;
      },
      true,
    )
]

-- `fd_ctx->triggerEvent(event); --m_pendingEventCount`, on the context at fd.
unfoldable pub fire_event : ℕ → Event → FdContext → IoManager → Outcome (FdContext × IoManager)
unfolding trigger_event
fire_event fd event c m = do
  (d, tasks) ← trigger_event event c
  ok (
    d,
    record m {
      fd_contexts = set m.fd_contexts fd d;
      pending_event_count = sub_u64 m.pending_event_count 1;
      scheduled = m.scheduled ++ tasks;
    },
  )

unfoldable pub cancel_event :
    (CtlOp → ℕ → ℕ → Bool) → ℕ → Event → IoManager → Outcome (IoManager × Bool)
unfolding registered fire_event
cancel_event epoll_ctl fd event m = elim (registered epoll_ctl fd event m) [
  | none ↦ ok (m, false)
  | some c ↦ do (d, n) ← fire_event fd event c m; ok (n, true)
]

-- `if (mask & event) { triggerEvent(event); --m_pendingEventCount; }`.
unfoldable pub fire_if : Bool → ℕ → Event → FdContext → IoManager → Outcome (FdContext × IoManager)
unfolding fire_event
fire_if set fd event c m = if set then fire_event fd event c m else ok (c, m)

abbrev pub has_bit : ℕ → Event → Bool
has_bit events event = not (bit_and events (bits event) == 0)

unfoldable pub cancel_all : (CtlOp → ℕ → ℕ → Bool) → ℕ → IoManager → Outcome (IoManager × Bool)
unfolding fire_if
cancel_all epoll_ctl fd m = elim (get_elem? m.fd_contexts fd) [
  | none ↦ ok (m, false)
  | some c ↦
      if c.events == 0
      then ok (m, false)
      else (if not (epoll_ctl ctl_del fd 0) then ok (m, false) else (do
        (d, n) ← fire_if (has_bit c.events read_event) fd read_event c m
        (e, o) ← fire_if (has_bit d.events write_event) fd write_event d n
        ok (o, true)))
]

-- What epoll_wait reports: a byte in the tickle pipe, or a context (by its descriptor) with a mask.
-- `epoll_ctl` is the answer of the call that follows, by its operation, descriptor and mask.
pub data Ready : Type 0 where
  tickled : Ready
  ready : (fd events : ℕ) (epoll_ctl : CtlOp → ℕ → ℕ → Bool) → Ready

-- `event.events |= EPOLLIN | EPOLLOUT` on EPOLLERR (8) or EPOLLHUP (16).
abbrev pub with_errors : ℕ → ℕ
with_errors events = if bit_and events 24 == 0 then events else bit_or events 5

unfoldable pub real_events : ℕ → ℕ
real_events events =
    let real = if bit_and (with_errors events) 1 == 0 then 0 else bit_or 0 (bits read_event) in
    if bit_and (with_errors events) 4 == 0 then real else bit_or real (bits write_event)

-- A round of the last loop of `idle`.
unfoldable pub dispatch : Ready → IoManager → Outcome IoManager
unfolding real_events fire_if
dispatch tickled m = ok m
dispatch (ready fd events epoll_ctl) m = do
  c ← deref (get_elem? m.fd_contexts fd)
  let real = real_events events
  let left_events = without c.events real
  let op = if left_events == 0 then ctl_del else ctl_mod
  if bit_and c.events real == 0 || not (epoll_ctl op fd (bit_or epoll_et left_events))
      then ok m
      else (do
        (d, n) ← fire_if (has_bit real read_event) fd read_event c m
        (e, o) ← fire_if (has_bit real write_event) fd write_event d n
        ok o)

unfoldable pub dispatch_all : List Ready → IoManager → Outcome IoManager
unfolding dispatch
dispatch_all [] m = ok m
dispatch_all (r ∷ rs) m = do n ← dispatch r m; dispatch_all rs n

-- The timeout of epoll_wait: `(int)next_timeout` is signed, of 32 bits.
unfoldable pub wait_timeout : ℕ → ℤ
wait_timeout next_timeout =
    if next_timeout == 2 ^ 64 - 1
    then pos 3_000
    else (let low = next_timeout % 2 ^ 32 in
        if ltb low (2 ^ 31)
        then (if ltb 3_000 low then pos 3_000 else pos low)
        else negsuc (2 ^ 32 - 1 - low))

-- stopping(timeout), given what getNextTimer and Scheduler::stopping return.
unfoldable pub stopping : ℕ → Bool → IoManager → Bool
stopping timeout scheduler_stopping m =
    ((timeout == 2 ^ 64 - 1) && (m.pending_event_count == 0)) && scheduler_stopping
