-- ===== src/Hook.antt =====
-- sylar/hook.cpp: the system calls that the framework replaces. What the system answers, call after call, and
-- what happens while a fiber waits are lists: a run that needs more of them is `stuck`.
pub mod Io
pub mod Waiting
pub mod Calls
pub mod Flags
mod Examples
use sylar.Common.{
  ℕ, zero, suc, ◌+◌, ◌-◌, ◌*◌, ◌/◌, ◌%◌, ◌^◌, Bool, true, false, not, ◌&&◌, ◌||◌, Option, none,
  some, List, [], ◌∷◌, ◌++◌, leb, ◌==◌, if◌then◌else◌,
}
use sylar.Common.Outcome.{Outcome, ok, stuck, ◌>>=◌}
use sylar.FdManager.{FdCtx, get_timeout}

abbrev pub eintr : ℕ
eintr = 4

abbrev pub ebadf : ℕ
ebadf = 9

abbrev pub eagain : ℕ
eagain = 11

abbrev pub etimedout : ℕ
etimedout = 110

abbrev pub einprogress : ℕ
einprogress = 115

-- The result of a system call: a number that is not negative, or -1 with errno.
pub data SysResult : Type 0 where
  returned : ℕ → SysResult
  failed_with : ℕ → SysResult

-- While the fiber is away: its event triggers, or its timer runs out.
pub data Happening : Type 0 where
  event_comes : Happening
  timer_fires : Happening

-- addEvent, which fails and leaves an errno, or registers the fiber, and then what happens.
pub data Wait : Type 0 where
  refused : ℕ → Wait
  registered : List Happening → Wait

-- The calls of the IOManager and the fiber.
pub data Action : Type 0 where
  adds_timer : ℕ → Action
  cancels_timer : Action
  adds_event : Action
  yields : Action
  cancels_all : Action

pub record IoEnd : Type 0 where
  pub result : SysResult
  pub actions : List Action
  pub replies : List SysResult

-- The time limit when there is one: `to != (uint64_t)-1`.
abbrev pub has_limit : ℕ → Bool
has_limit to = not (to == 2 ^ 64 - 1)

abbrev pub is_set : Option ℕ → Bool
is_set none = false
is_set (some e) = true

-- From the yield until the fiber runs again: timer_info::cancelled at that moment. The callback of the timer
-- stores ETIMEDOUT once, and cancels the event, which wakes the fiber, or does not.
unfoldable pub wait_for :
    (cancels_event timed : Bool) → Option ℕ → List Happening → Outcome (Option ℕ)
wait_for cancels_event timed cancelled [] = stuck
wait_for cancels_event timed cancelled (event_comes ∷ later) = ok cancelled
wait_for cancels_event timed cancelled (timer_fires ∷ later) =
    let asleep = λ (c : Option ℕ). wait_for cancels_event timed c later in
    if timed && not (is_set cancelled)
    then (if cancels_event then ok (some etimedout) else asleep (some etimedout))
    else asleep cancelled

abbrev pub timer_added : ℕ → List Action
timer_added to = if has_limit to then adds_timer to ∷ [] else []

abbrev pub timer_cancelled : ℕ → List Action
timer_cancelled to = if has_limit to then cancels_timer ∷ [] else []

-- What do_io does when the fiber runs again: it fails with `cancelled`, or goes back to `retry`.
abbrev pub after_wait :
    (List Action → Outcome IoEnd) → List SysResult → List Action → Option ℕ → Outcome IoEnd
after_wait retry replies actions none = retry actions
after_wait retry replies actions (some e) =
    ok (record { result = failed_with e; actions = actions; replies = replies })

-- Behind EAGAIN.
unfoldable pub suspend :
    (List Action → Outcome IoEnd) → ℕ → List SysResult → List Action → Wait → Outcome IoEnd
unfolding wait_for
suspend retry to replies actions (refused errno) = ok (record {
  result = failed_with errno;
  actions = actions ++ (timer_added to ++ (adds_event ∷ timer_cancelled to));
  replies = replies;
})
suspend retry to replies actions (registered happenings) =
    wait_for true (has_limit to) none happenings
    >>= after_wait retry replies
        (actions ++ (timer_added to ++ (adds_event ∷ (yields ∷ timer_cancelled to))))

-- From the label `retry` on.
unfoldable pub retry : (to : ℕ) → List SysResult → List Wait → List Action → Outcome IoEnd
retry to [] waits actions = stuck
retry to (returned n ∷ replies) waits actions =
    ok (record { result = returned n; actions = actions; replies = replies })
retry to (failed_with e ∷ replies) [] actions =
    let again = retry to replies [] actions in
    if e == eintr
    then again
    else (if e == eagain
        then stuck
        else ok (record { result = failed_with e; actions = actions; replies = replies }))
retry to (failed_with e ∷ replies) (wait ∷ waits) actions =
    let again = retry to replies (wait ∷ waits) actions in
    let back = λ (acts : List Action). retry to replies waits acts in
    if e == eintr
    then again
    else (if e == eagain
        then suspend back to replies actions wait
        else ok (record { result = failed_with e; actions = actions; replies = replies }))

-- The call itself, when do_io only passes it on.
abbrev pub pass_on : List SysResult → Outcome IoEnd
pass_on [] = stuck
pass_on (r ∷ replies) = ok (record { result = r; actions = []; replies = replies })

-- do_io, with the context of the descriptor; `receiving` says which of the two limits holds.
unfoldable pub do_io :
    (enabled receiving : Bool) → Option FdCtx → List SysResult → List Wait → Outcome IoEnd
unfolding retry get_timeout
do_io false receiving ctx replies waits = pass_on replies
do_io true receiving none replies waits = pass_on replies
do_io true receiving (some c) replies waits =
    if c.is_closed
    then ok (record { result = failed_with ebadf; actions = []; replies = replies })
    else (if not c.is_socket || c.user_nonblock
        then pass_on replies
        else retry (get_timeout receiving c) replies waits [])

-- The calls that go through do_io.
pub data IoCall : Type 0 where
  accept : IoCall
  read : IoCall
  readv : IoCall
  recv : IoCall
  recvfrom : IoCall
  recvmsg : IoCall
  write : IoCall
  writev : IoCall
  send : IoCall
  sendto : IoCall
  sendmsg : IoCall

-- READ with SO_RCVTIMEO, or WRITE with SO_SNDTIMEO.
abbrev pub is_receiving : IoCall → Bool
is_receiving accept = true
is_receiving read = true
is_receiving readv = true
is_receiving recv = true
is_receiving recvfrom = true
is_receiving recvmsg = true
is_receiving write = false
is_receiving writev = false
is_receiving send = false
is_receiving sendto = false
is_receiving sendmsg = false

unfoldable pub hooked_call :
    Bool → IoCall → Option FdCtx → List SysResult → List Wait → Outcome IoEnd
unfolding do_io
hooked_call enabled call ctx replies waits = do_io enabled (is_receiving call) ctx replies waits
