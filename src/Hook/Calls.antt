-- ===== src/Hook/Calls.antt =====
-- The replaced calls of sylar/hook.cpp that are not input or output: connect, the sleeps, socket, close, fcntl,
-- ioctl and setsockopt, on the table of sylar/fd_manager.cpp. What the real call answers is an argument.
use sylar.Common.{
  ℕ, zero, suc, ◌+◌, ◌-◌, ◌*◌, ◌/◌, ◌%◌, ◌^◌, Bool, true, false, not, ◌&&◌, ◌||◌, Option, none,
  some, List, [], ◌∷◌, ◌++◌, leb, set, ◌==◌, if◌then◌else◌,
}
use sylar.Common.Outcome.{Outcome, ok, stuck, ◌>>=◌}
use sylar.FdManager.{FdCtx, FdManager, entry, get, del, set_timeout}
use sylar.Hook.{
  ebadf, einprogress, SysResult, returned, failed_with, Wait, refused, registered, Action,
  adds_event, yields, cancels_all, adds_timer, has_limit, timer_added, timer_cancelled, wait_for,
}

-- getsockopt of SO_ERROR, which fails or gives the error that is pending.
abbrev pub pending_error : SysResult → SysResult
pending_error (failed_with errno) = failed_with errno
pending_error (returned zero) = returned 0
pending_error (returned (suc e)) = failed_with (suc e)

abbrev connect_woken : SysResult → List Action → Option ℕ → SysResult × List Action
connect_woken so_error actions none = (pending_error so_error, actions)
connect_woken so_error actions (some e) = (failed_with e, actions)

-- Behind EINPROGRESS. The callback of this timer does not cancel the event.
unfoldable pub connect_wait :
    (timeout_ms : ℕ) → SysResult → Wait → Outcome (SysResult × List Action)
unfolding wait_for
connect_wait timeout_ms so_error (refused errno) =
    ok (pending_error so_error, timer_added timeout_ms ++ (adds_event ∷ timer_cancelled timeout_ms))
connect_wait timeout_ms so_error (registered happenings) =
    wait_for false (has_limit timeout_ms) none happenings >>= λ c. ok (
      connect_woken so_error
        (timer_added timeout_ms ++ (adds_event ∷ (yields ∷ timer_cancelled timeout_ms))) c)

unfoldable pub connect_in_progress :
    (timeout_ms : ℕ) → SysResult → SysResult → Wait → Outcome (SysResult × List Action)
unfolding connect_wait
connect_in_progress timeout_ms (returned n) so_error wait = ok (returned n, [])
connect_in_progress timeout_ms (failed_with errno) so_error wait =
    if errno == einprogress
    then connect_wait timeout_ms so_error wait
    else ok (failed_with errno, [])

unfoldable pub connect_with_timeout :
    (enabled : Bool)
    → Option FdCtx
    → (timeout_ms : ℕ) → SysResult
    → SysResult
    → Wait
    → Outcome (SysResult × List Action)
unfolding connect_in_progress
connect_with_timeout false ctx timeout_ms reply so_error wait = ok (reply, [])
connect_with_timeout true none timeout_ms reply so_error wait = ok (failed_with ebadf, [])
connect_with_timeout true (some c) timeout_ms reply so_error wait =
    if c.is_closed
    then ok (failed_with ebadf, [])
    else (if not c.is_socket || c.user_nonblock
        then ok (reply, [])
        else connect_in_progress timeout_ms reply so_error wait)

-- The timer of a sleeping fiber in milliseconds: seconds are an unsigned int, tv_sec a long whose
-- product is stored in an int.
abbrev pub sleep_ms : ℕ → ℕ
sleep_ms seconds = seconds * 1000 % 2 ^ 32

abbrev pub usleep_ms : ℕ → ℕ
usleep_ms usec = usec / 1000

abbrev pub int_to_u64 : ℕ → ℕ
int_to_u64 n = if leb (2 ^ 31) n then n + (2 ^ 64 - 2 ^ 32) else n

abbrev pub nanosleep_ms : (sec nsec : ℕ) → ℕ
nanosleep_ms sec nsec = int_to_u64 ((sec * 1000 + nsec / 1000 / 1000) % 2 ^ 32)

-- A timer that schedules the fiber, the yield, and 0.
unfoldable pub sleep_for : (enabled : Bool) → SysResult → (ms : ℕ) → SysResult × List Action
sleep_for false reply ms = (reply, [])
sleep_for true reply ms = (returned 0, adds_timer ms ∷ yields ∷ [])

unfoldable pub sleep : Bool → SysResult → (seconds : ℕ) → SysResult × List Action
unfolding sleep_for
sleep enabled reply seconds = sleep_for enabled reply (sleep_ms seconds)

unfoldable pub usleep : Bool → SysResult → (usec : ℕ) → SysResult × List Action
unfolding sleep_for
usleep enabled reply usec = sleep_for enabled reply (usleep_ms usec)

unfoldable pub nanosleep : Bool → SysResult → (sec nsec : ℕ) → SysResult × List Action
unfolding sleep_for
nanosleep enabled reply sec nsec = sleep_for enabled reply (nanosleep_ms sec nsec)

-- A new descriptor gets its context: `stat` and `nonblock` as in FdManager::get.
unfoldable pub socket :
    Bool → SysResult → Option Bool → Bool → FdManager → Outcome (SysResult × FdManager)
unfolding get
socket false reply stat nonblock m = ok (reply, m)
socket true (failed_with errno) stat nonblock m = ok (failed_with errno, m)
socket true (returned fd) stat nonblock m =
    get stat nonblock fd true m >>= λ (after, ctx). ok (returned fd, after)

-- What accept does with a new descriptor, hooked or not.
unfoldable pub accept_registers : SysResult → Option Bool → Bool → FdManager → Outcome FdManager
unfolding get
accept_registers (failed_with errno) stat nonblock m = ok m
accept_registers (returned fd) stat nonblock m =
    get stat nonblock fd true m >>= λ (after, ctx). ok after

-- `manager` says that the thread has an IOManager.
unfoldable pub close : (enabled manager : Bool) → ℕ → FdManager → FdManager × List Action
unfolding del
close false manager fd m = (m, [])
close true manager fd m = elim (entry fd m.datas) [
  | none ↦ (m, [])
  | some c ↦ (del fd m, if manager then cancels_all ∷ [] else [])
]

-- The O_NONBLOCK bit of a word of flags: the test, `flags | O_NONBLOCK` and `flags & ~O_NONBLOCK`.
abbrev pub has_nonblock : ℕ → Bool
has_nonblock flags = flags / 2048 % 2 == 1

abbrev pub with_nonblock : Bool → ℕ → ℕ
with_nonblock b flags =
    if b
    then (if has_nonblock flags then flags else flags + 2048)
    else (if has_nonblock flags then flags - 2048 else flags)

-- The context that fcntl and ioctl change: of an open socket.
abbrev pub managed : Option FdCtx → Bool
managed none = false
managed (some c) = not c.is_closed && c.is_socket

abbrev pub put_user_nonblock : Bool → ℕ → Option FdCtx → FdManager → FdManager
put_user_nonblock b fd none m = m
put_user_nonblock b fd (some c) m = record m {
  datas = set m.datas fd (some (record c { user_nonblock = b }));
}

abbrev pub sys_nonblock_of : Option FdCtx → Bool
sys_nonblock_of none = false
sys_nonblock_of (some c) = c.sys_nonblock

abbrev pub user_nonblock_of : Option FdCtx → Bool
user_nonblock_of none = false
user_nonblock_of (some c) = c.user_nonblock

-- fcntl(fd, F_SETFL, arg): the table behind it, and the argument of the real call.
unfoldable pub fcntl_setfl : ℕ → ℕ → FdManager → FdManager × ℕ
fcntl_setfl fd arg m =
    let ctx = entry fd m.datas in
    if managed ctx
    then (put_user_nonblock (has_nonblock arg) fd ctx m, with_nonblock (sys_nonblock_of ctx) arg)
    else (m, arg)

-- fcntl(fd, F_GETFL), of the answer of the real call.
unfoldable pub fcntl_getfl : ℕ → ℕ → FdManager → ℕ
fcntl_getfl fd flags m =
    let ctx = entry fd m.datas in
    if managed ctx then with_nonblock (user_nonblock_of ctx) flags else flags

-- The other commands of fcntl, by how their argument is read.
pub data Command : Type 0 where
  with_int : Command
  without_argument : Command
  with_flock : Command
  with_owner : Command
  any_other : Command

-- The descriptor and the argument of the real call: with_int declares another `fd` that hides the first.
unfoldable pub fcntl_passed : Command → (fd arg : ℕ) → ℕ × Option ℕ
fcntl_passed with_int fd arg = (arg, none)
fcntl_passed without_argument fd arg = (fd, none)
fcntl_passed with_flock fd arg = (fd, some arg)
fcntl_passed with_owner fd arg = (fd, some arg)
fcntl_passed any_other fd arg = (fd, none)

-- ioctl(fd, request, arg); `fionbio` says that the request is FIONBIO, and the value is what arg points to.
-- The real call gets the arguments as they are.
unfoldable pub ioctl : (fionbio : Bool) → ℕ → (value : ℕ) → FdManager → FdManager
ioctl false fd value m = m
ioctl true fd value m =
    let ctx = entry fd m.datas in
    if managed ctx then put_user_nonblock (not (value == 0)) fd ctx m else m

-- setsockopt: the option as far as it is read, and optval as a timeval.
pub data SockOpt : Type 0 where
  timeout_option : (receiving : Bool) → SockOpt
  other_option : SockOpt

abbrev put_timeout : Bool → ℕ → ℕ → Option FdCtx → FdManager → FdManager
put_timeout receiving v fd none m = m
put_timeout receiving v fd (some c) m = record m {
  datas = set m.datas fd (some (set_timeout receiving v c));
}

unfoldable pub note_option : SockOpt → (sec usec : ℕ) → ℕ → FdManager → FdManager
unfolding set_timeout
note_option other_option sec usec fd m = m
note_option (timeout_option receiving) sec usec fd m =
    put_timeout receiving ((sec * 1000 + usec / 1000) % 2 ^ 64) fd (entry fd m.datas) m

-- Without the hook it calls itself: `fuel` bounds the depth.
unfoldable pub setsockopt :
    (fuel : ℕ) → Bool → SockOpt → (sec usec : ℕ) → ℕ → FdManager → Outcome FdManager
unfolding note_option
setsockopt zero enabled option sec usec fd m = stuck
setsockopt (suc fuel) enabled option sec usec fd m =
    let itself = setsockopt fuel enabled option sec usec fd m in
    if enabled then ok (note_option option sec usec fd m) else itself
