-- ===== src/Socket.antt =====
-- sylar/socket.h and socket.cpp: a socket and the operations that change it. Each operation takes what the
-- system answers and returns the calls that it makes.
pub mod Runs
pub mod Connecting
mod Examples
use sylar.Common.{
  ℕ, ◌-◌, ◌*◌, ◌/◌, ◌%◌, ◌^◌, Bool, true, false, not, ◌&&◌, Option, none, some, List, [], ◌∷◌, ◌++◌,
  replicate, ◌==◌, if◌then◌else◌,
}
use sylar.FdManager.{FdCtx, get_timeout}

-- An address, as the system stores it: the family, and the bytes behind it.
pub record Endpoint : Type 0 where
  pub family : ℕ
  pub bytes : List ℕ

-- `sock` is none for -1.
pub record Socket : Type 0 where
  pub sock : Option ℕ
  pub family : ℕ
  pub type : ℕ
  pub protocol : ℕ
  pub is_connected : Bool
  pub local_address : Option Endpoint
  pub remote_address : Option Endpoint

-- SOCK_STREAM, SOCK_DGRAM.
abbrev pub tcp : ℕ
tcp = 1

abbrev pub udp : ℕ
udp = 2

pub data SystemCall : Type 0 where
  sys_send : SystemCall
  sys_sendto : SystemCall
  sys_sendmsg : SystemCall
  sys_recv : SystemCall
  sys_recvfrom : SystemCall
  sys_recvmsg : SystemCall

-- A call of send, sendTo, recv or recvFrom, on a buffer or on several.
pub record Transfer : Type 0 where
  pub receiving : Bool
  pub vectored : Bool
  pub address : Option Endpoint
  pub length : ℕ
  pub flags : ℕ

-- The calls of the system.
pub data Call : Type 0 where
  opens : (family type protocol : ℕ) → Call
  sets_option : (fd level option : ℕ) → Call
  binds : ℕ → Endpoint → Call
  connects : ℕ → Endpoint → Call
  connects_within : ℕ → Endpoint → ℕ → Call
  listens : ℕ → ℕ → Call
  closes : ℕ → Call
  transfers : ℕ → SystemCall → Transfer → Call
  cancels : ℕ → Call
  accepts_from : ℕ → Call
  asks_option : (fd level option : ℕ) → Call
  sets_timeout : (fd option sec usec : ℕ) → Call

-- What the system answers in an operation: to socket, to bind, connect or listen, to getsockname and to
-- getpeername.
pub record Answers : Type 0 where
  pub opened : Option ℕ
  pub succeeds : Bool
  pub own : Option Endpoint
  pub peer : Option Endpoint

unfoldable pub new_socket : (family type protocol : ℕ) → Socket
new_socket family type protocol = record {
  sock = none;
  family = family;
  type = type;
  protocol = protocol;
  is_connected = false;
  local_address = none;
  remote_address = none;
}

unfoldable pub create_tcp : Endpoint → Socket
unfolding new_socket
create_tcp address = new_socket address.family tcp 0

unfoldable pub create_udp : Endpoint → Socket
unfolding new_socket
create_udp address = new_socket address.family udp 0

abbrev pub has_fd : Option ℕ → Bool
has_fd none = false
has_fd (some fd) = true

abbrev pub is_valid : Socket → Bool
is_valid s = has_fd s.sock

-- initSock: SO_REUSEADDR, and TCP_NODELAY on a stream.
abbrev pub init_sock : Option ℕ → (type : ℕ) → List Call
init_sock none type = []
init_sock (some fd) type =
    sets_option fd 1 2 ∷ (if type == tcp then sets_option fd 6 1 ∷ [] else [])

unfoldable pub new_sock : Option ℕ → Socket → Socket × List Call
new_sock opened s =
    (record s { sock = opened }, opens s.family s.type s.protocol ∷ init_sock opened s.type)

-- The first lines of bind and connect.
unfoldable pub made_valid : Option ℕ → Socket → Socket × List Call
unfolding new_sock
made_valid opened s = if is_valid s then (s, []) else new_sock opened s

-- The address that is known, or that the system answers now; its cache, and what the call returns.
abbrev pub cached {ℓ} : {A : Type ℓ} → Option A → Option A → Option A
cached none answer = answer
cached (some a) answer = some a

abbrev pub or_unknown : ℕ → Option Endpoint → Endpoint
or_unknown family none = record { family = family; bytes = replicate 14 0 }
or_unknown family (some a) = a

unfoldable pub get_local_address : Option Endpoint → Socket → Socket × Endpoint
get_local_address answer s =
    let known = cached s.local_address answer in
    (record s { local_address = known }, or_unknown s.family known)

unfoldable pub get_remote_address : Option Endpoint → Socket → Socket × Endpoint
get_remote_address answer s =
    let known = cached s.remote_address answer in
    (record s { remote_address = known }, or_unknown s.family known)

-- FdMgr's context of the descriptor: init takes it if it is an open socket.
abbrev pub is_open_socket : Option FdCtx → Bool
is_open_socket none = false
is_open_socket (some c) = c.is_socket && not c.is_closed

unfoldable pub init : Answers → Option FdCtx → (fd : ℕ) → Socket → Socket × Bool × List Call
unfolding get_local_address get_remote_address
init answers ctx fd s =
    if is_open_socket ctx
    then (let s1 : Socket = record s { sock = some fd; is_connected = true } in
        (
          (get_remote_address answers.peer (get_local_address answers.own s1).0).0,
          true,
          init_sock (some fd) s.type,
        ))
    else (s, false, [])

-- accept: the new socket, if the system gave a descriptor and init takes it.
unfoldable pub accept : Answers → Option FdCtx → Option ℕ → Socket → Option Socket
unfolding init new_socket
accept answers ctx none s = none
accept answers ctx (some fd) s =
    let made = init answers ctx fd (new_socket s.family s.type s.protocol) in
    if made.1 then some made.0 else none

-- close, which keeps m_sock.
unfoldable pub close : Socket → Socket × Bool × List Call
close s = elim s.sock [
  | none ↦ (record s { is_connected = false }, not s.is_connected, [])
  | some fd ↦ (record s { is_connected = false }, false, closes fd ∷ [])
]

-- Behind the system's bind.
unfoldable pub bind_on : Answers → Endpoint → Socket → List Call → Socket × Bool × List Call
unfolding get_local_address
bind_on answers address s calls = elim s.sock [
  | none ↦ (s, false, calls)
  | some fd ↦
      if not (address.family == s.family)
      then (s, false, calls)
      else (if answers.succeeds
          then ((get_local_address answers.own s).0, true, calls ++ (binds fd address ∷ []))
          else (s, false, calls ++ (binds fd address ∷ [])))
]

unfoldable pub bind : Answers → Endpoint → Socket → Socket × Bool × List Call
unfolding made_valid bind_on
bind answers address s =
    let made = made_valid answers.opened s in bind_on answers address made.0 made.1

abbrev pub connected : Answers → Socket → Socket
unfolding get_local_address get_remote_address
connected answers s =
    (get_local_address answers.own
      (get_remote_address answers.peer (record s { is_connected = true })).0).0

abbrev pub connect_call : ℕ → Endpoint → (timeout_ms : ℕ) → Call
connect_call fd address timeout_ms =
    if timeout_ms == 2 ^ 64 - 1 then connects fd address else connects_within fd address timeout_ms

-- A connection that failed is closed, unless it had a limit.
abbrev pub connect_failed : (timeout_ms : ℕ) → Socket → List Call → Socket × Bool × List Call
unfolding close
connect_failed timeout_ms s calls =
    if timeout_ms == 2 ^ 64 - 1
    then ((close s).0, false, calls ++ (close s).2)
    else (s, false, calls)

unfoldable pub connect_on :
    Answers → Endpoint → (timeout_ms : ℕ) → Socket → List Call → Socket × Bool × List Call
unfolding close
connect_on answers address timeout_ms s calls = elim s.sock [
  | none ↦ (s, false, calls)
  | some fd ↦
      let called = calls ++ (connect_call fd address timeout_ms ∷ []) in
      if not (address.family == s.family)
      then (s, false, calls)
      else (if answers.succeeds
          then (connected answers s, true, called)
          else connect_failed timeout_ms s called)
]

unfoldable pub connect : Answers → Endpoint → (timeout_ms : ℕ) → Socket → Socket × Bool × List Call
unfolding made_valid connect_on
connect answers address timeout_ms s =
    let made = made_valid answers.opened s in connect_on answers address timeout_ms made.0 made.1

unfoldable pub listen : Answers → (backlog : ℕ) → Socket → Socket × Bool × List Call
listen answers backlog s = elim s.sock [
  | none ↦ (s, false, [])
  | some fd ↦ (s, answers.succeeds, listens fd backlog ∷ [])
]

-- The call that each of the eight methods makes: several buffers, with or without an address, are one message.
abbrev pub system_call : Transfer → SystemCall
system_call t =
    if t.vectored then (if t.receiving then sys_recvmsg else sys_sendmsg) else (elim t.address [
      | none ↦ if t.receiving then sys_recv else sys_send
      | some a ↦ if t.receiving then sys_recvfrom else sys_sendto
    ])

-- The call of a method, or -1.
unfoldable pub transfer : Transfer → Socket → Option Call
transfer t s =
    if s.is_connected
    then (elim s.sock [ none ↦ none | some fd ↦ some (transfers fd (system_call t) t) ])
    else none

-- getSendTimeout and getRecvTimeout: none for -1.
unfoldable pub socket_timeout : (receiving : Bool) → Option FdCtx → Option ℕ
unfolding get_timeout
socket_timeout receiving none = none
socket_timeout receiving (some c) = some (get_timeout receiving c)

-- A call on the descriptor, if there is one: on -1 the system fails.
abbrev pub call_on : (ℕ → Call) → Option ℕ → List Call
call_on call none = []
call_on call (some fd) = call fd ∷ []

-- setSendTimeout and setRecvTimeout, for a time below 2^63: SO_SNDTIMEO and SO_RCVTIMEO with the seconds and the
-- microseconds of `tv`, whose address the template takes for the value.
unfoldable pub set_socket_timeout : (receiving : Bool) → (v : ℕ) → Option ℕ → List Call
set_socket_timeout receiving v sock =
    call_on
      (λ fd. sets_timeout fd (if receiving then 20 else 21) (v / 1000 % 2 ^ 32) (v % 1000 * 1000))
      sock

-- The public operations on a socket, with what the system answers: accept and the calls of options and of the
-- cancellations do not change it.
pub data Operation : Type 0 where
  does_bind : Endpoint → Operation
  does_connect : Endpoint → (timeout_ms : ℕ) → Operation
  does_listen : (backlog : ℕ) → Operation
  does_close : Operation
  asks_local : Operation
  asks_remote : Operation
  does_transfer : Transfer → Operation
  does_init : Option FdCtx → (fd : ℕ) → Operation
  does_accept : Operation
  does_get_option : (level option : ℕ) → Operation
  does_set_option : (level option : ℕ) → Operation
  does_set_timeout : (receiving : Bool) → (v : ℕ) → Operation
  does_cancel : Operation

abbrev transfer_call : Option Call → List Call
transfer_call none = []
transfer_call (some call) = call ∷ []

unfoldable pub step : Answers → Operation → Socket → Socket × List Call
unfolding bind connect listen close get_local_address get_remote_address transfer init
    set_socket_timeout
step answers (does_bind address) s = let done = bind answers address s in (done.0, done.2)
step answers (does_connect address timeout_ms) s =
    let done = connect answers address timeout_ms s in (done.0, done.2)
step answers (does_listen backlog) s = let done = listen answers backlog s in (done.0, done.2)
step answers does_close s = let done = close s in (done.0, done.2)
step answers asks_local s = ((get_local_address answers.own s).0, [])
step answers asks_remote s = ((get_remote_address answers.peer s).0, [])
step answers (does_transfer t) s = (s, transfer_call (transfer t s))
step answers (does_init ctx fd) s = let done = init answers ctx fd s in (done.0, done.2)
step answers does_accept s = (s, call_on accepts_from s.sock)
step answers (does_get_option level option) s =
    (s, call_on (λ fd. asks_option fd level option) s.sock)
step answers (does_set_option level option) s =
    (s, call_on (λ fd. sets_option fd level option) s.sock)
step answers (does_set_timeout receiving v) s = (s, set_socket_timeout receiving v s.sock)
step answers does_cancel s = (s, call_on cancels s.sock)

unfoldable pub run : List (Answers × Operation) → Socket → Socket × List Call
unfolding step
run [] s = (s, [])
run ((answers, op) ∷ ops) s =
    let first = step answers op s in let later = run ops first.0 in (later.0, first.1 ++ later.1)
