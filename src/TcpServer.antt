-- ===== src/TcpServer.antt =====
-- sylar/tcp_server.h and tcp_server.cpp: a server that listens on several addresses. The tasks that it gives to
-- the two schedulers are lists; a client's handleClient is a task with its socket.
pub mod Binding
pub mod Accepting
mod Examples
use sylar.Common.{ℕ, Bool, true, false, Option, none, some, List, [], ◌∷◌, ◌++◌, map, if◌then◌else◌}
use sylar.Common.Outcome.{Outcome, ok, stuck, ◌>>=◌}
use sylar.FdManager.{FdCtx}
use sylar.Socket.{
  Endpoint, Socket, Call, Answers, cancels, create_tcp, bind, listen, accept, close,
  set_socket_timeout,
}

-- What the server schedules: startAccept on a socket, and the function in stop.
pub data AcceptTask : Type 0 where
  accepts_on : Socket → AcceptTask
  closes_all : AcceptTask

pub record TcpServer : Type 0 where
  pub socks : List Socket
  pub recv_timeout : ℕ
  pub is_stop : Bool
  pub accept_tasks : List AcceptTask

unfoldable pub new_tcp_server : TcpServer
new_tcp_server = record { socks = []; recv_timeout = 0; is_stop = true; accept_tasks = [] }

-- An address to bind, with what the system answers in bind and in listen.
abbrev pub Target : Type 0
Target = Endpoint × Answers × Answers

-- SOMAXCONN of the C library.
abbrev pub somaxconn : ℕ
somaxconn = 4096

-- A round of the loop over the addresses: the socket that listens, or nothing.
unfoldable pub bind_one : Target → Option Socket
unfolding create_tcp bind listen
bind_one (address, in_bind, in_listen) =
    let bound = bind in_bind address (create_tcp address) in
    let listening = listen in_listen somaxconn bound.0 in
    if bound.1 then (if listening.1 then some listening.0 else none) else none

-- What a round adds to m_socks and to `fails`.
abbrev pub put_round :
    Endpoint → Option Socket → List Socket × List Endpoint → List Socket × List Endpoint
put_round address none (socks, fails) = (socks, address ∷ fails)
put_round address (some sock) (socks, fails) = (sock ∷ socks, fails)

unfoldable pub bind_each : List Target → List Socket × List Endpoint
unfolding bind_one
bind_each [] = ([], [])
bind_each (target ∷ targets) = put_round target.0 (bind_one target) (bind_each targets)

abbrev pub is_empty : List Endpoint → Bool
is_empty [] = true
is_empty (a ∷ as') = false

-- bind, with the list that the caller passes for the addresses that fail.
unfoldable pub bind_all : List Target → List Endpoint → TcpServer → TcpServer × Bool × List Endpoint
unfolding bind_each
bind_all targets fails server =
    let tried = bind_each targets in
    if is_empty (fails ++ tried.1)
    then (record server { socks = server.socks ++ tried.0 }, true, fails ++ tried.1)
    else (record server { socks = [] }, false, fails ++ tried.1)

-- bind of one address.
unfoldable pub bind_address : Target → TcpServer → TcpServer × Bool
unfolding bind_all
bind_address target server = let done = bind_all (target ∷ []) [] server in (done.0, done.1)

unfoldable pub start : TcpServer → TcpServer
start server =
    if server.is_stop
    then record server {
      is_stop = false;
      accept_tasks = server.accept_tasks ++ map accepts_on server.socks;
    }
    else server

unfoldable pub stop : TcpServer → TcpServer
stop server = record server {
  is_stop = true;
  accept_tasks = server.accept_tasks ++ (closes_all ∷ []);
}

-- cancelAll of the scheduler.
abbrev pub cancel_call : Option ℕ → List Call
cancel_call none = []
cancel_call (some fd) = cancels fd ∷ []

abbrev pub close_each : List Socket → List Call
unfolding close
close_each [] = []
close_each (s ∷ socks) = cancel_call s.sock ++ ((close s).2 ++ close_each socks)

-- The function in stop: the calls that it makes on the sockets.
unfoldable pub close_socks : TcpServer → TcpServer × List Call
close_socks server = (record server { socks = [] }, close_each server.socks)

-- A test of m_isStop in startAccept: it is set, or accept is called.
pub data AcceptRound : Type 0 where
  is_stopped : AcceptRound
  accepts : Answers → Option FdCtx → Option ℕ → AcceptRound

-- A task of the worker: handleClient on a client, behind the calls that set its time limit.
pub record ClientTask : Type 0 where
  pub client : Socket
  pub calls : List Call

-- A client that accept returns gets the time limit and is handed to the worker.
unfoldable pub hand_on : (recv_timeout : ℕ) → Option Socket → List ClientTask → List ClientTask
unfolding set_socket_timeout
hand_on recv_timeout none clients = clients
hand_on recv_timeout (some client) clients =
    record { client = client; calls = set_socket_timeout true recv_timeout client.sock } ∷ clients

-- The tasks that startAccept gives to the worker, in order.
unfoldable pub start_accept :
    (recv_timeout : ℕ) → Socket → List AcceptRound → Outcome (List ClientTask)
unfolding accept hand_on
start_accept recv_timeout sock [] = stuck
start_accept recv_timeout sock (is_stopped ∷ rounds) = ok []
start_accept recv_timeout sock (accepts answers ctx fd ∷ rounds) =
    start_accept recv_timeout sock rounds >>= λ clients.
    ok (hand_on recv_timeout (accept answers ctx fd sock) clients)
