-- ===== src/TcpServer/Accepting.antt =====
-- The clients that startAccept hands on.
use sylar.Common.{
  ◌≡◌, ℕ, true, false, Option, none, some, List, [], ◌∷◌, ◌*◌, ◌/◌, ◌%◌, ◌^◌, if◌then◌else◌,
}
use sylar.FdManager.{FdCtx}
use sylar.Socket.{Socket, sets_timeout, Answers, is_open_socket}
use sylar.TcpServer.{AcceptRound, ClientTask, accepts}

-- A call of accept, with the context of the descriptor that it gives.
abbrev pub Arrival : Type 0
Arrival = Answers × Option FdCtx × Option ℕ

abbrev pub round_of : Arrival → AcceptRound
round_of (answers, ctx, fd) = accepts answers ctx fd

abbrev pub rounds_of : List Arrival → List AcceptRound
rounds_of [] = []
rounds_of (a ∷ arrivals) = round_of a ∷ rounds_of arrivals

-- The descriptors of open sockets, in order.
abbrev pub taken : List Arrival → List ℕ
taken [] = []
taken ((answers, ctx, none) ∷ arrivals) = taken arrivals
taken ((answers, ctx, some fd) ∷ arrivals) =
    if is_open_socket ctx then fd ∷ taken arrivals else taken arrivals

-- The clients have these descriptors, are connected, are sockets like the one that accepted them, and have got the
-- time limit, which is given in seconds and microseconds.
abbrev pub AreClients : ℕ → Socket → List ℕ → List ClientTask → Type 0
AreClients limit sock [] clients = clients ≡ []
AreClients limit sock (fd ∷ fds) [] = true ≡ false
AreClients limit sock (fd ∷ fds) (c ∷ clients) =
    (c.client.sock ≡ some fd)
    × (c.client.is_connected ≡ true)
    × (c.client.family ≡ sock.family)
    × (c.calls ≡ sets_timeout fd 20 (limit / 1000 % 2 ^ 32) (limit % 1000 * 1000) ∷ [])
    × AreClients limit sock fds clients
