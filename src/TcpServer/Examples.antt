-- ===== src/TcpServer/Examples.antt =====
-- A server that binds two addresses.
use sylar.Common.{ℕ, ◌≡◌, refl, true, false, Bool, none, some, List, [], ◌∷◌, map}
use sylar.FdManager.{FdCtx}
use sylar.Socket.{Endpoint, Socket, Answers}
use sylar.TcpServer.{TcpServer, Target, bind_all, accepts_on}
use sylar.TcpServer.Binding.{sock_of, bind_all_lem}
use sylar.TcpServer.Accepting.{Arrival}

abbrev port_80 : Endpoint
port_80 = record { family = 2; bytes = 0 ∷ 80 ∷ [] }

abbrev port_81 : Endpoint
port_81 = record { family = 2; bytes = 0 ∷ 81 ∷ [] }

abbrev opens_as : ℕ → Bool → Answers
opens_as fd succeeds = record { opened = some fd; succeeds = succeeds; own = none; peer = none }

abbrev idle : TcpServer
idle = record { socks = []; recv_timeout = 0; is_stop = true; accept_tasks = [] }

-- The second address is taken.
abbrev one_taken : List Target
one_taken =
    (port_80, opens_as 5 true, opens_as 5 true) ∷ (port_81, opens_as 6 false, opens_as 6 true) ∷ []

both_bound :
    map sock_of
      (bind_all
        ((port_80, opens_as 5 true, opens_as 5 true)
          ∷ (port_81, opens_as 6 true, opens_as 6 true)
          ∷ [])
        []
        idle).0.socks
    ≡ some 5 ∷ some 6 ∷ []
unfolding bind_all
both_bound = refl

bind_all_lem_example :
    ((bind_all one_taken [] idle).2 ≡ port_81 ∷ [])
    × ((bind_all one_taken [] idle).1 ≡ false)
    × (map sock_of (bind_all one_taken [] idle).0.socks ≡ [])
bind_all_lem_example = bind_all_lem one_taken [] idle

abbrev listener : Socket
listener = record {
  sock = some 5;
  family = 2;
  type = 1;
  protocol = 0;
  is_connected = false;
  local_address = none;
  remote_address = none;
}

abbrev running : TcpServer
running = record idle {
  socks = listener ∷ [];
  is_stop = false;
  accept_tasks = accepts_on listener ∷ [];
}

abbrev open_socket : FdCtx
open_socket = record {
  is_init = true;
  is_socket = true;
  sys_nonblock = true;
  user_nonblock = false;
  is_closed = false;
  fd = 7;
  recv_timeout = 18446744073709551615;
  send_timeout = 18446744073709551615;
}

abbrev arrivals : List Arrival
arrivals =
    (opens_as 0 true, some open_socket, some 7)
    ∷ (opens_as 0 true, none, none)
    ∷ (opens_as 0 true, none, some 8)
    ∷ []
