-- ===== src/Socket/Examples.antt =====
-- A stream socket with the descriptor 5.
use sylar.Common.{◌≡◌, refl, true, false, none, some, List, [], ◌∷◌, ◌++◌}
use sylar.FdManager.{FdCtx}
use sylar.Socket.{
  Endpoint, Socket, Transfer, sys_sendmsg, Answers, opens, sets_option, connects, connects_within,
  closes, transfers, connect, get_remote_address, Operation, does_connect, does_close,
  does_transfer, does_init, run,
}
use sylar.Socket.Runs.{AreOn, run-Stays}
use sylar.Socket.Connecting.{run-get_remote_address}

abbrev first_peer : Endpoint
first_peer = record { family = 2; bytes = 0 ∷ 80 ∷ 10 ∷ 0 ∷ 0 ∷ 1 ∷ [] }

abbrev second_peer : Endpoint
second_peer = record { family = 2; bytes = 0 ∷ 80 ∷ 10 ∷ 0 ∷ 0 ∷ 2 ∷ [] }

abbrev goes_well : Answers
goes_well = record { opened = some 5; succeeds = true; own = none; peer = some first_peer }

abbrev goes_wrong : Answers
goes_wrong = record { opened = some 6; succeeds = false; own = none; peer = none }

abbrev fresh : Socket
fresh = record {
  sock = none;
  family = 2;
  type = 1;
  protocol = 0;
  is_connected = false;
  local_address = none;
  remote_address = none;
}

abbrev up : Socket
up = record fresh { sock = some 5; is_connected = true; remote_address = some first_peer }

abbrev hello : Transfer
hello = record { receiving = false; vectored = true; address = none; length = 1; flags = 0 }

abbrev session : List (Answers × Operation)
session =
    (goes_well, does_transfer hello)
    ∷ (goes_well, does_close)
    ∷ (goes_wrong, does_connect second_peer 18446744073709551615)
    ∷ []

-- The descriptor is closed twice.
session_calls :
    (run session up).1
    ≡ transfers 5 sys_sendmsg hello ∷ closes 5 ∷ connects 5 second_peer ∷ closes 5 ∷ []
unfolding run
session_calls = refl

opens_and_connects :
    (connect goes_well first_peer 1000 fresh).2
    ≡ opens 2 1 0 ∷ sets_option 5 1 2 ∷ sets_option 5 6 1 ∷ connects_within 5 first_peer 1000 ∷ []
unfolding connect
opens_and_connects = refl

abbrev other_socket : FdCtx
other_socket = record {
  is_init = true;
  is_socket = true;
  sys_nonblock = true;
  user_nonblock = false;
  is_closed = false;
  fd = 9;
  recv_timeout = 18446744073709551615;
  send_timeout = 18446744073709551615;
}

-- The socket takes the descriptor 9 in the end.
abbrev longer : List (Answers × Operation)
longer = session ++ ((goes_well, does_init (some other_socket) 9) ∷ (goes_well, does_close) ∷ [])

run-Stays_example : ((run longer up).0.sock ≡ some 9) × AreOn 5 up longer
run-Stays_example = run-Stays longer up 5 refl

run-get_remote_address_example : (get_remote_address none (run session up).0).1 ≡ first_peer
run-get_remote_address_example = run-get_remote_address session first_peer none up refl
