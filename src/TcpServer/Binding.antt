-- ===== src/TcpServer/Binding.antt =====
-- What bind leaves when an address fails and when none does, and what a restart leaves.
use sylar.Common.{
  ℕ, ◌≡◌, refl, ap, ◌∙◌, subst, inl, inr, Bool, true, false, ◌&&◌, Option, none, some, List, [],
  ◌∷◌, ◌++◌, map, ◌==◌, Bool-cases, if◌then◌else◌, arith,
}
use mathlib.Core.List.{append_assoc}
use sylar.Socket.{
  Endpoint, Socket, Answers, create_tcp, new_socket, new_sock, made_valid, Call, has_fd, bind,
  bind_on, close, closes, cancels, listen, get_local_address,
}
use sylar.TcpServer.{
  TcpServer, Target, bind_one, put_round, bind_each, is_empty, bind_all, start, stop, close_each,
  close_socks, accepts_on, closes_all,
}

-- The system opens a socket, binds it and lets it listen.
abbrev pub is_granted : Target → Bool
is_granted (address, in_bind, in_listen) =
    has_fd in_bind.opened && (in_bind.succeeds && in_listen.succeeds)

abbrev pub refused : List Target → List Endpoint
refused [] = []
refused (t ∷ targets) = if is_granted t then refused targets else t.0 ∷ refused targets

-- The descriptors of the granted ones.
abbrev pub granted : List Target → List (Option ℕ)
granted [] = []
granted (t ∷ targets) = if is_granted t then t.1.opened ∷ granted targets else granted targets

abbrev pub sock_of : Socket → Option ℕ
sock_of s = s.sock

-- The socket that a round adds, seen by its descriptor.
abbrev seen : Option Socket → Option (Option ℕ)
seen none = none
seen (some s) = some s.sock

-- What the round adds, from the answers that matter.
bind_one-seen :
    (address : Endpoint) (opened : Option ℕ) (binds' heard : Bool) (in_bind in_listen : Answers)
    → seen (
        bind_one (
          address,
          record in_bind { opened = opened; succeeds = binds' },
          record in_listen { succeeds = heard },
        ))
      ≡ (if has_fd opened && (binds' && heard) then some opened else none)
unfolding bind_one create_tcp new_socket new_sock made_valid bind bind_on listen get_local_address
bind_one-seen address none binds' heard in_bind in_listen = refl
bind_one-seen address (some fd) false heard in_bind in_listen =
    let same : (address.family == address.family) ≡ true = ground arith in rw same refl
bind_one-seen address (some fd) true false in_bind in_listen =
    let same : (address.family == address.family) ≡ true = ground arith in rw same refl
bind_one-seen address (some fd) true true in_bind in_listen =
    let same : (address.family == address.family) ≡ true = ground arith in rw same refl

-- The round with its outcome.
abbrev Put : Endpoint → List Socket × List Endpoint → Option Socket → Option (Option ℕ) → Type 0
Put address rest o none =
    ((put_round address o rest).1 ≡ address ∷ rest.1)
    × (map sock_of (put_round address o rest).0 ≡ map sock_of rest.0)
Put address rest o (some fd) =
    ((put_round address o rest).1 ≡ rest.1)
    × (map sock_of (put_round address o rest).0 ≡ fd ∷ map sock_of rest.0)

put_round_lem :
    (address : Endpoint) (rest : List Socket × List Endpoint) (o : Option Socket)
    → Put address rest o (seen o)
put_round_lem address rest none = (refl, refl)
put_round_lem address rest (some s) = (refl, refl)

bind_each_lem :
    (targets : List Target)
    → ((bind_each targets).1 ≡ refused targets)
      × (map sock_of (bind_each targets).0 ≡ granted targets)
unfolding bind_each
bind_each_lem [] = (refl, refl)
bind_each_lem ((address, in_bind, in_listen) ∷ targets) =
    let target : Target = (address, in_bind, in_listen) in
    let later = bind_each_lem targets in
    let told =
      bind_one-seen address in_bind.opened in_bind.succeeds in_listen.succeeds in_bind in_listen in
    let put : Put address (bind_each targets) (bind_one target)
        (if is_granted target then some in_bind.opened else none) =
      subst (Put address (bind_each targets) (bind_one target)) told
        (put_round_lem address (bind_each targets) (bind_one target)) in
    elim (Bool-cases (is_granted target)) [
      | inl e ↦
          let now = rw e at put in
          rw e (now.0 ∙ later.0, now.1 ∙ ap (λ l. in_bind.opened ∷ l) later.1)
      | inr e ↦
          let now = rw e at put in rw e (now.0 ∙ ap (λ l. address ∷ l) later.0, now.1 ∙ later.1)
    ]

map-append : (xs ys : List Socket) → map sock_of (xs ++ ys) ≡ map sock_of xs ++ map sock_of ys
map-append [] ys = refl
map-append (x ∷ xs) ys = ap (λ l. x.sock ∷ l) (map-append xs ys)

-- bind tries every address: the caller gets those that the system did not open, bind and let listen, in order, behind
-- those already in the list. If the list stays empty, it succeeds, and the server has one socket more for each
-- address, in order, with the descriptor that was opened for it; otherwise it fails, and the server has none.
pub bind_all_lem :
    (targets : List Target) (fails : List Endpoint) (server : TcpServer)
    → ((bind_all targets fails server).2 ≡ fails ++ refused targets)
      × ((bind_all targets fails server).1 ≡ is_empty (fails ++ refused targets))
      × (map sock_of (bind_all targets fails server).0.socks ≡ (
          if is_empty (fails ++ refused targets)
          then map sock_of server.socks ++ granted targets
          else []))
unfolding bind_all
bind_all_lem targets fails server =
    let each = bind_each_lem targets in
    rw each.0 (elim (Bool-cases (is_empty (fails ++ refused targets))) [
      | inl e ↦ rw e (
        refl,
        refl,
        map-append server.socks (bind_each targets).0
            ∙ ap (λ l. map sock_of server.socks ++ l) each.1,
      )
      | inr e ↦ rw e (refl, refl, refl)
    ])

abbrev pub closed_fds : List (Option ℕ) → List Call
closed_fds [] = []
closed_fds (none ∷ fds) = closed_fds fds
closed_fds (some fd ∷ fds) = cancels fd ∷ (closes fd ∷ closed_fds fds)

close-calls :
    (s : Socket) (o : Option ℕ) (socks : List Socket)
    → s.sock ≡ o
    → close_each socks ≡ closed_fds (map sock_of socks)
    → close_each (s ∷ socks) ≡ closed_fds (map sock_of (s ∷ socks))
unfolding close
close-calls s none socks e later = rw e later
close-calls s (some fd) socks e later = rw e (ap (λ l. cancels fd ∷ (closes fd ∷ l)) later)

close_each_lem : (socks : List Socket) → close_each socks ≡ closed_fds (map sock_of socks)
unfolding close_each
close_each_lem [] = refl
close_each_lem (s ∷ socks) = close-calls s s.sock socks refl (close_each_lem socks)

-- A running server that is started again after stop, before the function that stop scheduled has run, schedules the
-- accept loops behind that function, on the same sockets; the function then closes the descriptors of all of them
-- and leaves the server without sockets, though it runs.
start-stop :
    (server : TcpServer)
    → let again = start (stop server) in
      (again.accept_tasks ≡ server.accept_tasks ++ (closes_all ∷ map accepts_on server.socks))
      × ((close_socks again).0.is_stop ≡ false)
      × ((close_socks again).0.socks ≡ [])
      × ((close_socks again).1 ≡ closed_fds (map sock_of server.socks))
unfolding start stop close_socks
start-stop server = (
  append_assoc server.accept_tasks (closes_all ∷ []) (map accepts_on server.socks),
  refl,
  refl,
  close_each_lem server.socks,
)
