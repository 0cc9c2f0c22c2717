-- ===== src/Socket/Runs.antt =====
-- Runs of operations on one socket: the descriptor and the addresses that it keeps, the calls it makes.
use sylar.Common.{
  ℕ, zero, suc, ◌-◌, ◌^◌, ◌≡◌, refl, ap, ◌∙◌, inl, inr, Bool, true, false, not, ◌&&◌, ◌||◌, Option,
  none, some, List, [], ◌∷◌, ◌++◌, replicate, ◌==◌, Bool-cases, if◌then◌else◌, arith,
}
use sylar.FdManager.{FdCtx}
use sylar.Socket.{
  Endpoint, Socket, Transfer, Call, opens, sets_option, binds, connects, connects_within, listens,
  closes, transfers, cancels, accepts_from, asks_option, sets_timeout, init, tcp, is_open_socket,
  set_socket_timeout, Answers, is_valid, close, bind_on, bind, connect_call, connect_on, connect,
  connect_failed, made_valid, new_sock, listen, transfer, get_local_address, get_remote_address,
  Operation, does_bind, does_connect, does_listen, does_close, asks_local, asks_remote,
  does_transfer, does_init, does_accept, does_get_option, does_set_option, does_set_timeout,
  does_cancel, step, run,
}

-- A call on this descriptor.
abbrev is_on : ℕ → Call → Bool
is_on fd (opens family type protocol) = false
is_on fd (sets_option other level option) = other == fd
is_on fd (binds other address) = other == fd
is_on fd (connects other address) = other == fd
is_on fd (connects_within other address timeout_ms) = other == fd
is_on fd (listens other backlog) = other == fd
is_on fd (closes other) = other == fd
is_on fd (transfers other call t) = other == fd
is_on fd (cancels other) = other == fd
is_on fd (accepts_from other) = other == fd
is_on fd (asks_option other level option) = other == fd
is_on fd (sets_timeout other option sec usec) = other == fd

abbrev pub all_on : ℕ → List Call → Bool
all_on fd [] = true
all_on fd (c ∷ calls) = is_on fd c && all_on fd calls

same_fd : (fd : ℕ) → (fd == fd) ≡ true
same_fd fd = ground arith

-- What a step on the descriptor `fd` keeps to.
abbrev Stays : ℕ → Socket × List Call → Type 0
Stays fd done = (done.0.sock ≡ some fd) × (all_on fd done.1 ≡ true)

bind-Stays :
    (answers : Answers) (address : Endpoint) (s : Socket) (fd : ℕ)
    → s.sock ≡ some fd
    → Stays fd (step answers (does_bind address) s)
unfolding step bind bind_on made_valid get_local_address
bind-Stays answers address s fd e = rw e (elim (Bool-cases (address.family == s.family)) [
  | inl same ↦ rw same (elim (Bool-cases answers.succeeds) [
    | inl won ↦ rw won (refl, rw (same_fd fd) refl)
    | inr lost ↦ rw lost (refl, rw (same_fd fd) refl)
  ])
  | inr other ↦ rw other (refl, refl)
])

connect_call-is_on :
    (fd : ℕ) (address : Endpoint) (timeout_ms : ℕ)
    → is_on fd (connect_call fd address timeout_ms) ≡ true
connect_call-is_on fd address timeout_ms = elim (Bool-cases (timeout_ms == 2 ^ 64 - 1)) [
  | inl e ↦ rw e (same_fd fd)
  | inr e ↦ rw e (same_fd fd)
]

connect_failed-Stays :
    (fd : ℕ) (timeout_ms : ℕ) (s : Socket) (c : Call)
    → is_on fd c ≡ true
    → s.sock ≡ some fd
    → ((connect_failed timeout_ms s (c ∷ [])).0.sock ≡ some fd)
      × (all_on fd (connect_failed timeout_ms s (c ∷ [])).2 ≡ true)
unfolding close
connect_failed-Stays fd timeout_ms s c on e = rw e (elim (Bool-cases (timeout_ms == 2 ^ 64 - 1)) [
  | inl unlimited ↦ rw unlimited (refl, rw on (rw (same_fd fd) refl))
  | inr limited ↦ rw limited (refl, rw on refl)
])

connect-Stays :
    (answers : Answers) (address : Endpoint) (timeout_ms : ℕ) (s : Socket) (fd : ℕ)
    → s.sock ≡ some fd
    → Stays fd (step answers (does_connect address timeout_ms) s)
unfolding step connect connect_on made_valid get_local_address get_remote_address
connect-Stays answers address timeout_ms s fd e =
    let on = connect_call-is_on fd address timeout_ms in
    rw e (elim (Bool-cases (address.family == s.family)) [
      | inl same ↦ rw same (elim (Bool-cases answers.succeeds) [
        | inl won ↦ rw won (refl, rw on refl)
        | inr lost ↦ rw lost (
            connect_failed-Stays fd timeout_ms (record s { sock = some fd })
              (connect_call fd address timeout_ms) on refl)
      ])
      | inr other ↦ rw other (refl, refl)
    ])

transfer-Stays :
    (answers : Answers) (t : Transfer) (s : Socket) (fd : ℕ)
    → s.sock ≡ some fd
    → Stays fd (step answers (does_transfer t) s)
unfolding step transfer
transfer-Stays answers t s fd e = rw e (elim (Bool-cases s.is_connected) [
  | inl up ↦ rw up (refl, rw (same_fd fd) refl)
  | inr down ↦ rw down (refl, refl)
])

-- The descriptor behind an operation: init takes a new one, if it is that of an open socket.
abbrev pub fd_after : ℕ → Operation → ℕ
fd_after fd (does_init ctx new) = if is_open_socket ctx then new else fd
fd_after fd op = fd

init-Stays :
    (answers : Answers) (ctx : Option FdCtx) (new : ℕ) (s : Socket) (fd : ℕ)
    → s.sock ≡ some fd
    → Stays (fd_after fd (does_init ctx new)) (step answers (does_init ctx new) s)
unfolding step init get_local_address get_remote_address
init-Stays answers ctx new s fd e = elim (Bool-cases (is_open_socket ctx)) [
  | inl taken ↦ rw taken (elim (Bool-cases (s.type == tcp)) [
    | inl stream ↦ rw stream (refl, rw (same_fd new) refl)
    | inr other ↦ rw other (refl, rw (same_fd new) refl)
  ])
  | inr closed ↦ rw closed (e, refl)
]

step-Stays :
    (answers : Answers) (op : Operation) (s : Socket) (fd : ℕ)
    → s.sock ≡ some fd
    → Stays (fd_after fd op) (step answers op s)
unfolding step listen close get_local_address get_remote_address set_socket_timeout
step-Stays answers (does_bind address) s fd e = bind-Stays answers address s fd e
step-Stays answers (does_connect address timeout_ms) s fd e =
    connect-Stays answers address timeout_ms s fd e
step-Stays answers (does_listen backlog) s fd e = rw e (refl, rw (same_fd fd) refl)
step-Stays answers does_close s fd e = rw e (refl, rw (same_fd fd) refl)
step-Stays answers asks_local s fd e = (e, refl)
step-Stays answers asks_remote s fd e = (e, refl)
step-Stays answers (does_transfer t) s fd e = transfer-Stays answers t s fd e
step-Stays answers (does_init ctx new) s fd e = init-Stays answers ctx new s fd e
step-Stays answers does_accept s fd e = rw e (refl, rw (same_fd fd) refl)
step-Stays answers (does_get_option level option) s fd e = rw e (refl, rw (same_fd fd) refl)
step-Stays answers (does_set_option level option) s fd e = rw e (refl, rw (same_fd fd) refl)
step-Stays answers (does_set_timeout receiving v) s fd e = rw e (refl, rw (same_fd fd) refl)
step-Stays answers does_cancel s fd e = rw e (refl, rw (same_fd fd) refl)

-- The descriptor behind a run of operations.
abbrev pub fd_after_all : ℕ → List (Answers × Operation) → ℕ
fd_after_all fd [] = fd
fd_after_all fd ((answers, op) ∷ ops) = fd_after_all (fd_after fd op) ops

-- At each operation of the run, its calls are all on the descriptor behind it.
abbrev pub AreOn : ℕ → Socket → List (Answers × Operation) → Type 0
AreOn fd s [] = Unit
AreOn fd s ((answers, op) ∷ ops) =
    (all_on (fd_after fd op) (step answers op s).1 ≡ true)
    × AreOn (fd_after fd op) (step answers op s).0 ops

-- A socket that has a descriptor keeps it through every run of the public operations, close included, whatever the
-- system answers, until an init takes the descriptor of an open socket; and every call of an operation is on the
-- descriptor that the socket has behind it.
pub run-Stays :
    (ops : List (Answers × Operation)) (s : Socket) (fd : ℕ)
    → s.sock ≡ some fd
    → ((run ops s).0.sock ≡ some (fd_after_all fd ops)) × AreOn fd s ops
unfolding run
run-Stays [] s fd e = (e, tt)
run-Stays ((answers, op) ∷ ops) s fd e =
    let first = step-Stays answers op s fd e in
    let later = run-Stays ops (step answers op s).0 (fd_after fd op) first.0 in
    (later.0, (first.1, later.1))

-- A connected socket has a descriptor.
abbrev pub is_consistent : Socket → Bool
is_consistent s = not s.is_connected || is_valid s

valid-consistent : (s : Socket) (fd : ℕ) → s.sock ≡ some fd → is_consistent s ≡ true
valid-consistent s fd e =
    rw e (elim (Bool-cases s.is_connected) [ inl up ↦ rw up refl | inr down ↦ rw down refl ])

unconnected-consistent : (s : Socket) → s.is_connected ≡ false → is_consistent s ≡ true
unconnected-consistent s down = rw down refl

-- Bind does not connect.
bind_on-is_connected :
    (answers : Answers) (address : Endpoint) (s : Socket) (calls : List Call) (o : Option ℕ)
    → s.sock ≡ o
    → (bind_on answers address s calls).0.is_connected ≡ s.is_connected
unfolding bind_on get_local_address
bind_on-is_connected answers address s calls none e = rw e refl
bind_on-is_connected answers address s calls (some fd) e =
    rw e (elim (Bool-cases (address.family == s.family)) [
      | inl same ↦
          rw same
            (elim (Bool-cases answers.succeeds) [ inl won ↦ rw won refl | inr lost ↦ rw lost refl ])
      | inr other ↦ rw other refl
    ])

bind_unopened :
    (answers : Answers) (address : Endpoint) (s : Socket)
    → s.sock ≡ none
    → s.is_connected ≡ false
    → (step answers (does_bind address) s).0.is_connected ≡ false
unfolding step bind made_valid new_sock
bind_unopened answers address s e down = rw e (
    bind_on-is_connected answers address (made_valid answers.opened (record s { sock = none })).0
      (made_valid answers.opened (record s { sock = none })).1 answers.opened refl
    ∙ down)

connect_failed-sock :
    (timeout_ms fd : ℕ) (s : Socket) (calls : List Call)
    → s.sock ≡ some fd
    → (connect_failed timeout_ms s calls).0.sock ≡ some fd
unfolding close
connect_failed-sock timeout_ms fd s calls e = rw e (elim (Bool-cases (timeout_ms == 2 ^ 64 - 1)) [
  | inl unlimited ↦ rw unlimited refl
  | inr limited ↦ rw limited refl
])

connect_on-consistent :
    (answers : Answers) (address : Endpoint) (timeout_ms : ℕ) (s : Socket) (calls : List Call)
    (o : Option ℕ)
    → s.sock ≡ o
    → s.is_connected ≡ false
    → is_consistent (connect_on answers address timeout_ms s calls).0 ≡ true
unfolding connect_on get_local_address get_remote_address
connect_on-consistent answers address timeout_ms s calls none e down = rw (e, down) refl
connect_on-consistent answers address timeout_ms s calls (some fd) e down =
    rw e (elim (Bool-cases (address.family == s.family)) [
      | inl same ↦ rw same (elim (Bool-cases answers.succeeds) [
        | inl won ↦ rw won refl
        | inr lost ↦ rw lost (
            valid-consistent
              (connect_failed timeout_ms (record s { sock = some fd })
                (calls ++ (connect_call fd address timeout_ms ∷ []))).0
              fd
              (connect_failed-sock timeout_ms fd (record s { sock = some fd })
                (calls ++ (connect_call fd address timeout_ms ∷ [])) refl))
      ])
      | inr other ↦ rw other (valid-consistent (record s { sock = some fd }) fd refl)
    ])

connect_unopened :
    (answers : Answers) (address : Endpoint) (timeout_ms : ℕ) (s : Socket)
    → s.sock ≡ none
    → s.is_connected ≡ false
    → is_consistent (step answers (does_connect address timeout_ms) s).0 ≡ true
unfolding step connect made_valid new_sock
connect_unopened answers address timeout_ms s e down = rw e (
    connect_on-consistent answers address timeout_ms
      (made_valid answers.opened (record s { sock = none })).0
      (made_valid answers.opened (record s { sock = none })).1 answers.opened refl down)

init-consistent :
    (answers : Answers) (ctx : Option FdCtx) (new : ℕ) (s : Socket)
    → s.is_connected ≡ false
    → is_consistent (step answers (does_init ctx new) s).0 ≡ true
unfolding step init get_local_address get_remote_address
init-consistent answers ctx new s down = elim (Bool-cases (is_open_socket ctx)) [
  | inl taken ↦ rw taken refl
  | inr closed ↦ rw closed (rw down refl)
]

-- On a socket without a descriptor.
step-unopened :
    (answers : Answers) (op : Operation) (s : Socket)
    → s.sock ≡ none
    → s.is_connected ≡ false
    → is_consistent (step answers op s).0 ≡ true
unfolding step listen close get_local_address get_remote_address
step-unopened answers (does_bind address) s e down =
    unconnected-consistent (step answers (does_bind address) s).0
      (bind_unopened answers address s e down)
step-unopened answers (does_connect address timeout_ms) s e down =
    connect_unopened answers address timeout_ms s e down
step-unopened answers (does_listen backlog) s e down = rw e (rw down refl)
step-unopened answers does_close s e down = rw e refl
step-unopened answers asks_local s e down =
    unconnected-consistent (step answers asks_local s).0 down
step-unopened answers asks_remote s e down =
    unconnected-consistent (step answers asks_remote s).0 down
step-unopened answers (does_transfer t) s e down = unconnected-consistent s down
step-unopened answers (does_init ctx new) s e down = init-consistent answers ctx new s down
step-unopened answers does_accept s e down = unconnected-consistent s down
step-unopened answers (does_get_option level option) s e down = unconnected-consistent s down
step-unopened answers (does_set_option level option) s e down = unconnected-consistent s down
step-unopened answers (does_set_timeout receiving v) s e down = unconnected-consistent s down
step-unopened answers does_cancel s e down = unconnected-consistent s down

step-consistent :
    (answers : Answers) (op : Operation) (s : Socket) (o : Option ℕ)
    → s.sock ≡ o
    → is_consistent s ≡ true
    → is_consistent (step answers op s).0 ≡ true
step-consistent answers op s (some fd) e kept =
    valid-consistent (step answers op s).0 (fd_after fd op) (step-Stays answers op s fd e).0
step-consistent answers op s none e kept = elim (Bool-cases s.is_connected) [
  | inr down ↦ step-unopened answers op s e down
  | inl up ↦ cc (rw (up, e) at kept)
]

-- After every run of operations on a socket of which this held before, whatever the system answers, the socket
-- is connected only if it has a descriptor.
run-consistent :
    (ops : List (Answers × Operation)) (s : Socket)
    → is_consistent s ≡ true
    → is_consistent (run ops s).0 ≡ true
unfolding run
run-consistent [] s kept = kept
run-consistent ((answers, op) ∷ ops) s kept =
    run-consistent ops (step answers op s).0 (step-consistent answers op s s.sock refl kept)

-- Closing a socket with a descriptor closes the same descriptor each time, however often it is done.
run-closes :
    (answers : Answers) (n : ℕ) (s : Socket) (fd : ℕ)
    → s.sock ≡ some fd
    → (run (replicate n (answers, does_close)) s).1 ≡ replicate n (closes fd)
unfolding run step close
run-closes answers zero s fd e = refl
run-closes answers (suc n) s fd e = rw e (
    ap (λ calls. closes fd ∷ calls)
      (run-closes answers n (record s { sock = some fd; is_connected = false }) fd refl))
