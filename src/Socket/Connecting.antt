-- ===== src/Socket/Connecting.antt =====
-- What bind and connect return, and which addresses a socket remembers.
use sylar.Common.{
  ℕ, ◌-◌, ◌^◌, ◌≡◌, refl, ◌∙◌, inl, inr, Bool, true, not, ◌&&◌, ◌||◌, Option, none, some, List, [],
  ◌∷◌, ◌++◌, ◌==◌, Bool-cases, if◌then◌else◌,
}
use sylar.FdManager.{FdCtx}
use sylar.Socket.{
  Endpoint, Socket, Call, closes, Answers, has_fd, new_sock, made_valid, cached, close, bind_on,
  bind, connect_call, connect_failed, connect_on, connect, listen, get_local_address,
  get_remote_address, Operation, does_bind, does_connect, does_listen, does_close, asks_local,
  asks_remote, does_transfer, does_init, does_accept, does_get_option, does_set_option,
  does_set_timeout, does_cancel, init, is_open_socket, step, run,
}

-- The descriptor that bind uses.
abbrev pub fd_for : Answers → Socket → Option ℕ
fd_for answers s = cached s.sock answers.opened

bind_on-result :
    (answers : Answers) (address : Endpoint) (s : Socket) (calls : List Call) (o : Option ℕ)
    → s.sock ≡ o
    → (bind_on answers address s calls).1
      ≡ has_fd o && (address.family == s.family && answers.succeeds)
unfolding bind_on
bind_on-result answers address s calls none e = rw e refl
bind_on-result answers address s calls (some fd) e =
    rw e (elim (Bool-cases (address.family == s.family)) [
      | inl same ↦
          rw same
            (elim (Bool-cases answers.succeeds) [ inl won ↦ rw won refl | inr lost ↦ rw lost refl ])
      | inr other ↦ rw other refl
    ])

bind-result_of :
    (answers : Answers) (address : Endpoint) (s : Socket) (o : Option ℕ)
    → s.sock ≡ o
    → (bind answers address s).1
      ≡ has_fd (cached o answers.opened) && (address.family == s.family && answers.succeeds)
unfolding bind made_valid new_sock
bind-result_of answers address s none e = rw e (
    bind_on-result answers address (made_valid answers.opened (record s { sock = none })).0
      (made_valid answers.opened (record s { sock = none })).1 answers.opened refl)
bind-result_of answers address s (some fd) e =
    rw e (bind_on-result answers address (record s { sock = some fd }) [] (some fd) refl)

-- Bind succeeds exactly if the socket has a descriptor or the system opens one, the families agree and the
-- call of the system succeeds.
bind-result :
    (answers : Answers) (address : Endpoint) (s : Socket)
    → (bind answers address s).1
      ≡ has_fd (fd_for answers s) && (address.family == s.family && answers.succeeds)
bind-result answers address s = bind-result_of answers address s s.sock refl

-- Whether connect has a limit.
abbrev pub is_limited : ℕ → Bool
is_limited timeout_ms = not (timeout_ms == 2 ^ 64 - 1)

-- On a socket with a descriptor and an address of its family, connect makes one call, and returns whether it
-- succeeded. When it fails, the descriptor is closed and the socket disconnected if there was no limit, and the
-- socket is as connected as before, its descriptor open, if there was one.
connect-result :
    (answers : Answers) (address : Endpoint) (timeout_ms : ℕ) (s : Socket) (fd : ℕ)
    → s.sock ≡ some fd
    → (address.family == s.family) ≡ true
    → ((connect answers address timeout_ms s).1 ≡ answers.succeeds)
      × ((connect answers address timeout_ms s).0.is_connected
          ≡ answers.succeeds || (s.is_connected && is_limited timeout_ms))
      × ((connect answers address timeout_ms s).2
          ≡ connect_call fd address timeout_ms
            ∷ (if answers.succeeds || is_limited timeout_ms then [] else closes fd ∷ []))
unfolding connect connect_on made_valid get_local_address get_remote_address close
connect-result answers address timeout_ms s fd e same = rw e (
    rw same (elim (Bool-cases answers.succeeds) [
      | inl won ↦ rw won (refl, refl, refl)
      | inr lost ↦ rw lost (elim (Bool-cases (timeout_ms == 2 ^ 64 - 1)) [
        | inl unlimited ↦ rw unlimited (
          refl,
          (elim (Bool-cases s.is_connected) [ inl up ↦ rw up refl | inr down ↦ rw down refl ]),
          refl,
        )
        | inr limited ↦ rw limited (
          refl,
          (elim (Bool-cases s.is_connected) [ inl up ↦ rw up refl | inr down ↦ rw down refl ]),
          refl,
        )
      ])
    ]))

-- The remembered addresses.
abbrev Remembers : Endpoint → Socket → Type 0
Remembers a s = s.remote_address ≡ some a

bind_on-remote :
    (answers : Answers) (address : Endpoint) (s : Socket) (calls : List Call) (o : Option ℕ)
    → s.sock ≡ o
    → (bind_on answers address s calls).0.remote_address ≡ s.remote_address
unfolding bind_on get_local_address
bind_on-remote answers address s calls none e = rw e refl
bind_on-remote answers address s calls (some fd) e =
    rw e (elim (Bool-cases (address.family == s.family)) [
      | inl same ↦
          rw same
            (elim (Bool-cases answers.succeeds) [ inl won ↦ rw won refl | inr lost ↦ rw lost refl ])
      | inr other ↦ rw other refl
    ])

made_valid-remote :
    (opened : Option ℕ) (s : Socket) (o : Option ℕ)
    → s.sock ≡ o
    → (made_valid opened s).0.remote_address ≡ s.remote_address
unfolding made_valid new_sock
made_valid-remote opened s none e = rw e refl
made_valid-remote opened s (some fd) e = rw e refl

close-remote :
    (s : Socket) (o : Option ℕ) → s.sock ≡ o → (close s).0.remote_address ≡ s.remote_address
unfolding close
close-remote s none e = rw e refl
close-remote s (some fd) e = rw e refl

connect_failed-remote :
    (timeout_ms : ℕ) (s : Socket) (calls : List Call)
    → (connect_failed timeout_ms s calls).0.remote_address ≡ s.remote_address
unfolding connect_failed
connect_failed-remote timeout_ms s calls = elim (Bool-cases (timeout_ms == 2 ^ 64 - 1)) [
  | inl unlimited ↦ rw unlimited (close-remote s s.sock refl)
  | inr limited ↦ rw limited refl
]

connect_on-Remembers :
    (a : Endpoint) (answers : Answers) (address : Endpoint) (timeout_ms : ℕ) (s : Socket)
    (calls : List Call) (o : Option ℕ)
    → s.sock ≡ o
    → Remembers a s
    → Remembers a (connect_on answers address timeout_ms s calls).0
unfolding connect_on get_local_address get_remote_address
connect_on-Remembers a answers address timeout_ms s calls none e known = rw e known
connect_on-Remembers a answers address timeout_ms s calls (some fd) e known =
    rw e (elim (Bool-cases (address.family == s.family)) [
      | inl same ↦ rw same (elim (Bool-cases answers.succeeds) [
        | inl won ↦ rw won (rw known refl)
        | inr lost ↦ rw lost (
            connect_failed-remote timeout_ms (record s { sock = some fd })
              (calls ++ (connect_call fd address timeout_ms ∷ []))
            ∙ known)
      ])
      | inr other ↦ rw other known
    ])

listen-remote :
    (answers : Answers) (backlog : ℕ) (s : Socket) (o : Option ℕ)
    → s.sock ≡ o
    → (listen answers backlog s).0.remote_address ≡ s.remote_address
unfolding listen
listen-remote answers backlog s none e = rw e refl
listen-remote answers backlog s (some fd) e = rw e refl

init-Remembers :
    (a : Endpoint) (answers : Answers) (ctx : Option FdCtx) (new : ℕ) (s : Socket)
    → Remembers a s
    → Remembers a (step answers (does_init ctx new) s).0
unfolding step init get_local_address get_remote_address
init-Remembers a answers ctx new s known = elim (Bool-cases (is_open_socket ctx)) [
  | inl taken ↦ rw taken (rw known refl)
  | inr closed ↦ rw closed known
]

step-Remembers :
    (a : Endpoint) (answers : Answers) (op : Operation) (s : Socket)
    → Remembers a s
    → Remembers a (step answers op s).0
unfolding step bind connect get_local_address get_remote_address
step-Remembers a answers (does_bind address) s known =
    let made = made_valid answers.opened s in
    bind_on-remote answers address made.0 made.1 made.0.sock refl
    ∙ (made_valid-remote answers.opened s s.sock refl ∙ known)
step-Remembers a answers (does_connect address timeout_ms) s known =
    let made = made_valid answers.opened s in
    connect_on-Remembers a answers address timeout_ms made.0 made.1 made.0.sock refl
      (made_valid-remote answers.opened s s.sock refl ∙ known)
step-Remembers a answers (does_listen backlog) s known =
    listen-remote answers backlog s s.sock refl ∙ known
step-Remembers a answers does_close s known = close-remote s s.sock refl ∙ known
step-Remembers a answers asks_local s known = known
step-Remembers a answers asks_remote s known = rw known refl
step-Remembers a answers (does_transfer t) s known = known
step-Remembers a answers (does_init ctx new) s known = init-Remembers a answers ctx new s known
step-Remembers a answers does_accept s known = known
step-Remembers a answers (does_get_option level option) s known = known
step-Remembers a answers (does_set_option level option) s known = known
step-Remembers a answers (does_set_timeout receiving v) s known = known
step-Remembers a answers does_cancel s known = known

-- Once a socket knows the address of its peer, getRemoteAddress returns that address after every run of
-- operations, closing, connecting to another address and init included.
pub run-get_remote_address :
    (ops : List (Answers × Operation)) (a : Endpoint) (answer : Option Endpoint) (s : Socket)
    → s.remote_address ≡ some a
    → (get_remote_address answer (run ops s).0).1 ≡ a
unfolding run get_remote_address
run-get_remote_address [] a answer s known = rw known refl
run-get_remote_address ((answers, op) ∷ ops) a answer s known =
    run-get_remote_address ops a answer (step answers op s).0 (step-Remembers a answers op s known)
