-- ===== src/FdManager.antt =====
-- sylar/fd_manager.cpp: what is known of each file descriptor. fstat's answer is an argument (none if it
-- fails, else whether the descriptor is a socket), and so is the O_NONBLOCK flag that fcntl reports.
pub mod Table
mod Examples
use sylar.Common.{
  ℕ, ◌+◌, ◌-◌, ◌*◌, ◌/◌, ◌^◌, Bool, true, false, not, ◌&&◌, Option, none, some, List, [], ◌∷◌, ◌++◌,
  length, get_elem?, set, take, replicate, ltb, if◌then◌else◌,
}
use sylar.Common.Outcome.{Outcome, ok, fault}

pub record FdCtx : Type 0 where
  pub is_init : Bool
  pub is_socket : Bool
  pub sys_nonblock : Bool
  pub user_nonblock : Bool
  pub is_closed : Bool
  pub fd : ℕ
  pub recv_timeout : ℕ
  pub send_timeout : ℕ

-- FdCtx::init; the second result says that it sets O_NONBLOCK.
unfoldable pub init : Option Bool → Bool → FdCtx → FdCtx × Bool
init stat nonblock c =
    if c.is_init
    then (c, false)
    else (let found : Bool = elim stat [ none ↦ false | some s ↦ true ] in
        let socket : Bool = elim stat [ none ↦ false | some s ↦ s ] in
        (
          record c {
            is_init = found;
            is_socket = socket;
            sys_nonblock = socket;
            user_nonblock = false;
            recv_timeout = 2 ^ 64 - 1;
            send_timeout = 2 ^ 64 - 1;
          },
          socket && not nonblock,
        ))

unfoldable pub new_fd_ctx : Option Bool → Bool → ℕ → FdCtx
unfolding init
new_fd_ctx stat nonblock fd =
    (init stat nonblock (record {
      is_init = false;
      is_socket = false;
      sys_nonblock = false;
      user_nonblock = false;
      is_closed = false;
      fd = fd;
      recv_timeout = 2 ^ 64 - 1;
      send_timeout = 2 ^ 64 - 1;
    })).0

-- `receiving` is `type == SO_RCVTIMEO`.
unfoldable pub set_timeout : Bool → ℕ → FdCtx → FdCtx
set_timeout receiving v c =
    if receiving then record c { recv_timeout = v } else record c { send_timeout = v }

unfoldable pub get_timeout : Bool → FdCtx → ℕ
get_timeout receiving c = if receiving then c.recv_timeout else c.send_timeout

pub record FdManager : Type 0 where
  pub datas : List (Option FdCtx)

unfoldable pub new_fd_manager : FdManager
new_fd_manager = record { datas = replicate 64 none }

-- vector::resize, with null pointers for new places.
abbrev pub resize : ℕ → List (Option FdCtx) → List (Option FdCtx)
resize size l = take size l ++ replicate (size - length l) none

unfoldable pub enlarged : ℕ → List (Option FdCtx) → List (Option FdCtx)
enlarged fd l = if ltb fd (length l) then l else resize (fd * 3 / 2) l

abbrev pub entry : ℕ → List (Option FdCtx) → Option FdCtx
entry fd l = elim (get_elem? l fd) [ none ↦ none | some o ↦ o ]

unfoldable pub get : Option Bool → Bool → ℕ → Bool → FdManager → Outcome (FdManager × Option FdCtx)
unfolding enlarged new_fd_ctx
get stat nonblock fd auto_create m = elim (entry fd m.datas) [
  | some c ↦ ok (m, some c)
  | none ↦
      let l = enlarged fd m.datas in
      let c = some (new_fd_ctx stat nonblock fd) in
      if not auto_create
      then ok (m, none)
      else (if ltb fd (length l) then ok (record m { datas = set l fd c }, c) else fault)
]

unfoldable pub del : ℕ → FdManager → FdManager
del fd m = record m { datas = set m.datas fd none }
