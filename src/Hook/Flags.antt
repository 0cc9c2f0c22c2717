-- ===== src/Hook/Flags.antt =====
-- What fcntl and setsockopt let a user see, and how long the other calls wait.
use sylar.Common.{
  ℕ, suc, ◌+◌, ◌-◌, ◌*◌, ◌/◌, ◌%◌, ◌^◌, ◌≤◌, ◌<◌, ◌≡◌, refl, ap, ◌∙◌, arith, inl, inr, Bool, true,
  false, not, some, set, ◌==◌, Bool-cases,
}
use sylar.Common.Outcome.{ok}
use sylar.FdManager.{FdCtx, FdManager, entry, set_timeout, get_timeout}
use sylar.FdManager.Table.{entry-set, entry-lt}
use sylar.Hook.Calls.{
  has_nonblock, with_nonblock, managed, fcntl_setfl, fcntl_getfl, timeout_option, note_option,
  setsockopt, sleep_ms, usleep_ms, nanosleep_ms,
}

has_nonblock-with_nonblock : (b : Bool) (flags : ℕ) → has_nonblock (with_nonblock b flags) ≡ b
has_nonblock-with_nonblock true flags = elim (Bool-cases (has_nonblock flags)) [
  | inl e ↦ rw e e
  | inr e ↦
      let next : (flags + 2048) / 2048 ≡ flags / 2048 + 1 = omega arith in
      rw e (ground (arith, e, next))
]
has_nonblock-with_nonblock false flags = elim (Bool-cases (has_nonblock flags)) [
  | inl e ↦
      let odd : flags / 2048 % 2 ≡ 1 = ground (arith, e) in
      let less : (flags - 2048) / 2048 ≡ flags / 2048 - 1 = omega arith in
      rw e (ground (arith, odd, less))
  | inr e ↦ rw e e
]

-- The bit that was there before, put back.
with_nonblock-with_nonblock :
    (b : Bool) (flags : ℕ) → with_nonblock (has_nonblock flags) (with_nonblock b flags) ≡ flags
with_nonblock-with_nonblock true flags = elim (Bool-cases (has_nonblock flags)) [
  | inl e ↦ rw e (rw e refl)
  | inr e ↦
      let set_now : has_nonblock (flags + 2048) ≡ true =
        rw e at (has_nonblock-with_nonblock true flags) in
      rw e (rw set_now (omega arith))
]
with_nonblock-with_nonblock false flags = elim (Bool-cases (has_nonblock flags)) [
  | inl e ↦
      let clear_now : has_nonblock (flags - 2048) ≡ false =
        rw e at (has_nonblock-with_nonblock false flags) in
      let odd : flags / 2048 % 2 ≡ 1 = ground (arith, e) in rw e (rw clear_now (omega arith))
  | inr e ↦ rw e (rw e refl)
]

entry-put :
    (fd : ℕ) (c new : FdCtx) (m : FdManager)
    → entry fd m.datas ≡ some c
    → entry fd (set m.datas fd (some new)) ≡ some new
entry-put fd c new m e =
    let same : (fd == fd) ≡ true = ground arith in
    entry-set m.datas fd fd (some new) (entry-lt m.datas fd e) ∙ (rw same refl)

setfl_lem :
    (fd arg : ℕ) (m : FdManager) (c : FdCtx)
    → entry fd m.datas ≡ some c
    → managed (some c) ≡ true
    → fcntl_setfl fd arg m ≡ (
      record m { datas = set m.datas fd (some (record c { user_nonblock = has_nonblock arg })) },
      with_nonblock c.sys_nonblock arg,
    )
unfolding fcntl_setfl
setfl_lem fd arg m c e ours = rw (e, ours) refl

getfl_lem :
    (fd flags : ℕ) (m : FdManager) (c : FdCtx)
    → entry fd m.datas ≡ some c
    → managed (some c) ≡ true
    → fcntl_getfl fd flags m ≡ with_nonblock c.user_nonblock flags
unfolding fcntl_getfl
getfl_lem fd flags m c e ours = rw (e, ours) refl

-- On an open socket the argument that fcntl(F_SETFL) passes to the system has O_NONBLOCK exactly when the
-- framework set it on the descriptor, whatever the user asks for; and F_GETFL, when the system answers with those
-- flags, shows the user the very flags that he set.
pub fcntl_getfl-fcntl_setfl :
    (fd arg : ℕ) (m : FdManager) (c : FdCtx)
    → entry fd m.datas ≡ some c
    → c.is_closed ≡ false
    → c.is_socket ≡ true
    → (has_nonblock (fcntl_setfl fd arg m).1 ≡ c.sys_nonblock)
      × (fcntl_getfl fd (fcntl_setfl fd arg m).1 (fcntl_setfl fd arg m).0 ≡ arg)
fcntl_getfl-fcntl_setfl fd arg m c e is_open socket =
    let new = record c { user_nonblock = has_nonblock arg } in
    let after = record m { datas = set m.datas fd (some new) } in
    let word = with_nonblock c.sys_nonblock arg in
    let ours : managed (some c) ≡ true = rw (is_open, socket) refl in
    let done : fcntl_setfl fd arg m ≡ (after, word) = setfl_lem fd arg m c e ours in
    let seen : fcntl_getfl fd word after ≡ arg =
      getfl_lem fd word after new (entry-put fd c new m e) ours
      ∙ with_nonblock-with_nonblock c.sys_nonblock arg in
    (
      ap (λ r. has_nonblock r.1) done ∙ has_nonblock-with_nonblock c.sys_nonblock arg,
      ap (λ r. fcntl_getfl fd r.1 r.0) done ∙ seen,
    )

stored_limit : (b : Bool) (v : ℕ) (c : FdCtx) → get_timeout b (set_timeout b v c) ≡ v
unfolding get_timeout set_timeout
stored_limit true v c = refl
stored_limit false v c = refl

other_limit :
    (b : Bool) (v : ℕ) (c : FdCtx) → get_timeout (not b) (set_timeout b v c) ≡ get_timeout (not b) c
unfolding get_timeout set_timeout
other_limit true v c = refl
other_limit false v c = refl

-- After setsockopt of a time limit with the hook on, the limit in that direction of a descriptor that the
-- framework knows is that time in milliseconds, rounded down, and the one in the other direction as before.
setsockopt-get_timeout :
    (fuel : ℕ) (receiving : Bool) (sec usec fd : ℕ) (m : FdManager) (c : FdCtx)
    → entry fd m.datas ≡ some c
    → sec * 1000 + usec / 1000 < 2 ^ 64
    → (after : FdManager) × (d : FdCtx) × (setsockopt
          (suc fuel)
          true
          (timeout_option receiving)
          sec
          usec
          fd
          m
        ≡ ok after)
      × (entry fd after.datas ≡ some d)
      × (get_timeout receiving d ≡ sec * 1000 + usec / 1000)
      × (get_timeout (not receiving) d ≡ get_timeout (not receiving) c)
unfolding setsockopt note_option
setsockopt-get_timeout fuel receiving sec usec fd m c e small =
    let v = (sec * 1000 + usec / 1000) % 2 ^ 64 in
    let d = set_timeout receiving v c in
    let whole : v ≡ sec * 1000 + usec / 1000 = omega arith in
    (
      record m { datas = set m.datas fd (some d) },
      d,
      rw e refl,
      entry-put fd c d m e,
      stored_limit receiving v c ∙ whole,
      other_limit receiving v c,
    )

-- The timers of the sleeping calls, in milliseconds: that of sleep is the time asked for below 2^32 ms,
-- those of usleep and nanosleep are the time rounded down, the latter for less than 2^31 ms.
sleeping_time :
    (seconds usec sec nsec : ℕ)
    → seconds * 1000 < 2 ^ 32
    → sec * 1000 + nsec / 1000000 < 2 ^ 31
    → (sleep_ms seconds ≡ seconds * 1000)
      × (usleep_ms usec * 1000 ≤ usec)
      × (usec < usleep_ms usec * 1000 + 1000)
      × (nanosleep_ms sec nsec ≡ sec * 1000 + nsec / 1000000)
sleeping_time seconds usec sec nsec h k =
    let nested : nsec / 1000 / 1000 ≡ nsec / 1000000 = omega arith in
    let whole : (sec * 1000 + nsec / 1000 / 1000) % 2 ^ 32 ≡ sec * 1000 + nsec / 1000000 =
      omega arith in
    (omega arith, omega arith, omega arith, rw whole (ground (arith, k)))
