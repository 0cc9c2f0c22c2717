-- ===== src/Hook/Waiting.antt =====
-- What do_io leaves behind and reports: every timer is cancelled, and neither EINTR nor EAGAIN comes out.
use sylar.Common.{
  ℕ, suc, ◌+◌, ◌≡◌, refl, arith, inl, inr, Bool, true, false, not, ◌&&◌, Option, none, some, List,
  [], ◌∷◌, ◌++◌, ◌==◌, Bool-cases,
}
use sylar.Common.Outcome.{Outcome, ok, OnOk, OnOk-chain}
use sylar.FdManager.{FdCtx, get_timeout}
use sylar.Hook.Io.{is_final}
use sylar.Hook.{
  eintr, eagain, etimedout, SysResult, returned, failed_with, event_comes, timer_fires, Happening,
  Wait, refused, registered, Action, adds_timer, cancels_timer, adds_event, yields, cancels_all,
  IoEnd, has_limit, is_set, timer_added, timer_cancelled, after_wait, wait_for, suspend, retry,
  do_io,
}

abbrev pub added : List Action → ℕ
added [] = 0
added (adds_timer to ∷ l) = suc (added l)
added (cancels_timer ∷ l) = added l
added (adds_event ∷ l) = added l
added (yields ∷ l) = added l
added (cancels_all ∷ l) = added l

abbrev pub cancelled : List Action → ℕ
cancelled [] = 0
cancelled (adds_timer to ∷ l) = cancelled l
cancelled (cancels_timer ∷ l) = suc (cancelled l)
cancelled (adds_event ∷ l) = cancelled l
cancelled (yields ∷ l) = cancelled l
cancelled (cancels_all ∷ l) = cancelled l

added-append : (xs ys : List Action) → added (xs ++ ys) ≡ added xs + added ys
added-append [] ys = omega arith
added-append (adds_timer to ∷ l) ys = omega (arith, added-append l ys)
added-append (cancels_timer ∷ l) ys = added-append l ys
added-append (adds_event ∷ l) ys = added-append l ys
added-append (yields ∷ l) ys = added-append l ys
added-append (cancels_all ∷ l) ys = added-append l ys

cancelled-append : (xs ys : List Action) → cancelled (xs ++ ys) ≡ cancelled xs + cancelled ys
cancelled-append [] ys = omega arith
cancelled-append (adds_timer to ∷ l) ys = cancelled-append l ys
cancelled-append (cancels_timer ∷ l) ys = omega (arith, cancelled-append l ys)
cancelled-append (adds_event ∷ l) ys = cancelled-append l ys
cancelled-append (yields ∷ l) ys = cancelled-append l ys
cancelled-append (cancels_all ∷ l) ys = cancelled-append l ys

abbrev Balanced : List Action → Type 0
Balanced l = added l ≡ cancelled l

Balanced-append : (xs ys : List Action) → Balanced xs → Balanced ys → Balanced (xs ++ ys)
Balanced-append xs ys p q = omega (arith, added-append xs ys, cancelled-append xs ys)

refused-Balanced : (to : ℕ) → Balanced (timer_added to ++ (adds_event ∷ timer_cancelled to))
refused-Balanced to = elim (Bool-cases (has_limit to)) [ inl e ↦ rw e refl | inr e ↦ rw e refl ]

registered-Balanced :
    (to : ℕ) → Balanced (timer_added to ++ (adds_event ∷ (yields ∷ timer_cancelled to)))
registered-Balanced to = elim (Bool-cases (has_limit to)) [ inl e ↦ rw e refl | inr e ↦ rw e refl ]

-- No timer is left, and the result is neither EINTR nor EAGAIN.
abbrev Settled : IoEnd → Type 0
Settled x = Balanced x.actions × (is_final x.result ≡ true)

-- The errors of addEvent, which are those of epoll_ctl, are neither.
abbrev pub Refusals : List Wait → Type 0
Refusals [] = Unit
Refusals (refused errno ∷ waits) = (is_final (failed_with errno) ≡ true) × Refusals waits
Refusals (registered happenings ∷ waits) = Refusals waits

abbrev OnTime : Option ℕ → Type 0
OnTime none = Unit
OnTime (some e) = e ≡ etimedout

wait_for-OnTime :
    (timed : Bool) (c : Option ℕ) (happenings : List Happening)
    → OnTime c
    → OnOk OnTime (wait_for true timed c happenings)
unfolding wait_for
wait_for-OnTime timed c [] h = tt
wait_for-OnTime timed c (event_comes ∷ later) h = h
wait_for-OnTime timed c (timer_fires ∷ later) h = elim (Bool-cases (timed && not (is_set c))) [
  | inl e ↦ rw e refl
  | inr e ↦ rw e (wait_for-OnTime timed c later h)
]

after_wait-Settled :
    (back : List Action → Outcome IoEnd) (replies : List SysResult) (actions : List Action)
    (c : Option ℕ)
    → ((acts : List Action) → Balanced acts → OnOk Settled (back acts))
    → Balanced actions
    → OnTime c
    → OnOk Settled (after_wait back replies actions c)
after_wait-Settled back replies actions none rec h time = rec actions h
after_wait-Settled back replies actions (some e) rec h time = (h, rw time refl)

suspend-Settled :
    (back : List Action → Outcome IoEnd) (to : ℕ) (replies : List SysResult) (actions : List Action)
    (wait : Wait)
    → ((acts : List Action) → Balanced acts → OnOk Settled (back acts))
    → Balanced actions
    → Refusals (wait ∷ [])
    → OnOk Settled (suspend back to replies actions wait)
unfolding suspend
suspend-Settled back to replies actions (refused errno) rec h fine = (
  Balanced-append actions (timer_added to ++ (adds_event ∷ timer_cancelled to)) h
      (refused-Balanced to),
  fine.0,
)
suspend-Settled back to replies actions (registered happenings) rec h fine =
    let step = timer_added to ++ (adds_event ∷ (yields ∷ timer_cancelled to)) in
    let all = Balanced-append actions step h (registered-Balanced to) in
    OnOk-chain OnTime Settled (wait_for true (has_limit to) none happenings)
      (after_wait back replies (actions ++ step))
      (wait_for-OnTime (has_limit to) none happenings tt)
      (λ c time. after_wait-Settled back replies (actions ++ step) c rec all time)

final_error :
    (e : ℕ) → (e == eintr) ≡ false → (e == eagain) ≡ false → is_final (failed_with e) ≡ true
final_error e f g = rw (f, g) refl

first_refusal : (w : Wait) (ws : List Wait) → Refusals (w ∷ ws) → Refusals (w ∷ []) × Refusals ws
first_refusal (refused errno) ws (e, fine) = ((e, tt), fine)
first_refusal (registered happenings) ws fine = (tt, fine)

retry-Settled :
    (to : ℕ) (replies : List SysResult) (waits : List Wait) (actions : List Action)
    → Refusals waits
    → Balanced actions
    → OnOk Settled (retry to replies waits actions)
unfolding retry
retry-Settled to [] waits actions fine h = tt
retry-Settled to (returned n ∷ replies) waits actions fine h = (h, refl)
retry-Settled to (failed_with e ∷ replies) [] actions fine h = elim (Bool-cases (e == eintr)) [
  | inl f ↦ rw f (retry-Settled to replies [] actions fine h)
  | inr f ↦
      rw f
        (elim (Bool-cases (e == eagain)) [ inl g ↦ rw g tt | inr g ↦ rw g (h, final_error e f g) ])
]
retry-Settled to (failed_with e ∷ replies) (w ∷ ws) actions fine h =
    let (this, later) = first_refusal w ws fine in
    elim (Bool-cases (e == eintr)) [
      | inl f ↦ rw f (retry-Settled to replies (w ∷ ws) actions fine h)
      | inr f ↦ rw f (elim (Bool-cases (e == eagain)) [
        | inl g ↦ rw g (
            suspend-Settled (λ acts. retry to replies ws acts) to replies actions w
              (λ acts k. retry-Settled to replies ws acts later k) h this)
        | inr g ↦ rw g (h, final_error e f g)
      ])
    ]

-- Whenever do_io on an open socket that the user left blocking returns, whatever the system answered and
-- whichever of event and timer came first in each wait, it has cancelled as many timers as it set, and its result is
-- neither EINTR nor EAGAIN, provided that addEvent fails with neither.
pub do_io-settled :
    (receiving : Bool) (c : FdCtx) (replies : List SysResult) (waits : List Wait) {x : IoEnd}
    → c.is_closed ≡ false
    → c.is_socket ≡ true
    → c.user_nonblock ≡ false
    → Refusals waits
    → do_io true receiving (some c) replies waits ≡ ok x
    → (added x.actions ≡ cancelled x.actions) × (is_final x.result ≡ true)
unfolding do_io
do_io-settled receiving c replies waits {x} is_open socket blocking fine e =
    let managed : retry (get_timeout receiving c) replies waits [] ≡ ok x =
      rw (is_open, socket, blocking) at e in
    let settled = retry-Settled (get_timeout receiving c) replies waits [] fine refl in
    rw managed at settled
