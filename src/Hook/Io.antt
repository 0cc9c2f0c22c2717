-- ===== src/Hook/Io.antt =====
-- do_io: what it returns after any interruptions, what it never returns, and that it leaves no timer behind.
use sylar.Common.{
  ℕ, ◌≡◌, refl, sym, ap, ◌∙◌, arith, Bool, true, false, not, ◌&&◌, some, List, [], ◌∷◌, ◌++◌, ◌==◌,
}
use mathlib.Core.List.{append-nil, append_assoc}
use sylar.Common.Outcome.{ok}
use sylar.FdManager.{FdCtx, get_timeout}
use sylar.Hook.{
  eintr, eagain, SysResult, returned, failed_with, event_comes, Wait, registered, Action,
  adds_event, yields, timer_added, timer_cancelled, wait_for, suspend, retry, do_io,
}

-- What keeps a call from its result: a signal, or nothing to read or no room to write.
pub data Obstacle : Type 0 where
  interrupted : Obstacle
  blocked : Obstacle

abbrev pub replies_of : List Obstacle → List SysResult
replies_of [] = []
replies_of (interrupted ∷ os) = failed_with eintr ∷ replies_of os
replies_of (blocked ∷ os) = failed_with eagain ∷ replies_of os

-- Each time that it blocks, the event comes.
abbrev pub waits_of : List Obstacle → List Wait
waits_of [] = []
waits_of (interrupted ∷ os) = waits_of os
waits_of (blocked ∷ os) = registered (event_comes ∷ []) ∷ waits_of os

abbrev pub actions_of : ℕ → List Obstacle → List Action
actions_of to [] = []
actions_of to (interrupted ∷ os) = actions_of to os
actions_of to (blocked ∷ os) =
    (timer_added to ++ (adds_event ∷ (yields ∷ timer_cancelled to))) ++ actions_of to os

abbrev pub is_final : SysResult → Bool
is_final (returned n) = true
is_final (failed_with e) = not (e == eintr) && not (e == eagain)

retry_final :
    (to : ℕ) (r : SysResult) (rest : List SysResult) (waits : List Wait) (actions : List Action)
    → is_final r ≡ true
    → retry to (r ∷ rest) waits actions
      ≡ ok (record { result = r; actions = actions; replies = rest })
unfolding retry
retry_final to (returned n) rest waits actions f = refl
retry_final to (failed_with e) rest [] actions f =
    let first : (e == eintr) ≡ false = ground (arith, f) in
    let second : (e == eagain) ≡ false = ground (arith, f) in rw (first, second) refl
retry_final to (failed_with e) rest (w ∷ ws) actions f =
    let first : (e == eintr) ≡ false = ground (arith, f) in
    let second : (e == eagain) ≡ false = ground (arith, f) in rw (first, second) refl

interrupted_step :
    (to : ℕ) (replies : List SysResult) (waits : List Wait) (actions : List Action)
    → retry to (failed_with eintr ∷ replies) waits actions ≡ retry to replies waits actions
unfolding retry
interrupted_step to replies [] actions = refl
interrupted_step to replies (w ∷ ws) actions = refl

blocked_step :
    (to : ℕ) (replies : List SysResult) (waits : List Wait) (actions : List Action)
    → retry to (failed_with eagain ∷ replies) (registered (event_comes ∷ []) ∷ waits) actions
      ≡ retry to replies waits
          (actions ++ (timer_added to ++ (adds_event ∷ (yields ∷ timer_cancelled to))))
unfolding retry suspend wait_for
blocked_step to replies waits actions = refl

pub retry-obstacles :
    (to : ℕ) (os : List Obstacle) (r : SysResult) (rest : List SysResult) (waits : List Wait)
    (actions : List Action)
    → is_final r ≡ true
    → retry to (replies_of os ++ (r ∷ rest)) (waits_of os ++ waits) actions
      ≡ ok (record { result = r; actions = actions ++ actions_of to os; replies = rest })
retry-obstacles to [] r rest waits actions f =
    rw (append-nil actions) (retry_final to r rest waits actions f)
retry-obstacles to (interrupted ∷ os) r rest waits actions f =
    interrupted_step to (replies_of os ++ (r ∷ rest)) (waits_of os ++ waits) actions
    ∙ retry-obstacles to os r rest waits actions f
retry-obstacles to (blocked ∷ os) r rest waits actions f =
    let step = timer_added to ++ (adds_event ∷ (yields ∷ timer_cancelled to)) in
    blocked_step to (replies_of os ++ (r ∷ rest)) (waits_of os ++ waits) actions
    ∙ retry-obstacles to os r rest waits (actions ++ step) f
    ∙ ap (λ l. ok (record { result = r; actions = l; replies = rest }))
        (append_assoc actions step (actions_of to os))

-- do_io on an open socket that the user left blocking, after signals and after waits that end with the event, in
-- any number and order, returns the first other answer of the system, having gone to sleep once for each wait,
-- with the timer set before and cancelled after it when there is a limit; it makes no further call.
pub do_io-obstacles :
    (receiving : Bool) (c : FdCtx) (os : List Obstacle) (r : SysResult) (rest : List SysResult)
    → c.is_closed ≡ false
    → c.is_socket ≡ true
    → c.user_nonblock ≡ false
    → is_final r ≡ true
    → do_io true receiving (some c) (replies_of os ++ (r ∷ rest)) (waits_of os)
      ≡ ok
          (record { result = r; actions = actions_of (get_timeout receiving c) os; replies = rest })
unfolding do_io
do_io-obstacles receiving c os r rest is_open socket blocking final =
    rw (is_open, socket, blocking)
      (ap (λ (w : List Wait). retry (get_timeout receiving c) (replies_of os ++ (r ∷ rest)) w [])
          (sym (append-nil (waits_of os)))
        ∙ retry-obstacles (get_timeout receiving c) os r rest [] [] final)
