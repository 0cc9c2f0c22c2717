-- ===== src/Hook/Examples.antt =====
-- Calls on the socket 3.
use sylar.Common.{◌≡◌, refl, true, false, none, some, [], ◌∷◌}
use sylar.Common.Outcome.{ok, stuck}
use sylar.FdManager.{FdCtx, FdManager, get_timeout}
use sylar.Hook.{
  eintr, eagain, etimedout, returned, failed_with, registered, event_comes, timer_fires, adds_timer,
  cancels_timer, adds_event, yields, do_io, read, hooked_call, suspend,
}
use sylar.Hook.Io.{do_io-obstacles, interrupted, blocked, is_final}
use sylar.Hook.Waiting.{do_io-settled, added, cancelled}
use sylar.Hook.Calls.{
  has_nonblock, fcntl_setfl, fcntl_getfl, setsockopt, connect_wait, sleep, other_option,
  nanosleep_ms,
}
use sylar.Hook.Flags.{fcntl_getfl-fcntl_setfl}

abbrev context : FdCtx
context = record {
  is_init = true;
  is_socket = true;
  sys_nonblock = true;
  user_nonblock = false;
  is_closed = false;
  fd = 3;
  recv_timeout = 500;
  send_timeout = 18446744073709551615;
}

abbrev table : FdManager
table = record { datas = none ∷ none ∷ none ∷ some context ∷ [] }

-- Only the read has a limit.
waits_with_limit :
    do_io true true
      (some context)
      (failed_with 11 ∷ returned 7 ∷ [])
      (registered (event_comes ∷ []) ∷ [])
    ≡ ok (record {
      result = returned 7;
      actions = adds_timer 500 ∷ adds_event ∷ yields ∷ cancels_timer ∷ [];
      replies = [];
    })
unfolding do_io suspend
waits_with_limit = refl

runs_out :
    hooked_call true read
      (some context)
      (failed_with 4 ∷ failed_with 11 ∷ returned 7 ∷ [])
      (registered (timer_fires ∷ event_comes ∷ []) ∷ [])
    ≡ ok (record {
      result = failed_with 110;
      actions = adds_timer 500 ∷ adds_event ∷ yields ∷ cancels_timer ∷ [];
      replies = returned 7 ∷ [];
    })
unfolding hooked_call suspend
runs_out = refl

-- 50 days are too long for the product.
sleep_wraps : sleep true (returned 0) 4294968 ≡ (returned 0, adds_timer 704 ∷ yields ∷ [])
unfolding sleep
sleep_wraps = refl

nanosleep_wraps : nanosleep_ms 2147484 0 ≡ 18446744071562068320
nanosleep_wraps = refl

calls_itself : setsockopt 3 false other_option 0 0 3 table ≡ stuck
unfolding setsockopt
calls_itself = refl

do_io-obstacles_example :
    do_io true true
      (some context)
      (failed_with eintr ∷ failed_with eagain ∷ returned 7 ∷ [])
      (registered (event_comes ∷ []) ∷ [])
    ≡ ok (record {
      result = returned 7;
      actions = adds_timer 500 ∷ adds_event ∷ yields ∷ cancels_timer ∷ [];
      replies = [];
    })
unfolding get_timeout
do_io-obstacles_example =
    do_io-obstacles true context (interrupted ∷ blocked ∷ []) (returned 7) [] refl refl refl refl

do_io-settled_example :
    (added (adds_timer 500 ∷ adds_event ∷ yields ∷ cancels_timer ∷ [])
      ≡ cancelled (adds_timer 500 ∷ adds_event ∷ yields ∷ cancels_timer ∷ []))
    × (is_final (returned 7) ≡ true)
do_io-settled_example =
    do_io-settled true context (failed_with 11 ∷ returned 7 ∷ [])
      (registered (event_comes ∷ []) ∷ []) refl refl refl tt waits_with_limit

fcntl_getfl-fcntl_setfl_example :
    (has_nonblock (fcntl_setfl 3 2 table).1 ≡ true)
    × (fcntl_getfl 3 (fcntl_setfl 3 2 table).1 (fcntl_setfl 3 2 table).0 ≡ 2)
fcntl_getfl-fcntl_setfl_example = fcntl_getfl-fcntl_setfl 3 2 table context refl refl refl

-- The end of the limit does not wake connect: the call waits for its event, and fails all the same.
limit_passes :
    connect_wait 5000 (returned 0) (registered (timer_fires ∷ timer_fires ∷ event_comes ∷ []))
    ≡ ok (failed_with etimedout, adds_timer 5000 ∷ adds_event ∷ yields ∷ cancels_timer ∷ [])
unfolding connect_wait
limit_passes = refl
