-- ===== src/Timer/Examples.antt =====
-- Runs on two timers, and the theorems at such managers.
use sylar.Common.{ℕ, ◌≡◌, refl, true, false, not, ◌&&◌, some, none, [], ◌∷◌, ◌==◌}
use sylar.Common.Outcome.{ok}
use sylar.Timer.{TimerManager, Heap, new_timer_manager, add_timer, cancel, list_expired_cb}
use sylar.Timer.Order.{contains}
use sylar.Timer.Valid.{IsValid, new_timer_manager-IsValid, add_timer-IsValid, cancel_lem}
use sylar.Timer.ListExpired.{FiresDue, list_expired_cb-FiresDue}

abbrev no_timers : Heap
no_timers a = record { recurring = false; ms = 0; next = 0; cb = none }

abbrev start : TimerManager
start = new_timer_manager no_timers 1_000

start-IsValid : IsValid start
start-IsValid = new_timer_manager-IsValid no_timers 1_000 (λ a. refl)

-- A timer that runs out at 1500, once.
abbrev one : TimerManager
one = (add_timer 7 500 70 false 1_000 start).0

one-IsValid : IsValid one
unfolding new_timer_manager
one-IsValid = add_timer-IsValid 7 500 70 false 1_000 start start-IsValid refl

-- And one that runs out at 1200 and recurs.
abbrev two : TimerManager
two = (add_timer 3 200 30 true 1_000 one).0

two-IsValid : IsValid two
unfolding add_timer new_timer_manager
two-IsValid = add_timer-IsValid 3 200 30 true 1_000 one one-IsValid refl

in_order : two.timers ≡ 3 ∷ 7 ∷ []
unfolding add_timer new_timer_manager
in_order = refl

fires_one : (list_expired_cb 99 1_300 two).0 ≡ some 30 ∷ []
unfolding list_expired_cb add_timer new_timer_manager
fires_one = refl

recurs : (list_expired_cb 99 1_300 two).1.timers ≡ 3 ∷ 7 ∷ []
unfolding list_expired_cb add_timer new_timer_manager
recurs = refl

fires_both : (list_expired_cb 99 1_500 two).0 ≡ some 30 ∷ some 70 ∷ []
unfolding list_expired_cb add_timer new_timer_manager
fires_both = refl

fires_all_on_rollover :
    (list_expired_cb 99 0 (record two { previous_time = 4_000_000 })).0 ≡ some 30 ∷ some 70 ∷ []
unfolding list_expired_cb add_timer new_timer_manager
fires_all_on_rollover = refl

cancel_lem_example :
    (n : TimerManager) × (cancel 7 two ≡ ok (n, true))
    × IsValid n
    × ((b : ℕ) → contains n.timers b ≡ (not (7 == b) && contains two.timers b))
    × (cancel 7 n ≡ ok (n, false))
unfolding add_timer new_timer_manager
cancel_lem_example = cancel_lem 7 70 two two-IsValid refl

list_expired_cb-FiresDue_example :
    IsValid (list_expired_cb 99 1_300 two).1 × FiresDue 1_300 two (list_expired_cb 99 1_300 two)
unfolding add_timer new_timer_manager
list_expired_cb-FiresDue_example = list_expired_cb-FiresDue 99 1_300 two two-IsValid refl
