-- ===== src/IoManager/Examples.antt =====
-- Runs on a small table, and the theorems at such tables.
use sylar.Common.{ℕ, ◌≡◌, ◌^◌, refl, arith, Bool, true, some, none, List, [], ◌∷◌, set}
use sylar.Common.Int.{pos, negsuc}
use sylar.Common.Outcome.{ok, ◌>>=◌}
use sylar.IoManager.{
  cb_task, fiber_task, CtlOp, Caller, new_io_manager, add_event, cancel_event, cancel_all, dispatch,
  ready, read_event, write_event, real_events, wait_timeout, fill_context,
}
use sylar.IoManager.Registry.{
  Slots, idle, waiting, reading, writing, empty_slots, manager_of, with_room,
}
use sylar.IoManager.Operations.{without_task, cancel_event-takes}
use sylar.IoManager.Adding.{add_event_lem}
use sylar.IoManager.CancelAll.{cancel_all_lem}
use sylar.IoManager.Dispatch.{dispatch_lem}

abbrev accept : CtlOp → ℕ → ℕ → Bool
accept op fd mask = true

abbrev fiber_5 : Caller
fiber_5 = record { scheduler = some 1; fiber = 5; executing = true }

-- Descriptor 2 waits for both events, the others for none.
abbrev table : List Slots
table =
    empty_slots
    ∷ empty_slots
    ∷ record { reader = waiting 1 (cb_task 20); writer = waiting 1 (fiber_task 5) }
    ∷ []

-- Descriptor 0 waits for reading.
abbrev reader_only : List Slots
reader_only = record { reader = waiting 1 (cb_task 20); writer = idle } ∷ empty_slots ∷ []

adds_and_cancels :
    (add_event accept fiber_5 40 read_event (some 9) new_io_manager >>= λ r.
    cancel_event accept 40 read_event r.0 >>= λ r'. ok r'.0.scheduled)
    ≡ ok ((1, cb_task 9) ∷ [])
unfolding add_event cancel_event fill_context new_io_manager
adds_and_cancels = refl

error_is_both : real_events 8 ≡ 5
unfolding real_events
error_is_both = refl

waits_forever : wait_timeout (2 ^ 31) ≡ negsuc 2_147_483_647
unfolding wait_timeout
waits_forever = refl

add_event_lem_example :
    add_event accept fiber_5 5 read_event none (manager_of table [])
    ≡ ok (
      manager_of
          (set (with_room 5 table) 5 (record { reader = waiting 1 (fiber_task 5); writer = idle }))
          [],
      pos 0,
    )
add_event_lem_example =
    add_event_lem accept fiber_5 none 1 5 reading table [] (omega arith) refl refl

cancel_event-takes_example :
    cancel_event accept 2 write_event (manager_of table [])
    ≡ ok (manager_of (without_task 2 writing table) ((1, fiber_task 5) ∷ []), true)
cancel_event-takes_example = cancel_event-takes accept 2 writing table []

cancel_all_lem_example :
    cancel_all accept 2 (manager_of table [])
    ≡ ok (manager_of (set table 2 empty_slots) ((1, cb_task 20) ∷ (1, fiber_task 5) ∷ []), true)
cancel_all_lem_example = cancel_all_lem accept 2 table []

dispatch_lem_example :
    dispatch (ready 2 4 accept) (manager_of table [])
    ≡ ok (manager_of (without_task 2 writing table) ((1, fiber_task 5) ∷ []))
dispatch_lem_example = dispatch_lem accept 2 4 table [] (omega arith)
