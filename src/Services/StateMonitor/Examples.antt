-- ===== src/Services/StateMonitor/Examples.antt =====
-- A slot whose test stands still, polled three times.
use aio_ss_usb_test_agent.Prelude.{◌≡◌, refl, true, none, some, List, [], ◌∷◌, All, arith}
use aio_ss_usb_test_agent.Prelude.Dict.{get, put, pop}
use aio_ss_usb_test_agent.Infrastructure.StateStore.{
  InMemoryStateStore, Update, sets, new_store, run_calls, set_slot_state, run_call, get_slot_state,
}
use aio_ss_usb_test_agent.Services.StateMonitor.{
  StateMonitor, hung, new_state_monitor, set_change_callback, set_hang_callback, detect_change,
  is_at_work, poll_states,
}
use aio_ss_usb_test_agent.Services.StateMonitor.Hangs.{Explains, told_last, told_last-Explains}
use aio_ss_usb_test_agent.Services.StateMonitor.Stalling.{Poll}

abbrev running : Update
running = record {
  status = some "running";
  progress = some 50000;
  current_phase = none;
  test_id = none;
  error_message = none;
}

abbrev store : InMemoryStateStore
store = run_calls (new_store 2 0) (sets 1 running 5 ∷ [])

abbrev monitor : StateMonitor
monitor =
    set_hang_callback (λ i d. true) 300 (set_change_callback (λ s. true) (new_state_monitor 2))

abbrev earlier : List Poll
earlier = (110, store) ∷ (10, store) ∷ []

told_last-Explains_example :
    All
      (Explains 1 ((310, store) ∷ earlier) monitor.hang_threshold_seconds 310)
      (told_last monitor ((310, store) ∷ earlier))
unfolding set_hang_callback set_change_callback new_state_monitor
told_last-Explains_example =
    told_last-Explains 1 monitor (omega arith) ((λ s. refl), (λ i d. refl)) refl 310 store earlier

hang_is_told : told_last monitor ((310, store) ∷ earlier) ≡ hung 1 300 ∷ []
unfolding set_hang_callback set_change_callback new_state_monitor poll_states new_store run_calls
    run_call set_slot_state get_slot_state get put pop detect_change is_at_work
hang_is_told = refl

told_once : told_last monitor ((320, store) ∷ (310, store) ∷ earlier) ≡ []
unfolding set_hang_callback set_change_callback new_state_monitor poll_states new_store run_calls
    run_call set_slot_state get_slot_state get put pop detect_change is_at_work
told_once = refl
