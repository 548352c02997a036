-- ===== src/Infrastructure/StateStore/Examples.antt =====
-- A store of two slots.
use aio_ss_usb_test_agent.Prelude.{◌≡◌, refl, none, some, List, [], ◌∷◌, arith}
use aio_ss_usb_test_agent.Infrastructure.StateStore.{
  InMemoryStateStore, Update, Call, sets, resets, new_store, get_slot_state, run_calls, new_state,
  set_slot_state, fill, run_call, reset_slot,
}
use aio_ss_usb_test_agent.Infrastructure.StateStore.Refinement.{
  specified, first_state, run_calls-specified,
}
use aio_ss_usb_test_agent.Prelude.Dict.{get, put, nat_eq}

abbrev store : InMemoryStateStore
store = new_store 2 0

abbrev running : Update
running = record {
  status = some "running";
  progress = some 50000;
  current_phase = none;
  test_id = some (some "t1");
  error_message = none;
}

-- A slot that is not there is refused by an update, and made by a reset.
abbrev calls : List Call
calls = sets 1 running 5 ∷ sets 2 running 6 ∷ resets 7 8 ∷ []

run_calls-specified_example :
    get_slot_state (run_calls (new_store 2 0) calls) 1
    ≡ some (specified 2 1 (first_state 1 0) calls)
run_calls-specified_example = run_calls-specified 2 0 calls 1 (omega arith)

-- The update of slot 1 does not give an error message.
shows_update : specified 2 1 (first_state 1 0) calls ≡ record {
  slot_idx = 1;
  status = "running";
  progress = 50000;
  current_phase = none;
  test_id = some "t1";
  error_message = none;
  last_updated = 5;
}
shows_update = refl

out_of_range : set_slot_state 2 running 6 store ≡ none
unfolding set_slot_state new_store
out_of_range = refl

made_by_reset : get_slot_state (run_calls store calls) 7 ≡ some (new_state 7 8)
unfolding get_slot_state new_store run_calls run_call set_slot_state reset_slot get put fill
made_by_reset = refl
