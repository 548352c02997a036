-- ===== src/Domain/Manager.antt =====
-- domain/state_machine.py: `SlotStateMachineManager`, a machine for each slot.
pub mod Slots
mod Examples
use aio_ss_usb_test_agent.Prelude.{
  ℕ, zero, suc, ◌+◌, if◌then◌else◌, Bool, Option, none, some, String, List, [], ◌∷◌, ◌++◌, map,
}
use aio_ss_usb_test_agent.Prelude.Dict.{Dict, get, put, nat_eq}
use aio_ss_usb_test_agent.Domain.State.{SlotState, SlotEvent}
use aio_ss_usb_test_agent.Domain.Context.{Field, Time}
use aio_ss_usb_test_agent.Domain.Machine.{
  SlotStateMachine, Notice, Outcome, invalid, moved, new_machine, trigger, force_state, is_busy,
  is_idle, is_running,
}

pub record SlotStateMachineManager : Type 0 where
  pub max_slots : ℕ
  pub machines : Dict ℕ SlotStateMachine

-- `for slot_idx in range(max_slots)`, with `left` slots to go
unfoldable pub add_slots : ℕ → ℕ → Bool → Time → Dict ℕ SlotStateMachine → Dict ℕ SlotStateMachine
unfolding new_machine
add_slots zero slot_idx has_callback now machines = machines
add_slots (suc left) slot_idx has_callback now machines =
    add_slots left (slot_idx + 1) has_callback now
      (put machines slot_idx (new_machine slot_idx SlotState.idle has_callback now))

unfoldable pub new_manager : ℕ → Bool → Time → SlotStateMachineManager
unfolding add_slots
new_manager max_slots has_callback now = record {
  max_slots = max_slots;
  machines = add_slots max_slots 0 has_callback now [];
}

unfoldable pub get_slot : SlotStateMachineManager → ℕ → Option SlotStateMachine
get_slot g slot_idx = get g.machines slot_idx

-- What `manager.trigger` does: KeyError for the index, InvalidTransitionError, or a return.
pub data Reply : Type 0 where
  key_error : ℕ → Reply
  refused : SlotState → SlotEvent → ℕ → Reply
  done : SlotStateMachineManager → SlotState → List Notice → Reply

store : SlotStateMachineManager → ℕ → Outcome → Reply
store g slot_idx (invalid s e i) = refused s e i
store g slot_idx (moved m ns) = done (record g { machines = put g.machines slot_idx m }) m.state ns

unfoldable pub trigger_slot :
    ℕ → SlotEvent → List Field → Option String → Time → SlotStateMachineManager → Reply
unfolding store
trigger_slot slot_idx event context_update error_message now g = elim (get_slot g slot_idx) [
  | none ↦ key_error slot_idx
  | some m ↦ store g slot_idx (trigger event context_update error_message now m)
]

unfoldable pub get_all_states : SlotStateMachineManager → List (ℕ × SlotState)
get_all_states g = map (λ (item : ℕ × SlotStateMachine). (item.0, item.1.state)) g.machines

-- The indices of the machines that pass a test.
select : (SlotStateMachine → Bool) → Dict ℕ SlotStateMachine → List ℕ
select test [] = []
select test ((i, m) ∷ rest) = let more = select test rest in if test m then i ∷ more else more

unfoldable pub get_busy_slots : SlotStateMachineManager → List ℕ
unfolding select
get_busy_slots g = select is_busy g.machines

unfoldable pub get_running_slots : SlotStateMachineManager → List ℕ
unfolding select
get_running_slots g = select is_running g.machines

unfoldable pub get_idle_slots : SlotStateMachineManager → List ℕ
unfolding select
get_idle_slots g = select is_idle g.machines

reset_machine : Time → SlotStateMachine → SlotStateMachine
reset_machine now m = if is_idle m then m else force_state SlotState.idle now m

unfoldable pub reset_all : Time → SlotStateMachineManager → SlotStateMachineManager
unfolding reset_machine
reset_all now g = record g {
  machines = map (λ (item : ℕ × SlotStateMachine). (item.0, reset_machine now item.1)) g.machines;
}
