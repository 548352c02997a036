-- ===== src/Domain/Machine/Examples.antt =====
-- The theorems on `SlotStateMachine` at concrete machines, and runs of it.
use aio_ss_usb_test_agent.Prelude.{◌≡◌, refl, true, none, some, List, [], ◌∷◌, length}
use aio_ss_usb_test_agent.Domain.State.{SlotState, SlotEvent, slot_state_eq}
use aio_ss_usb_test_agent.Domain.Context.{Field}
use aio_ss_usb_test_agent.Domain.Transitions.{next_state}
use aio_ss_usb_test_agent.Domain.Machine.{
  in_terminal, SlotStateMachine, new_machine, trigger, moved, move_to, notices, Call, triggers,
  forces, force_state, call, run_calls,
}
use aio_ss_usb_test_agent.Domain.Machine.Moves.{IsEntry, trigger-IsEntry}
use aio_ss_usb_test_agent.Domain.Machine.History.{IsLinked, run_calls-IsLinked}

abbrev slot_in : SlotState → SlotStateMachine
slot_in s = new_machine 0 s true 0

abbrev session : List Call
session =
    triggers SlotEvent.start_test [] none 1
    ∷ triggers SlotEvent.retry [] none 2
    ∷ triggers SlotEvent.configure [] none 3
    ∷ forces SlotState.error 4
    ∷ []

session_state : (run_calls (slot_in SlotState.idle) session).state ≡ SlotState.error
unfolding new_machine run_calls call trigger force_state next_state
session_state = refl

session_entries : length (run_calls (slot_in SlotState.idle) session).history ≡ 3
unfolding new_machine run_calls call trigger force_state next_state
session_entries = refl

abbrev run_move : SlotStateMachine
run_move = move_to SlotState.running SlotEvent.run [] none 5 (slot_in SlotState.configuring)

run_moved :
    trigger SlotEvent.run [] none 5 (slot_in SlotState.configuring)
    ≡ moved run_move (notices SlotState.running (slot_in SlotState.configuring))
unfolding trigger new_machine next_state
run_moved = refl

trigger-IsEntry_example : IsEntry run_move.state (slot_in SlotState.configuring).state SlotEvent.run
trigger-IsEntry_example =
    trigger-IsEntry (slot_in SlotState.configuring) run_move SlotEvent.run [] none 5
      (notices SlotState.running (slot_in SlotState.configuring)) run_moved

run_calls-IsLinked_example : IsLinked (run_calls (slot_in SlotState.idle) session)
unfolding new_machine
run_calls-IsLinked_example =
    run_calls-IsLinked (slot_in SlotState.idle) session (SlotState.idle, refl)

abbrev rename : List Field
rename = Field.test_name (some "second") ∷ Field.total_batch 1 ∷ []

abbrev restart_move : SlotStateMachine
restart_move =
    move_to SlotState.preparing SlotEvent.start_test rename none 9 (slot_in SlotState.failed)

abbrev stopped_move : SlotStateMachine
stopped_move =
    move_to SlotState.idle SlotEvent.stopped rename (some "late") 9 (slot_in SlotState.stopping)

abbrev failed_move : SlotStateMachine
failed_move =
    move_to SlotState.failed SlotEvent.fail rename (some "no pass") 9 (slot_in SlotState.running)

abbrev batched_slot : SlotStateMachine
batched_slot =
    move_to SlotState.completed SlotEvent.all_batches_done (Field.total_batch 3 ∷ []) none 5
      (slot_in SlotState.waiting)

batched_slot_ends : in_terminal batched_slot.state ≡ true
unfolding move_to
batched_slot_ends = refl
