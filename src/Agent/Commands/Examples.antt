-- ===== src/Agent/Commands/Examples.antt =====
-- Starts, stops and the end of a process, on one slot.
use aio_ss_usb_test_agent.Prelude.{◌≡◌, refl, true, false, none, some, [], ◌∷◌}
use aio_ss_usb_test_agent.Prelude.Dict.{get, nat_eq}
use aio_ss_usb_test_agent.Domain.Enums.{ProcessState}
use aio_ss_usb_test_agent.Domain.State.{SlotState, SlotState-discrete}
use aio_ss_usb_test_agent.Domain.Transitions.{next_state}
use aio_ss_usb_test_agent.Domain.Machine.{SlotStateMachine, new_machine, can_transition, is_busy}
use aio_ss_usb_test_agent.Domain.Manager.{get_slot}
use aio_ss_usb_test_agent.Services.WorkerPool.{new_pool}
use aio_ss_usb_test_agent.Agent.{Message, Status}
use aio_ss_usb_test_agent.Agent.Task.{Task, Pause, Answer, Event}
use aio_ss_usb_test_agent.Agent.Commands.{Texts, handle_stop_test}
use aio_ss_usb_test_agent.Agent.Commands.Configuring.{Received}
use aio_ss_usb_test_agent.Agent.Commands.Stopping.{execute_stop_test}
use aio_ss_usb_test_agent.Agent.Commands.Stopping.Leaving.{Left, execute_stop_test-Left}
use aio_ss_usb_test_agent.Agent.Commands.Starting.{Script, execute_start_test}
use aio_ss_usb_test_agent.Agent.Commands.Starting.Steps.{Settled}
use aio_ss_usb_test_agent.Agent.Commands.Starting.Outcomes.{execute_start_test-Settled}

abbrev texts : Texts
texts = record {
  invalid_slot = λ _. "Invalid slot index";
  busy = λ _ _. "Slot is busy";
  of_raised = λ _. "failed";
  of_problems = λ _. "invalid";
}

abbrev slot : SlotState → SlotStateMachine
slot s = new_machine 0 s true 0

abbrev task : SlotState → Task
task s = record {
  agent = record {
    slots = record { max_slots = 1; machines = (0, slot s) ∷ [] };
    pids = (0, 77) ∷ [];
    watched_pids = (0, 77) ∷ [];
    slot_running = (0, true) ∷ [];
    monitored_slots = (0, tt) ∷ [];
    previous_states = [];
    queued = [];
  };
  clock = 10;
}

-- The window shows Fail before the controller answers.
abbrev failing : Pause
failing = record { meanwhile = Event.completed 0 ProcessState.fail 15 ∷ []; clock = 20 }

execute_stop_test-Left_example :
    Left 0 (execute_stop_test texts 0 failing Answer.raises (task SlotState.running))
unfolding get_slot get can_transition next_state new_machine
execute_stop_test-Left_example =
    execute_stop_test-Left texts 0 failing Answer.raises (task SlotState.running)
      (slot SlotState.running) refl refl

abbrev received : Received
received = record {
  precondition = none;
  test = some (record { capacity = none; method = none; loop_count = some 3; loop_step = some 3 });
  jira_no = some "J-1";
  sample_no = some "S-1";
  drive = none;
  test_preset = some none;
  test_file = none;
  test_name = none;
  drive_capacity_gb = some 5000;
}

abbrev script : Script
script = record {
  is_connected = false;
  connecting = failing;
  connect_slot = Answer.returns true;
  starting = failing;
  start_test = Answer.returns true;
}

execute_start_test-Settled_example :
    Settled 0 (execute_start_test texts script 0 received (task SlotState.failed))
unfolding get_slot get is_busy SlotState-discrete new_machine
execute_start_test-Settled_example =
    execute_start_test-Settled texts script 0 received (task SlotState.failed)
      (slot SlotState.failed) (tt, tt) (tt, tt) refl refl

no_such_slot :
    (handle_stop_test texts (some 7) (task SlotState.running).agent (new_pool 1 4 4)).0.queued
    ≡ Message.status_update 7 Status.error (some "Invalid slot index") none ∷ []
unfolding handle_stop_test get_slot get
no_such_slot = refl
