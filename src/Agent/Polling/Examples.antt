-- ===== src/Agent/Polling/Examples.antt =====
-- A poll that sees the end of a test.
use aio_ss_usb_test_agent.Prelude.{ℕ, ◌≡◌, refl, some, [], ◌∷◌, arith, true}
use aio_ss_usb_test_agent.Prelude.Dict.{get, nat_eq}
use aio_ss_usb_test_agent.Domain.Enums.{ProcessState, TestPhase, ProcessState-discrete}
use aio_ss_usb_test_agent.Domain.State.{SlotState}
use aio_ss_usb_test_agent.Domain.Machine.{SlotStateMachine, new_machine}
use aio_ss_usb_test_agent.Domain.Manager.{get_slot}
use aio_ss_usb_test_agent.Services.UiState.{
  MfcUiState, concluded, detect_changes, check_test_completion,
}
use aio_ss_usb_test_agent.Agent.{Agent}
use aio_ss_usb_test_agent.Agent.Monitoring.{IsTidy}
use aio_ss_usb_test_agent.Agent.Polling.{poll_slot, poll_all_slots}
use aio_ss_usb_test_agent.Agent.Polling.Ends.{Reached, Judged, poll_slot-Reached}
use aio_ss_usb_test_agent.Agent.Polling.Tidy.{poll_all_slots-IsTidy}

abbrev shows : ProcessState → MfcUiState
shows s = record {
  slot_idx = 0;
  process_state = s;
  test_phase = TestPhase.idle;
  current_loop = 5;
  total_loop = 5;
  status_text = "";
  progress_text = "5/5 IDLE";
  is_test_button_enabled = true;
  is_stop_button_enabled = true;
  timestamp = 0;
}

abbrev running_slot : SlotStateMachine
running_slot = new_machine 0 SlotState.running true 0

abbrev agent : Agent
agent = record {
  slots = record { max_slots = 1; machines = (0, running_slot) ∷ [] };
  pids = [];
  watched_pids = [];
  slot_running = [];
  monitored_slots = (0, tt) ∷ [];
  previous_states = (0, shows ProcessState.test) ∷ [];
  queued = [];
}

slot_0 : get_slot agent.slots 0 ≡ some running_slot
unfolding get_slot get
slot_0 = refl

sees_pass :
    concluded (get agent.previous_states 0) (shows ProcessState.idle) ≡ some ProcessState.pass
unfolding get concluded detect_changes check_test_completion ProcessState-discrete
sees_pass = refl

poll_slot-Reached_example :
    (t : SlotState) × Judged running_slot (get agent.previous_states 0) (shows ProcessState.idle) t
    × Reached 0 t agent.slots (poll_slot 0 (some (shows ProcessState.idle)) 9 agent).slots
poll_slot-Reached_example =
    poll_slot-Reached 0 running_slot (shows ProcessState.idle) 9 agent slot_0

only_slot :
    (i : ℕ) (m : SlotStateMachine) → get_slot agent.slots i ≡ some m → (i ≡ 0) × (m ≡ running_slot)
unfolding get_slot get
only_slot i m h = ground arith

agent-IsTidy : IsTidy agent
unfolding new_machine
agent-IsTidy = record {
  own_index = λ i m h. ground (arith, only_slot i m h);
  wired = λ i m h. ground (arith, only_slot i m h);
  unmonitored = λ i m h end. ground (arith, only_slot i m h);
}

poll_all_slots-IsTidy_example :
    IsTidy (poll_all_slots (λ i. some (shows ProcessState.idle)) 9 agent)
poll_all_slots-IsTidy_example =
    poll_all_slots-IsTidy (λ i. some (shows ProcessState.idle)) 9 agent agent-IsTidy
