-- ===== src/Agent/Processes/Examples.antt =====
-- Two slots, of whose processes one has crashed.
use aio_ss_usb_test_agent.Prelude.{ℕ, ◌≡◌, ◌==◌, if◌then◌else◌, refl, true, String, List, [], ◌∷◌}
use aio_ss_usb_test_agent.Prelude.Dict.{get, nat_eq}
use aio_ss_usb_test_agent.Domain.State.{SlotState}
use aio_ss_usb_test_agent.Domain.Machine.{new_machine}
use aio_ss_usb_test_agent.Domain.Manager.{get_slot}
use aio_ss_usb_test_agent.Agent.{Agent, ProcessTerminationReason}
use aio_ss_usb_test_agent.Agent.Task.{Event}
use aio_ss_usb_test_agent.Agent.Processes.{Probe, check_processes, terminated_slots}
use aio_ss_usb_test_agent.Agent.Processes.Quitting.{AtRest, check_processes-AtRest}

abbrev agent : Agent
agent = record {
  slots = record {
    max_slots = 2;
    machines =
        (0, new_machine 0 SlotState.running true 0)
        ∷ (1, new_machine 1 SlotState.running true 0)
        ∷ [];
  };
  pids = (0, 70) ∷ (1, 71) ∷ [];
  watched_pids = (0, 70) ∷ (1, 71) ∷ [];
  slot_running = (0, true) ∷ (1, true) ∷ [];
  monitored_slots = (0, tt) ∷ (1, tt) ∷ [];
  previous_states = [];
  queued = [];
}

abbrev probe : ℕ → Probe
probe pid = if pid == 71 then Probe.zombie else Probe.alive

abbrev text : ProcessTerminationReason → String
text _ = "terminated"

abbrev nothing : ℕ → List Event
nothing _ = []

one_crashed :
    terminated_slots probe agent.watched_pids
    ≡ record { slot_idx = 1; pid = 71; reason = ProcessTerminationReason.process_crashed } ∷ []
unfolding terminated_slots
one_crashed = refl

check_processes-AtRest_example : AtRest 1 (check_processes probe text 9 nothing agent)
unfolding get get_slot
check_processes-AtRest_example =
    check_processes-AtRest text 9 1 nothing (λ j. tt) probe agent 71 refl refl refl
