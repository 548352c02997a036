-- ===== src/Agent.antt =====
-- main.py: the callbacks of `Agent` on what the monitors see, after `start` has made its services.
pub mod Completion
pub mod Monitoring
pub mod Polling
pub mod Task
pub mod Processes
pub mod Commands
pub mod Lifecycle
use Prim.Native.Nat.{min}
use aio_ss_usb_test_agent.Prelude.{
  ℕ, zero, suc, ◌+◌, ◌-◌, ◌*◌, ◌==◌, ltb, leb, if◌then◌else◌, Bool, true, false, ◌&&◌, not, Option,
  none, some, String, List, [], ◌∷◌, ◌++◌, ℤ, pos, negsuc,
}
use aio_ss_usb_test_agent.Prelude.Dict.{Dict, get, put, pop, nat_eq, beq}
use aio_ss_usb_test_agent.Domain.Enums.{ProcessState, TestPhase, process_state_eq}
use aio_ss_usb_test_agent.Domain.State.{SlotState, SlotEvent, slot_state_eq}
use aio_ss_usb_test_agent.Domain.Context.{SlotContext, Field, Time}
use aio_ss_usb_test_agent.Domain.Machine.{
  SlotStateMachine, Notice, Outcome, invalid, moved, trigger,
}
use aio_ss_usb_test_agent.Domain.Manager.{SlotStateMachineManager, get_slot}
use aio_ss_usb_test_agent.Services.UiState.{MfcUiState, Description, is_idle_phase}

-- A status that the backend is told, such as "failed".
pub data Status : Type 0 where
  failed stopping stopped completed running idle error queued : Status

-- a - b
abbrev pub difference : ℕ → ℕ → ℤ
difference a b = if leb b a then pos (a - b) else negsuc (b - a - 1)

-- `progress` is the percentage of a quotient, or 0.
pub record Progress : Type 0 where
  pub progress : Option (ℤ × ℕ)
  pub current_loop : ℤ
  pub total_loop : ℕ
  pub batch : Option (ℕ × ℕ)
  pub current_phase : TestPhase

-- services/process_monitor.py: why a process ended, and the event of it.
pub data ProcessTerminationReason : Type 0 where
  user_terminated process_crashed access_denied unknown : ProcessTerminationReason

pub record ProcessTerminationEvent : Type 0 where
  pub slot_idx : ℕ
  pub pid : ℕ
  pub reason : ProcessTerminationReason
  pub was_running : Bool
  pub timestamp : Time

-- What the agent gives to the queue of the backend's messages.
pub data Message : Type 0 where
  progress_update : ℕ → Status → Progress → Message
  status_update : ℕ → Status → Option String → Option ProcessState → Message
  test_completed : ℕ → Bool → ProcessState → Message
  user_intervention : ℕ → Description → Message
  process_terminated : ProcessTerminationEvent → Message

-- `watched_pids` and `slot_running` are the process monitor's, `monitored_slots` (a set) and
-- `previous_states` the window monitor's. `pids` is what the controller knows of the processes.
pub record Agent : Type 0 where
  pub slots : SlotStateMachineManager
  pub pids : Dict ℕ ℕ
  pub watched_pids : Dict ℕ ℕ
  pub slot_running : Dict ℕ Bool
  pub monitored_slots : Dict ℕ (Unit {0})
  pub previous_states : Dict ℕ MfcUiState
  pub queued : List Message

abbrev pub queue : Message → Agent → Agent
queue message a = record a { queued = a.queued ++ message ∷ [] }

unfoldable pub watch_slot : ℕ → ℕ → Bool → Agent → Agent
watch_slot slot_idx pid is_running a = record a {
  watched_pids = put a.watched_pids slot_idx pid;
  slot_running = put a.slot_running slot_idx is_running;
}

-- The flag is dropped only if the slot is watched.
unfoldable pub unwatch_slot : ℕ → Agent → Agent
unwatch_slot slot_idx a = elim (get a.watched_pids slot_idx) [
  | none ↦ a
  | some pid ↦ record a {
    watched_pids = pop a.watched_pids slot_idx;
    slot_running = pop a.slot_running slot_idx;
  }
]

unfoldable pub add_monitored_slot : ℕ → Agent → Agent
add_monitored_slot slot_idx a = record a { monitored_slots = put a.monitored_slots slot_idx tt }

unfoldable pub remove_monitored_slot : ℕ → Agent → Agent
remove_monitored_slot slot_idx a = record a {
  monitored_slots = pop a.monitored_slots slot_idx;
  previous_states = pop a.previous_states slot_idx;
}

-- `if pid and ...`: a process id of 0 counts as none.
watch_if_any : ℕ → Option ℕ → Agent → Agent
watch_if_any slot_idx none a = a
watch_if_any slot_idx (some pid) a = if pid == 0 then a else watch_slot slot_idx pid true a

abbrev pub ends_monitoring : SlotState → Bool
ends_monitoring SlotState.completed = true
ends_monitoring SlotState.failed = true
ends_monitoring SlotState.error = true
ends_monitoring SlotState.idle = true
ends_monitoring _ = false

unfoldable pub on_slot_state_change : ℕ → SlotState → Agent → Agent
unfolding watch_if_any watch_slot unwatch_slot add_monitored_slot remove_monitored_slot
on_slot_state_change slot_idx new_state a =
    if beq new_state SlotState.running
    then add_monitored_slot slot_idx (watch_if_any slot_idx (get a.pids slot_idx) a)
    else if ends_monitoring new_state
    then remove_monitored_slot slot_idx (unwatch_slot slot_idx a)
    else a

-- The callback that the agent gives to its slot manager is called for each notice.
unfoldable pub call_back : List Notice → Agent → Agent
call_back [] a = a
call_back (n ∷ ns) a = call_back ns (on_slot_state_change n.slot_idx n.new_state a)

unfoldable pub settle_slot : ℕ → Outcome → Agent → Agent
unfolding call_back
settle_slot slot_idx (invalid s e i) a = a
settle_slot slot_idx (moved m ns) a =
    call_back ns
      (record a { slots = record (a.slots) { machines = put (a.slots).machines slot_idx m } })

-- A trigger of a slot's machine, where InvalidTransitionError is caught and logged.
unfoldable pub trigger_logged :
    ℕ → SlotStateMachine → SlotEvent → Option String → Time → Agent → Agent
unfolding settle_slot
trigger_logged slot_idx m event error_message now a =
    settle_slot slot_idx (trigger event [] error_message now m) a

abbrev busy_status : ProcessState → Status
busy_status ProcessState.pass = Status.running
busy_status ProcessState.test = Status.running
busy_status ProcessState.idle = Status.idle
busy_status _ = Status.error

unfoldable pub determine_status : MfcUiState → Status
determine_status s =
    if beq s.process_state ProcessState.fail
    then Status.failed
    else if beq s.process_state ProcessState.stop
    then Status.stopping
    else if ltb 0 s.total_loop && ((s.current_loop == s.total_loop) && is_idle_phase s.test_phase)
    then Status.completed
    else busy_status s.process_state

-- total_batch > 1
abbrev pub is_batch_mode : SlotContext → Bool
is_batch_mode c = ltb 1 c.total_batch

-- The status of a poll in batch mode.
unfoldable pub batch_status : ProcessState → Status
batch_status ProcessState.fail = Status.failed
batch_status ProcessState.stop = Status.stopping
batch_status _ = Status.running

-- (current_batch - 1) * loop_step + loop, where current_batch may be 0
abbrev pub calculated_loop : SlotContext → ℕ → ℤ
calculated_loop c loop = difference (c.current_batch * c.loop_step + loop) c.loop_step

abbrev quotient_if_any : ℤ → ℕ → Option (ℤ × ℕ)
quotient_if_any a b = if ltb 0 b then some (a, b) else none

-- `state.progress_percent` is at most 100.
unfoldable pub polled_message : MfcUiState → SlotContext → Message
unfolding determine_status batch_status
polled_message s c =
    if is_batch_mode c
    then Message.progress_update s.slot_idx (batch_status s.process_state) (record {
      progress = quotient_if_any (calculated_loop c s.current_loop) c.total_loop;
      current_loop = calculated_loop c s.current_loop;
      total_loop = c.total_loop;
      batch = some (c.current_batch, c.total_batch);
      current_phase = s.test_phase;
    })
    else Message.progress_update s.slot_idx (determine_status s) (record {
      progress = quotient_if_any (pos (min s.current_loop s.total_loop)) s.total_loop;
      current_loop = pos s.current_loop;
      total_loop = s.total_loop;
      batch = none;
      current_phase = s.test_phase;
    })

unfoldable pub on_mfc_ui_polled : MfcUiState → Agent → Agent
on_mfc_ui_polled s a = elim (get_slot a.slots s.slot_idx) [
  | none ↦ a
  | some m ↦ queue (polled_message s m.context) a
]

-- Only a change to FAIL is told.
unfoldable pub on_mfc_ui_changed : ℕ → Option MfcUiState → Agent → Agent
on_mfc_ui_changed slot_idx none a = a
on_mfc_ui_changed slot_idx (some s) a =
    if beq s.process_state ProcessState.fail
    then queue (Message.status_update slot_idx Status.failed (some "Test failed") none) a
    else a

unfoldable pub in_batch_mode : ℕ → Agent → Bool
in_batch_mode slot_idx a = elim (get_slot a.slots slot_idx) [
  | none ↦ false
  | some m ↦ is_batch_mode m.context
]

-- The event of a completion that the window shows for a RUNNING slot.
unfoldable pub move_completed : ℕ → SlotStateMachine → ProcessState → Bool → Time → Agent → Agent
unfolding trigger_logged
move_completed slot_idx m ProcessState.fail batch_mode now a =
    trigger_logged slot_idx m SlotEvent.fail (some "Test failed (detected via UI)") now a
move_completed slot_idx m ProcessState.stop batch_mode now a =
    trigger_logged slot_idx m SlotEvent.stopped none now a
move_completed slot_idx m ProcessState.pass batch_mode now a =
    if batch_mode then a else trigger_logged slot_idx m SlotEvent.complete none now a
move_completed slot_idx m _ batch_mode now a = a

unfoldable pub move_if_running : ℕ → ProcessState → Bool → Time → Agent → Agent
unfolding move_completed
move_if_running slot_idx final_state batch_mode now a = elim (get_slot a.slots slot_idx) [
  | none ↦ a
  | some m ↦
      if beq m.state SlotState.running
      then move_completed slot_idx m final_state batch_mode now a
      else a
]

unfoldable pub tell_completed : ℕ → ProcessState → Bool → Agent → Agent
tell_completed slot_idx ProcessState.fail batch_mode a =
    queue
      (Message.status_update slot_idx Status.failed (some "Test failed") (some ProcessState.fail)) a
tell_completed slot_idx ProcessState.stop batch_mode a =
    queue (Message.status_update slot_idx Status.stopped none (some ProcessState.stop)) a
tell_completed slot_idx final_state batch_mode a =
    if batch_mode then a else queue (Message.test_completed slot_idx true final_state) a

unfoldable pub on_mfc_test_completed : ℕ → ProcessState → Time → Agent → Agent
on_mfc_test_completed slot_idx final_state now a =
    let batch_mode = in_batch_mode slot_idx a in
    if batch_mode && beq final_state ProcessState.pass
    then a
    else tell_completed slot_idx final_state batch_mode
        (move_if_running slot_idx final_state batch_mode now a)

unfoldable pub on_user_intervention : ℕ → Description → Agent → Agent
on_user_intervention slot_idx description a =
    queue (Message.user_intervention slot_idx description) a
