-- ===== src/Controller/Slots.antt =====
-- controller/controller.py: `MFCController`, over the windows and the actions in them. What the agent
-- reads of the system at a time is an argument. `TestState` declares no `status`, `error_message`,
-- `current_phase` and `current_config`: they are attributes that the controller sets on its states, so
-- a status that was never set is `none`, and to read it raises AttributeError.
pub mod Settled
mod Examples
use aio_ss_usb_test_agent.Prelude.{
  ℕ, zero, suc, ltb, if◌then◌else◌, Bool, true, false, not, Option, none, some, is_some, String,
  List, [], ◌∷◌,
}
use aio_ss_usb_test_agent.Prelude.Dict.{Dict, get, put, nat_eq}
use aio_ss_usb_test_agent.Domain.Config.{TestConfig}
use aio_ss_usb_test_agent.Infrastructure.ProcessManager.{Termination}
use aio_ss_usb_test_agent.Controller.Windows.{
  WindowManager, Shown, Connection, new_window_manager, is_slot_connected, launch_and_connect,
  disconnect_slot, terminate_slot, terminate_all_slots, refresh_all_status,
}
use aio_ss_usb_test_agent.Controller.Starting.{
  Action, Fault, Performed, Answers, start_sequence, continue_sequence, stop_sequence,
}

pub data SlotStatus : Type 0 where
  idle preparing running stopped completed error : SlotStatus

pub data Reason : Type 0 where
  cannot_connect connection_lost : Reason
  ended_by : Fault → Reason

pub record ControlState : Type 0 where
  pub status : Option SlotStatus
  pub error_message : Option Reason
  pub current_phase : Option String
  pub current_config : Option TestConfig

pub record MfcController : Type 0 where
  pub window_manager : WindowManager
  pub slot_states : Dict ℕ ControlState
  pub is_monitoring : Bool
  pub has_monitor_task : Bool

abbrev pub unset_state : ControlState
unset_state = record {
  status = none;
  error_message = none;
  current_phase = none;
  current_config = none;
}

unfoldable pub fill_states : ℕ → Dict ℕ ControlState
fill_states zero = []
fill_states (suc n) = put (fill_states n) n unset_state

-- The 4 are SlotConfig.MAX_SLOTS.
unfoldable pub new_controller : Bool → MfcController
unfolding fill_states
new_controller available = record {
  window_manager = new_window_manager 4 available;
  slot_states = fill_states 4;
  is_monitoring = false;
  has_monitor_task = false;
}

abbrev pub change_if_any :
    ℕ → (ControlState → ControlState) → MfcController → Option ControlState → MfcController
change_if_any i f c none = c
change_if_any i f c (some s) = record c { slot_states = put c.slot_states i (f s) }

unfoldable pub change_state : ℕ → (ControlState → ControlState) → MfcController → MfcController
change_state i f c = change_if_any i f c (get c.slot_states i)

abbrev pub set_windows : WindowManager → MfcController → MfcController
set_windows m c = record c { window_manager = m }

abbrev pub conclude_connect : ℕ → MfcController → Bool × WindowManager → Bool × MfcController
conclude_connect i c (true, m) = (
  true,
  change_state i (λ s. record s { status = some SlotStatus.idle; error_message = none })
      (set_windows m c),
)
conclude_connect i c (false, m) = (
  false,
  change_state i
      (λ s. record s { status = some SlotStatus.error; error_message = some Reason.cannot_connect })
      (set_windows m c),
)

unfoldable pub connect_slot : ℕ → Connection → MfcController → Bool × MfcController
unfolding change_state
connect_slot i k c =
    if ltb i 4 then conclude_connect i c (launch_and_connect i k c.window_manager) else (false, c)

unfoldable pub disconnect : ℕ → MfcController → MfcController
disconnect i c = set_windows (disconnect_slot i c.window_manager) c

abbrev pub conclude_terminate : ℕ → MfcController → Bool × WindowManager → Bool × MfcController
conclude_terminate i c (true, m) =
    (true, change_state i (λ s. record s { status = some SlotStatus.idle }) (set_windows m c))
conclude_terminate i c (false, m) = (false, set_windows m c)

unfoldable pub terminate : ℕ → Termination → MfcController → Bool × MfcController
unfolding change_state
terminate i t c = conclude_terminate i c (terminate_slot i t c.window_manager)

unfoldable pub start_monitoring : MfcController → MfcController
start_monitoring c =
    if c.is_monitoring then c else record c { is_monitoring = true; has_monitor_task = true }

unfoldable pub stop_monitoring : MfcController → MfcController
stop_monitoring c = record c { is_monitoring = false; has_monitor_task = false }

unfoldable pub terminate_all : (ℕ → Termination) → MfcController → MfcController
unfolding stop_monitoring
terminate_all t c =
    set_windows (terminate_all_slots t c.window_manager.slot_windows c.window_manager)
      (stop_monitoring c)

-- How a call on a slot ends: what it returns, what was done in the window, and the controller.
pub record Done : Type 0 where
  pub ok : Bool
  pub actions : List Action
  pub controller : MfcController

abbrev pub refused : MfcController → Done
refused c = record { ok = false; actions = []; controller = c }

abbrev pub set_error : Fault → ControlState → ControlState
set_error fault s = record s {
  status = some SlotStatus.error;
  error_message = some (Reason.ended_by fault);
}

-- The end of the `try`: the new state after a success, or ERROR with the exception's text.
abbrev pub conclude : ℕ → (ControlState → ControlState) → MfcController → Performed → Done
conclude i f c (done, none) = record { ok = true; actions = done; controller = change_state i f c }
conclude i f c (done, some fault) = record {
  ok = false;
  actions = done;
  controller = change_state i (set_error fault) c;
}

-- The window is asked again whether it is connected, and then the sequence is done in it.
abbrev pub perform :
    ℕ → (ControlState → ControlState) → Performed → MfcController → Bool × WindowManager → Done
perform i f p c (true, m) = conclude i f (set_windows m c) p
perform i f p c (false, m) = conclude i f (set_windows m c) ([], some Fault.no_window)

abbrev pub prepare : TestConfig → ControlState → ControlState
prepare config s = record s { status = some SlotStatus.preparing; current_config = some config }

abbrev pub to_running : String → ControlState → ControlState
to_running phase s = record s { status = some SlotStatus.running; current_phase = some phase }

abbrev pub start_connected :
    ℕ → TestConfig → Shown → Answers → MfcController → Bool × WindowManager → Done
start_connected i config sh a c (false, m) = refused (set_windows m c)
start_connected i config sh a c (true, m) =
    if ltb i 4
    then perform i (to_running "Initializing") (start_sequence config a)
        (change_state i (prepare config) (set_windows m c)) (is_slot_connected i sh m)
    else refused (set_windows m c)

-- The system is read twice: before the slot is prepared, and after.
unfoldable pub start_test : ℕ → TestConfig → Shown → Shown → Answers → MfcController → Done
unfolding change_state
start_test i config first second a c =
    start_connected i config second a c (is_slot_connected i first c.window_manager)

abbrev pub continue_connected : ℕ → Shown → Answers → MfcController → Bool × WindowManager → Done
continue_connected i sh a c (false, m) = refused (set_windows m c)
continue_connected i sh a c (true, m) =
    if is_some (get c.slot_states i)
    then perform i (to_running "Batch Continue") (continue_sequence a) (set_windows m c)
        (is_slot_connected i sh m)
    else refused (set_windows m c)

unfoldable pub continue_batch : ℕ → Shown → Shown → Answers → MfcController → Done
unfolding change_state
continue_batch i first second a c =
    continue_connected i second a c (is_slot_connected i first c.window_manager)

abbrev pub stop_connected : ℕ → Shown → Answers → MfcController → Bool × WindowManager → Done
stop_connected i sh a c (false, m) = refused (set_windows m c)
stop_connected i sh a c (true, m) =
    if is_some (get c.slot_states i)
    then perform i (λ s. record s { status = some SlotStatus.stopped }) (stop_sequence a)
        (set_windows m c) (is_slot_connected i sh m)
    else refused (set_windows m c)

unfoldable pub stop_test : ℕ → Shown → Shown → Answers → MfcController → Done
unfolding change_state
stop_test i first second a c =
    stop_connected i second a c (is_slot_connected i first c.window_manager)

-- A slot that is not connected: `none` is the AttributeError of a status that was never set.
abbrev pub fail_running : ControlState → Option SlotStatus → Option ControlState
fail_running s none = none
fail_running s (some SlotStatus.running) =
    some (record s { status = some SlotStatus.error; error_message = some Reason.connection_lost })
fail_running s (some _) = some s

abbrev pub store_state : ℕ → MfcController → Option ControlState → MfcController × Bool
store_state i c none = (c, true)
store_state i c (some s) = (record c { slot_states = put c.slot_states i s }, false)

abbrev pub update_if_any : ℕ → MfcController → Option ControlState → MfcController × Bool
update_if_any i c none = (c, true)
update_if_any i c (some s) = store_state i c (fail_running s s.status)

abbrev pub update_slot : ℕ → MfcController → Bool × WindowManager → MfcController × Bool
update_slot i c (true, m) = (set_windows m c, false)
update_slot i c (false, m) = update_if_any i (set_windows m c) (get c.slot_states i)

-- for slot_idx in range(first, first + n); true is an exception, which ends the loop.
unfoldable pub update_slots : ℕ → ℕ → Shown → MfcController → MfcController × Bool
update_slots zero first sh c = (c, false)
update_slots (suc n) first sh c =
    let r = update_slot first c (is_slot_connected first sh c.window_manager) in
    let rest = update_slots n (suc first) sh r.0 in if r.1 then r else rest

unfoldable pub update_all_slot_states : Shown → MfcController → MfcController × Bool
unfolding update_slots
update_all_slot_states sh c = update_slots 4 0 sh c

-- One turn of `_monitor_loop` up to the callbacks, which an exception skips.
unfoldable pub monitor_turn : Shown → MfcController → MfcController × Bool
unfolding update_all_slot_states
monitor_turn sh c =
    update_all_slot_states sh (set_windows (refresh_all_status sh c.window_manager) c)
