-- ===== src/Services/UiState.antt =====
-- services/mfc_ui_monitor.py: what a poll of a slot's window shows, and what `MFCUIMonitor` concludes
-- from two polls in a row.
pub mod Completions
pub mod Reading
mod Examples
use aio_ss_usb_test_agent.Prelude.{
  ℕ, ◌==◌, ltb, if◌then◌else◌, Bool, true, false, ◌&&◌, ◌||◌, not, Option, none, some, String,
  str_eq, List, [], ◌∷◌, ◌++◌,
}
use aio_ss_usb_test_agent.Prelude.Dict.{beq}
use aio_ss_usb_test_agent.Domain.Enums.{ProcessState, TestPhase, process_state_eq}
use aio_ss_usb_test_agent.Domain.Context.{Time}

pub record MfcUiState : Type 0 where
  pub slot_idx : ℕ
  pub process_state : ProcessState
  pub test_phase : TestPhase
  pub current_loop : ℕ
  pub total_loop : ℕ
  pub status_text : String
  pub progress_text : String
  pub is_test_button_enabled : Bool
  pub is_stop_button_enabled : Bool
  pub timestamp : Time

-- A name in `changed_fields`.
pub data ChangedField : Type 0 where
  process_state current_loop total_loop status_text : ChangedField
  is_test_button_enabled is_stop_button_enabled : ChangedField

-- if ...: changed.append(...)
abbrev append_if : Bool → ChangedField → List ChangedField
append_if b f = if b then f ∷ [] else []

abbrev bool_eq : Bool → Bool → Bool
bool_eq true b = b
bool_eq false b = not b

-- The first poll of a slot shows no change.
unfoldable pub detect_changes : Option MfcUiState → MfcUiState → List ChangedField
detect_changes none c = []
detect_changes (some p) c =
    append_if (not (beq p.process_state c.process_state)) ChangedField.process_state
    ++ append_if (not (p.current_loop == c.current_loop)) ChangedField.current_loop
    ++ append_if (not (p.total_loop == c.total_loop)) ChangedField.total_loop
    ++ append_if (not (str_eq p.status_text c.status_text)) ChangedField.status_text
    ++ append_if (not (bool_eq p.is_test_button_enabled c.is_test_button_enabled))
        ChangedField.is_test_button_enabled
    ++ append_if (not (bool_eq p.is_stop_button_enabled c.is_stop_button_enabled))
        ChangedField.is_stop_button_enabled

abbrev pub is_idle_phase : TestPhase → Bool
is_idle_phase TestPhase.idle = true
is_idle_phase _ = false

-- total_loop > 0 and current_loop == total_loop and test_phase == TestPhase.IDLE
abbrev pub loops_done : MfcUiState → Bool
loops_done c =
    ltb 0 c.total_loop && ((c.current_loop == c.total_loop) && is_idle_phase c.test_phase)

-- process_state in (PASS, TEST)
abbrev pub is_active : ProcessState → Bool
is_active ProcessState.pass = true
is_active ProcessState.test = true
is_active _ = false

-- `_check_test_completion`: the final state that the callback is called with, if it is.
unfoldable pub check_test_completion : Option MfcUiState → MfcUiState → Option ProcessState
check_test_completion none c = none
check_test_completion (some p) c =
    if beq c.process_state ProcessState.fail && not (beq p.process_state ProcessState.fail)
    then some ProcessState.fail
    else if beq c.process_state ProcessState.stop && not (beq p.process_state ProcessState.stop)
    then some ProcessState.stop
    else if beq c.process_state ProcessState.idle && (loops_done c && is_active p.process_state)
    then some ProcessState.pass
    else none

-- A description of a user's intervention: a text, or a text with two numbers in it.
pub data Description : Type 0 where
  stopped_manually : Description
  loop_count_changed : ℕ → ℕ → Description

abbrev describe_if : Bool → Description → List Description
describe_if b d = if b then d ∷ [] else []

-- "total_loop" in changed_fields
abbrev names_total_loop : List ChangedField → Bool
names_total_loop [] = false
names_total_loop (ChangedField.total_loop ∷ fs) = true
names_total_loop (_ ∷ fs) = names_total_loop fs

-- `_check_user_intervention`: the calls of the callback, in order. The code tests the change of
-- `total_loop` twice, by its name in `changed_fields` and by its values.
unfoldable pub check_user_intervention :
    Option MfcUiState → MfcUiState → List ChangedField → List Description
check_user_intervention none c changed = []
check_user_intervention (some p) c changed =
    describe_if (beq p.process_state ProcessState.test && beq c.process_state ProcessState.idle)
      Description.stopped_manually
    ++ describe_if (names_total_loop changed && not (p.total_loop == c.total_loop))
        (Description.loop_count_changed p.total_loop c.total_loop)

-- if changed_fields: ...
abbrev pub if_changed : List ChangedField → Option ProcessState → Option ProcessState
if_changed [] o = none
if_changed (_ ∷ _) o = o

-- The completion that one poll reports.
unfoldable pub concluded : Option MfcUiState → MfcUiState → Option ProcessState
unfolding detect_changes check_test_completion
concluded p c = if_changed (detect_changes p c) (check_test_completion p c)
