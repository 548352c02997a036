-- ===== src/Services/UiState/Examples.antt =====
-- A test of five loops, seen at five polls.
use aio_ss_usb_test_agent.Prelude.{ℕ, ◌≤◌, ◌≡◌, refl, true, false, none, some, List, [], ◌∷◌}
use aio_ss_usb_test_agent.Domain.Enums.{ProcessState, TestPhase, ProcessState-discrete}
use aio_ss_usb_test_agent.Services.UiState.{
  MfcUiState, ChangedField, Description, detect_changes, check_test_completion, concluded,
  check_user_intervention,
}
use aio_ss_usb_test_agent.Services.UiState.Reading.{
  Controls, absent, raising, gives, number_of, read_ui_state, read_ui_state-Judged,
}
use aio_ss_usb_test_agent.Domain.Texts.{codes, parse_progress_text, match_loops}
use aio_ss_usb_test_agent.Services.UiState.Completions.{passes_told, tests_begun, passes_bounded}

abbrev shows : ProcessState → TestPhase → ℕ → MfcUiState
shows s phase loop = record {
  slot_idx = 0;
  process_state = s;
  test_phase = phase;
  current_loop = loop;
  total_loop = 5;
  status_text = "";
  progress_text = "";
  is_test_button_enabled = true;
  is_stop_button_enabled = true;
  timestamp = 0;
}

abbrev run : List MfcUiState
run =
    shows ProcessState.idle TestPhase.idle 0
    ∷ shows ProcessState.test TestPhase.copy 2
    ∷ shows ProcessState.pass TestPhase.idle 5
    ∷ shows ProcessState.idle TestPhase.idle 5
    ∷ shows ProcessState.idle TestPhase.idle 5
    ∷ []

told_once : passes_told none run ≡ 1
unfolding concluded detect_changes check_test_completion ProcessState-discrete
told_once = refl

changes_seen :
    detect_changes
      (some (shows ProcessState.test TestPhase.copy 2))
      (shows ProcessState.fail TestPhase.copy 3)
    ≡ ChangedField.process_state ∷ ChangedField.current_loop ∷ []
unfolding detect_changes ProcessState-discrete
changes_seen = refl

passes_bounded_example : passes_told none run ≤ tests_begun none run
passes_bounded_example = passes_bounded none run refl

-- A window whose first control raises.
abbrev unreadable : Controls
unreadable = record {
  state_button = raising;
  status_static = absent;
  progress_static = absent;
  loop_edit = absent;
  test_button = gives true;
  stop_button = absent;
}

read_ui_state-Judged_example :
    (concluded (some (shows ProcessState.test TestPhase.copy 2)) (read_ui_state 0 7 unreadable)
      ≡ none)
    × ((shows ProcessState.test TestPhase.copy 2).process_state ≡ ProcessState.test
        → (rest : List Description) × (check_user_intervention
              (some (shows ProcessState.test TestPhase.copy 2))
              (read_ui_state 0 7 unreadable)
              (detect_changes
                (some (shows ProcessState.test TestPhase.copy 2))
                (read_ui_state 0 7 unreadable))
            ≡ Description.stopped_manually ∷ rest))
read_ui_state-Judged_example =
    read_ui_state-Judged (shows ProcessState.test TestPhase.copy 2) 0 7 unreadable
      ((tt, tt), (tt, tt))

abbrev readable : Controls
readable = record {
  state_button = gives "Test";
  status_static = absent;
  progress_static = gives "4/10  File Copy 35/88";
  loop_edit = gives "10";
  test_button = gives false;
  stop_button = gives true;
}

loops_of_readable : (read_ui_state 0 7 readable).current_loop ≡ 4
unfolding read_ui_state parse_progress_text match_loops
loops_of_readable = refl

-- The texts of integers that `int` takes.
integers_read :
    ((number_of (codes " 35 ") ≡ 35) × (number_of (codes "+5") ≡ 5))
    × ((number_of (codes "1_0") ≡ 10) × (number_of (codes "1__0") ≡ 0))
integers_read = ((refl, refl), (refl, refl))
