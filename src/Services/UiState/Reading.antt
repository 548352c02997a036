-- ===== src/Services/UiState/Reading.antt =====
-- services/mfc_ui_monitor.py: `_read_ui_state`, the reading of a window's controls. What each of them
-- answers is an argument.
use aio_ss_usb_test_agent.Prelude.{
  ℕ, ◌≡◌, refl, if◌then◌else◌, Bool, true, false, not, ◌&&◌, Option, none, some, String, List, [],
  ◌∷◌, ◌==◌,
}
use aio_ss_usb_test_agent.Domain.Enums.{ProcessState, TestPhase, ProcessState-discrete}
use aio_ss_usb_test_agent.Domain.Context.{Time}
use aio_ss_usb_test_agent.Domain.Texts.{
  Text, codes, strip, is_digit, number_from, process_state_from_text, test_phase_from_text,
  parse_progress_text,
}
use aio_ss_usb_test_agent.Services.UiState.{
  MfcUiState, ChangedField, detect_changes, check_test_completion, concluded, if_changed,
  Description, check_user_intervention, describe_if, names_total_loop,
}

-- A control is not there, raises when it is read, or gives its text or whether it is enabled.
pub data Answer (A : Type 0) : Type 0 where
  absent raising : Answer A
  gives : A → Answer A

pub record Controls : Type 0 where
  pub state_button : Answer String
  pub status_static : Answer String
  pub progress_static : Answer String
  pub loop_edit : Answer String
  pub test_button : Answer Bool
  pub stop_button : Answer Bool

-- MFCUIState(slot_idx=...)
abbrev pub blank_state : ℕ → Time → MfcUiState
blank_state slot_idx now = record {
  slot_idx = slot_idx;
  process_state = ProcessState.idle;
  test_phase = TestPhase.idle;
  current_loop = 0;
  total_loop = 0;
  status_text = "";
  progress_text = "";
  is_test_button_enabled = false;
  is_stop_button_enabled = false;
  timestamp = now;
}

abbrev pub set_status : String → MfcUiState → MfcUiState
set_status t s = record s { status_text = t; process_state = process_state_from_text (codes t) }

abbrev set_loop_pair : ℕ × ℕ → MfcUiState → MfcUiState
set_loop_pair (current, total) s = record s { current_loop = current; total_loop = total }

abbrev pub set_progress : String → MfcUiState → MfcUiState
set_progress t s =
    set_loop_pair (parse_progress_text (codes t) (s.current_loop, s.total_loop))
      (record s { progress_text = t; test_phase = test_phase_from_text (codes t) })

-- The digits of an integer's text, without the underscores between them: after a digit, and at the
-- beginning or after an underscore; 95 is the underscore.
abbrev cons_if_any : ℕ → Option Text → Option Text
cons_if_any c none = none
cons_if_any c (some ds) = some (c ∷ ds)

abbrev digit_groups : Text → Option Text × Option Text
digit_groups [] = (some [], none)
digit_groups (c ∷ cs) =
    let rest = digit_groups cs in
    if is_digit c
    then (cons_if_any c rest.0, cons_if_any c rest.0)
    else if c == 95
    then (rest.1, none)
    else (none, none)

-- 43 is the plus sign.
abbrev after_plus : Text → Text
after_plus [] = []
after_plus (c ∷ cs) = if c == 43 then cs else c ∷ cs

abbrev number_if_any : Option Text → ℕ
number_if_any none = 0
number_if_any (some ds) = number_from 0 ds

-- int(text), or 0 for a text that is no integer, and, other than in the code, for a negative one.
abbrev pub number_of : Text → ℕ
number_of t = number_if_any (digit_groups (after_plus (strip t))).1

abbrev pub set_total : String → MfcUiState → MfcUiState
set_total t s = record s { total_loop = number_of (codes t) }

-- What has been read, and whether an exception has ended the reading.
abbrev pub Reading : Type 0
Reading = MfcUiState × Bool

abbrev pub read_control :
    {A : Type 0} → Answer A → (A → MfcUiState → MfcUiState) → Reading → Reading
read_control a set (s, true) = (s, true)
read_control absent set (s, false) = (s, false)
read_control raising set (s, false) = (s, true)
read_control (gives x) set (s, false) = (set x s, false)

-- The button of the state, or, if it is not there, the text of the status.
abbrev pub status_of : Answer String → Answer String → Answer String
status_of absent static = static
status_of raising static = raising
status_of (gives t) static = gives t

unfoldable pub read_ui_state : ℕ → Time → Controls → MfcUiState
read_ui_state slot_idx now c =
    (read_control c.stop_button (λ b s. record s { is_stop_button_enabled = b })
      (read_control c.test_button (λ b s. record s { is_test_button_enabled = b })
        (read_control c.loop_edit set_total (
          read_control c.progress_static set_progress (
            read_control (status_of c.state_button c.status_static) set_status
              (blank_state slot_idx now, false)))))).0

-- A text that is not read.
abbrev pub IsUnread : Answer String → Type 0
IsUnread absent = Unit
IsUnread raising = Unit
IsUnread (gives t) = ⊥

-- What is left of a window none of whose texts is read.
abbrev IsBlank : Reading → Type 0
IsBlank (s, e) = (s.process_state ≡ ProcessState.idle) × (s.total_loop ≡ 0)

IsBlank-unread :
    (a : Answer String) (set : String → MfcUiState → MfcUiState) (r : Reading)
    → IsUnread a
    → IsBlank r
    → IsBlank (read_control a set r)
IsBlank-unread absent set (s, true) u h = h
IsBlank-unread absent set (s, false) u h = h
IsBlank-unread raising set (s, true) u h = h
IsBlank-unread raising set (s, false) u h = h
IsBlank-unread (gives t) set r u h = absurd u

IsBlank-switch :
    (a : Answer Bool) (set : Bool → MfcUiState → MfcUiState) (r : Reading)
    → ((b : Bool) (s : MfcUiState) (e : Bool) → IsBlank (s, e) → IsBlank (set b s, e))
    → IsBlank r
    → IsBlank (read_control a set r)
IsBlank-switch absent set (s, true) k h = h
IsBlank-switch raising set (s, true) k h = h
IsBlank-switch (gives b) set (s, true) k h = h
IsBlank-switch absent set (s, false) k h = h
IsBlank-switch raising set (s, false) k h = h
IsBlank-switch (gives b) set (s, false) k h = k b s false h

status_of-IsUnread : (a b : Answer String) → IsUnread a → IsUnread b → IsUnread (status_of a b)
status_of-IsUnread absent b u v = v
status_of-IsUnread raising b u v = tt
status_of-IsUnread (gives t) b u v = absurd u

abbrev pub AllUnread : Controls → Type 0
AllUnread c =
    (IsUnread c.state_button × IsUnread c.status_static)
    × (IsUnread c.progress_static × IsUnread c.loop_edit)

read_ui_state-IsBlank :
    (slot_idx : ℕ) (now : Time) (c : Controls)
    → AllUnread c
    → IsBlank (read_ui_state slot_idx now c, false)
unfolding read_ui_state
read_ui_state-IsBlank slot_idx now c ((b, s), (p, l)) =
    let start : Reading = (blank_state slot_idx now, false) in
    let status = read_control (status_of c.state_button c.status_static) set_status start in
    let progress = read_control c.progress_static set_progress status in
    let loops = read_control c.loop_edit set_total progress in
    IsBlank-switch c.stop_button (λ b s. record s { is_stop_button_enabled = b })
      (read_control c.test_button (λ b s. record s { is_test_button_enabled = b }) loops)
      (λ b s r h. h)
      (IsBlank-switch c.test_button (λ b s. record s { is_test_button_enabled = b }) loops
        (λ b s r h. h)
        (IsBlank-unread c.loop_edit set_total progress l (
          IsBlank-unread c.progress_static set_progress status p (
            IsBlank-unread (status_of c.state_button c.status_static) set_status start
              (status_of-IsUnread c.state_button c.status_static b s) (refl, refl)))))

check_test_completion-IsBlank :
    (p : Option MfcUiState) (s : MfcUiState) → IsBlank (s, false) → check_test_completion p s ≡ none
unfolding check_test_completion ProcessState-discrete
check_test_completion-IsBlank none s h = refl
check_test_completion-IsBlank (some p) s (idle, none_done) = rw (idle, none_done) refl

-- A window that goes from Test to Idle is taken for one in which the user has stopped the test.
stopped_manually_first :
    (p s : MfcUiState) (fs : List ChangedField)
    → p.process_state ≡ ProcessState.test
    → s.process_state ≡ ProcessState.idle
    → (rest : List Description) × (check_user_intervention (some p) s fs
        ≡ Description.stopped_manually ∷ rest)
unfolding check_user_intervention ProcessState-discrete
stopped_manually_first p s fs test idle = (
  describe_if (names_total_loop fs && not (p.total_loop == s.total_loop))
      (Description.loop_count_changed p.total_loop s.total_loop),
  rw (test, idle) refl,
)

-- A window none of whose texts can be read counts as idle: no poll of it reports a completion, whatever
-- it showed before; but if it showed a test at work before, the user is said to have stopped the test.
pub read_ui_state-Judged :
    (p : MfcUiState) (slot_idx : ℕ) (now : Time) (c : Controls)
    → AllUnread c
    → (concluded (some p) (read_ui_state slot_idx now c) ≡ none)
      × (p.process_state ≡ ProcessState.test
          → (rest : List Description) × (check_user_intervention
                (some p)
                (read_ui_state slot_idx now c)
                (detect_changes (some p) (read_ui_state slot_idx now c))
              ≡ Description.stopped_manually ∷ rest))
unfolding concluded
read_ui_state-Judged p slot_idx now c u = (
  nothing (detect_changes (some p) (read_ui_state slot_idx now c)),
  (λ test.
      stopped_manually_first p (read_ui_state slot_idx now c)
        (detect_changes (some p) (read_ui_state slot_idx now c)) test blank.0),
)
  where
    blank : IsBlank (read_ui_state slot_idx now c, false)
    blank = read_ui_state-IsBlank slot_idx now c u

    nothing :
        (fs : List ChangedField)
        → if_changed fs (check_test_completion (some p) (read_ui_state slot_idx now c)) ≡ none
    nothing [] = refl
    nothing (f ∷ fs) = check_test_completion-IsBlank (some p) (read_ui_state slot_idx now c) blank

abbrev process_state_if_read : Answer String → Option ProcessState
process_state_if_read absent = none
process_state_if_read raising = none
process_state_if_read (gives t) = some (process_state_from_text (codes t))

-- `_read_process_state_from_ui` of services/batch_executor.py, in a window that is connected or not:
-- here a text that cannot be read is no state.
unfoldable pub read_process_state_from_ui : Bool → Answer String → Option ProcessState
read_process_state_from_ui connected button =
    if connected then process_state_if_read button else none
