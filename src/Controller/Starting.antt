-- ===== src/Controller/Starting.antt =====
-- controller/controller.py: what `start_test`, `continue_batch` and `stop_test` do in a window, one
-- action after the other. What the controls of the window answer is an argument. The focus, which is
-- set before a click and whose failure is only logged, and the waits are left out.
pub mod Order
use aio_ss_usb_test_agent.Prelude.{
  ℕ, zero, suc, ◌≡◌, refl, ◌⊎◌, inl, inr, if◌then◌else◌, Bool, true, false, ◌&&◌, ◌||◌, under_if,
  Option, none, some, Option-cases, String, List, [], ◌∷◌, ◌++◌, All, All-append,
}
use aio_ss_usb_test_agent.Domain.Config.{TestConfig}
use aio_ss_usb_test_agent.Domain.Values.{value, capacity_enum, method_enum, file_enum}
use aio_ss_usb_test_agent.Domain.Texts.{Text, codes, contains}
use aio_ss_usb_test_agent.Controller.Selecting.{choose_item, choose_drive, drive_letter}

-- What is done in a window. A selection has the index of its item.
pub data Action : Type 0 where
  contact_reset ignore_fail_unchecked contact_clicked test_clicked stop_clicked : Action
  drive_selected capacity_selected method_selected loop_set file_selected : ℕ → Action

-- The RuntimeErrors that end a sequence.
pub data Fault : Type 0 where
  no_window drive_not_set capacity_not_set method_not_set loop_not_set file_not_set
        contact_not_clicked contact_not_enabled test_not_enabled test_not_clicked stop_not_clicked :
      Fault

-- A combo box: its items, if it is found and can be read, and whether a selection in it succeeds.
pub record Combo : Type 0 where
  pub items : Option (List Text)
  pub selects : Bool

-- A button: how each attempt to click it ends, and whether the click by its name succeeds.
pub record Button : Type 0 where
  pub clicks : ℕ → Bool
  pub by_name : Bool

pub data CheckBox : Type 0 where
  missing checked unchecked stateless broken : CheckBox

-- The answers of the controls during one call. A list of a button's states has one for each turn of the
-- wait before its timeout.
pub record Answers : Type 0 where
  pub status_text : Option Text
  pub reset_works : Bool
  pub ignore_fail : CheckBox
  pub drives : Combo
  pub capacities : Combo
  pub methods : Combo
  pub edit_works : Bool
  pub files : Combo
  pub contact_enabled : List Bool
  pub contact : Button
  pub test_enabled : List Bool
  pub test : Button
  pub stop_works : Bool

-- What has been done, and the exception that ended it, if any.
abbrev pub Performed : Type 0
Performed = List Action × Option Fault

abbrev after_actions : List Action → Performed → Performed
after_actions done (more, f) = (done ++ more, f)

infixr 20 ◌and_then◌
abbrev pub ◌and_then◌ : Performed → Performed → Performed
(done, some f) and_then q = (done, some f)
(done, none) and_then q = after_actions done q

-- `_reset_mfc_state`: the reset by Contact, in a window that shows Pass.
abbrev pub is_pass : Option Text → Bool
is_pass none = false
is_pass (some t) = contains t (codes "Pass")

abbrev pub reset_mfc_state : Answers → Performed
reset_mfc_state a =
    if is_pass a.status_text && a.reset_works then (Action.contact_reset ∷ [], none) else ([], none)

abbrev pub is_to_uncheck : CheckBox → Bool
is_to_uncheck CheckBox.missing = false
is_to_uncheck CheckBox.checked = true
is_to_uncheck CheckBox.unchecked = false
is_to_uncheck CheckBox.stateless = true
is_to_uncheck CheckBox.broken = false

-- `_uncheck_ignore_fail`, whose failure is only logged.
abbrev pub uncheck_ignore_fail : Answers → Performed
uncheck_ignore_fail a =
    if is_to_uncheck a.ignore_fail then (Action.ignore_fail_unchecked ∷ [], none) else ([], none)

-- A choice that is made in the items and selected.
abbrev pub chosen_in : (List Text → Option ℕ) → Combo → Option (List Text) → Option ℕ
chosen_in choose c none = none
chosen_in choose c (some items) = if c.selects then choose items else none

abbrev pub choice : (List Text → Option ℕ) → Combo → Option ℕ
choice choose c = chosen_in choose c c.items

abbrev pub select : (ℕ → Action) → Fault → Option ℕ → Performed
select act fault none = ([], some fault)
select act fault (some n) = (act n ∷ [], none)

abbrev pub drive_choice : TestConfig → Answers → Option ℕ
drive_choice c a = choice (choose_drive (drive_letter (codes c.drive))) a.drives

abbrev pub capacity_choice : TestConfig → Answers → Option ℕ
capacity_choice c a = choice (choose_item (codes (value c.capacity))) a.capacities

abbrev pub method_choice : TestConfig → Answers → Option ℕ
method_choice c a = choice (choose_item (codes (value c.method))) a.methods

abbrev pub file_choice : TestConfig → Answers → Option ℕ
file_choice c a = choice (choose_item (codes (value c.test_file))) a.files

abbrev pub loop_choice : TestConfig → Answers → Option ℕ
loop_choice c a = if a.edit_works then some c.loop_step else none

-- `_click_button_with_focus`: at most the given number of attempts.
abbrev pub clicked_within : ℕ → ℕ → (ℕ → Bool) → Bool
clicked_within zero attempt clicks = false
clicked_within (suc n) attempt clicks = clicks attempt || clicked_within n (suc attempt) clicks

-- Five attempts, and then one by the button's name.
abbrev pub is_clicked : Button → Bool
is_clicked b = clicked_within 5 0 b.clicks || b.by_name

abbrev pub done_if : Bool → List Action → Fault → Performed
done_if works done fault = if works then (done, none) else ([], some fault)

abbrev pub click_contact_button : Answers → Performed
click_contact_button a =
    done_if (is_clicked a.contact) (Action.contact_clicked ∷ []) Fault.contact_not_clicked

abbrev pub click_start_button : Answers → Performed
click_start_button a = done_if (is_clicked a.test) (Action.test_clicked ∷ []) Fault.test_not_clicked

abbrev pub is_enabled_once : List Bool → Bool
is_enabled_once [] = false
is_enabled_once (b ∷ bs) = b || is_enabled_once bs

abbrev pub wait_for_test_button_enabled : Answers → Performed
wait_for_test_button_enabled a = done_if (is_enabled_once a.test_enabled) [] Fault.test_not_enabled

abbrev pub wait_for_contact_button_enabled : Answers → Performed
wait_for_contact_button_enabled a =
    done_if (is_enabled_once a.contact_enabled) [] Fault.contact_not_enabled

-- Contact, and then Test once it is enabled.
unfoldable pub contact_and_test : Answers → Performed
contact_and_test a =
    click_contact_button a and_then wait_for_test_button_enabled a and_then click_start_button a

-- The settings of a configuration, in the order of the code.
unfoldable pub start_sequence : TestConfig → Answers → Performed
unfolding contact_and_test
start_sequence c a =
    reset_mfc_state a
    and_then uncheck_ignore_fail a
    and_then select Action.drive_selected Fault.drive_not_set (drive_choice c a)
    and_then select Action.capacity_selected Fault.capacity_not_set (capacity_choice c a)
    and_then select Action.method_selected Fault.method_not_set (method_choice c a)
    and_then select Action.loop_set Fault.loop_not_set (loop_choice c a)
    and_then select Action.file_selected Fault.file_not_set (file_choice c a)
    and_then contact_and_test a

unfoldable pub continue_sequence : Answers → Performed
unfolding contact_and_test
continue_sequence a = wait_for_contact_button_enabled a and_then contact_and_test a

unfoldable pub stop_sequence : Answers → Performed
stop_sequence a = done_if a.stop_works (Action.stop_clicked ∷ []) Fault.stop_not_clicked
