-- ===== src/Controller/Slots/Examples.antt =====
-- A controller whose slot 1 is connected, and a start in its window.
use aio_ss_usb_test_agent.Prelude.{◌≡◌, refl, true, false, none, some, List, [], ◌∷◌, ◌==◌}
use aio_ss_usb_test_agent.Prelude.Dict.{get, put, nat_eq}
use aio_ss_usb_test_agent.Domain.Config.{TestConfig, no_precondition}
use aio_ss_usb_test_agent.Domain.Enums.{TestCapacity, TestMethod, TestPreset, TestFile, VendorId}
use aio_ss_usb_test_agent.Domain.Texts.{codes, Text}
use aio_ss_usb_test_agent.Controller.Windows.{
  Shown, SlotWindow, is_slot_connected, new_window_manager, fill_windows, is_window_connected,
}
use aio_ss_usb_test_agent.Controller.Starting.{
  Answers, Button, Combo, CheckBox, Action, start_sequence, contact_and_test,
}
use aio_ss_usb_test_agent.Controller.Selecting.{
  choose_drive, choose_item, drive_letter, begins_with, Found, Chosen, choose_drive-Found,
  choose_item-Chosen,
}
use aio_ss_usb_test_agent.Controller.Starting.Order.{IsStarted}
use aio_ss_usb_test_agent.Controller.Slots.{
  MfcController, SlotStatus, new_controller, unset_state, start_test, fill_states,
  update_all_slot_states, change_state, stop_test,
}
use aio_ss_usb_test_agent.Controller.Slots.Settled.{
  Settled, start_test-Settled, stop_test-Settled, IsStopped,
}

abbrev window : SlotWindow
window = record { available = true; has_app = true; has_window = true; window_pid = some 8 }

abbrev fresh : MfcController
fresh = new_controller true

abbrev controller : MfcController
controller = record fresh {
  window_manager = record fresh.window_manager {
    slot_windows = put fresh.window_manager.slot_windows 1 window;
  };
}

abbrev shown : Shown
shown = record { pid_exists = λ p. p == 8; window_exists = λ p. some true }

abbrev config : TestConfig
config = record {
  slot_idx = 1;
  jira_no = "J-1";
  sample_no = "S-1";
  drive = "E: - 119.1GB";
  test_preset = TestPreset.full;
  test_file = TestFile.photo;
  method = TestMethod.zero_hr;
  capacity = TestCapacity.gb_32;
  loop_count = 10;
  test_name = "t";
  loop_step = 5;
  start_loop = 0;
  batch_enabled = true;
  precondition = no_precondition;
  drive_capacity_gb = 0;
  hr_enabled = false;
  adaptive_vol = false;
  die_count = 1;
  vendor_id = VendorId.ss;
  created_at = 0;
  test_id = none;
}

abbrev combo : List Text → Combo
combo items = record { items = some items; selects = true }

abbrev button : Button
button = record { clicks = λ n. n == 1; by_name = false }

abbrev answers : Answers
answers = record {
  status_text = some (codes "Idle");
  reset_works = true;
  ignore_fail = CheckBox.checked;
  drives = combo (codes "D:\\" ∷ codes "E:\\" ∷ []);
  capacities = combo (codes "1GB" ∷ codes "32GB" ∷ []);
  methods = combo (codes "0HR" ∷ codes "Read" ∷ []);
  edit_works = true;
  files = combo (codes "MP3" ∷ codes "Photo" ∷ []);
  contact_enabled = true ∷ [];
  contact = button;
  test_enabled = false ∷ true ∷ [];
  test = button;
  stop_works = true;
}

state_of_1 : get controller.slot_states 1 ≡ some unset_state
unfolding new_controller fill_states get put
state_of_1 = refl

start_test-Settled_example :
    Settled
      (IsStarted config answers)
      SlotStatus.running
      1
      controller
      (start_test 1 config shown shown answers controller)
start_test-Settled_example =
    start_test-Settled 1 config shown shown answers controller unset_state state_of_1

stop_test-Settled_example :
    Settled IsStopped SlotStatus.stopped 1 controller (stop_test 1 shown shown answers controller)
stop_test-Settled_example =
    stop_test-Settled 1 shown shown answers controller unset_state state_of_1

starts :
    (start_test 1 config shown shown answers controller).actions
    ≡ Action.ignore_fail_unchecked
      ∷ Action.drive_selected 1
      ∷ Action.capacity_selected 1
      ∷ Action.method_selected 0
      ∷ Action.loop_set 5
      ∷ Action.file_selected 1
      ∷ Action.contact_clicked
      ∷ Action.test_clicked
      ∷ []
unfolding start_test new_controller new_window_manager fill_windows fill_states get put
    is_slot_connected is_window_connected start_sequence contact_and_test choose_drive choose_item
    drive_letter change_state
starts = refl

-- The status of a slot that was never connected is not an attribute of its state yet.
monitoring_raises : (update_all_slot_states shown fresh).1 ≡ true
unfolding update_all_slot_states new_controller new_window_manager fill_windows fill_states get put
    is_slot_connected is_window_connected
monitoring_raises = refl

choose_drive-Found_example :
    Found
      (begins_with (codes "E"))
      (codes "D:\\" ∷ codes "E:\\" ∷ [])
      (choose_drive (codes "E") (codes "D:\\" ∷ codes "E:\\" ∷ []))
choose_drive-Found_example = choose_drive-Found (codes "E") (codes "D:\\" ∷ codes "E:\\" ∷ [])

-- Without a letter the first drive is selected.
no_letter : choose_drive (drive_letter (codes ":")) (codes "D:\\" ∷ codes "E:\\" ∷ []) ≡ some 0
unfolding choose_drive drive_letter
no_letter = refl

choose_item-Chosen_example :
    Chosen
      (codes "8GB")
      (codes "128GB" ∷ codes "8GB " ∷ [])
      (choose_item (codes "8GB") (codes "128GB" ∷ codes "8GB " ∷ []))
choose_item-Chosen_example = choose_item-Chosen (codes "8GB") (codes "128GB" ∷ codes "8GB " ∷ [])

-- A capacity that is not there is taken for another one that contains its text.
other_capacity : choose_item (codes "4GB") (codes "1GB" ∷ codes "64GB" ∷ []) ≡ some 1
unfolding choose_item
other_capacity = refl
