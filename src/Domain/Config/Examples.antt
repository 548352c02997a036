-- ===== src/Domain/Config/Examples.antt =====
-- A configuration written, read and validated.
use aio_ss_usb_test_agent.Prelude.{◌≡◌, ◌↔◌, refl, true, some, [], ◌∷◌, ℤ}
use aio_ss_usb_test_agent.Domain.Enums.{TestCapacity, TestMethod, TestPreset, TestFile, VendorId}
use aio_ss_usb_test_agent.Domain.Values.{of_value}
use aio_ss_usb_test_agent.Domain.Config.{TestConfig, no_precondition}
use aio_ss_usb_test_agent.Domain.Config.Codec.{
  Json, Failure, ok, failed, from_dict, to_dict, ◌⇒◌&◌, empty,
}
use aio_ss_usb_test_agent.Domain.Config.RoundTrip.{from_dict-to_dict}
use aio_ss_usb_test_agent.Domain.Config.Validation.{
  Unchecked, Problem, validate, is_valid, Runnable, is_valid-Runnable,
}

abbrev config : TestConfig
config = record {
  slot_idx = 2;
  jira_no = "J-1";
  sample_no = "S-7";
  drive = "H";
  test_preset = TestPreset.hot;
  test_file = TestFile.mp3;
  method = TestMethod.cycle;
  capacity = TestCapacity.gb_64;
  loop_count = 12;
  test_name = "Long run";
  loop_step = 5;
  start_loop = 3;
  batch_enabled = true;
  precondition = record no_precondition { enabled = true; capacity = some TestCapacity.tb_1 };
  drive_capacity_gb = 59700;
  hr_enabled = true;
  adaptive_vol = true;
  die_count = 2;
  vendor_id = VendorId.other;
  created_at = 40;
  test_id = some "t1";
}

from_dict-to_dict_example :
    from_dict 90 (to_dict config) ≡ ok (record config { test_name = "USB Test"; created_at = 90 })
from_dict-to_dict_example = from_dict-to_dict 90 config

no_slot : from_dict 0 ("drive" ⇒ Json.text "H" & empty) ≡ failed (Failure.key_error "slot_idx")
unfolding from_dict of_value
no_slot = refl

abbrev unchecked : Unchecked
unchecked = record {
  slot_idx = ℤ.pos 2;
  jira_no = "J-1";
  sample_no = "S-7";
  drive = "H";
  loop_count = ℤ.pos 12;
  loop_step = ℤ.pos 5;
  start_loop = ℤ.pos 3;
  hr_enabled = true;
  die_count = ℤ.pos 2;
}

two_problems :
    validate (record unchecked { slot_idx = ℤ.negsuc 0; start_loop = ℤ.pos 12 })
    ≡ Problem.slot_idx_range (ℤ.negsuc 0) ∷ Problem.start_loop_late (ℤ.pos 12) (ℤ.pos 12) ∷ []
unfolding validate
two_problems = refl

unchecked_valid : is_valid unchecked ≡ true
unfolding is_valid validate
unchecked_valid = refl

is_valid-Runnable_example : (is_valid unchecked ≡ true) ↔ Runnable unchecked
is_valid-Runnable_example = is_valid-Runnable unchecked
