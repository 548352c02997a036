-- ===== src/Agent/Commands/Configuring.antt =====
-- main.py: how `_execute_start_test` makes a `TestConfig` of what the backend sends. A message is a record
-- of its keys, whose values have the types of the protocol: `none` is a key that is missing. Numbers
-- are not negative, and the drive's size, an integer or a float, is in thousandths of a gigabyte. What
-- the code makes of values of other types, which it does not test, is left out.
use aio_ss_usb_test_agent.Prelude.{
  ℕ, if◌then◌else◌, Bool, true, false, Option, none, some, String, str_eq,
}
use aio_ss_usb_test_agent.Domain.Enums.{TestCapacity, TestMethod, TestPreset, TestFile, VendorId}
use aio_ss_usb_test_agent.Domain.Values.{to_capacity, to_method, to_preset, to_file}
use aio_ss_usb_test_agent.Domain.Context.{Time}
use aio_ss_usb_test_agent.Domain.Config.{PreconditionConfig, TestConfig, no_precondition}
use aio_ss_usb_test_agent.Domain.Config.Codec.{Failure, Parsed, ok, failed, ◌>>=◌}

-- A text or null.
abbrev pub Nullable : Type 0
Nullable = Option String

-- `enabled` is true, and false if it is null or missing.
pub record ReceivedPrecondition : Type 0 where
  pub enabled : Bool
  pub capacity : Option Nullable
  pub method : Option Nullable
  pub loop_count : Option ℕ

pub record ReceivedTest : Type 0 where
  pub capacity : Option Nullable
  pub method : Option Nullable
  pub loop_count : Option ℕ
  pub loop_step : Option ℕ

-- `precondition` and `test` are `none` also if they are null or empty.
pub record Received : Type 0 where
  pub precondition : Option ReceivedPrecondition
  pub test : Option ReceivedTest
  pub jira_no : Option String
  pub sample_no : Option String
  pub drive : Option String
  pub test_preset : Option Nullable
  pub test_file : Option Nullable
  pub test_name : Option String
  pub drive_capacity_gb : Option ℕ

-- data.get(key, default)
abbrev pub get_or {ℓ} : {A : Type ℓ} → A → Option A → A
get_or default none = default
get_or default (some a) = a

-- A converter on data.get(key, default): null is no text of a member, which gives the converter's
-- own default, as every other such text does.
abbrev convert : {A : Type 0} → (String → A) → A → String → Option Nullable → A
convert to other default none = to default
convert to other default (some none) = other
convert to other default (some (some text)) = to text

-- to_capacity(text) if text else None
abbrev given_capacity : Option Nullable → Option TestCapacity
given_capacity none = none
given_capacity (some none) = none
given_capacity (some (some t)) = if str_eq t "" then none else some (to_capacity t)

-- if precondition_data and precondition_data.get("enabled"): ... else: ...
received_precondition : Option ReceivedPrecondition → PreconditionConfig
received_precondition none = no_precondition
received_precondition (some d) =
    if d.enabled
    then record {
      enabled = true;
      method = convert to_method TestMethod.zero_hr "0HR" d.method;
      capacity = given_capacity d.capacity;
      loop_count = get_or 1 d.loop_count;
    }
    else no_precondition

-- if not test_data: raise ValueError(...)
received_test : Option ReceivedTest → Parsed ReceivedTest
received_test none = failed (Failure.value_error "Missing 'test' field in config from Backend")
received_test (some d) = ok d

unfoldable pub received_config : Time → ℕ → Received → Parsed TestConfig
unfolding received_precondition received_test
received_config now slot_idx d = do
  test ← received_test d.test
  ok (record {
    slot_idx = slot_idx;
    jira_no = get_or "" d.jira_no;
    sample_no = get_or "" d.sample_no;
    drive = get_or "D" d.drive;
    test_preset = convert to_preset TestPreset.full "Full" d.test_preset;
    test_file = convert to_file TestFile.photo "Photo" d.test_file;
    method = convert to_method TestMethod.zero_hr "0HR" test.method;
    capacity = convert to_capacity TestCapacity.gb_32 "4GB" test.capacity;
    loop_count = get_or 10 test.loop_count;
    test_name = get_or "USB Test" d.test_name;
    loop_step = get_or 1 test.loop_step;
    start_loop = 0;
    batch_enabled = true;
    precondition = received_precondition d.precondition;
    drive_capacity_gb = get_or 0 d.drive_capacity_gb;
    hr_enabled = true;
    adaptive_vol = false;
    die_count = 1;
    vendor_id = VendorId.ss;
    created_at = now;
    test_id = none;
  })
