-- ===== src/Domain/Config.antt =====
-- domain/models/test_config.py: the configuration of a test. Its integers are natural numbers here:
-- the agent's `validate` has refused a configuration with a loop count or a loop step below 1 before
-- an executor sees it. The float `drive_capacity_gb` is a number of thousandths, only copied.
pub mod Codec
pub mod RoundTrip
pub mod Validation
mod Examples
use aio_ss_usb_test_agent.Prelude.{ℕ, Bool, ◌&&◌, false, Option, none, String}
use aio_ss_usb_test_agent.Domain.Enums.{
  TestCapacity, TestMethod, TestPreset, TestFile, VendorId, is_hot_test,
}
use aio_ss_usb_test_agent.Domain.Context.{Time}

pub record PreconditionConfig : Type 0 where
  pub enabled : Bool
  pub method : TestMethod
  pub capacity : Option TestCapacity
  pub loop_count : ℕ

-- PreconditionConfig(enabled=False)
abbrev pub no_precondition : PreconditionConfig
no_precondition = record {
  enabled = false;
  method = TestMethod.zero_hr;
  capacity = none;
  loop_count = 1;
}

pub record TestConfig : Type 0 where
  pub slot_idx : ℕ
  pub jira_no : String
  pub sample_no : String
  pub drive : String
  pub test_preset : TestPreset
  pub test_file : TestFile
  pub method : TestMethod
  pub capacity : TestCapacity
  pub loop_count : ℕ
  pub test_name : String
  pub loop_step : ℕ
  pub start_loop : ℕ
  pub batch_enabled : Bool
  pub precondition : PreconditionConfig
  pub drive_capacity_gb : ℕ
  pub hr_enabled : Bool
  pub adaptive_vol : Bool
  pub die_count : ℕ
  pub vendor_id : VendorId
  pub created_at : Time
  pub test_id : Option String

unfoldable pub needs_precondition : TestConfig → Bool
unfolding is_hot_test
needs_precondition c = is_hot_test c.test_preset && c.precondition.enabled
