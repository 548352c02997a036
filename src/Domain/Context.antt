-- ===== src/Domain/Context.antt =====
-- domain/state_machine.py: `SlotContext`, the data of a slot's current operation.
-- A `datetime` is a reading of the clock, of which the code only keeps a copy.
use mathlib.Core.List.{foldl}
use aio_ss_usb_test_agent.Prelude.{ℕ, Bool, false, Option, none, String, List}
use aio_ss_usb_test_agent.Domain.Enums.{ProcessState, TestPhase}

abbrev pub Time : Type 0
Time = ℕ

pub record SlotContext : Type 0 where
  pub slot_idx : ℕ
  pub test_id : Option String
  pub test_name : Option String
  pub process_state : ProcessState
  pub test_phase : TestPhase
  pub current_loop : ℕ
  pub total_loop : ℕ
  pub loop_step : ℕ
  pub current_batch : ℕ
  pub total_batch : ℕ
  pub is_precondition : Bool
  pub started_at : Option Time
  pub updated_at : Time
  pub error_message : Option String
  pub error_count : ℕ
  pub retry_count : ℕ

-- SlotContext(slot_idx=...), every other field at its default
unfoldable pub new_context : ℕ → Time → SlotContext
new_context slot_idx now = record {
  slot_idx = slot_idx;
  test_id = none;
  test_name = none;
  process_state = ProcessState.idle;
  test_phase = TestPhase.idle;
  current_loop = 0;
  total_loop = 0;
  loop_step = 1;
  current_batch = 0;
  total_batch = 1;
  is_precondition = false;
  started_at = none;
  updated_at = now;
  error_message = none;
  error_count = 0;
  retry_count = 0;
}

-- `reset` writes out the defaults of `loop_step` to `is_precondition`.
unfoldable pub reset : Time → SlotContext → SlotContext
unfolding new_context
reset now c = new_context c.slot_idx now

-- One item of the keyword arguments of `update`. A dict of them is the list of its assignments in
-- the order in which they are made, so that a later one for the same key holds.
pub data Field : Type 0 where
  slot_idx : ℕ → Field
  test_id test_name : Option String → Field
  process_state : ProcessState → Field
  test_phase : TestPhase → Field
  current_loop total_loop loop_step current_batch total_batch : ℕ → Field
  is_precondition : Bool → Field
  started_at : Option Time → Field
  error_message : Option String → Field
  error_count retry_count : ℕ → Field

unfoldable pub assign : SlotContext → Field → SlotContext
assign c (Field.slot_idx v) = record c { slot_idx = v }
assign c (Field.test_id v) = record c { test_id = v }
assign c (Field.test_name v) = record c { test_name = v }
assign c (Field.process_state v) = record c { process_state = v }
assign c (Field.test_phase v) = record c { test_phase = v }
assign c (Field.current_loop v) = record c { current_loop = v }
assign c (Field.total_loop v) = record c { total_loop = v }
assign c (Field.loop_step v) = record c { loop_step = v }
assign c (Field.current_batch v) = record c { current_batch = v }
assign c (Field.total_batch v) = record c { total_batch = v }
assign c (Field.is_precondition v) = record c { is_precondition = v }
assign c (Field.started_at v) = record c { started_at = v }
assign c (Field.error_message v) = record c { error_message = v }
assign c (Field.error_count v) = record c { error_count = v }
assign c (Field.retry_count v) = record c { retry_count = v }

abbrev pub assign_all : SlotContext → List Field → SlotContext
assign_all = foldl assign

-- A new object; `updated_at` is always the present time.
unfoldable pub update : Time → List Field → SlotContext → SlotContext
unfolding assign
update now fields c = record (assign_all c fields) { updated_at = now }
