-- ===== src/Domain/TestState.antt =====
-- domain/models/test_state.py: `TestState`. `update` with fields is a record of the changed state, made
-- at a time. The float `avg_loop_time` is a number of thousandths of a second.
pub mod Batches
mod Examples
use aio_ss_usb_test_agent.Prelude.{
  ℕ, zero, suc, ◌+◌, ◌-◌, ◌*◌, ◌/◌, ◌==◌, leb, min, if◌then◌else◌, Bool, true, false, ◌&&◌, Option,
  none, some, String, ℤ, pos, negsuc,
}
use aio_ss_usb_test_agent.Prelude.Dict.{beq}
use aio_ss_usb_test_agent.Domain.Enums.{ProcessState, TestPhase, process_state_eq}
use aio_ss_usb_test_agent.Domain.Context.{Time}

pub record TestState : Type 0 where
  pub slot_idx : ℕ
  pub process_state : ProcessState
  pub test_phase : TestPhase
  pub current_loop : ℕ
  pub total_loop : ℕ
  pub loop_step : ℕ
  pub current_batch : ℕ
  pub total_batch : ℕ
  pub pid : Option ℕ
  pub is_active : Bool
  pub started_at : Option Time
  pub updated_at : Time
  pub estimated_remaining : Option ℤ
  pub avg_loop_time : Option ℕ
  pub error_count : ℕ
  pub last_error : Option String

-- TestState(slot_idx=...)
abbrev pub new_test_state : ℕ → Time → TestState
new_test_state slot_idx now = record {
  slot_idx = slot_idx;
  process_state = ProcessState.unknown;
  test_phase = TestPhase.unknown;
  current_loop = 0;
  total_loop = 0;
  loop_step = 1;
  current_batch = 0;
  total_batch = 1;
  pid = none;
  is_active = false;
  started_at = none;
  updated_at = now;
  estimated_remaining = none;
  avg_loop_time = none;
  error_count = 0;
  last_error = none;
}

-- int(remaining_loops * avg_loop_time), which rounds towards zero
abbrev negated : ℕ → ℤ
negated zero = pos 0
negated (suc n) = negsuc n

abbrev seconds : ℕ → ℕ → ℕ → ℤ
seconds total_loop current_loop avg =
    if leb current_loop total_loop
    then pos ((total_loop - current_loop) * avg / 1000)
    else negated ((current_loop - total_loop) * avg / 1000)

unfoldable pub calculate_remaining : ℕ → TestState → Option ℤ
calculate_remaining current_loop s = elim s.avg_loop_time [
  | none ↦ none
  | some avg ↦ if s.total_loop == 0 then none else some (seconds s.total_loop current_loop avg)
]

unfoldable pub increment_loop : Time → TestState → TestState
increment_loop now s =
    let new_loop = s.current_loop + 1 in
    record s {
      current_loop = new_loop;
      estimated_remaining = calculate_remaining new_loop s;
      updated_at = now;
    }

unfoldable pub increment_batch : Time → TestState → TestState
increment_batch now s =
    let new_batch = s.current_batch + 1 in
    let new_loop = min (new_batch * s.loop_step) s.total_loop in
    record s {
      current_batch = new_batch;
      current_loop = new_loop;
      estimated_remaining = calculate_remaining new_loop s;
      updated_at = now;
    }

unfoldable pub is_batch_completed : TestState → Bool
is_batch_completed s = leb s.total_batch s.current_batch

unfoldable pub set_error : String → Time → TestState → TestState
set_error error_message now s = record s {
  error_count = s.error_count + 1;
  last_error = some error_message;
  updated_at = now;
}

unfoldable pub clear_error : Time → TestState → TestState
clear_error now s = record s { error_count = 0; last_error = none; updated_at = now }

unfoldable pub is_completed : TestState → Bool
is_completed s = leb s.total_loop s.current_loop

unfoldable pub is_failed : TestState → Bool
is_failed s = beq s.process_state ProcessState.fail

unfoldable pub is_test_running : TestState → Bool
is_test_running s = s.is_active && beq s.process_state ProcessState.test

-- The percentage of a quotient, or 0.
unfoldable pub get_progress_percent : TestState → Option (ℕ × ℕ)
get_progress_percent s = if s.total_loop == 0 then none else some (s.current_loop, s.total_loop)
