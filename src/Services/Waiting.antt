-- ===== src/Services/Waiting.antt =====
-- services/batch_executor.py: `BatchExecutor._wait_for_pass`. Times are in milliseconds.
pub mod Verdict
pub mod Quiet
mod Examples
use aio_ss_usb_test_agent.Prelude.{
  ℕ, ◌+◌, ◌==◌, ltb, if◌then◌else◌, Bool, true, false, Option, none, some, List, [], ◌∷◌,
}
use aio_ss_usb_test_agent.Domain.Enums.{ProcessState}
use aio_ss_usb_test_agent.Domain.Context.{Time}
use aio_ss_usb_test_agent.Services.World.{
  World, Pause, Exec, Result, ok, stuck, pause, is_cancel_requested,
}

-- One round of the loop: what happened since the last await, the time at the loop's test, what
-- `_read_process_state_from_ui` returns, and the time that the round reads after it.
pub record Poll : Type 0 where
  pub before : Pause
  pub tested_at : Time
  pub ui : Option ProcessState
  pub read_at : Time

abbrev pub min_test_duration : ℕ
min_test_duration = 10000

pub data Judgement : Type 0 where
  verdict : Bool → Judgement
  go_on : Option Time → Judgement

-- `test_started_time or start_time`: a time of 0 counts as none.
pub time_base : Time → Time → Time
time_base start_time t = if t == 0 then start_time else t

-- A round before the test has started, and one after.
judge_waiting : ProcessState → Time → Judgement
judge_waiting ProcessState.test read_at = go_on (some read_at)
judge_waiting _ read_at = go_on none

judge_started : Time → Time → ProcessState → Time → Judgement
unfolding time_base
judge_started start_time t ProcessState.pass read_at =
    if ltb read_at (time_base start_time t + min_test_duration)
    then go_on (some t)
    else verdict true
judge_started start_time t ProcessState.fail read_at = verdict false
judge_started start_time t ProcessState.stop read_at = verdict false
judge_started start_time t _ read_at = go_on (some t)

-- The state of the wait is `test_started_time`, which is none until `test_started`.
unfoldable pub judge : Time → Option Time → Option ProcessState → Time → Judgement
unfolding judge_waiting judge_started
judge start_time started none read_at = go_on started
judge start_time none (some s) read_at = judge_waiting s read_at
judge start_time (some t) (some s) read_at = judge_started start_time t s read_at

-- One round: the loop's own test and the test for a cancellation, both of which end the wait with
-- False, and then the state that was read.
unfoldable pub round : ℕ → ℕ → Time → Option Time → Poll → World → Judgement
unfolding judge
round slot_idx timeout start_time started p w =
    if ltb p.tested_at (start_time + timeout)
    then if is_cancel_requested slot_idx w
      then verdict false
      else judge start_time started p.ui p.read_at
    else verdict false

unfoldable pub wait_loop : ℕ → ℕ → Time → Option Time → List Poll → Exec Bool
wait_loop slot_idx timeout start_time started [] w = (stuck, w)
wait_loop slot_idx timeout start_time started (p ∷ ps) w =
    let w' = pause p.before w in
    elim (round slot_idx timeout start_time started p w') [
      | verdict b ↦ (ok b, w')
      | go_on started' ↦ wait_loop slot_idx timeout start_time started' ps w'
    ]

unfoldable pub wait_for_pass : ℕ → ℕ → Time → List Poll → Exec Bool
unfolding wait_loop
wait_for_pass slot_idx timeout start_time polls = wait_loop slot_idx timeout start_time none polls
