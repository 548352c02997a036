-- ===== src/Services/Batch.antt =====
-- services/batch_executor.py: `BatchExecutor.execute` for one slot, against a script of what the
-- controller answers, what the window shows and what other tasks do at each await.
pub mod Soundness
pub mod Turn
pub mod Completion
pub mod Failure
pub mod Termination
mod Examples
use Prim.Native.Nat.{min}
use aio_ss_usb_test_agent.Prelude.{
  ℕ, zero, suc, ◌+◌, ◌-◌, ◌*◌, ◌/◌, ◌==◌, ltb, if◌then◌else◌, Bool, true, false, Option, none, some,
  String, List, [], ◌∷◌, ◌++◌, is_some,
}
use aio_ss_usb_test_agent.Domain.State.{SlotEvent}
use aio_ss_usb_test_agent.Domain.Enums.{TestCapacity, TestMethod, VendorId}
use aio_ss_usb_test_agent.Domain.Context.{Field, Time}
use aio_ss_usb_test_agent.Domain.Config.{TestConfig, no_precondition, needs_precondition}
use aio_ss_usb_test_agent.Services.World.{
  World, Pause, Command, BatchProgress, Exec, Result, ok, raised, stuck, pure, raise, modify, ◌>>=◌,
  ◌>>◌, pause, set_local, grab_context, clear_cancel, is_cancel_requested, fire, fire_if_possible,
  zero_division, controller_error,
}
use aio_ss_usb_test_agent.Services.Waiting.{Poll, wait_for_pass}

-- How a call of the controller ends: it returns success or failure, or raises.
pub data Launch : Type 0 where
  returns : Bool → Launch
  raises : Launch

-- What happens in one batch: while `on_progress` runs, while the controller starts it (and its
-- answer), in the first sleep of the wait, which begins at `began`, and at each poll.
pub record Round : Type 0 where
  pub reporting : Pause
  pub launching : Pause
  pub launch : Launch
  pub began : Time
  pub first_sleep : Pause
  pub polls : List Poll

-- The executor's own settings for the slot. `has_progress`: whether `on_progress` is given.
-- `batch_failed` and `precond_name` are the texts that Python formats: f"Batch {n} failed" and
-- f"{config.test_name}_precond".
pub record Setup : Type 0 where
  pub slot_idx : ℕ
  pub config : TestConfig
  pub pass_wait_timeout : ℕ
  pub has_progress : Bool
  pub batch_failed : ℕ → String
  pub precond_name : String

-- math.ceil(a / b) for a positive b. The float quotient is exact enough for counts below 2 ^ 53.
abbrev pub ceil_div : ℕ → ℕ → ℕ
ceil_div a b = (a + (b - 1)) / b

abbrev asks {ℓ} : {A : Type ℓ} → (World → A) → Exec A
asks f w = (ok (f w), w)

send : Command → Exec (Unit {0})
send c w = (ok tt, record w { commands = w.commands ++ c ∷ [] })

answer : Launch → Exec Bool
answer (returns b) w = (ok b, w)
answer raises w = (raised controller_error, w)

-- A call of the controller, with what happens until it answers.
unfoldable pub launch_with : Command → Round → Exec Bool
unfolding send answer
launch_with c r = do send c; modify (pause r.launching); answer r.launch

unfoldable pub await_pass : Setup → Round → Exec Bool
await_pass s r = do
  modify (pause r.first_sleep)
  wait_for_pass s.slot_idx s.pass_wait_timeout r.began r.polls

-- if can_transition(FAIL): trigger(FAIL, error_message=...); return False
unfoldable pub give_up : String → Exec Bool
give_up message = do fire_if_possible SlotEvent.fail [] (some message); pure false

-- Fields that the call does not name have their defaults.
precond_config : TestConfig → TestCapacity → String → Time → TestConfig
precond_config c capacity test_name now = record {
  slot_idx = c.slot_idx;
  jira_no = c.jira_no;
  sample_no = c.sample_no;
  drive = c.drive;
  test_preset = c.test_preset;
  test_file = c.test_file;
  method = TestMethod.zero_hr;
  capacity = capacity;
  loop_count = 1;
  test_name = test_name;
  loop_step = 1;
  start_loop = 0;
  batch_enabled = true;
  precondition = no_precondition;
  drive_capacity_gb = c.drive_capacity_gb;
  hr_enabled = true;
  adaptive_vol = false;
  die_count = 1;
  vendor_id = VendorId.ss;
  created_at = now;
  test_id = none;
}

run_precondition_with : Setup → Round → TestCapacity → Exec Bool
unfolding precond_config
run_precondition_with s r capacity = do
  modify grab_context
  modify (set_local (Field.is_precondition true))
  modify (set_local (Field.total_loop 1))
  modify (set_local (Field.current_loop 0))
  now ← asks (λ w. w.clock)
  success ← launch_with (Command.start_test (precond_config s.config capacity s.precond_name now)) r
  if success
      then (do
        fire_if_possible SlotEvent.run [] none
        pass_detected ← await_pass s r
        modify (set_local (Field.is_precondition false))
        pure pass_detected)
      else pure false

unfoldable pub run_precondition : Setup → Round → Exec Bool
unfolding run_precondition_with
run_precondition s r = elim s.config.precondition.capacity [
  | none ↦ pure false
  | some capacity ↦ run_precondition_with s r capacity
]

abbrev loops_before : Setup → ℕ → ℕ
loops_before s batch_num = (batch_num - 1) * s.config.loop_step

abbrev loops_after : Setup → ℕ → ℕ
loops_after s batch_num = min (batch_num * s.config.loop_step) s.config.loop_count

-- if on_progress: await on_progress(BatchProgress(...)); `current_loop` is read from `context`.
unfoldable pub report : Setup → ℕ → ℕ → Time → Round → Exec (Unit {0})
report s total_batch batch_num started_at r w =
    let progress : BatchProgress = record {
      slot_idx = s.slot_idx;
      current_batch = batch_num;
      total_batch = total_batch;
      current_loop = w.local.current_loop;
      total_loop = s.config.loop_count;
      loop_step = s.config.loop_step;
      percent_num = loops_after s batch_num * 100;
      percent_den = s.config.loop_count;
      started_at = some started_at;
    } in
    if s.has_progress
    then (ok tt, pause r.reporting (record w { progress = w.progress ++ progress ∷ [] }))
    else (ok tt, w)

-- The end of a batch that has passed; `none` is to go on with the loop.
unfoldable pub finish_batch : Setup → ℕ → ℕ → Exec (Option Bool)
finish_batch s total_batch batch_num = do
  fire SlotEvent.batch_complete (Field.current_loop (loops_after s batch_num) ∷ []) none
  if ltb batch_num total_batch then (do fire SlotEvent.batch_next [] none; pure none) else pure none

unfoldable pub abandon_batch : Setup → ℕ → Exec (Option Bool)
abandon_batch s batch_num = do b ← give_up (s.batch_failed batch_num); pure (some b)

-- From the transition to RUNNING to the result of the wait.
unfoldable pub follow_batch : Setup → ℕ → ℕ → Round → Exec (Option Bool)
follow_batch s total_batch batch_num r = do
  fire_if_possible SlotEvent.run [] none
  pass_detected ← await_pass s r
  cancelled ← asks (is_cancel_requested s.slot_idx)
  if pass_detected
      then finish_batch s total_batch batch_num
      else if cancelled
      then pure (some false)
      else abandon_batch s batch_num

abbrev pub start_command : Setup → ℕ → Command
start_command s batch_num =
    if batch_num == 1 then Command.start_test s.config else Command.continue_batch

-- One turn of the loop's body; `some b` is `return b`.
unfoldable pub run_batch : Setup → ℕ → ℕ → Time → Round → Exec (Option Bool)
run_batch s total_batch batch_num started_at r = do
  cancelled ← asks (is_cancel_requested s.slot_idx)
  if cancelled then (do fire SlotEvent.stop [] none; pure (some false)) else (do
    modify (set_local (Field.current_batch batch_num))
    modify (set_local (Field.current_loop (loops_before s batch_num)))
    report s total_batch batch_num started_at r
    success ← launch_with (start_command s batch_num) r
    if success then follow_batch s total_batch batch_num r else abandon_batch s batch_num)

-- `while batch_num < total_batch`, with `left` turns to make after `batch_num` of them.
unfoldable pub batches : Setup → ℕ → ℕ → ℕ → Time → List Round → Exec Bool
batches s total_batch zero batch_num started_at rs = do
  fire SlotEvent.all_batches_done [] none
  pure true
batches s total_batch (suc left) batch_num started_at [] = λ w. (stuck, w)
batches s total_batch (suc left) batch_num started_at (r ∷ rs) = do
  ended ← run_batch s total_batch (batch_num + 1) started_at r
  elim ended [ some b ↦ pure b | none ↦ batches s total_batch left (batch_num + 1) started_at rs ]

abbrev pub total_batches : Setup → ℕ
total_batches s = ceil_div s.config.loop_count s.config.loop_step

-- Phase 2 of `execute`
unfoldable pub main_batches : Setup → Time → List Round → Exec Bool
main_batches s started_at rs = if s.config.loop_step == 0 then raise zero_division else (do
  modify grab_context
  modify (set_local (Field.total_loop s.config.loop_count))
  modify (set_local (Field.loop_step s.config.loop_step))
  modify (set_local (Field.total_batch (total_batches s)))
  modify (set_local (Field.is_precondition false))
  batches s (total_batches s) (total_batches s) 0 started_at rs)

-- Phase 1, and phase 2 if it has passed. `precondition` is the script of phase 1.
unfoldable pub phase_1 : Setup → Round → Time → List Round → Exec Bool
phase_1 s precondition started_at rs = do
  success ← run_precondition s precondition
  if success then main_batches s started_at rs else give_up "Precondition failed"

unfoldable pub execute : Setup → Round → List Round → Exec Bool
execute s precondition rs = do
  modify (clear_cancel s.slot_idx)
  started_at ← asks (λ w. w.clock)
  if needs_precondition s.config
      then phase_1 s precondition started_at rs
      else main_batches s started_at rs
