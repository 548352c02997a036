-- ===== src/Services/Batch/Examples.antt =====
-- Executions of five loops in steps of two, which makes three batches.
use aio_ss_usb_test_agent.Prelude.{
  ℕ, ◌≡◌, ◌≢◌, refl, inl, true, false, none, some, List, [], ◌∷◌, arith,
}
use aio_ss_usb_test_agent.Prelude.Dict.{get, put}
use aio_ss_usb_test_agent.Domain.Enums.{
  ProcessState, TestCapacity, TestMethod, TestPreset, TestFile, VendorId, is_hot_test,
}
use aio_ss_usb_test_agent.Domain.State.{SlotState}
use aio_ss_usb_test_agent.Domain.Context.{Time, new_context}
use aio_ss_usb_test_agent.Domain.Config.{TestConfig, no_precondition, needs_precondition}
use aio_ss_usb_test_agent.Domain.Machine.{new_machine}
use aio_ss_usb_test_agent.Services.World.{
  stuck, World, Pause, ok, Command, request_cancel, is_cancel_requested,
}
use aio_ss_usb_test_agent.Services.Waiting.{Poll, judge}
use aio_ss_usb_test_agent.Services.Waiting.Quiet.{quiet_verdict}
use aio_ss_usb_test_agent.Services.Batch.{Setup, Round, returns, execute}
use aio_ss_usb_test_agent.Services.Batch.Soundness.{IsCompleted, execute-true}
use aio_ss_usb_test_agent.Services.Batch.Turn.{IsGood}
use aio_ss_usb_test_agent.Services.Batch.Completion.{
  GoesWell, execute_completes, current_batch-execute,
}
use aio_ss_usb_test_agent.Services.Batch.Termination.{execute_ends}
use aio_ss_usb_test_agent.Agent.Commands.Batches.{
  Concluded, run_batch_test, run_batch_test-Concluded,
}

abbrev config : ℕ → TestConfig
config loop_count = record {
  slot_idx = 0;
  jira_no = "J-1";
  sample_no = "S-1";
  drive = "E";
  test_preset = TestPreset.full;
  test_file = TestFile.photo;
  method = TestMethod.zero_hr;
  capacity = TestCapacity.gb_32;
  loop_count = loop_count;
  test_name = "t";
  loop_step = 2;
  start_loop = 0;
  batch_enabled = true;
  precondition = no_precondition;
  drive_capacity_gb = 0;
  hr_enabled = true;
  adaptive_vol = false;
  die_count = 1;
  vendor_id = VendorId.ss;
  created_at = 0;
  test_id = none;
}

abbrev setup : ℕ → Setup
setup loop_count = record {
  slot_idx = 0;
  config = config loop_count;
  pass_wait_timeout = 3600000;
  has_progress = true;
  batch_failed = λ _. "Batch failed";
  precond_name = "t_precond";
}

abbrev quiet : Time → Pause
quiet t = record { meanwhile = []; clock = t }

abbrev poll : Time → ProcessState → Poll
poll t s = record { before = quiet t; tested_at = t; ui = some s; read_at = t }

abbrev good_round : Round
good_round = record {
  reporting = quiet 0;
  launching = quiet 100;
  launch = returns true;
  began = 500;
  first_sleep = quiet 500;
  polls = poll 600 ProcessState.test ∷ poll 11700 ProcessState.pass ∷ [];
}

abbrev rounds : List Round
rounds = good_round ∷ good_round ∷ good_round ∷ []

abbrev world : SlotState → World
world s = record {
  machine = new_machine 0 s true 0;
  cancel_requested = [];
  local = new_context 0 0;
  local_ref = 0;
  clock = 0;
  progress = [];
  commands = [];
}

passes : quiet_verdict 3600000 500 none good_round.polls ≡ some true
unfolding quiet_verdict judge
passes = refl

good_round-IsGood : IsGood (setup 5) good_round
good_round-IsGood = record {
  reporting = refl;
  launching = refl;
  launch = refl;
  first_sleep = refl;
  polls = (refl, (refl, tt));
  passes = passes;
}

no_phase_1 : (n : ℕ) → needs_precondition (config n) ≡ false
unfolding needs_precondition is_hot_test
no_phase_1 n = refl

not_waiting : (world SlotState.configuring).machine.state ≢ SlotState.waiting
unfolding new_machine
not_waiting e = ground arith

goes_well : GoesWell (setup 5) rounds (world SlotState.configuring)
unfolding new_machine
goes_well = record {
  no_phase_1 = no_phase_1 5;
  step = omega arith;
  count = omega arith;
  rounds = (good_round-IsGood, (good_round-IsGood, (good_round-IsGood, tt)));
  ready = inl refl;
}

execute_completes_example :
    let w' = (execute (setup 5) good_round rounds (world SlotState.configuring)).1 in
    ((execute (setup 5) good_round rounds (world SlotState.configuring)).0 ≡ ok true)
    × (w'.machine.state ≡ SlotState.completed)
    × (w'.machine.context.current_loop ≡ 5)
    × (w'.machine.context.total_batch ≡ 3)
    × (w'.commands
        ≡ Command.start_test (config 5) ∷ Command.continue_batch ∷ Command.continue_batch ∷ [])
execute_completes_example =
    execute_completes (setup 5) good_round rounds (world SlotState.configuring) goes_well

current_batch-execute_example :
    (execute
      (setup 5)
      good_round
      rounds
      (world SlotState.configuring)).1.machine.context.current_batch
    ≡ 1
current_batch-execute_example =
    current_batch-execute (setup 5) good_round rounds (world SlotState.configuring) goes_well

execute-true_example :
    IsCompleted
      (setup 5)
      3
      rounds
      (execute (setup 5) good_round rounds (world SlotState.configuring)).1
execute-true_example =
    execute-true (setup 5) good_round rounds (world SlotState.configuring)
      (execute_completes (setup 5) good_round rounds (world SlotState.configuring) goes_well).0

no_cancel : is_cancel_requested 0 (world SlotState.configuring) ≡ false
unfolding is_cancel_requested get
no_cancel = refl

cancelled : is_cancel_requested 0 (request_cancel 0 (world SlotState.running)) ≡ true
unfolding is_cancel_requested request_cancel get put
cancelled = refl

-- The window shows nothing until the time limit of an hour is over.
abbrev late_round : Round
late_round = record {
  reporting = quiet 0;
  launching = quiet 100;
  launch = returns true;
  began = 500;
  first_sleep = quiet 500;
  polls = poll 3600500 ProcessState.idle ∷ [];
}

execute_ends_example :
    (execute (setup 3) late_round (late_round ∷ late_round ∷ []) (world SlotState.ready)).0 ≢ stuck
execute_ends_example =
    execute_ends (setup 3) late_round (late_round ∷ late_round ∷ []) (world SlotState.ready)
      (inl (omega arith)) (inl (omega arith), (inl (omega arith), tt))

run_batch_test-Concluded_example :
    Concluded
      (setup 5)
      rounds
      (execute (setup 5) good_round rounds (world SlotState.configuring)).0
      (run_batch_test (λ _. "raised") (setup 5) good_round rounds (world SlotState.configuring))
run_batch_test-Concluded_example =
    run_batch_test-Concluded (λ _. "raised") (setup 5) rounds good_round
      (world SlotState.configuring)
