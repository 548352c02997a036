-- ===== src/Core/Memory/Examples.antt =====
-- A manager with two callbacks, one of which raises.
use aio_ss_usb_test_agent.Prelude.{
  ◌++◌, map, ℕ, ◌≡◌, refl, true, false, some, List, [], ◌∷◌, length,
}
use aio_ss_usb_test_agent.Prelude.Dict.{put}
use aio_ss_usb_test_agent.Core.Memory.{
  MemoryManager, MemoryStats, MemoryThresholds, Readings, new_manager, execute_cleanup_callbacks,
  register_cleanup_callback, optimize, should_optimize, skipped_result, call_each, pop_all,
  is_too_early,
}
use aio_ss_usb_test_agent.Core.Memory.Cleanup.{returning, execute-returning}
use aio_ss_usb_test_agent.Core.Memory.Runs.{
  ManagerCall, registers, optimizes, run_calls, run_calls-IsDict,
}

abbrev thresholds : MemoryThresholds
thresholds = record {
  warning_mb = 256;
  critical_mb = 512;
  gc_interval_seconds = 300;
  max_gc_objects = 100000;
}

abbrev usage : ℕ → MemoryStats
usage rss = record { rss_mb = rss; vms_mb = rss; gc_objects = 1000; timestamp = 0 }

abbrev readings : ℕ → ℕ → ℕ → Readings
readings now before after = record {
  started = now;
  before = some (usage before);
  now = now;
  collected = 7;
  collected_at = now;
  after = some (usage after);
  ended = now;
}

abbrev manager : MemoryManager
manager =
    (run_calls (new_manager thresholds)
      (registers (λ t. true) "cache" ∷ registers (λ t. false) "log" ∷ [])).0

execute-returning_example : execute_cleanup_callbacks 5 manager ≡ (
  length (returning 5 manager.cleanup_callbacks),
  record manager {
    cleanup_callbacks = returning 5 manager.cleanup_callbacks;
    called = manager.called ++ map (λ e. e.0) manager.cleanup_callbacks;
  },
)
unfolding new_manager
execute-returning_example = execute-returning 5 manager (
    run_calls-IsDict (new_manager thresholds)
      (registers (λ t. true) "cache" ∷ registers (λ t. false) "log" ∷ []) tt)

one_returns : (execute_cleanup_callbacks 5 manager).0 ≡ 1
unfolding new_manager execute_cleanup_callbacks register_cleanup_callback put call_each
one_returns = refl

abbrev collected_once : MemoryManager
collected_once = (optimize true (readings 100 600 580) manager).0

-- The usage is critical, and `should_optimize` says so, but within the interval nothing is collected.
critical_is_due : should_optimize (usage 600) 200 collected_once ≡ true
unfolding new_manager optimize execute_cleanup_callbacks register_cleanup_callback put call_each
    pop_all should_optimize
critical_is_due = refl

critical_is_skipped :
    optimize false (readings 200 600 580) collected_once
    ≡ (collected_once, some (skipped_result (usage 600)))
unfolding new_manager optimize execute_cleanup_callbacks register_cleanup_callback put call_each
    pop_all is_too_early
critical_is_skipped = refl

abbrev calls : List ManagerCall
calls =
    optimizes true (readings 100 600 580)
    ∷ optimizes false (readings 200 600 580)
    ∷ optimizes false (readings 400 600 550)
    ∷ []
