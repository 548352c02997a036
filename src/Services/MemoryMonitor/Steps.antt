-- ===== src/Services/MemoryMonitor/Steps.antt =====
-- Any steps of the monitor, and what they leave as it is.
use aio_ss_usb_test_agent.Prelude.{
  ℕ, ◌≡◌, refl, Bool, false, under_if, Option, none, some, String, List, [], ◌∷◌, ◌++◌, All,
}
use aio_ss_usb_test_agent.Core.Memory.{
  MemoryManager, MemoryStats, OptimizationResult, Readings, Callback, optimize, should_optimize,
}
use aio_ss_usb_test_agent.Services.MemoryMonitor.{
  MemoryMonitor, Event, Look, check_memory, force_optimize, perform_optimization,
  finish_optimization, auto_optimize_with, optimize_if_needed, register_cleanup, unregister_cleanup,
  clear_history, complete_told, maybe_log_stats, is_due,
}

-- A step: a check of the loop, or a call from outside.
pub data MonitorStep : Type 0 where
  checks : Look → MonitorStep
  forces : Readings → MonitorStep
  registers : Callback → String → MonitorStep
  unregisters : String → MonitorStep
  clears : MonitorStep

abbrev pub run_step : MemoryMonitor → MonitorStep → MemoryMonitor × List Event
run_step m (checks l) = check_memory l m
run_step m (forces r) = force_optimize r m
run_step m (registers c name) = (register_cleanup c name m, [])
run_step m (unregisters name) = (unregister_cleanup name m, [])
run_step m clears = (clear_history m, [])

abbrev pub run_steps : MemoryMonitor → List MonitorStep → MemoryMonitor × List Event
run_steps m [] = (m, [])
run_steps m (s ∷ ss) =
    let done = run_step m s in let rest = run_steps done.0 ss in (rest.0, done.1 ++ rest.1)

-- The history of the readings, the alerts and their callback are left as they are.
pub record Leaves (m m' : MemoryMonitor) : Type 0 where
  pub same_history : m'.stats_history ≡ m.stats_history
  pub same_alert_time : m'.last_alert_time ≡ m.last_alert_time
  pub same_on_alert : m'.on_memory_alert ≡ m.on_memory_alert

Leaves-refl : (m : MemoryMonitor) → Leaves m m
Leaves-refl m = record { same_history = refl; same_alert_time = refl; same_on_alert = refl }

abbrev pub Silent : Event → Type 0
Silent (Event.alerted level stats now told) = ⊥
Silent (Event.optimized r) = Unit

-- A part of a step that tells no alert.
abbrev pub Quiet : MemoryMonitor → MemoryMonitor × List Event → Type 0
Quiet m (m', es) = Leaves m m' × All Silent es

pub finish_optimization-Quiet :
    (m : MemoryMonitor) (r : MemoryManager × Option OptimizationResult)
    → Quiet m (finish_optimization m r)
finish_optimization-Quiet m (manager, none) =
    (record { same_history = refl; same_alert_time = refl; same_on_alert = refl }, tt)
finish_optimization-Quiet m (manager, some r) = (
  record { same_history = refl; same_alert_time = refl; same_on_alert = refl },
  told m.on_optimization_complete,
)
  where
    told : (o : Option (OptimizationResult → Bool)) → All Silent (complete_told r o)
    told none = tt
    told (some f) = (tt, tt)

optimize_if_needed-Quiet :
    (l : Look) (o : Option MemoryStats) (m : MemoryMonitor) → Quiet m (optimize_if_needed l o m)
unfolding perform_optimization
optimize_if_needed-Quiet l none m = (Leaves-refl m, tt)
optimize_if_needed-Quiet l (some stats) m =
    under_if (Quiet m) (should_optimize stats l.optimize_now m.memory_manager)
      (λ _. finish_optimization-Quiet m (optimize false l.readings m.memory_manager))
      (λ _. (Leaves-refl m, tt))

pub auto_optimize_with-Quiet : (l : Look) (m : MemoryMonitor) → Quiet m (auto_optimize_with l m)
unfolding auto_optimize_with
auto_optimize_with-Quiet l m =
    under_if (Quiet m) m.config.auto_optimize (λ _. optimize_if_needed-Quiet l l.usage_again m)
      (λ _. (Leaves-refl m, tt))

pub maybe_log_stats-Leaves :
    (now logged : ℕ) (m : MemoryMonitor) → Leaves m (maybe_log_stats now logged m)
unfolding maybe_log_stats
maybe_log_stats-Leaves now logged m =
    under_if (Leaves m) (is_due m.config.log_stats_interval_seconds now m.last_log_time)
      (λ _. record { same_history = refl; same_alert_time = refl; same_on_alert = refl })
      (λ _. Leaves-refl m)
