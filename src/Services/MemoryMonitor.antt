-- ===== src/Services/MemoryMonitor.antt =====
-- services/memory_monitor.py: `MemoryMonitor`. What one check of the memory reads, and when, is an
-- argument; a callback is the function that says whether its call returns. The log is left out.
pub mod Steps
pub mod Windows
pub mod Alerts
mod Examples
use aio_ss_usb_test_agent.Prelude.{
  ℕ, ◌+◌, ltb, leb, if◌then◌else◌, Bool, true, false, ◌&&◌, Option, none, some, String, List, [],
  ◌∷◌, ◌++◌, length, last_n,
}
use aio_ss_usb_test_agent.Domain.Context.{Time}
use aio_ss_usb_test_agent.Core.Memory.{
  MemoryManager, MemoryStats, MemoryThresholds, OptimizationResult, Readings, Callback, optimize,
  should_optimize, register_cleanup_callback, unregister_cleanup_callback,
}

pub record MemoryMonitorConfig : Type 0 where
  pub auto_optimize : Bool
  pub log_stats_interval_seconds : Time
  pub alert_on_warning : Bool
  pub alert_on_critical : Bool

pub data Level : Type 0 where
  warning critical : Level

-- The monitor's own thresholds are those of the alerts; its manager has others.
pub record MemoryMonitor : Type 0 where
  pub memory_manager : MemoryManager
  pub config : MemoryMonitorConfig
  pub alert_thresholds : MemoryThresholds
  pub is_running : Bool
  pub has_task : Bool
  pub last_log_time : Option Time
  pub last_alert_time : Option Time
  pub stats_history : List MemoryStats
  pub optimization_history : List OptimizationResult
  pub on_memory_alert : Option (Level → MemoryStats → Bool)
  pub on_optimization_complete : Option (OptimizationResult → Bool)

unfoldable pub new_monitor : MemoryManager → MemoryMonitorConfig → MemoryThresholds → MemoryMonitor
new_monitor manager config thresholds = record {
  memory_manager = manager;
  config = config;
  alert_thresholds = thresholds;
  is_running = false;
  has_task = false;
  last_log_time = none;
  last_alert_time = none;
  stats_history = [];
  optimization_history = [];
  on_memory_alert = none;
  on_optimization_complete = none;
}

unfoldable pub start : MemoryMonitor → MemoryMonitor
start m = if m.is_running then m else record m { is_running = true; has_task = true }

unfoldable pub stop : MemoryMonitor → MemoryMonitor
stop m = record m { is_running = false; has_task = false }

-- history.append(...), and the slice to the last n if there are more
abbrev pub append_bounded {ℓ} : {A : Type ℓ} → ℕ → List A → A → List A
append_bounded n history x =
    if ltb n (length (history ++ x ∷ [])) then last_n n (history ++ x ∷ []) else history ++ x ∷ []

abbrev pub add_stats : MemoryStats → MemoryMonitor → MemoryMonitor
add_stats stats m = record m { stats_history = append_bounded 1000 m.stats_history stats }

abbrev pub add_optimization : OptimizationResult → MemoryMonitor → MemoryMonitor
add_optimization r m = record m {
  optimization_history = append_bounded 100 m.optimization_history r;
}

-- The interval since the last time has passed, or there is no last time.
abbrev pub is_due : Time → Time → Option Time → Bool
is_due interval now none = true
is_due interval now (some last) = leb (last + interval) now

unfoldable pub maybe_log_stats : Time → Time → MemoryMonitor → MemoryMonitor
maybe_log_stats now logged m =
    if is_due m.config.log_stats_interval_seconds now m.last_log_time
    then record m { last_log_time = some logged }
    else m

-- A call of a callback. An alert has the times at which it was decided on and had been told.
pub data Event : Type 0 where
  alerted : Level → MemoryStats → Time → Time → Event
  optimized : OptimizationResult → Event

unfoldable pub alert_level : MemoryStats → MemoryMonitor → Option Level
alert_level stats m =
    if m.config.alert_on_critical && leb m.alert_thresholds.critical_mb stats.rss_mb
    then some Level.critical
    else if m.config.alert_on_warning && leb m.alert_thresholds.warning_mb stats.rss_mb
    then some Level.warning
    else none

unfoldable pub alert :
    MemoryStats
    → Time
    → Time
    → MemoryMonitor
    → Option Level
    → Option (Level → MemoryStats → Bool)
    → MemoryMonitor × List Event
alert stats now told m none o = (m, [])
alert stats now told m (some level) none = (m, [])
alert stats now told m (some level) (some f) =
    if f level stats
    then (record m { last_alert_time = some told }, Event.alerted level stats now told ∷ [])
    else (m, Event.alerted level stats now told ∷ [])

-- 300 are five minutes. The clock is read before the decision and after the call.
unfoldable pub check_thresholds :
    MemoryStats → Time → Time → MemoryMonitor → MemoryMonitor × List Event
unfolding alert alert_level
check_thresholds stats now told m =
    if is_due 300 now m.last_alert_time
    then alert stats now told m (alert_level stats m) m.on_memory_alert
    else (m, [])

-- The call after an optimization, whose exception is caught.
abbrev pub complete_told : OptimizationResult → Option (OptimizationResult → Bool) → List Event
complete_told r none = []
complete_told r (some f) = Event.optimized r ∷ []

abbrev pub finish_optimization :
    MemoryMonitor → MemoryManager × Option OptimizationResult → MemoryMonitor × List Event
finish_optimization m (manager, none) = (record m { memory_manager = manager }, [])
finish_optimization m (manager, some r) = (
  add_optimization r (record m { memory_manager = manager }),
  complete_told r m.on_optimization_complete,
)

unfoldable pub perform_optimization : Readings → MemoryMonitor → MemoryMonitor × List Event
perform_optimization r m = finish_optimization m (optimize false r m.memory_manager)

-- Here an exception of the manager is the caller's.
unfoldable pub force_optimize : Readings → MemoryMonitor → MemoryMonitor × List Event
force_optimize r m = finish_optimization m (optimize true r m.memory_manager)

-- What a check reads of the memory, first and in `should_optimize`, and of the clock. `none` is an
-- exception, which ends the check.
pub record Look : Type 0 where
  pub usage : Option MemoryStats
  pub log_now : Time
  pub logged : Time
  pub alert_now : Time
  pub told : Time
  pub usage_again : Option MemoryStats
  pub optimize_now : Time
  pub readings : Readings

abbrev pub after_events : List Event → MemoryMonitor × List Event → MemoryMonitor × List Event
after_events es (m, more) = (m, es ++ more)

abbrev pub optimize_if_needed :
    Look → Option MemoryStats → MemoryMonitor → MemoryMonitor × List Event
optimize_if_needed l none m = (m, [])
optimize_if_needed l (some stats) m =
    if should_optimize stats l.optimize_now m.memory_manager
    then perform_optimization l.readings m
    else (m, [])

unfoldable pub auto_optimize_with : Look → MemoryMonitor → MemoryMonitor × List Event
unfolding perform_optimization
auto_optimize_with l m =
    if m.config.auto_optimize then optimize_if_needed l l.usage_again m else (m, [])

abbrev pub check_usage : Look → Option MemoryStats → MemoryMonitor → MemoryMonitor × List Event
check_usage l none m = (m, [])
check_usage l (some stats) m =
    let checked =
      check_thresholds stats l.alert_now l.told
        (maybe_log_stats l.log_now l.logged (add_stats stats m)) in
    after_events checked.1 (auto_optimize_with l checked.0)

unfoldable pub check_memory : Look → MemoryMonitor → MemoryMonitor × List Event
unfolding maybe_log_stats check_thresholds auto_optimize_with
check_memory l m = check_usage l l.usage m

unfoldable pub register_cleanup : Callback → String → MemoryMonitor → MemoryMonitor
register_cleanup callback name m = record m {
  memory_manager = register_cleanup_callback callback name m.memory_manager;
}

unfoldable pub unregister_cleanup : String → MemoryMonitor → MemoryMonitor
unregister_cleanup name m = record m {
  memory_manager = unregister_cleanup_callback name m.memory_manager;
}

unfoldable pub clear_history : MemoryMonitor → MemoryMonitor
clear_history m = record m { stats_history = []; optimization_history = [] }
