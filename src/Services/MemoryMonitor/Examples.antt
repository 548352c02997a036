-- ===== src/Services/MemoryMonitor/Examples.antt =====
-- A monitor that checks twice, a minute apart, and then after five minutes.
use aio_ss_usb_test_agent.Prelude.{ℕ, ◌+◌, ◌≡◌, refl, true, some, List, [], ◌∷◌, last_n}
use aio_ss_usb_test_agent.Core.Memory.{MemoryStats, MemoryThresholds, new_manager}
use aio_ss_usb_test_agent.Services.MemoryMonitor.{
  MemoryMonitor, MemoryMonitorConfig, Look, new_monitor,
}
use aio_ss_usb_test_agent.Services.MemoryMonitor.Steps.{MonitorStep, checks, run_steps}
use aio_ss_usb_test_agent.Services.MemoryMonitor.Windows.{read_by_all, run_steps-history}
use aio_ss_usb_test_agent.Services.MemoryMonitor.Alerts.{Spaced, run_steps-Spaced}

abbrev thresholds : MemoryThresholds
thresholds = record {
  warning_mb = 256;
  critical_mb = 512;
  gc_interval_seconds = 300;
  max_gc_objects = 100000;
}

abbrev config : MemoryMonitorConfig
config = record {
  auto_optimize = true;
  log_stats_interval_seconds = 3600;
  alert_on_warning = true;
  alert_on_critical = true;
}

abbrev usage : ℕ → MemoryStats
usage rss = record { rss_mb = rss; vms_mb = rss; gc_objects = 1000; timestamp = 0 }

abbrev look : ℕ → ℕ → Look
look now rss = record {
  usage = some (usage rss);
  log_now = now;
  logged = now;
  alert_now = now;
  told = now + 1;
  usage_again = some (usage rss);
  optimize_now = now;
  readings = record {
    started = now;
    before = some (usage rss);
    now = now;
    collected = 7;
    collected_at = now;
    after = some (usage 200);
    ended = now;
  };
}

abbrev monitor : MemoryMonitor
monitor = record (new_monitor (new_manager thresholds) config thresholds) {
  on_memory_alert = some (λ level stats. true);
}

abbrev steps : List MonitorStep
steps = checks (look 0 300) ∷ checks (look 60 600) ∷ checks (look 400 600) ∷ []

run_steps-history_example :
    (run_steps monitor steps).0.stats_history ≡ last_n 1000 (read_by_all [] steps)
unfolding new_monitor
run_steps-history_example = run_steps-history monitor steps [] refl

run_steps-Spaced_example : Spaced monitor.last_alert_time (run_steps monitor steps).1
unfolding new_monitor
run_steps-Spaced_example = run_steps-Spaced monitor steps (λ level stats. refl)
