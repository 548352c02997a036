-- ===== src/Core/Memory.antt =====
-- core/memory.py: `MemoryManager`. A size is a natural number of a unit small enough to hold what is
-- read. What psutil, the garbage collector and the clock answer are arguments; a callback is the
-- function that says whether its call, at a time, returns (true) or raises (false).
pub mod Cleanup
pub mod Runs
mod Examples
use text.Mathlib.TextEquality.{eq_iff}
use aio_ss_usb_test_agent.Prelude.{
  ℕ, ◌+◌, ◌-◌, ltb, leb, if◌then◌else◌, Bool, true, false, not, ◌&&◌, Option, none, some, String,
  str_eq, List, [], ◌∷◌, ◌++◌, map,
}
use aio_ss_usb_test_agent.Prelude.Dict.{Eq, Dict, put, pop}
use aio_ss_usb_test_agent.Domain.Context.{Time}

instance abbrev pub string_eq : Eq String
string_eq = record { beq = str_eq; beq_iff = eq_iff }

pub record MemoryStats : Type 0 where
  pub rss_mb : ℕ
  pub vms_mb : ℕ
  pub gc_objects : ℕ
  pub timestamp : Time

pub record OptimizationResult : Type 0 where
  pub before_mb : ℕ
  pub after_mb : ℕ
  pub freed_mb : ℕ
  pub collected_objects : ℕ
  pub duration_ms : ℕ
  pub callbacks_executed : ℕ

pub record MemoryThresholds : Type 0 where
  pub warning_mb : ℕ
  pub critical_mb : ℕ
  pub gc_interval_seconds : Time
  pub max_gc_objects : ℕ

abbrev pub Callback : Type 0
Callback = Time → Bool

-- `called` are the names of the callbacks in the order of their calls.
pub record MemoryManager : Type 0 where
  pub thresholds : MemoryThresholds
  pub cleanup_callbacks : Dict String Callback
  pub last_gc_time : Option Time
  pub optimization_count : ℕ
  pub total_freed_mb : ℕ
  pub called : List String

unfoldable pub new_manager : MemoryThresholds → MemoryManager
new_manager thresholds = record {
  thresholds = thresholds;
  cleanup_callbacks = [];
  last_gc_time = none;
  optimization_count = 0;
  total_freed_mb = 0;
  called = [];
}

unfoldable pub register_cleanup_callback : Callback → String → MemoryManager → MemoryManager
register_cleanup_callback callback name m = record m {
  cleanup_callbacks = put m.cleanup_callbacks name callback;
}

unfoldable pub unregister_cleanup_callback : String → MemoryManager → MemoryManager
unregister_cleanup_callback name m = record m { cleanup_callbacks = pop m.cleanup_callbacks name }

-- The calls of the callbacks: how many returned, the names of those that raised, and all names in the
-- order of the calls.
unfoldable pub call_each : Time → Dict String Callback → ℕ × List String × List String
call_each now [] = (0, [], [])
call_each now ((name, callback) ∷ d) =
    let rest = call_each now d in
    if callback now
    then (rest.0 + 1, rest.1, name ∷ rest.2)
    else (rest.0, name ∷ rest.1, name ∷ rest.2)

-- for name in failed_callbacks: self._cleanup_callbacks.pop(name, None)
unfoldable pub pop_all : Dict String Callback → List String → Dict String Callback
pop_all d [] = d
pop_all d (name ∷ names) = pop_all (pop d name) names

unfoldable pub execute_cleanup_callbacks : Time → MemoryManager → ℕ × MemoryManager
unfolding call_each pop_all
execute_cleanup_callbacks now m =
    let called = call_each now m.cleanup_callbacks in
    (
      called.0,
      record m {
        cleanup_callbacks = pop_all m.cleanup_callbacks called.1;
        called = m.called ++ called.2;
      },
    )

-- self._last_gc_time is not None and the interval since then has not passed
unfoldable pub is_too_early : Time → MemoryManager → Bool
is_too_early now m = elim m.last_gc_time [
  | none ↦ false
  | some last ↦ ltb now (last + m.thresholds.gc_interval_seconds)
]

-- What one call of `optimize` reads: the usage before and after, where `none` is an exception, the
-- objects that the collector reports, and the clock.
pub record Readings : Type 0 where
  pub started : Time
  pub before : Option MemoryStats
  pub now : Time
  pub collected : ℕ
  pub collected_at : Time
  pub after : Option MemoryStats
  pub ended : Time

abbrev pub skipped_result : MemoryStats → OptimizationResult
skipped_result before = record {
  before_mb = before.rss_mb;
  after_mb = before.rss_mb;
  freed_mb = 0;
  collected_objects = 0;
  duration_ms = 0;
  callbacks_executed = 0;
}

-- From the collection on: the callbacks, the collector, and the second reading.
unfoldable pub collect : Readings → MemoryManager → MemoryManager
unfolding execute_cleanup_callbacks
collect r m = record (execute_cleanup_callbacks r.now m).1 {
  last_gc_time = some r.collected_at;
  optimization_count = m.optimization_count + 1;
}

unfoldable pub account :
    Readings
    → MemoryStats
    → ℕ
    → Option MemoryStats
    → MemoryManager
    → MemoryManager × Option OptimizationResult
account r before executed none m = (m, none)
account r before executed (some after) m = (
  record m { total_freed_mb = m.total_freed_mb + (before.rss_mb - after.rss_mb) },
  some (record {
    before_mb = before.rss_mb;
    after_mb = after.rss_mb;
    freed_mb = before.rss_mb - after.rss_mb;
    collected_objects = r.collected;
    duration_ms = r.ended - r.started;
    callbacks_executed = executed;
  }),
)

unfoldable pub optimize_from :
    Bool → Readings → Option MemoryStats → MemoryManager → MemoryManager × Option OptimizationResult
unfolding account collect execute_cleanup_callbacks is_too_early
optimize_from force r none m = (m, none)
optimize_from force r (some before) m =
    if not force && is_too_early r.now m
    then (m, some (skipped_result before))
    else account r before (execute_cleanup_callbacks r.now m).0 r.after (collect r m)

-- `none` is an exception.
unfoldable pub optimize :
    Bool → Readings → MemoryManager → MemoryManager × Option OptimizationResult
unfolding optimize_from
optimize force r m = optimize_from force r r.before m

abbrev pub interval_passed : Time → MemoryManager → Option Time → Bool
interval_passed now m none = false
interval_passed now m (some last) = leb (last + m.thresholds.gc_interval_seconds) now

unfoldable pub is_memory_critical : MemoryStats → MemoryManager → Bool
is_memory_critical stats m = leb m.thresholds.critical_mb stats.rss_mb

unfoldable pub should_optimize : MemoryStats → Time → MemoryManager → Bool
should_optimize stats now m =
    if leb m.thresholds.critical_mb stats.rss_mb
    then true
    else if leb m.thresholds.max_gc_objects stats.gc_objects
    then true
    else interval_passed now m m.last_gc_time
