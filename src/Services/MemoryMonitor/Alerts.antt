-- ===== src/Services/MemoryMonitor/Alerts.antt =====
-- How often the memory is alerted on.
use aio_ss_usb_test_agent.Prelude.{
  ◌+◌, ◌≤◌, ◌≡◌, refl, sym, ap, ◌∙◌, Bool, true, under_if, Option, none, some, List, [], ◌∷◌, ◌++◌,
  All, arith,
}
use aio_ss_usb_test_agent.Domain.Context.{Time}
use aio_ss_usb_test_agent.Core.Memory.{MemoryStats, optimize}
use aio_ss_usb_test_agent.Services.MemoryMonitor.{
  MemoryMonitor, Level, Event, Look, check_memory, check_usage, check_thresholds, force_optimize,
  register_cleanup, unregister_cleanup, clear_history, alert, alert_level, maybe_log_stats, is_due,
  add_stats, auto_optimize_with, after_events, finish_optimization,
}
use aio_ss_usb_test_agent.Services.MemoryMonitor.Steps.{
  MonitorStep, checks, forces, registers, unregisters, clears, run_step, run_steps, Leaves, Silent,
  Quiet, finish_optimization-Quiet, auto_optimize_with-Quiet, maybe_log_stats-Leaves,
}

abbrev pub IsDueAfter : Option Time → Time → Type 0
IsDueAfter none now = Unit
IsDueAfter (some last) now = last + 300 ≤ now

-- Each alert is decided on five minutes or more after the one before it had been told, the first
-- after the last one of the past.
abbrev pub Spaced : Option Time → List Event → Type 0
Spaced last [] = Unit
Spaced last (Event.alerted level stats now told ∷ es) = IsDueAfter last now × Spaced (some told) es
Spaced last (Event.optimized r ∷ es) = Spaced last es

-- The time at which the last alert had been told.
abbrev last_told : Option Time → List Event → Option Time
last_told last [] = last
last_told last (Event.alerted level stats now told ∷ es) = last_told (some told) es
last_told last (Event.optimized r ∷ es) = last_told last es

abbrev pub NeverRaises : Option (Level → MemoryStats → Bool) → Type 0
NeverRaises none = Unit
NeverRaises (some f) = (level : Level) (stats : MemoryStats) → f level stats ≡ true

Spaced-append :
    (last : Option Time) (es fs : List Event)
    → Spaced last es
    → Spaced (last_told last es) fs
    → Spaced last (es ++ fs)
Spaced-append last [] fs h k = k
Spaced-append last (Event.alerted level stats now told ∷ es) fs h k =
    (h.0, Spaced-append (some told) es fs h.1 k)
Spaced-append last (Event.optimized r ∷ es) fs h k = Spaced-append last es fs h k

last_told-append :
    (last : Option Time) (es fs : List Event)
    → last_told last (es ++ fs) ≡ last_told (last_told last es) fs
last_told-append last [] fs = refl
last_told-append last (Event.alerted level stats now told ∷ es) fs =
    last_told-append (some told) es fs
last_told-append last (Event.optimized r ∷ es) fs = last_told-append last es fs

-- A part of a step: its alerts are spaced, and the monitor knows the last one.
Timed : MemoryMonitor → MemoryMonitor × List Event → Type 0
Timed m (m', es) =
    Spaced m.last_alert_time es
    × ((m'.last_alert_time ≡ last_told m.last_alert_time es)
        × (m'.on_memory_alert ≡ m.on_memory_alert))

Silent-Spaced : (last : Option Time) (es : List Event) → All Silent es → Spaced last es
Silent-Spaced last [] h = tt
Silent-Spaced last (Event.alerted level stats now told ∷ es) h = absurd h.0
Silent-Spaced last (Event.optimized r ∷ es) h = Silent-Spaced last es h.1

Silent-last_told : (last : Option Time) (es : List Event) → All Silent es → last_told last es ≡ last
Silent-last_told last [] h = refl
Silent-last_told last (Event.alerted level stats now told ∷ es) h = absurd h.0
Silent-last_told last (Event.optimized r ∷ es) h = Silent-last_told last es h.1

Quiet-Timed : (m : MemoryMonitor) (r : MemoryMonitor × List Event) → Quiet m r → Timed m r
unfolding Timed
Quiet-Timed m (m', es) (l, h) = (
  Silent-Spaced m.last_alert_time es h,
  (l.same_alert_time ∙ sym (Silent-last_told m.last_alert_time es h), l.same_on_alert),
)

is_due-IsDueAfter : (o : Option Time) (now : Time) → is_due 300 now o ≡ true → IsDueAfter o now
is_due-IsDueAfter none now e = tt
is_due-IsDueAfter (some last) now e = ground (arith, e)

alert-Timed :
    (stats : MemoryStats) (now told : Time) (m : MemoryMonitor) (o : Option Level)
    (f : Option (Level → MemoryStats → Bool))
    → IsDueAfter m.last_alert_time now
    → NeverRaises f
    → Timed m (alert stats now told m o f)
unfolding alert Timed
alert-Timed stats now told m none f due returns = (tt, (refl, refl))
alert-Timed stats now told m (some level) none due returns = (tt, (refl, refl))
alert-Timed stats now told m (some level) (some f) due returns =
    rw (returns level stats) ((due, tt), (refl, refl))

nothing-Timed : (m : MemoryMonitor) → Timed m (m, [])
unfolding Timed
nothing-Timed m = (tt, (refl, refl))

check_thresholds-Timed :
    (stats : MemoryStats) (now told : Time) (m : MemoryMonitor)
    → NeverRaises m.on_memory_alert
    → Timed m (check_thresholds stats now told m)
unfolding check_thresholds
check_thresholds-Timed stats now told m returns =
    under_if (Timed m) (is_due 300 now m.last_alert_time)
      (λ e.
        alert-Timed stats now told m (alert_level stats m) m.on_memory_alert
          (is_due-IsDueAfter m.last_alert_time now e) returns)
      (λ _. nothing-Timed m)

Timed-Leaves :
    (m m' : MemoryMonitor) (r : MemoryMonitor × List Event) → Leaves m m' → Timed m' r → Timed m r
unfolding Timed
Timed-Leaves m m' (n, es) l (h, (e, c)) =
    (rw (sym l.same_alert_time) h, (rw (sym l.same_alert_time) e, c ∙ l.same_on_alert))

Timed-after :
    (m m' : MemoryMonitor) (es : List Event) (r : MemoryMonitor × List Event)
    → Timed m (m', es)
    → Timed m' r
    → Timed m (after_events es r)
unfolding Timed
Timed-after m m' es (n, fs) (h, (e, c)) (k, (e', c')) = (
  Spaced-append m.last_alert_time es fs h (rw (sym e) k),
  (e' ∙ (ap (λ t. last_told t fs) e ∙ sym (last_told-append m.last_alert_time es fs)), c' ∙ c),
)

check_usage-Timed :
    (l : Look) (o : Option MemoryStats) (m : MemoryMonitor)
    → NeverRaises m.on_memory_alert
    → Timed m (check_usage l o m)
unfolding Timed
check_usage-Timed l none m returns = nothing-Timed m
check_usage-Timed l (some stats) m returns =
    let added = add_stats stats m in
    let logged = maybe_log_stats l.log_now l.logged added in
    let kept = maybe_log_stats-Leaves l.log_now l.logged added in
    let checked = check_thresholds stats l.alert_now l.told logged in
    Timed-after m checked.0 checked.1 (auto_optimize_with l checked.0)
      (Timed-Leaves added logged checked kept
        (check_thresholds-Timed stats l.alert_now l.told logged (rw kept.same_on_alert returns)))
      (Quiet-Timed checked.0 (auto_optimize_with l checked.0)
        (auto_optimize_with-Quiet l checked.0))

run_step-Timed :
    (s : MonitorStep) (m : MemoryMonitor) → NeverRaises m.on_memory_alert → Timed m (run_step m s)
unfolding Timed check_memory force_optimize register_cleanup unregister_cleanup clear_history
run_step-Timed (checks l) m returns = check_usage-Timed l l.usage m returns
run_step-Timed (forces r) m returns =
    Quiet-Timed m (finish_optimization m (optimize true r m.memory_manager))
      (finish_optimization-Quiet m (optimize true r m.memory_manager))
run_step-Timed (registers c name) m returns = (tt, (refl, refl))
run_step-Timed (unregisters name) m returns = (tt, (refl, refl))
run_step-Timed clears m returns = (tt, (refl, refl))

run_steps-Timed :
    (m : MemoryMonitor) (ss : List MonitorStep)
    → NeverRaises m.on_memory_alert
    → Timed m (run_steps m ss)
unfolding Timed
run_steps-Timed m [] returns = (tt, (refl, refl))
run_steps-Timed m (s ∷ ss) returns =
    let done = run_step-Timed s m returns in
    Timed-after m (run_step m s).0 (run_step m s).1 (run_steps (run_step m s).0 ss) done
      (run_steps-Timed (run_step m s).0 ss (rw done.1.1 returns))

-- In every run each alert is decided on five minutes or more after the one before it had been told, if
-- the callback of the alerts never raises, whatever else is forced, registered and cleared meanwhile.
pub run_steps-Spaced :
    (m : MemoryMonitor) (ss : List MonitorStep)
    → NeverRaises m.on_memory_alert
    → Spaced m.last_alert_time (run_steps m ss).1
unfolding Timed
run_steps-Spaced m ss returns = (run_steps-Timed m ss returns).0
