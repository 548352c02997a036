-- ===== src/Core/Memory/Runs.antt =====
-- Any calls of the memory manager, one after the other.
use aio_ss_usb_test_agent.Prelude.{
  ℕ, ◌+◌, ◌≡◌, refl, Bool, not, ◌&&◌, under_if, Option, none, some, String, List, [], ◌∷◌, arith,
}
use aio_ss_usb_test_agent.Core.Memory.{
  MemoryManager, MemoryStats, OptimizationResult, Readings, Callback, register_cleanup_callback,
  unregister_cleanup_callback, optimize, optimize_from, account, collect, execute_cleanup_callbacks,
  call_each, is_too_early, string_eq,
}
use aio_ss_usb_test_agent.Core.Memory.Cleanup.{IsDict, put-IsDict, pop-IsDict, pop_all-IsDict}

pub data ManagerCall : Type 0 where
  registers : Callback → String → ManagerCall
  unregisters : String → ManagerCall
  optimizes : Bool → Readings → ManagerCall

abbrev pub run_call : MemoryManager → ManagerCall → MemoryManager × Option OptimizationResult
run_call m (registers c name) = (register_cleanup_callback c name m, none)
run_call m (unregisters name) = (unregister_cleanup_callback name m, none)
run_call m (optimizes force r) = optimize force r m

abbrev pub with_result {ℓ} : {A : Type ℓ} → Option A → List A → List A
with_result none rs = rs
with_result (some r) rs = r ∷ rs

-- The manager after the calls, and the results that they returned.
abbrev pub run_calls : MemoryManager → List ManagerCall → MemoryManager × List OptimizationResult
run_calls m [] = (m, [])
run_calls m (c ∷ cs) =
    let done = run_call m c in let rest = run_calls done.0 cs in (rest.0, with_result done.1 rest.1)

abbrev pub freed_sum : List OptimizationResult → ℕ
freed_sum [] = 0
freed_sum (r ∷ rs) = r.freed_mb + freed_sum rs

abbrev freed_by : Option OptimizationResult → ℕ
freed_by none = 0
freed_by (some r) = r.freed_mb

account-callbacks :
    (r : Readings) (before : MemoryStats) (n : ℕ) (o : Option MemoryStats) (m : MemoryManager)
    → (account r before n o m).0.cleanup_callbacks ≡ m.cleanup_callbacks
unfolding account
account-callbacks r before n none m = refl
account-callbacks r before n (some after) m = refl

account-freed :
    (r : Readings) (before : MemoryStats) (n : ℕ) (o : Option MemoryStats) (m : MemoryManager)
    → (account r before n o m).0.total_freed_mb
      ≡ m.total_freed_mb + freed_by (account r before n o m).1
unfolding account
account-freed r before n none m = omega arith
account-freed r before n (some after) m = refl

optimize_from-IsDict :
    (force : Bool) (r : Readings) (o : Option MemoryStats) (m : MemoryManager)
    → IsDict m.cleanup_callbacks
    → IsDict (optimize_from force r o m).0.cleanup_callbacks
unfolding optimize_from collect execute_cleanup_callbacks
optimize_from-IsDict force r none m h = h
optimize_from-IsDict force r (some before) m h =
    under_if (λ (d : MemoryManager × Option OptimizationResult). IsDict d.0.cleanup_callbacks)
      (not force && is_too_early r.now m) (λ _. h)
      (λ _.
        rw (account-callbacks r before (execute_cleanup_callbacks r.now m).0 r.after (collect r m))
          (pop_all-IsDict m.cleanup_callbacks (call_each r.now m.cleanup_callbacks).1 h))

optimize_from-freed :
    (force : Bool) (r : Readings) (o : Option MemoryStats) (m : MemoryManager)
    → (optimize_from force r o m).0.total_freed_mb
      ≡ m.total_freed_mb + freed_by (optimize_from force r o m).1
unfolding optimize_from collect execute_cleanup_callbacks
optimize_from-freed force r none m = omega arith
optimize_from-freed force r (some before) m =
    under_if
      (λ (d : MemoryManager × Option OptimizationResult).
        d.0.total_freed_mb ≡ m.total_freed_mb + freed_by d.1)
      (not force && is_too_early r.now m) (λ _. omega arith)
      (λ _. account-freed r before (execute_cleanup_callbacks r.now m).0 r.after (collect r m))

run_call-IsDict :
    (m : MemoryManager) (c : ManagerCall)
    → IsDict m.cleanup_callbacks
    → IsDict (run_call m c).0.cleanup_callbacks
unfolding register_cleanup_callback unregister_cleanup_callback optimize
run_call-IsDict m (registers c name) h = put-IsDict m.cleanup_callbacks name c h
run_call-IsDict m (unregisters name) h = pop-IsDict m.cleanup_callbacks name h
run_call-IsDict m (optimizes force r) h = optimize_from-IsDict force r r.before m h

run_call-freed :
    (m : MemoryManager) (c : ManagerCall)
    → (run_call m c).0.total_freed_mb ≡ m.total_freed_mb + freed_by (run_call m c).1
unfolding register_cleanup_callback unregister_cleanup_callback optimize
run_call-freed m (registers c name) = omega arith
run_call-freed m (unregisters name) = omega arith
run_call-freed m (optimizes force r) = optimize_from-freed force r r.before m

-- In every run the callbacks have distinct names.
pub run_calls-IsDict :
    (m : MemoryManager) (cs : List ManagerCall)
    → IsDict m.cleanup_callbacks
    → IsDict (run_calls m cs).0.cleanup_callbacks
run_calls-IsDict m [] h = h
run_calls-IsDict m (c ∷ cs) h = run_calls-IsDict (run_call m c).0 cs (run_call-IsDict m c h)

freed_sum-with_result :
    (o : Option OptimizationResult) (rs : List OptimizationResult)
    → freed_sum (with_result o rs) ≡ freed_by o + freed_sum rs
freed_sum-with_result none rs = omega arith
freed_sum-with_result (some r) rs = refl

-- In every run the total that has been freed grows by what the results of the run say, be the calls
-- skipped or forced, and whatever of them raises.
pub run_calls-freed :
    (m : MemoryManager) (cs : List ManagerCall)
    → (run_calls m cs).0.total_freed_mb ≡ m.total_freed_mb + freed_sum (run_calls m cs).1
run_calls-freed m [] = omega arith
run_calls-freed m (c ∷ cs) = omega (
  arith,
  run_calls-freed (run_call m c).0 cs,
  run_call-freed m c,
  freed_sum-with_result (run_call m c).1 (run_calls (run_call m c).0 cs).1,
)
