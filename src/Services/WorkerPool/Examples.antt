-- ===== src/Services/WorkerPool/Examples.antt =====
-- A pool with one slot, whose queues hold one task.
use aio_ss_usb_test_agent.Prelude.{
  ℕ, ◌≡◌, ◌≤◌, ◌⊎◌, ◌*◌, length, refl, true, false, List, [], ◌∷◌, arith, All, map,
}
use aio_ss_usb_test_agent.Prelude.Dict.{get, put, nat_eq}
use aio_ss_usb_test_agent.Services.WorkerPool.{
  WorkerItem, WorkerPool, WorkerPriority, Enqueued, Step, enqueues_slot, enqueues_top, schedules,
  runs_slot, runs_top, insert, enqueue, enqueue_slot, enqueue_top, dropped_if, hand_over, schedule,
  run_slot, run_top, step, run_steps, new_pool,
}
use aio_ss_usb_test_agent.Services.WorkerPool.Counting.{count, count_pool}
use aio_ss_usb_test_agent.Services.WorkerPool.Conservation.{count-run_steps}
use aio_ss_usb_test_agent.Services.WorkerPool.Dropping.{IsDroppable, count_kept, dropped-run_steps}
use aio_ss_usb_test_agent.Services.WorkerPool.Queues.{slot_items}
use aio_ss_usb_test_agent.Services.WorkerPool.Ordering.{InOrder, run_steps-InOrder}
use aio_ss_usb_test_agent.Services.WorkerPool.Limits.{run_steps-Bounded}

abbrev pool : WorkerPool
pool = new_pool 1 2 1

-- Two tasks for the slot, the second of which is handed over while the first waits to run.
abbrev crowded : List Step
crowded =
    enqueues_slot 0 "start_test" WorkerPriority.high true
    ∷ schedules
    ∷ enqueues_slot 0 "stop_test" WorkerPriority.immediate true
    ∷ schedules
    ∷ runs_slot 0
    ∷ []

abbrev first_handed : WorkerPool
first_handed =
    run_steps pool (enqueues_slot 0 "start_test" WorkerPriority.high true ∷ schedules ∷ [])

abbrev seqs : List WorkerItem → List ℕ
seqs = map (λ (t : WorkerItem). t.seq)

-- `enqueue_slot` answers True for the second task, and the scheduler drops it all the same.
accepted :
    (enqueue_slot 0 "stop_test" WorkerPriority.immediate true first_handed).0 ≡ Enqueued.accepted
unfolding new_pool run_steps step enqueue_slot enqueue schedule hand_over get put insert dropped_if
accepted = refl

then_dropped : seqs (run_steps pool crowded).dropped ≡ 2 ∷ []
unfolding new_pool run_steps step enqueue_slot enqueue schedule hand_over get put insert dropped_if
    run_slot
then_dropped = refl

-- Messages for the backend are taken by priority, and in order within one.
abbrev messages : List Step
messages =
    enqueues_top "state_update" WorkerPriority.high false
    ∷ enqueues_top "test_result" WorkerPriority.immediate false
    ∷ runs_top
    ∷ runs_top
    ∷ []

by_priority : seqs (run_steps pool messages).ran ≡ 2 ∷ 1 ∷ []
unfolding new_pool run_steps step enqueue_top enqueue run_top insert dropped_if
by_priority = refl

two_tasks : (run_steps pool crowded).seq ≡ 2
unfolding new_pool run_steps step enqueue_slot enqueue schedule hand_over get put insert dropped_if
    run_slot
two_tasks = refl

count-run_steps_example : count_pool 2 (run_steps pool crowded) ≡ 1
count-run_steps_example = count-run_steps 1 2 1 crowded 2 (omega arith) (omega (arith, two_tasks))

dropped-run_steps_example :
    let p = run_steps pool crowded in
    All IsDroppable p.dropped
    × (((count 2 p.dropped ≡ 1) × (count_kept 2 p ≡ 0))
        ⊎ ((count 2 p.dropped ≡ 0) × (count_kept 2 p ≡ 1)))
dropped-run_steps_example =
    dropped-run_steps 1 2 1 crowded 2 (omega arith) (omega (arith, two_tasks))

-- More messages than the queue holds, the last of which waits.
abbrev three_messages : List Step
three_messages =
    enqueues_top "state_update" WorkerPriority.high false
    ∷ enqueues_top "test_result" WorkerPriority.immediate false
    ∷ enqueues_top "drive_list" WorkerPriority.immediate false
    ∷ []

abbrev filled : WorkerPool
filled = run_steps pool three_messages

run_steps-InOrder_example :
    InOrder (filled.top).items
    × InOrder (filled.scheduler).items
    × ((i : ℕ) → InOrder (slot_items filled i))
run_steps-InOrder_example = run_steps-InOrder 1 2 1 three_messages

run_steps-Bounded_example :
    (length (filled.top).items ≤ 2)
    × (length (filled.scheduler).items ≤ 1 * 1)
    × ((i : ℕ) → length (slot_items filled i) ≤ 1)
run_steps-Bounded_example =
    run_steps-Bounded 1 2 1 three_messages (omega arith) (omega arith) (omega arith)
