-- ===== src/Services/WorkerPool/Dropping.antt =====
-- Which tasks of the pool can be dropped.
mod Parts
use aio_ss_usb_test_agent.Prelude.{
  ℕ, ◌+◌, ◌≡◌, ◌<◌, ◌≤◌, ◌⊎◌, if◌then◌else◌, Bool, true, false, none, some, String, List, [], ◌∷◌,
  ◌++◌, arith, inl, inr, Bool-cases, Option-cases, List-cases, All, All-append, is_some,
}
use aio_ss_usb_test_agent.Prelude.Dict.{Dict, get, put, get-put, nat_eq}
use aio_ss_usb_test_agent.Services.WorkerPool.{
  WorkerItem, WorkerPriority, Queue, WorkerPool, Step, enqueues_top, enqueues_slot, admits_top,
  admits_slot, schedules, runs_top, runs_slot, insert, enqueue, enqueue_top, enqueue_slot,
  dropped_if, admit, hand_over, schedule, run_top, run_slot, step, run_steps, new_pool, before,
  is_full,
}
use aio_ss_usb_test_agent.Services.WorkerPool.Conservation.{
  new_item, schedule_held, schedule_idle, schedule_next, count-run_steps,
}
use aio_ss_usb_test_agent.Services.WorkerPool.Counting.{count, count_held, count_queue, count_slots}
pub use Parts.*

schedule-IsSafe : (p : WorkerPool) → IsSafe p → IsSafe (schedule p)
schedule-IsSafe p safe = elim (Option-cases p.held) [
  | inr (t, e) ↦
      rw (schedule_held p t e)
        (hand_over-IsSafe p t safe.dropped safe.items safe.putters (safe.held t e))
  | inl e ↦ elim (List-cases (p.scheduler).items) [
    | inl i ↦ rw (schedule_idle p e i) safe
    | inr (t, ts, i) ↦
        let known : All (HasWorker p.slot_workers) (t ∷ ts) = rw i at safe.items in
        rw (schedule_next p t ts e i) (
          hand_over-IsSafe (record p { scheduler = record (p.scheduler) { items = ts } }) t
            safe.dropped known.1 safe.putters known.0)
  ]
]

-- A queue with the same answer for the slots.
top-IsSafe :
    (p : WorkerPool) (q : Queue) (seq : ℕ) (ran dropped : List WorkerItem)
    → All IsDroppable dropped
    → IsSafe p
    → IsSafe (record p { top = q; seq = seq; ran = ran; dropped = dropped })
top-IsSafe p q seq ran dropped d safe = record {
  dropped = d;
  items = safe.items;
  putters = safe.putters;
  held = safe.held;
}

run_top_idle : (p : WorkerPool) → (p.top).items ≡ [] → run_top p ≡ p
unfolding run_top
run_top_idle p e = ground arith

run_top_next :
    (p : WorkerPool) (t : WorkerItem) (ts : List WorkerItem)
    → (p.top).items ≡ t ∷ ts
    → run_top p ≡ record p { top = record (p.top) { items = ts }; ran = p.ran ++ t ∷ [] }
unfolding run_top
run_top_next p t ts e = ground arith

run_top-IsSafe : (p : WorkerPool) → IsSafe p → IsSafe (run_top p)
run_top-IsSafe p safe = elim (List-cases (p.top).items) [
  | inl e ↦ rw (run_top_idle p e) safe
  | inr (t, ts, e) ↦ rw (run_top_next p t ts e) (top-IsSafe p _ p.seq _ p.dropped safe.dropped safe)
]

step-IsSafe : (p : WorkerPool) (s : Step) → IsSafe p → IsSafe (step p s)
unfolding step enqueue_top
step-IsSafe p (enqueues_top name priority drop) safe =
    top-IsSafe p _ (p.seq + 1) p.ran _
      (All-append IsDroppable p.dropped _ safe.dropped
        (dropped-enqueue p.top (new_item name priority drop 0 p)))
      safe
step-IsSafe p (enqueues_slot i name priority drop) safe =
    enqueue_slot-IsSafe p i name priority drop safe
step-IsSafe p admits_top safe = top-IsSafe p _ p.seq p.ran p.dropped safe.dropped safe
step-IsSafe p admits_slot safe =
    let admitted = All-admit (HasWorker p.slot_workers) p.scheduler safe.items safe.putters in
    record { dropped = safe.dropped; items = admitted.0; putters = admitted.1; held = safe.held }
step-IsSafe p schedules safe = schedule-IsSafe p safe
step-IsSafe p runs_top safe = run_top-IsSafe p safe
step-IsSafe p (runs_slot i) safe = run_slot-IsSafe p i safe

run_steps-IsSafe : (p : WorkerPool) (ss : List Step) → IsSafe p → IsSafe (run_steps p ss)
unfolding run_steps
run_steps-IsSafe p [] safe = safe
run_steps-IsSafe p (s ∷ ss) safe = run_steps-IsSafe (step p s) ss (step-IsSafe p s safe)

split : (a b : ℕ) → a + b ≡ 1 → ((b ≡ 1) × (a ≡ 0)) ⊎ ((b ≡ 0) × (a ≡ 1))
split a b e = ground (arith, e)

-- How often a task with the number is in the pool and not dropped: waits for a queue, is in one, is
-- held by the scheduler or has been run.
abbrev pub count_kept : ℕ → WorkerPool → ℕ
count_kept n p =
    count_queue n p.top
    + count_queue n p.scheduler
    + count_held n p.held
    + count_slots n p.slot_workers
    + count n p.ran

-- In every run of a new pool: every dropped task has `drop_if_full`, and each task that the pool has
-- given a number is either dropped, once, or waits for a queue, is in one, is held by the scheduler or
-- has been run, at exactly one of these places. It says nothing of a task that gets no number, as one
-- for a slot without a worker.
pub dropped-run_steps :
    (slots top max_slot : ℕ) (ss : List Step) (n : ℕ)
    → let p = run_steps (new_pool slots top max_slot) ss in
      0 < n
      → n ≤ p.seq
      → All IsDroppable p.dropped
        × (((count n p.dropped ≡ 1) × (count_kept n p ≡ 0))
            ⊎ ((count n p.dropped ≡ 0) × (count_kept n p ≡ 1)))
unfolding new_pool
dropped-run_steps slots top max_slot ss n h k =
    let p = run_steps (new_pool slots top max_slot) ss in
    (
      (run_steps-IsSafe (new_pool slots top max_slot) ss
          (record { dropped = tt; items = tt; putters = tt; held = λ t e. cc })).dropped,
      split (count_kept n p) (count n p.dropped) (count-run_steps slots top max_slot ss n h k),
    )
