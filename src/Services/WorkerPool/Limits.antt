-- ===== src/Services/WorkerPool/Limits.antt =====
-- services/worker_pool.py: how many tasks the queues hold.
use native.Mathlib.Nat.{mul-le-mul_right}
use aio_ss_usb_test_agent.Prelude.{
  ℕ, ◌+◌, ◌*◌, ◌≡◌, ◌≤◌, ◌<◌, refl, ◌⊎◌, inr, List, [], ◌∷◌, length, arith,
}
use aio_ss_usb_test_agent.Services.WorkerPool.{WorkerItem, Step, insert, new_pool, run_steps}
use aio_ss_usb_test_agent.Services.WorkerPool.Queues.{
  IsKept, slot_items, run-Everywhere, run-in_slot, run_steps_limits,
}

-- There is no limit, or it is kept.
abbrev WithinLimit : ℕ → List WorkerItem → Type 0
WithinLimit m ts = (m ≡ 0) ⊎ (length ts ≤ m)

length-insert : (t : WorkerItem) (ts : List WorkerItem) → length (insert t ts) ≡ length ts + 1
unfolding insert
length-insert t [] = refl
length-insert t (u ∷ us) = ground (arith, length-insert t us)

within_limit : IsKept WithinLimit
within_limit = record {
  empty = λ m. inr (ground arith);
  rest = λ m t ts h. ground (arith, h);
  inserted = λ m t ts room h. ground (arith, h, room, length-insert t ts);
}

product_positive : (m n : ℕ) → 0 < m → 0 < n → 0 < m * n
product_positive m n h k = omega (arith, mul-le-mul_right n h)

-- In every run of a new pool with limits: the queue of the backend's messages holds at most as many
-- tasks as its limit says, that of each slot at most as many as the limit of the slots, and that of
-- the scheduler at most as many as all slots together.
pub run_steps-Bounded :
    (slots top max_slot : ℕ) (ss : List Step)
    → 0 < slots
    → 0 < top
    → 0 < max_slot
    → let p = run_steps (new_pool slots top max_slot) ss in
      (length (p.top).items ≤ top)
      × (length (p.scheduler).items ≤ max_slot * slots)
      × ((i : ℕ) → length (slot_items p i) ≤ max_slot)
unfolding new_pool
run_steps-Bounded slots top max_slot ss some_slots some_top some_slot =
    let v = run-Everywhere within_limit slots top max_slot ss in
    let l = run_steps_limits (new_pool slots top max_slot) ss in
    (
      ground (arith, v.in_top, l),
      ground (arith, v.in_scheduler, l, product_positive max_slot slots some_slot some_slots),
      λ i. ground (arith, run-in_slot within_limit slots top max_slot ss i, l),
    )
