-- ===== src/Services/WorkerPool/Ordering.antt =====
-- services/worker_pool.py: the order in which the queues give their tasks.
use aio_ss_usb_test_agent.Prelude.{
  ℕ, ◌≡◌, ◌≤◌, ◌<◌, ◌⊎◌, true, false, List, [], ◌∷◌, All, arith, under_if,
}
use aio_ss_usb_test_agent.Services.WorkerPool.{
  WorkerItem, Step, before, insert, new_pool, run_steps,
}
use aio_ss_usb_test_agent.Services.WorkerPool.Queues.{
  IsKept, slot_items, run-Everywhere, run-in_slot,
}

-- The first task has a more urgent priority, or the same one and was not enqueued later.
abbrev Precedes : WorkerItem → WorkerItem → Type 0
Precedes t u = (t.priority < u.priority) ⊎ ((t.priority ≡ u.priority) × (t.seq ≤ u.seq))

-- Each task of the list precedes those after it.
pub InOrder : List WorkerItem → Type 0
InOrder [] = Unit
InOrder (t ∷ ts) = All (Precedes t) ts × InOrder ts

before-Precedes : (t u : WorkerItem) → before t u ≡ true → Precedes t u
before-Precedes t u h = ground (arith, h)

not_before-Precedes : (t u : WorkerItem) → before t u ≡ false → Precedes u t
not_before-Precedes t u h = ground (arith, h)

All-insert :
    (s t : WorkerItem) (ts : List WorkerItem)
    → Precedes s t
    → All (Precedes s) ts
    → All (Precedes s) (insert t ts)
unfolding insert
All-insert s t [] h k = (h, tt)
All-insert s t (u ∷ us) h k =
    under_if (All (Precedes s)) (before t u) (λ _. (h, k)) (λ _. (k.0, All-insert s t us h k.1))

All-later :
    (t u : WorkerItem) (us : List WorkerItem)
    → Precedes t u
    → All (Precedes u) us
    → All (Precedes t) us
All-later t u [] h k = tt
All-later t u (v ∷ us) h k = (ground (arith, h, k.0), All-later t u us h k.1)

insert-InOrder : (t : WorkerItem) (ts : List WorkerItem) → InOrder ts → InOrder (insert t ts)
unfolding insert InOrder
insert-InOrder t [] h = (tt, tt)
insert-InOrder t (u ∷ us) (first, rest) =
    under_if InOrder (before t u)
      (λ e. let p = before-Precedes t u e in ((p, All-later t u us p first), (first, rest)))
      (λ e. (All-insert u t us (not_before-Precedes t u e) first, insert-InOrder t us rest))

in_order : IsKept (λ m ts. InOrder ts)
unfolding InOrder
in_order = record {
  empty = λ m. tt;
  rest = λ m t ts h. h.1;
  inserted = λ m t ts room h. insert-InOrder t ts h;
}

-- In every run of a new pool, and in every queue of it: a task that is given before another has a more
-- urgent priority, or the same one and has not been enqueued later.
pub run_steps-InOrder :
    (slots top max_slot : ℕ) (ss : List Step)
    → let p = run_steps (new_pool slots top max_slot) ss in
      InOrder (p.top).items × InOrder (p.scheduler).items × ((i : ℕ) → InOrder (slot_items p i))
run_steps-InOrder slots top max_slot ss =
    let v = run-Everywhere in_order slots top max_slot ss in
    (v.in_top, v.in_scheduler, λ i. run-in_slot in_order slots top max_slot ss i)
