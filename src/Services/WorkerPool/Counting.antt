-- ===== src/Services/WorkerPool/Counting.antt =====
-- How often a task is in the queues of the pool.
use aio_ss_usb_test_agent.Prelude.{
  ℕ, ◌+◌, ◌==◌, ◌≡◌, refl, if◌then◌else◌, Option, none, some, List, [], ◌∷◌, ◌++◌, arith, inl, inr,
  Bool-cases,
}
use aio_ss_usb_test_agent.Prelude.Dict.{Dict, get, put, nat_eq}
use aio_ss_usb_test_agent.Services.WorkerPool.{
  WorkerItem, Queue, WorkerPool, insert, before, enqueue, dropped_if, admit,
}

-- How often a task with the number is in a list.
abbrev pub count : ℕ → List WorkerItem → ℕ
count n [] = 0
count n (t ∷ ts) = (if t.seq == n then 1 else 0) + count n ts

abbrev pub count_held : ℕ → Option WorkerItem → ℕ
count_held n none = 0
count_held n (some t) = count n (t ∷ [])

abbrev pub count_slots : ℕ → Dict ℕ (List WorkerItem) → ℕ
count_slots n [] = 0
count_slots n ((i, ts) ∷ d) = count n ts + count_slots n d

abbrev pub count_queue : ℕ → Queue → ℕ
count_queue n q = count n q.items + count n q.putters

-- How often a task with the number is anywhere: in a queue, waiting for one, held by the scheduler,
-- run or dropped.
abbrev pub count_pool : ℕ → WorkerPool → ℕ
count_pool n p =
    count_queue n p.top
    + count_queue n p.scheduler
    + count_held n p.held
    + count_slots n p.slot_workers
    + count n p.ran
    + count n p.dropped

pub count-append : (n : ℕ) (ts us : List WorkerItem) → count n (ts ++ us) ≡ count n ts + count n us
count-append n [] us = omega arith
count-append n (t ∷ ts) us = omega (arith, count-append n ts us)

pub count-insert :
    (n : ℕ) (t : WorkerItem) (ts : List WorkerItem) → count n (insert t ts) ≡ count n (t ∷ ts)
unfolding insert
count-insert n t [] = refl
count-insert n t (u ∷ us) = elim (Bool-cases (before t u)) [
  | inl e ↦ rw (e, insert) refl
  | inr e ↦ rw (e, insert) (omega (arith, count-insert n t us))
]

pub count_slots-put :
    (n : ℕ) (d : Dict ℕ (List WorkerItem)) (i : ℕ) (ts us : List WorkerItem)
    → get d i ≡ some ts
    → count_slots n (put d i us) + count n ts ≡ count_slots n d + count n us
unfolding get put
count_slots-put n [] i ts us h = cc
count_slots-put n ((j, vs) ∷ d) i ts us h = ground (arith, count_slots-put n d i ts us)

-- A task that is put is in the queue, waits for it, or is dropped.
pub count-enqueue :
    (n : ℕ) (q : Queue) (t : WorkerItem)
    → let (answer, q') = enqueue q t in
      count_queue n q' + count n (dropped_if answer t) ≡ count_queue n q + count n (t ∷ [])
unfolding enqueue dropped_if
count-enqueue n q t = ground (arith, count-insert n t q.items, count-append n q.putters (t ∷ []))

pub count-admit : (n : ℕ) (q : Queue) → count_queue n (admit q) ≡ count_queue n q
unfolding admit
count-admit n q = grind (arith, count-insert)
