-- ===== src/Services/WorkerPool/Conservation.antt =====
-- That no task of the pool is lost or doubled.
use aio_ss_usb_test_agent.Prelude.{
  ℕ, zero, suc, ◌+◌, ◌==◌, ◌≡◌, ◌≤◌, ◌<◌, refl, if◌then◌else◌, Bool, ◌&&◌, none, some, String, List,
  [], ◌∷◌, ◌++◌, arith, ltb, leb, inl, inr, Option-cases, List-cases,
}
use aio_ss_usb_test_agent.Prelude.Dict.{Dict, get, nat_eq}
use aio_ss_usb_test_agent.Services.WorkerPool.{
  WorkerItem, WorkerPriority, priority_value, WorkerPool, Step, enqueues_top, enqueues_slot,
  admits_top, admits_slot, schedules, runs_top, runs_slot, insert, enqueue, enqueue_top,
  enqueue_slot, dropped_if, hand_over, take_next, schedule, slot_queues, new_pool, run_top,
  run_slot, step, run_steps,
}
use aio_ss_usb_test_agent.Services.WorkerPool.Counting.{
  count, count_held, count_slots, count_pool, count-append, count-insert, count_slots-put,
  count-enqueue, count-admit,
}

-- The tasks with the number that are born between two numbers of tasks.
abbrev pub born : ℕ → ℕ → ℕ → ℕ
born n before_ after_ = if ltb before_ n && leb n after_ then 1 else 0

born_next : (n k : ℕ) → born n k (k + 1) ≡ (if k + 1 == n then 1 else 0)
born_next n k = ground arith

abbrev pub new_item : String → WorkerPriority → Bool → ℕ → WorkerPool → WorkerItem
new_item name priority drop slot_idx p = record {
  priority = priority_value priority;
  seq = p.seq + 1;
  name = name;
  drop_if_full = drop;
  slot_idx = slot_idx;
}

module _ (n : ℕ) (p : WorkerPool) where
  -- A step of the pool that neither loses nor doubles a task.
  abbrev Conserves : WorkerPool → Type 0
  Conserves p' = count_pool n p' ≡ count_pool n p + born n p.seq p'.seq

  enqueue_top-Conserves :
      (name : String) (priority : WorkerPriority) (drop : Bool)
      → Conserves (enqueue_top name priority drop p).1
  unfolding enqueue_top
  enqueue_top-Conserves name priority drop =
      let t = new_item name priority drop 0 p in
      omega (
        arith,
        count-enqueue n p.top t,
        count-append n p.dropped (dropped_if (enqueue p.top t).0 t),
        born_next n p.seq,
      )

  enqueue_slot-Conserves :
      (i : ℕ) (name : String) (priority : WorkerPriority) (drop : Bool)
      → Conserves (enqueue_slot i name priority drop p).1
  unfolding enqueue_slot
  enqueue_slot-Conserves i name priority drop = elim (Option-cases (get p.slot_workers i)) [
    | inl e ↦ rw (e, enqueue_slot) (ground arith)
    | inr (items, e) ↦
        let t = new_item name priority drop i p in
        rw (e, enqueue_slot)
          (omega (
            arith,
            count-enqueue n p.scheduler t,
            count-append n p.dropped (dropped_if (enqueue p.scheduler t).0 t),
            born_next n p.seq,
          ))
  ]

  hand_over-count :
      (t : WorkerItem)
      → (count_pool n (hand_over t p) + count_held n p.held ≡ count_pool n p + count n (t ∷ []))
        × ((hand_over t p).seq ≡ p.seq)
  unfolding hand_over
  hand_over-count t = elim (Option-cases (get p.slot_workers t.slot_idx)) [
    | inl e ↦ rw (e, hand_over) (ground (arith, count-append n p.dropped (t ∷ [])))
    | inr (items, e) ↦
        rw (e, hand_over)
          (ground (
            arith,
            count-append n p.dropped (t ∷ []),
            count-insert n t items,
            count_slots-put n p.slot_workers t.slot_idx items (insert t items) e,
          ))
  ]

  run_top-Conserves : Conserves (run_top p)
  unfolding run_top
  run_top-Conserves = elim (List-cases (p.top).items) [
    | inl e ↦ rw (e, run_top) (ground (arith, e))
    | inr (t, ts, e) ↦ ground (arith, e, count-append n p.ran (t ∷ []))
  ]

  run_slot-Conserves : (i : ℕ) → Conserves (run_slot i p)
  unfolding run_slot
  run_slot-Conserves i = elim (Option-cases (get p.slot_workers i)) [
    | inl e ↦ rw (e, run_slot) (ground arith)
    | inr ([], e) ↦ rw (e, run_slot) (ground arith)
    | inr (t ∷ ts, e) ↦
        rw (e, run_slot)
          (ground (
            arith,
            count-append n p.ran (t ∷ []),
            count_slots-put n p.slot_workers i (t ∷ ts) ts e,
          ))
  ]

module _ (p : WorkerPool) where
  pub schedule_held : (t : WorkerItem) → p.held ≡ some t → schedule p ≡ hand_over t p
  unfolding schedule
  schedule_held t h = ground arith

  pub schedule_idle : p.held ≡ none → (p.scheduler).items ≡ [] → schedule p ≡ p
  unfolding schedule take_next
  schedule_idle h i = ground arith

  pub schedule_next :
      (t : WorkerItem) (ts : List WorkerItem)
      → p.held ≡ none
      → (p.scheduler).items ≡ t ∷ ts
      → schedule p ≡ hand_over t (record p { scheduler = record (p.scheduler) { items = ts } })
  unfolding schedule take_next
  schedule_next t ts h i = ground arith

module _ (n : ℕ) (p : WorkerPool) where
  schedule-Conserves : Conserves n p (schedule p)
  schedule-Conserves = elim (Option-cases p.held) [
    | inr (t, e) ↦
        let (counted, same) = hand_over-count n p t in
        rw (schedule_held p t e) (ground (arith, counted, same, e))
    | inl e ↦ elim (List-cases (p.scheduler).items) [
      | inl i ↦ rw (schedule_idle p e i) (ground arith)
      | inr (t, ts, i) ↦
          let p' : WorkerPool = record p { scheduler = record (p.scheduler) { items = ts } } in
          let (counted, same) = hand_over-count n p' t in
          rw (schedule_next p t ts e i) (ground (arith, counted, same, e, i))
    ]
  ]

  step-Conserves : (s : Step) → Conserves n p (step p s)
  unfolding step
  step-Conserves (enqueues_top name priority drop) = enqueue_top-Conserves n p name priority drop
  step-Conserves (enqueues_slot i name priority drop) =
      enqueue_slot-Conserves n p i name priority drop
  step-Conserves admits_top = ground (arith, count-admit n p.top)
  step-Conserves admits_slot = ground (arith, count-admit n p.scheduler)
  step-Conserves schedules = schedule-Conserves
  step-Conserves runs_top = run_top-Conserves n p
  step-Conserves (runs_slot i) = run_slot-Conserves n p i

-- Every number up to the last is that of one task, and no other is of any.
abbrev pub IsConserved : WorkerPool → Type 0
IsConserved p = (n : ℕ) → count_pool n p ≡ (if ltb 0 n && leb n p.seq then 1 else 0)

step_seq : (p : WorkerPool) (s : Step) → p.seq ≤ (step p s).seq
unfolding step enqueue_top enqueue_slot schedule take_next hand_over run_top run_slot
step_seq p s = ground arith

step-IsConserved : (p : WorkerPool) (s : Step) → IsConserved p → IsConserved (step p s)
step-IsConserved p s h n = ground (arith, h n, step-Conserves n p s, step_seq p s)

run_steps-IsConserved :
    (p : WorkerPool) (ss : List Step) → IsConserved p → IsConserved (run_steps p ss)
unfolding run_steps
run_steps-IsConserved p [] h = h
run_steps-IsConserved p (s ∷ ss) h = run_steps-IsConserved (step p s) ss (step-IsConserved p s h)

count_slots-append :
    (n : ℕ) (d f : Dict ℕ (List WorkerItem))
    → count_slots n (d ++ f) ≡ count_slots n d + count_slots n f
count_slots-append n [] f = omega arith
count_slots-append n ((i, ts) ∷ d) f = omega (arith, count_slots-append n d f)

count-slot_queues : (n slots : ℕ) → count_slots n (slot_queues slots) ≡ 0
unfolding slot_queues
count-slot_queues n zero = refl
count-slot_queues n (suc k) =
    omega (arith, count_slots-append n (slot_queues k) ((k, []) ∷ []), count-slot_queues n k)

new_pool-IsConserved : (slots top max_slot : ℕ) → IsConserved (new_pool slots top max_slot)
unfolding new_pool
new_pool-IsConserved slots top max_slot n = ground (arith, count-slot_queues n slots)

-- In every run of a new pool, each task that has been given a number is at exactly one place: it
-- waits for a queue, is in one, is held by the scheduler, has been run, or has been dropped.
pub count-run_steps :
    (slots top max_slot : ℕ) (ss : List Step) (n : ℕ)
    → let p = run_steps (new_pool slots top max_slot) ss in 0 < n → n ≤ p.seq → count_pool n p ≡ 1
count-run_steps slots top max_slot ss n h k = ground (
  arith,
  run_steps-IsConserved (new_pool slots top max_slot) ss (new_pool-IsConserved slots top max_slot)
      n,
)
