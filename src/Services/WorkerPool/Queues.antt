-- ===== src/Services/WorkerPool/Queues.antt =====
-- services/worker_pool.py: how a property of one queue becomes one of all queues of the pool.
use aio_ss_usb_test_agent.Prelude.{
  ℕ, zero, suc, ◌≡◌, refl, sym, ◌*◌, false, Option, none, some, List, [], ◌∷◌, ◌++◌, arith, ◌⊎◌,
  inl, inr, Option-cases, List-cases, under_if, Bool-cases, ◌==◌,
}
use aio_ss_usb_test_agent.Prelude.Dict.{Dict, get, put, nat_eq, get-put}
use aio_ss_usb_test_agent.Services.WorkerPool.{
  WorkerItem, WorkerPool, Queue, Enqueued, Step, enqueues_top, enqueues_slot, admits_top,
  admits_slot, schedules, runs_top, runs_slot, insert, is_full, enqueue, enqueue_top, enqueue_slot,
  admit, hand_over, take_next, schedule, slot_queues, new_pool, run_top, run_slot, step, run_steps,
}
use aio_ss_usb_test_agent.Services.WorkerPool.Conservation.{
  schedule_held, schedule_idle, schedule_next,
}

-- The property of a queue with a limit: it holds of an empty queue, and is kept when an item is taken
-- or is put while the queue is not full.
pub record IsKept (P : ℕ → List WorkerItem → Type 0) : Type 0 where
  pub empty : (m : ℕ) → P m []
  pub rest : (m : ℕ) (t : WorkerItem) (ts : List WorkerItem) → P m (t ∷ ts) → P m ts
  pub inserted :
      (m : ℕ) (t : WorkerItem) (ts : List WorkerItem)
      → is_full m ts ≡ false
      → P m ts
      → P m (insert t ts)

-- Every queue of the pool has the property, with its own limit.
pub record Everywhere (P : ℕ → List WorkerItem → Type 0) (p : WorkerPool) : Type 0 where
  pub in_top : P (p.top).max_size (p.top).items
  pub in_scheduler : P (p.scheduler).max_size (p.scheduler).items
  pub in_slots :
      (i : ℕ) (ts : List WorkerItem) → get p.slot_workers i ≡ some ts → P p.max_slot_queue_size ts

-- The tasks in the queue of a slot.
abbrev pub slot_items : WorkerPool → ℕ → List WorkerItem
slot_items p i = elim (get p.slot_workers i) [ none ↦ [] | some ts ↦ ts ]

get_last :
    (d : Dict ℕ (List WorkerItem)) (n i : ℕ) (ts : List WorkerItem)
    → get (d ++ (n, []) ∷ []) i ≡ some ts
    → (get d i ≡ some ts) ⊎ (ts ≡ [])
unfolding get
get_last [] n i ts e = inr (ground (arith, e))
get_last ((j, us) ∷ d) n i ts e = ground (arith, e, get_last d n i ts)

slot_queues_empty : (n i : ℕ) (ts : List WorkerItem) → get (slot_queues n) i ≡ some ts → ts ≡ []
unfolding slot_queues get
slot_queues_empty zero i ts e = cc
slot_queues_empty (suc n) i ts e = elim (get_last (slot_queues n) n i ts e) [
  | inl h ↦ slot_queues_empty n i ts h
  | inr h ↦ h
]

module _ {P : ℕ → List WorkerItem → Type 0} (k : IsKept P) where
  abbrev Holds : Queue → Type 0
  Holds q = P q.max_size q.items

  enqueue-Holds : (q : Queue) (t : WorkerItem) → Holds q → Holds (enqueue q t).1
  unfolding enqueue
  enqueue-Holds q t h =
      under_if (λ (r : Enqueued × Queue). Holds r.1) (is_full q.max_size q.items)
        (λ _. under_if (λ (r : Enqueued × Queue). Holds r.1) t.drop_if_full (λ _. h) (λ _. h))
        (λ room. k.inserted q.max_size t q.items room h)

  admit-Holds : (q : Queue) → Holds q → Holds (admit q)
  unfolding admit
  admit-Holds q h = elim (List-cases q.putters) [
    | inl e ↦ rw (e, admit) h
    | inr (t, ts, e) ↦
        rw (e, admit)
          (under_if Holds (is_full q.max_size q.items) (λ _. h)
            (λ room. k.inserted q.max_size t q.items room h))
  ]

  -- No queue is changed.
  same-Everywhere :
      (p : WorkerPool) (held_ : Option WorkerItem) (seq_ : ℕ) (dropped_ : List WorkerItem)
      → Everywhere P p
      → Everywhere P (record p { held = held_; seq = seq_; dropped = dropped_ })
  same-Everywhere p held_ seq_ dropped_ v = record {
    in_top = v.in_top;
    in_scheduler = v.in_scheduler;
    in_slots = v.in_slots;
  }

  put-slots :
      (m : ℕ) (d : Dict ℕ (List WorkerItem)) (i : ℕ) (ts : List WorkerItem)
      → P m ts
      → ((j : ℕ) (us : List WorkerItem) → get d j ≡ some us → P m us)
      → (j : ℕ) (us : List WorkerItem) → get (put d i ts) j ≡ some us
      → P m us
  put-slots m d i ts h others j us e = elim (Bool-cases (i == j)) [
    | inl same ↦ let replaced : us ≡ ts = ground (arith, e, same, get-put d i j ts) in rw replaced h
    | inr other ↦ others j us (ground (arith, e, other, get-put d i j ts))
  ]

  -- The queue of a slot is replaced.
  put-Everywhere :
      (p : WorkerPool) (i : ℕ) (ts : List WorkerItem) (held_ : Option WorkerItem)
      (ran_ : List WorkerItem)
      → P p.max_slot_queue_size ts
      → Everywhere P p
      → Everywhere P (record p { held = held_; slot_workers = put p.slot_workers i ts; ran = ran_ })
  put-Everywhere p i ts held_ ran_ h v = record {
    in_top = v.in_top;
    in_scheduler = v.in_scheduler;
    in_slots = put-slots p.max_slot_queue_size p.slot_workers i ts h v.in_slots;
  }

  hand_over-Everywhere :
      (p : WorkerPool) (t : WorkerItem) → Everywhere P p → Everywhere P (hand_over t p)
  unfolding hand_over
  hand_over-Everywhere p t v = elim (Option-cases (get p.slot_workers t.slot_idx)) [
    | inl e ↦ rw (e, hand_over) (same-Everywhere p none p.seq _ v)
    | inr (items, e) ↦
        rw (e, hand_over)
          (under_if (Everywhere P) (is_full p.max_slot_queue_size items)
            (λ _.
              under_if (Everywhere P) t.drop_if_full (λ _. same-Everywhere p none p.seq _ v)
                (λ _. same-Everywhere p (some t) p.seq _ v))
            (λ room.
              put-Everywhere p t.slot_idx _ none p.ran
                (k.inserted _ t items room (v.in_slots t.slot_idx items e)) v))
  ]

  schedule-Everywhere : (p : WorkerPool) → Everywhere P p → Everywhere P (schedule p)
  schedule-Everywhere p v = elim (Option-cases p.held) [
    | inr (t, e) ↦ rw (schedule_held p t e) (hand_over-Everywhere p t v)
    | inl e ↦ elim (List-cases (p.scheduler).items) [
      | inl i ↦ rw (schedule_idle p e i) v
      | inr (t, ts, i) ↦ rw (schedule_next p t ts e i) (
          hand_over-Everywhere (record p { scheduler = record (p.scheduler) { items = ts } }) t
            (record {
              in_top = v.in_top;
              in_scheduler = k.rest (p.scheduler).max_size t ts (rw (sym i) v.in_scheduler);
              in_slots = v.in_slots;
            }))
    ]
  ]

  run_top-Everywhere : (p : WorkerPool) → Everywhere P p → Everywhere P (run_top p)
  unfolding run_top
  run_top-Everywhere p v = elim (List-cases (p.top).items) [
    | inl e ↦ rw (e, run_top) v
    | inr (t, ts, e) ↦
        rw (e, run_top)
          (record {
            in_top = k.rest (p.top).max_size t ts (rw (sym e) v.in_top);
            in_scheduler = v.in_scheduler;
            in_slots = v.in_slots;
          })
  ]

  run_slot-Everywhere : (p : WorkerPool) (i : ℕ) → Everywhere P p → Everywhere P (run_slot i p)
  unfolding run_slot
  run_slot-Everywhere p i v = elim (Option-cases (get p.slot_workers i)) [
    | inl e ↦ rw (e, run_slot) v
    | inr ([], e) ↦ rw (e, run_slot) v
    | inr (t ∷ ts, e) ↦
        rw (e, run_slot)
          (put-Everywhere p i ts p.held (p.ran ++ t ∷ []) (k.rest _ t ts (v.in_slots i _ e)) v)
  ]

  step-Everywhere : (p : WorkerPool) (s : Step) → Everywhere P p → Everywhere P (step p s)
  unfolding step enqueue_top enqueue_slot
  step-Everywhere p (enqueues_top name priority drop) v = record {
    in_top = enqueue-Holds p.top _ v.in_top;
    in_scheduler = v.in_scheduler;
    in_slots = v.in_slots;
  }
  step-Everywhere p (enqueues_slot i name priority drop) v =
      elim (Option-cases (get p.slot_workers i)) [
        | inl e ↦ rw (e, step) v
        | inr (items, e) ↦
            rw (e, step)
              (record {
                in_top = v.in_top;
                in_scheduler = enqueue-Holds p.scheduler _ v.in_scheduler;
                in_slots = v.in_slots;
              })
      ]
  step-Everywhere p admits_top v = record {
    in_top = admit-Holds p.top v.in_top;
    in_scheduler = v.in_scheduler;
    in_slots = v.in_slots;
  }
  step-Everywhere p admits_slot v = record {
    in_top = v.in_top;
    in_scheduler = admit-Holds p.scheduler v.in_scheduler;
    in_slots = v.in_slots;
  }
  step-Everywhere p schedules v = schedule-Everywhere p v
  step-Everywhere p runs_top v = run_top-Everywhere p v
  step-Everywhere p (runs_slot i) v = run_slot-Everywhere p i v

  run_steps-Everywhere :
      (p : WorkerPool) (ss : List Step) → Everywhere P p → Everywhere P (run_steps p ss)
  unfolding run_steps
  run_steps-Everywhere p [] v = v
  run_steps-Everywhere p (s ∷ ss) v = run_steps-Everywhere (step p s) ss (step-Everywhere p s v)

  get-slot_queues : (m n i : ℕ) (ts : List WorkerItem) → get (slot_queues n) i ≡ some ts → P m ts
  get-slot_queues m n i ts e = rw (slot_queues_empty n i ts e) (k.empty m)

  -- In every run of a new pool.
  pub run-Everywhere :
      (slots top max_slot : ℕ) (ss : List Step)
      → Everywhere P (run_steps (new_pool slots top max_slot) ss)
  unfolding new_pool
  run-Everywhere slots top max_slot ss =
      run_steps-Everywhere (new_pool slots top max_slot) ss (record {
        in_top = k.empty top;
        in_scheduler = k.empty (max_slot * slots);
        in_slots = get-slot_queues max_slot slots;
      })

  pub run-in_slot :
      (slots top max_slot : ℕ) (ss : List Step) (i : ℕ)
      → let p = run_steps (new_pool slots top max_slot) ss in
        P p.max_slot_queue_size (slot_items p i)
  run-in_slot slots top max_slot ss i =
      let p = run_steps (new_pool slots top max_slot) ss in
      let v = run-Everywhere slots top max_slot ss in
      elim (Option-cases (get p.slot_workers i)) [
        | inl e ↦ rw (e, slot_items) (k.empty p.max_slot_queue_size)
        | inr (ts, e) ↦ rw (e, slot_items) (v.in_slots i ts e)
      ]

-- The limits of the queues are those that the pool was made with.
step_limits :
    (p : WorkerPool) (s : Step)
    → ((step p s).top.max_size ≡ p.top.max_size)
      × ((step p s).scheduler.max_size ≡ p.scheduler.max_size)
      × ((step p s).max_slot_queue_size ≡ p.max_slot_queue_size)
unfolding step enqueue_top enqueue_slot enqueue admit schedule take_next hand_over run_top run_slot
step_limits p s = ground arith

pub run_steps_limits :
    (p : WorkerPool) (ss : List Step)
    → ((run_steps p ss).top.max_size ≡ p.top.max_size)
      × ((run_steps p ss).scheduler.max_size ≡ p.scheduler.max_size)
      × ((run_steps p ss).max_slot_queue_size ≡ p.max_slot_queue_size)
unfolding run_steps
run_steps_limits p [] = (refl, refl, refl)
run_steps_limits p (s ∷ ss) = ground (arith, step_limits p s, run_steps_limits (step p s) ss)
