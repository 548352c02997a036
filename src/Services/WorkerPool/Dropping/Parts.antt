-- ===== src/Services/WorkerPool/Dropping/Parts.antt =====
-- The parts of a step, and the tasks that each drops.
use aio_ss_usb_test_agent.Prelude.{
  ℕ, ◌≡◌, if◌then◌else◌, Bool, true, false, none, some, String, List, [], ◌∷◌, ◌++◌, arith, inl,
  inr, Bool-cases, Option-cases, List-cases, All, All-append, is_some,
}
use aio_ss_usb_test_agent.Prelude.Dict.{Dict, get, put, get-put, nat_eq}
use aio_ss_usb_test_agent.Services.WorkerPool.{
  WorkerItem, WorkerPriority, Queue, WorkerPool, insert, enqueue, enqueue_slot, dropped_if, admit,
  hand_over, run_slot, before, is_full,
}
use aio_ss_usb_test_agent.Services.WorkerPool.Conservation.{new_item}

abbrev pub IsDroppable : WorkerItem → Type 0
IsDroppable t = t.drop_if_full ≡ true

-- The slot of a task has a worker.
abbrev pub HasWorker : Dict ℕ (List WorkerItem) → WorkerItem → Type 0
HasWorker d t = is_some (get d t.slot_idx) ≡ true

-- Only droppable tasks are dropped, and each task of the scheduler has a worker to go to.
pub record IsSafe (p : WorkerPool) : Type 0 where
  pub dropped : All IsDroppable p.dropped
  pub items : All (HasWorker p.slot_workers) (p.scheduler).items
  pub putters : All (HasWorker p.slot_workers) (p.scheduler).putters
  pub held : (t : WorkerItem) → p.held ≡ some t → HasWorker p.slot_workers t

admit_none : (q : Queue) → q.putters ≡ [] → admit q ≡ q
unfolding admit
admit_none q e = ground arith

admit_first :
    (q : Queue) (t : WorkerItem) (ts : List WorkerItem)
    → q.putters ≡ t ∷ ts
    → admit q ≡ (
        if is_full q.max_size q.items
        then q
        else record q { items = insert t q.items; putters = ts })
unfolding admit
admit_first q t ts e = ground arith

module _ (P : WorkerItem → Type 0) where
  All-insert : (t : WorkerItem) (ts : List WorkerItem) → P t → All P ts → All P (insert t ts)
  unfolding insert
  All-insert t [] h k = (h, tt)
  All-insert t (u ∷ us) h k = elim (Bool-cases (before t u)) [
    | inl e ↦ rw (e, insert) (h, k)
    | inr e ↦ rw (e, insert) (k.0, All-insert t us h k.1)
  ]

  -- What a call of `put` leaves in the queue and among the waiting.
  All-enqueue :
      (q : Queue) (t : WorkerItem)
      → P t
      → All P q.items
      → All P q.putters
      → All P ((enqueue q t).1).items × All P ((enqueue q t).1).putters
  unfolding enqueue
  All-enqueue q t h i w =
      ground (arith, All-insert t q.items h i, All-append P q.putters (t ∷ []) w (h, tt))

  pub All-admit :
      (q : Queue)
      → All P q.items
      → All P q.putters
      → All P (admit q).items × All P (admit q).putters
  All-admit q i w = elim (List-cases q.putters) [
    | inl e ↦ rw (admit_none q e) (i, w)
    | inr (t, ts, e) ↦
        let w' : All P (t ∷ ts) = rw e at w in
        rw (admit_first q t ts e) (elim (Bool-cases (is_full q.max_size q.items)) [
          | inl full ↦ rw full (i, w)
          | inr room ↦ rw room (All-insert t q.items w'.0 i, w'.1)
        ])
  ]

pub dropped-enqueue : (q : Queue) (t : WorkerItem) → All IsDroppable (dropped_if (enqueue q t).0 t)
unfolding enqueue dropped_if
dropped-enqueue q t = ground arith

-- A slot that has a worker keeps it.
HasWorker-put :
    (d : Dict ℕ (List WorkerItem)) (i : ℕ) (ts : List WorkerItem) (t : WorkerItem)
    → HasWorker d t
    → HasWorker (put d i ts) t
HasWorker-put d i ts t h = ground (arith, get-put d i t.slot_idx ts)

put_every-HasWorker :
    (d : Dict ℕ (List WorkerItem)) (i : ℕ) (ts us : List WorkerItem)
    → All (HasWorker d) us
    → All (HasWorker (put d i ts)) us
put_every-HasWorker d i ts [] h = tt
put_every-HasWorker d i ts (u ∷ us) h =
    (HasWorker-put d i ts u h.0, put_every-HasWorker d i ts us h.1)

module _ (p : WorkerPool) where
  pub enqueue_slot-IsSafe :
      (i : ℕ) (name : String) (priority : WorkerPriority) (drop : Bool)
      → IsSafe p
      → IsSafe (enqueue_slot i name priority drop p).1
  unfolding enqueue_slot
  enqueue_slot-IsSafe i name priority drop safe = elim (Option-cases (get p.slot_workers i)) [
    | inl e ↦ rw (e, enqueue_slot) safe
    | inr (items, e) ↦
        let t = new_item name priority drop i p in
        let queued =
          All-enqueue (HasWorker p.slot_workers) (p.scheduler) t (ground (arith, e)) safe.items
            safe.putters in
        rw (e, enqueue_slot)
          (record {
            dropped =
                All-append IsDroppable p.dropped _ safe.dropped (dropped-enqueue p.scheduler t);
            items = queued.0;
            putters = queued.1;
            held = safe.held;
          })
  ]

  module _ (t : WorkerItem) (items : List WorkerItem)
      (e : get p.slot_workers t.slot_idx ≡ some items) where
    hand_over_drops :
        is_full p.max_slot_queue_size items ≡ true
        → t.drop_if_full ≡ true
        → hand_over t p ≡ record p { held = none; dropped = p.dropped ++ t ∷ [] }
    unfolding hand_over
    hand_over_drops f d = ground (arith, e)

    hand_over_waits :
        is_full p.max_slot_queue_size items ≡ true
        → t.drop_if_full ≡ false
        → hand_over t p ≡ record p { held = some t }
    unfolding hand_over
    hand_over_waits f d = ground (arith, e)

    hand_over_puts :
        is_full p.max_slot_queue_size items ≡ false
        → hand_over t p
          ≡ record p { held = none; slot_workers = put p.slot_workers t.slot_idx (insert t items) }
    unfolding hand_over
    hand_over_puts f = ground (arith, e)

  -- A task with a worker is handed over safely.
  pub hand_over-IsSafe :
      (t : WorkerItem)
      → All IsDroppable p.dropped
      → All (HasWorker p.slot_workers) (p.scheduler).items
      → All (HasWorker p.slot_workers) (p.scheduler).putters
      → HasWorker p.slot_workers t
      → IsSafe (hand_over t p)
  hand_over-IsSafe t d i w h = elim (Option-cases (get p.slot_workers t.slot_idx)) [
    | inl e ↦ absurd (ground (arith, e))
    | inr (items, e) ↦ elim (Bool-cases (is_full p.max_slot_queue_size items)) [
      | inl full ↦ elim (Bool-cases t.drop_if_full) [
        | inl drops ↦ rw (hand_over_drops t items e full drops) (record {
          dropped = All-append IsDroppable p.dropped (t ∷ []) d (drops, tt);
          items = i;
          putters = w;
          held = λ u g. cc;
        })
        | inr keeps ↦
            rw (hand_over_waits t items e full keeps)
              (record { dropped = d; items = i; putters = w; held = λ u g. ground (arith, h) })
      ]
      | inr room ↦ rw (hand_over_puts t items e room) (record {
        dropped = d;
        items = put_every-HasWorker p.slot_workers t.slot_idx _ _ i;
        putters = put_every-HasWorker p.slot_workers t.slot_idx _ _ w;
        held = λ u g. cc;
      })
    ]
  ]

  pub run_slot-IsSafe : (i : ℕ) → IsSafe p → IsSafe (run_slot i p)
  unfolding run_slot
  run_slot-IsSafe i safe = elim (Option-cases (get p.slot_workers i)) [
    | inl e ↦ rw (e, run_slot) safe
    | inr ([], e) ↦ rw (e, run_slot) safe
    | inr (t ∷ ts, e) ↦
        rw (e, run_slot)
          (record {
            dropped = safe.dropped;
            items = put_every-HasWorker p.slot_workers i _ _ safe.items;
            putters = put_every-HasWorker p.slot_workers i _ _ safe.putters;
            held = λ u g. HasWorker-put p.slot_workers i ts u (safe.held u g);
          })
  ]
