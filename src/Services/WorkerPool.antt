-- ===== src/Services/WorkerPool.antt =====
-- services/worker_pool.py: the queues of the backend's messages and of the slots' tasks, and the
-- scheduler between them. A task is known by its number; what it does when it runs is not modelled.
--
-- `asyncio.PriorityQueue` is the list of its items in the order in which `get` takes them.
pub mod Counting
pub mod Conservation
pub mod Dropping
mod Queues
pub mod Ordering
pub mod Limits
mod Examples
use aio_ss_usb_test_agent.Prelude.{
  ℕ, zero, suc, ◌+◌, ◌*◌, ◌==◌, ltb, leb, if◌then◌else◌, Bool, true, false, ◌&&◌, ◌||◌, Option,
  none, some, String, List, [], ◌∷◌, ◌++◌, length,
}
use aio_ss_usb_test_agent.Prelude.Dict.{Dict, get, put, nat_eq}

pub data WorkerPriority : Type 0 where
  immediate high normal low : WorkerPriority

abbrev pub priority_value : WorkerPriority → ℕ
priority_value WorkerPriority.immediate = 0
priority_value WorkerPriority.high = 5
priority_value WorkerPriority.normal = 10
priority_value WorkerPriority.low = 20

-- WorkerItem, and SlotTask, whose `slot_idx` is 0 for other items.
pub record WorkerItem : Type 0 where
  pub priority : ℕ
  pub seq : ℕ
  pub name : String
  pub drop_if_full : Bool
  pub slot_idx : ℕ

-- The order of the dataclass: by priority, then by number.
abbrev pub before : WorkerItem → WorkerItem → Bool
before a b = ltb a.priority b.priority || ((a.priority == b.priority) && ltb a.seq b.seq)

unfoldable pub insert : WorkerItem → List WorkerItem → List WorkerItem
insert t [] = t ∷ []
insert t (u ∷ us) = let rest = insert t us in if before t u then t ∷ u ∷ us else u ∷ rest

-- A queue of `max_size` items, or without a limit for 0, and the calls of `put` that wait for room.
pub record Queue : Type 0 where
  pub max_size : ℕ
  pub items : List WorkerItem
  pub putters : List WorkerItem

abbrev pub is_full : ℕ → List WorkerItem → Bool
is_full max_size items = ltb 0 max_size && leb max_size (length items)

-- `ran` and `dropped` are the tasks that have been taken to run and those that were given up.
-- `held` is the task that the scheduler has taken and waits to hand over.
pub record WorkerPool : Type 0 where
  pub top : Queue
  pub scheduler : Queue
  pub held : Option WorkerItem
  pub max_slot_queue_size : ℕ
  pub slot_workers : Dict ℕ (List WorkerItem)
  pub seq : ℕ
  pub ran : List WorkerItem
  pub dropped : List WorkerItem

slot_queues : ℕ → Dict ℕ (List WorkerItem)
slot_queues zero = []
slot_queues (suc n) = slot_queues n ++ (n, []) ∷ []

unfoldable pub new_pool : ℕ → ℕ → ℕ → WorkerPool
unfolding slot_queues
new_pool slot_count max_top_queue_size max_slot_queue_size = record {
  top = record { max_size = max_top_queue_size; items = []; putters = [] };
  scheduler = record { max_size = max_slot_queue_size * slot_count; items = []; putters = [] };
  held = none;
  max_slot_queue_size = max_slot_queue_size;
  slot_workers = slot_queues slot_count;
  seq = 0;
  ran = [];
  dropped = [];
}

-- How `put_nowait` or `put` ends: with True, with False, or not yet.
pub data Enqueued : Type 0 where
  accepted refused waiting : Enqueued

-- `_QueueWorker.enqueue`, which `enqueue_slot` repeats on the scheduler's queue.
unfoldable pub enqueue : Queue → WorkerItem → Enqueued × Queue
unfolding insert
enqueue q t =
    if is_full q.max_size q.items
    then if t.drop_if_full
      then (Enqueued.refused, q)
      else (Enqueued.waiting, record q { putters = q.putters ++ t ∷ [] })
    else (Enqueued.accepted, record q { items = insert t q.items })

unfoldable pub dropped_if : Enqueued → WorkerItem → List WorkerItem
dropped_if Enqueued.refused t = t ∷ []
dropped_if _ t = []

-- `_next_seq` gives each task the number of tasks so far.
unfoldable pub enqueue_top : String → WorkerPriority → Bool → WorkerPool → Enqueued × WorkerPool
unfolding enqueue dropped_if
enqueue_top name priority drop_if_full p =
    let t : WorkerItem = record {
      priority = priority_value priority;
      seq = p.seq + 1;
      name = name;
      drop_if_full = drop_if_full;
      slot_idx = 0;
    } in
    let (answer, q) = enqueue p.top t in
    (answer, record p { top = q; seq = p.seq + 1; dropped = p.dropped ++ dropped_if answer t })

-- The answer is False at once for a slot without a worker.
unfoldable pub enqueue_slot :
    ℕ → String → WorkerPriority → Bool → WorkerPool → Enqueued × WorkerPool
unfolding enqueue dropped_if
enqueue_slot slot_idx name priority drop_if_full p = elim (get p.slot_workers slot_idx) [
  | none ↦ (Enqueued.refused, p)
  | some _ ↦
      let t : WorkerItem = record {
        priority = priority_value priority;
        seq = p.seq + 1;
        name = name;
        drop_if_full = drop_if_full;
        slot_idx = slot_idx;
      } in
      let (answer, q) = enqueue p.scheduler t in
      (
        answer,
        record p { scheduler = q; seq = p.seq + 1; dropped = p.dropped ++ dropped_if answer t },
      )
]

-- A call of `put` that waits goes on when there is room.
unfoldable pub admit : Queue → Queue
unfolding insert
admit q = elim q.putters [
  | [] ↦ q
  | t ∷ ts ↦
      if is_full q.max_size q.items then q else record q { items = insert t q.items; putters = ts }
]

-- `worker.enqueue(task)` in the scheduler, which stays at it while the slot's queue is full.
unfoldable pub hand_over : WorkerItem → WorkerPool → WorkerPool
unfolding insert
hand_over t p = elim (get p.slot_workers t.slot_idx) [
  | none ↦ record p { held = none; dropped = p.dropped ++ t ∷ [] }
  | some items ↦
      if is_full p.max_slot_queue_size items
      then if t.drop_if_full
        then record p { held = none; dropped = p.dropped ++ t ∷ [] }
        else record p { held = some t }
      else record p { held = none; slot_workers = put p.slot_workers t.slot_idx (insert t items) }
]

take_next : WorkerPool → List WorkerItem → WorkerPool
unfolding hand_over
take_next p [] = p
take_next p (t ∷ ts) = hand_over t (record p { scheduler = record (p.scheduler) { items = ts } })

-- One turn of `_scheduler_loop`, or one more try with the task that it holds.
unfoldable pub schedule : WorkerPool → WorkerPool
unfolding take_next
schedule p = elim p.held [ some t ↦ hand_over t p | none ↦ take_next p (p.scheduler).items ]

-- One turn of a worker's `_run`.
unfoldable pub run_top : WorkerPool → WorkerPool
run_top p = elim (p.top).items [
  | [] ↦ p
  | t ∷ ts ↦ record p { top = record (p.top) { items = ts }; ran = p.ran ++ t ∷ [] }
]

unfoldable pub run_slot : ℕ → WorkerPool → WorkerPool
run_slot slot_idx p = elim (get p.slot_workers slot_idx) [
  | none ↦ p
  | some [] ↦ p
  | some (t ∷ ts) ↦ record p {
    slot_workers = put p.slot_workers slot_idx ts;
    ran = p.ran ++ t ∷ [];
  }
]

-- What can happen next. A worker of the pool runs at each turn one task to its end.
pub data Step : Type 0 where
  enqueues_top : String → WorkerPriority → Bool → Step
  enqueues_slot : ℕ → String → WorkerPriority → Bool → Step
  admits_top admits_slot schedules runs_top : Step
  runs_slot : ℕ → Step

unfoldable pub step : WorkerPool → Step → WorkerPool
step p (enqueues_top name priority drop) = (enqueue_top name priority drop p).1
step p (enqueues_slot i name priority drop) = (enqueue_slot i name priority drop p).1
step p admits_top = record p { top = admit p.top }
step p admits_slot = record p { scheduler = admit p.scheduler }
step p schedules = schedule p
step p runs_top = run_top p
step p (runs_slot i) = run_slot i p

unfoldable pub run_steps : WorkerPool → List Step → WorkerPool
run_steps p [] = p
run_steps p (s ∷ ss) = run_steps (step p s) ss
