-- ===== src/Services/Executors/Tracking.antt =====
-- The tasks of the manager of executors.
use aio_ss_usb_test_agent.Prelude.{
  ℕ, ◌≡◌, false, Option, none, some, List, [], ◌∷◌, arith, ==_iff, Bool-cases, Option-cases, inl,
  inr, ℕ_discrete,
}
use aio_ss_usb_test_agent.Prelude.Dict.{Dict, get, put, get-put, nat_eq}
use aio_ss_usb_test_agent.Services.Executors.{
  BatchExecutorManager, TaskEnd, ManagerStep, start_of, stop_of, ends, new_executors,
  is_task_running, is_batch_running, start_batch_test, start_with, create_task,
  get_or_create_executor, stop_batch_test, manager_step, run_manager,
}

-- Of all tasks that were created, one that has not ended is the task of its slot.
abbrev pub Tracks : Dict ℕ ℕ → Dict ℕ TaskEnd → List (ℕ × ℕ) → Type 0
Tracks tasks ended [] = Unit {0}
Tracks tasks ended ((slot_idx, task) ∷ created) =
    (get ended task ≡ none → get tasks slot_idx ≡ some task) × Tracks tasks ended created

abbrev pub IsTracked : BatchExecutorManager → Type 0
IsTracked g = Tracks g.tasks g.ended g.created

ended_more :
    (e : Dict ℕ TaskEnd) (k j : ℕ) (how : TaskEnd) → get (put e k how) j ≡ none → get e j ≡ none
ended_more e k j how h = ground (arith, get-put e k j how, h)

Tracks-ended :
    (t : Dict ℕ ℕ) (e : Dict ℕ TaskEnd) (k : ℕ) (how : TaskEnd) (cs : List (ℕ × ℕ))
    → Tracks t e cs
    → Tracks t (put e k how) cs
Tracks-ended t e k how [] h = tt
Tracks-ended t e k how ((i, j) ∷ cs) (h, hs) =
    (λ n. h (ended_more e k j how n), Tracks-ended t e k how cs hs)

contradicted :
    (e : Dict ℕ TaskEnd) (k : ℕ) (o : Option ℕ)
    → o ≡ some k
    → get e k ≡ none
    → is_task_running o e ≡ false
    → ⊥
contradicted e k o here n free = ground (arith, here, n, free)

-- A slot without a running task has no task that has not ended.
replaced :
    (t : Dict ℕ ℕ) (e : Dict ℕ TaskEnd) (i new j k : ℕ)
    → is_task_running (get t i) e ≡ false
    → (get e k ≡ none → get t j ≡ some k)
    → get e k ≡ none
    → get (put t i new) j ≡ some k
replaced t e i new j k free h n = elim (ℕ_discrete i j) [
  | yes same ↦
      let here : get t i ≡ some k = rw same (h n) in absurd (contradicted e k (get t i) here n free)
  | no apart ↦ ground (arith, get-put t i j new, ==_iff i j, h n, apart)
]

Tracks-put :
    (t : Dict ℕ ℕ) (e : Dict ℕ TaskEnd) (i new : ℕ) (cs : List (ℕ × ℕ))
    → is_task_running (get t i) e ≡ false
    → Tracks t e cs
    → Tracks (put t i new) e cs
Tracks-put t e i new [] free h = tt
Tracks-put t e i new ((j, k) ∷ cs) free (h, hs) =
    (replaced t e i new j k free h, Tracks-put t e i new cs free hs)

own_task : (t : Dict ℕ ℕ) (i new : ℕ) → get (put t i new) i ≡ some new
own_task t i new = ground (arith, get-put t i i new)

module _ (i : ℕ) where
  same_tasks :
      (g : BatchExecutorManager) (g' : BatchExecutorManager)
      → get_or_create_executor i g ≡ some g'
      → (g'.tasks ≡ g.tasks) × (g'.ended ≡ g.ended) × (g'.created ≡ g.created)
  unfolding get_or_create_executor
  same_tasks g g' h = ground (arith, h)

  created-IsTracked :
      (g : BatchExecutorManager)
      → is_task_running (get g.tasks i) g.ended ≡ false
      → IsTracked g
      → IsTracked (create_task i g)
  unfolding create_task
  created-IsTracked g free h = (
    λ _. own_task g.tasks i g.next_task,
    Tracks-put g.tasks g.ended i g.next_task g.created free h,
  )

  start-IsTracked : (g : BatchExecutorManager) → IsTracked g → IsTracked (start_batch_test i g).1
  unfolding start_batch_test start_with is_batch_running
  start-IsTracked g h = elim (Bool-cases (is_task_running (get g.tasks i) g.ended)) [
    | inl busy ↦ rw (busy, start_batch_test) h
    | inr free ↦ elim (Option-cases (get_or_create_executor i g)) [
      | inl bad ↦ rw (free, start_batch_test, bad) h
      | inr (g', e) ↦
          let (t, d, c) = same_tasks g g' e in
          rw (free, start_batch_test, e) (created-IsTracked g' (rw (t, d) free) (rw (t, d, c) h))
    ]
  ]

  stop-IsTracked : (g : BatchExecutorManager) → IsTracked g → IsTracked (stop_batch_test i g).1
  unfolding stop_batch_test
  stop-IsTracked g h = elim (Option-cases (get g.executors i)) [
    | inl e ↦ rw (e, stop_batch_test) h
    | inr (requests, e) ↦ rw (e, stop_batch_test) h
  ]

step-IsTracked :
    (g : BatchExecutorManager) (s : ManagerStep) → IsTracked g → IsTracked (manager_step g s)
unfolding manager_step
step-IsTracked g (start_of i) h = start-IsTracked i g h
step-IsTracked g (stop_of i) h = stop-IsTracked i g h
step-IsTracked g (ends k how) h = Tracks-ended g.tasks g.ended k how g.created h

steps-IsTracked :
    (g : BatchExecutorManager) (ss : List ManagerStep) → IsTracked g → IsTracked (run_manager g ss)
unfolding run_manager
steps-IsTracked g [] h = h
steps-IsTracked g (s ∷ ss) h = steps-IsTracked (manager_step g s) ss (step-IsTracked g s h)

-- In every run of a new manager, each task that was ever created and has not ended is the one that
-- the manager has for its slot: so a slot never has two of them, and none is forgotten.
pub run_manager-IsTracked :
    (slots : Dict ℕ (Unit {0})) (ss : List ManagerStep)
    → IsTracked (run_manager (new_executors slots) ss)
unfolding new_executors
run_manager-IsTracked slots ss = steps-IsTracked (new_executors slots) ss tt
