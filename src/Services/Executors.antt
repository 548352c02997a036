-- ===== src/Services/Executors.antt =====
-- services/batch_executor.py: `BatchExecutorManager`. A task of asyncio is known by its number, and ends
-- by itself; an executor is its requests for cancellation.
pub mod Tracking
mod Examples
use aio_ss_usb_test_agent.Prelude.{
  ℕ, ◌+◌, if◌then◌else◌, Bool, true, false, not, Option, none, some, is_some, List, [], ◌∷◌, ◌++◌,
}
use aio_ss_usb_test_agent.Prelude.Dict.{Dict, get, put, nat_eq}

-- How a task ends: `execute` returns, the task is cancelled, or an exception comes out of it.
pub data TaskEnd : Type 0 where
  returned : Bool → TaskEnd
  cancelled raised : TaskEnd

-- `state_machines` are the slots that have a machine. `created` are all tasks so far with their
-- slots, `ended` those that are done.
pub record BatchExecutorManager : Type 0 where
  pub state_machines : Dict ℕ (Unit {0})
  pub executors : Dict ℕ (Dict ℕ Bool)
  pub tasks : Dict ℕ ℕ
  pub created : List (ℕ × ℕ)
  pub ended : Dict ℕ TaskEnd
  pub next_task : ℕ

unfoldable pub new_executors : Dict ℕ (Unit {0}) → BatchExecutorManager
new_executors state_machines = record {
  state_machines = state_machines;
  executors = [];
  tasks = [];
  created = [];
  ended = [];
  next_task = 0;
}

abbrev pub is_task_running : Option ℕ → Dict ℕ TaskEnd → Bool
is_task_running none ended = false
is_task_running (some task) ended = not (is_some (get ended task))

unfoldable pub is_batch_running : ℕ → BatchExecutorManager → Bool
is_batch_running slot_idx g = is_task_running (get g.tasks slot_idx) g.ended

-- `none` is ValueError.
unfoldable pub get_or_create_executor : ℕ → BatchExecutorManager → Option BatchExecutorManager
get_or_create_executor slot_idx g =
    if is_some (get g.executors slot_idx)
    then some g
    else if is_some (get g.state_machines slot_idx)
    then some (record g { executors = put g.executors slot_idx [] })
    else none

unfoldable pub create_task : ℕ → BatchExecutorManager → BatchExecutorManager
create_task slot_idx g = record g {
  tasks = put g.tasks slot_idx g.next_task;
  created = (slot_idx, g.next_task) ∷ g.created;
  next_task = g.next_task + 1;
}

-- How `start_batch_test` ends: it returns, or raises ValueError.
pub data StartAnswer : Type 0 where
  starts refuses value_error : StartAnswer

unfoldable pub start_with :
    ℕ → BatchExecutorManager → Option BatchExecutorManager → StartAnswer × BatchExecutorManager
unfolding create_task
start_with slot_idx g none = (StartAnswer.value_error, g)
start_with slot_idx g (some g') = (StartAnswer.starts, create_task slot_idx g')

unfoldable pub start_batch_test : ℕ → BatchExecutorManager → StartAnswer × BatchExecutorManager
unfolding get_or_create_executor start_with
start_batch_test slot_idx g =
    if is_batch_running slot_idx g
    then (StartAnswer.refuses, g)
    else start_with slot_idx g (get_or_create_executor slot_idx g)

-- The call of the controller changes nothing here.
unfoldable pub stop_batch_test : ℕ → BatchExecutorManager → Bool × BatchExecutorManager
stop_batch_test slot_idx g = elim (get g.executors slot_idx) [
  | none ↦ (false, g)
  | some requests ↦
      (true, record g { executors = put g.executors slot_idx (put requests slot_idx true) })
]

pub data Waited : Type 0 where
  no_task waits : Waited
  result : Bool → Waited

abbrev result_of : Option TaskEnd → Waited
result_of none = waits
result_of (some (returned b)) = result b
result_of (some cancelled) = result false
result_of (some raised) = result false

unfoldable pub wait_for_completion : ℕ → BatchExecutorManager → Waited
wait_for_completion slot_idx g = elim (get g.tasks slot_idx) [
  | none ↦ no_task
  | some task ↦ result_of (get g.ended task)
]

-- A call of the manager, or the end of a task.
pub data ManagerStep : Type 0 where
  start_of stop_of : ℕ → ManagerStep
  ends : ℕ → TaskEnd → ManagerStep

unfoldable pub manager_step : BatchExecutorManager → ManagerStep → BatchExecutorManager
manager_step g (start_of slot_idx) = (start_batch_test slot_idx g).1
manager_step g (stop_of slot_idx) = (stop_batch_test slot_idx g).1
manager_step g (ends task how) = record g { ended = put g.ended task how }

unfoldable pub run_manager : BatchExecutorManager → List ManagerStep → BatchExecutorManager
run_manager g [] = g
run_manager g (s ∷ ss) = run_manager (manager_step g s) ss
