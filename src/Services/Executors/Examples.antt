-- ===== src/Services/Executors/Examples.antt =====
-- A slot that is started twice, ends, and is started again.
use aio_ss_usb_test_agent.Prelude.{◌≡◌, refl, false, List, [], ◌∷◌}
use aio_ss_usb_test_agent.Prelude.Dict.{get, put}
use aio_ss_usb_test_agent.Services.Executors.{
  BatchExecutorManager, TaskEnd, ManagerStep, start_of, stop_of, ends, new_executors, run_manager,
  StartAnswer, start_batch_test, start_with, get_or_create_executor, create_task, stop_batch_test,
  is_batch_running, manager_step,
}
use aio_ss_usb_test_agent.Services.Executors.Tracking.{IsTracked, run_manager-IsTracked}

abbrev started : BatchExecutorManager
started = new_executors ((0, tt) ∷ [])

abbrev steps : List ManagerStep
steps = start_of 0 ∷ start_of 0 ∷ stop_of 0 ∷ ends 0 (TaskEnd.returned false) ∷ start_of 0 ∷ []

two_tasks : (run_manager started steps).created ≡ (0, 1) ∷ (0, 0) ∷ []
unfolding run_manager manager_step start_batch_test start_with get_or_create_executor create_task
    stop_batch_test is_batch_running new_executors get put
two_tasks = refl

no_machine : (start_batch_test 3 started).0 ≡ StartAnswer.value_error
unfolding start_batch_test start_with get_or_create_executor is_batch_running new_executors get
no_machine = refl

run_manager-IsTracked_example : IsTracked (run_manager started steps)
run_manager-IsTracked_example = run_manager-IsTracked ((0, tt) ∷ []) steps
