-- ===== src/Agent/Commands.antt =====
-- main.py: the backend's commands to start and to stop a test, as the agent takes them: it answers at
-- once and gives a task to the slot's worker. The controller, the slot manager and the worker pool
-- are there, as they are after the agent's `start`.
pub mod Stopping
pub mod Starting
pub mod Configuring
pub mod Batches
mod Examples
use aio_ss_usb_test_agent.Prelude.{ℕ, Bool, true, false, Option, none, some, String, List}
use aio_ss_usb_test_agent.Domain.State.{SlotState}
use aio_ss_usb_test_agent.Domain.Manager.{get_slot}
use aio_ss_usb_test_agent.Domain.Config.Validation.{Problem}
use aio_ss_usb_test_agent.Services.WorkerPool.{WorkerPool, WorkerPriority, Enqueued, enqueue_slot}
use aio_ss_usb_test_agent.Agent.{Agent, Message, Status, queue}
use aio_ss_usb_test_agent.Agent.Task.{Raised}

-- The texts that Python formats: f"Invalid slot index {slot_idx}", f"Slot {slot_idx} is busy (...)",
-- str(e), and "; ".join(validation_errors).
pub record Texts : Type 0 where
  pub invalid_slot : ℕ → String
  pub busy : ℕ → SlotState → String
  pub of_raised : Raised → String
  pub of_problems : List Problem → String

abbrev pub tell_error : ℕ → String → Agent → Agent
tell_error slot_idx text a = queue (Message.status_update slot_idx Status.error (some text) none) a

abbrev pub tell : ℕ → Status → Agent → Agent
tell slot_idx status a = queue (Message.status_update slot_idx status none none) a

-- Whether `_schedule_slot_task` returns True.
abbrev is_accepted : Enqueued → Bool
is_accepted Enqueued.accepted = true
is_accepted _ = false

abbrev tell_if_refused : Bool → ℕ → String → Agent → Agent
tell_if_refused true slot_idx text a = a
tell_if_refused false slot_idx text a = tell_error slot_idx text a

-- What `_handle_start_test` and `_handle_stop_test` have in common: `name`, `status` and `priority`
-- of the task, and the text for a full queue.
take_command :
    Texts
    → String
    → Status
    → WorkerPriority
    → String
    → Option ℕ
    → Agent
    → WorkerPool
    → Agent × WorkerPool
take_command texts name status priority full none a p = (a, p)
take_command texts name status priority full (some slot_idx) a p =
    elim (get_slot a.slots slot_idx) [
      | none ↦ (tell_error slot_idx (texts.invalid_slot slot_idx) a, p)
      | some m ↦
          let (answer, p') = enqueue_slot slot_idx name priority true p in
          (tell_if_refused (is_accepted answer) slot_idx full (tell slot_idx status a), p')
    ]

unfoldable pub handle_start_test : Texts → Option ℕ → Agent → WorkerPool → Agent × WorkerPool
unfolding take_command
handle_start_test texts =
    take_command texts "start_test" Status.queued WorkerPriority.high "start_test queue is full"

unfoldable pub handle_stop_test : Texts → Option ℕ → Agent → WorkerPool → Agent × WorkerPool
unfolding take_command
handle_stop_test texts =
    take_command texts "stop_test" Status.stopping WorkerPriority.immediate
      "stop_test queue is full"
