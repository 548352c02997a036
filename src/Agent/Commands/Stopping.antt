-- ===== src/Agent/Commands/Stopping.antt =====
-- main.py: the task that stops a slot's test, `_execute_stop_test`.
pub mod Leaving
use aio_ss_usb_test_agent.Prelude.{
  ℕ, ◌≡◌, ◌≢◌, refl, if◌then◌else◌, Bool, true, false, Option, none, some, String, List, [], ◌∷◌,
  arith,
}
use aio_ss_usb_test_agent.Domain.State.{SlotState, SlotEvent}
use aio_ss_usb_test_agent.Domain.Machine.{SlotStateMachine, can_transition}
use aio_ss_usb_test_agent.Domain.Manager.{get_slot}
use aio_ss_usb_test_agent.Agent.{Agent, Message, Status, queue}
use aio_ss_usb_test_agent.Agent.Commands.{Texts, tell_error}
use aio_ss_usb_test_agent.Agent.Task.{
  Task, Exec, Result, Raised, ok, raised, Pause, Answer, pure, modify, ◌>>=◌, ◌>>◌, await_answer,
  fire, fire_if_possible, force, invalid_transition,
}

abbrev pub tell_stopped : ℕ → Agent → Agent
tell_stopped slot_idx a =
    queue (Message.status_update slot_idx Status.stopped (some "Test stopped by user") none) a

-- if success: ... else: ...
unfoldable pub conclude_stop : ℕ → Bool → Exec (Unit {0})
conclude_stop slot_idx true = do
  fire_if_possible slot_idx SlotEvent.stopped none
  modify (tell_stopped slot_idx)
conclude_stop slot_idx false = fire_if_possible slot_idx SlotEvent.error (some "테스트 중지에 실패했습니다.")

-- The call of the controller's `stop_test`: what happens until it answers, and the answer.
unfoldable pub await_stop : ℕ → Pause → Answer → Exec (Unit {0})
await_stop slot_idx p answer = do success ← await_answer p answer; conclude_stop slot_idx success

-- The body of the `try`.
unfoldable pub stop_body : ℕ → Pause → Answer → Exec (Unit {0})
stop_body slot_idx p answer = do fire slot_idx SlotEvent.stop [] none; await_stop slot_idx p answer

-- except Exception as e
unfoldable pub stop_failed : Texts → ℕ → Raised → Task → Task
stop_failed texts slot_idx r t = elim (get_slot t.agent.slots slot_idx) [
  | none ↦ t
  | some m ↦
      if can_transition m SlotEvent.error
      then (fire slot_idx SlotEvent.error [] (some (texts.of_raised r)) t).1
      else force slot_idx SlotState.error t
]

-- The two `except` clauses.
unfoldable pub catch_stop : Texts → ℕ → Result (Unit {0}) → Task → Task
catch_stop texts slot_idx (ok _) t = t
catch_stop texts slot_idx (raised (invalid_transition s e i)) t = t
catch_stop texts slot_idx (raised r) t = stop_failed texts slot_idx r t

unfoldable pub execute_stop_test : Texts → ℕ → Pause → Answer → Task → Task
execute_stop_test texts slot_idx p answer t = elim (get_slot t.agent.slots slot_idx) [
  | none ↦ t
  | some m ↦
      if can_transition m SlotEvent.stop
      then (let (r, t') = stop_body slot_idx p answer t in catch_stop texts slot_idx r t')
      else record t { agent = tell_error slot_idx "Cannot stop test in current state" t.agent }
]
