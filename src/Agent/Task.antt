-- ===== src/Agent/Task.antt =====
-- main.py: what the tasks of a slot's worker share, and what happens in the agent while one awaits.
--
-- `slot_machine` is an object of the slot manager, which keeps its objects: a task finds it in the
-- agent each time.
pub mod Slots
pub mod Spared
pub mod Ended
pub mod Firing
use aio_ss_usb_test_agent.Prelude.{
  ℕ, ◌==◌, if◌then◌else◌, Bool, true, false, Option, none, some, String, List, [], ◌∷◌,
}
use aio_ss_usb_test_agent.Prelude.Dict.{put, pop, beq, nat_eq}
use aio_ss_usb_test_agent.Domain.Enums.{ProcessState}
use aio_ss_usb_test_agent.Domain.State.{SlotState, SlotEvent, slot_state_eq}
use aio_ss_usb_test_agent.Domain.Context.{Field, Time}
use aio_ss_usb_test_agent.Domain.Machine.{
  SlotStateMachine, Outcome, invalid, moved, trigger, force_state, can_transition,
}
use aio_ss_usb_test_agent.Domain.Manager.{get_slot}
use aio_ss_usb_test_agent.Domain.Config.Codec.{Failure}
use aio_ss_usb_test_agent.Services.UiState.{MfcUiState}
use aio_ss_usb_test_agent.Agent.{
  Agent, Message, ProcessTerminationEvent, queue, settle_slot, on_mfc_ui_polled,
  on_mfc_test_completed, remove_monitored_slot,
}

-- The agent in which the machine of a slot has been replaced.
abbrev pub set_slot : ℕ → SlotStateMachine → Agent → Agent
set_slot slot_idx m a = record a {
  slots = record (a.slots) { machines = put (a.slots).machines slot_idx m };
}

-- The trigger of RUNNING's machine, and force_state if it is invalid.
unfoldable pub fail_terminated : ℕ → SlotStateMachine → String → Time → Outcome → Agent → Agent
fail_terminated slot_idx m text now (invalid s e i) a =
    set_slot slot_idx (force_state SlotState.error now m) a
fail_terminated slot_idx m text now (moved m' ns) a = settle_slot slot_idx (moved m' ns) a

unfoldable pub terminate_slot : ℕ → Option SlotStateMachine → String → Time → Agent → Agent
unfolding fail_terminated
terminate_slot slot_idx none text now a = a
terminate_slot slot_idx (some m) text now a =
    if beq m.state SlotState.running
    then fail_terminated slot_idx m text now (trigger SlotEvent.error [] (some text) now m) a
    else a

-- `_on_process_terminated` after the controller has disconnected the slot; `text` is `error_msg`.
unfoldable pub after_disconnect : ProcessTerminationEvent → String → Time → Agent → Agent
unfolding terminate_slot
after_disconnect event text now a =
    let ended = terminate_slot event.slot_idx (get_slot a.slots event.slot_idx) text now a in
    remove_monitored_slot event.slot_idx (queue (Message.process_terminated event) ended)

-- What happens in the agent while a task awaits: the callbacks of the monitors, a trigger by another
-- task, and what the controller learns of the processes.
pub data Event : Type 0 where
  polled : MfcUiState → Event
  completed : ℕ → ProcessState → Time → Event
  terminated : ProcessTerminationEvent → String → Time → Event
  triggered : ℕ → SlotEvent → List Field → Option String → Time → Event
  pid_known : ℕ → ℕ → Event
  pid_forgotten : ℕ → Event

unfoldable pub trigger_meanwhile : ℕ → SlotEvent → List Field → Option String → Time → Agent → Agent
trigger_meanwhile slot_idx event fields message now a = elim (get_slot a.slots slot_idx) [
  | none ↦ a
  | some m ↦ settle_slot slot_idx (trigger event fields message now m) a
]

unfoldable pub happen : Event → Agent → Agent
happen (polled s) a = on_mfc_ui_polled s a
happen (completed slot_idx final_state now) a = on_mfc_test_completed slot_idx final_state now a
happen (terminated event text now) a = after_disconnect event text now a
happen (triggered slot_idx event fields message now) a =
    trigger_meanwhile slot_idx event fields message now a
happen (pid_known slot_idx pid) a = record a { pids = put a.pids slot_idx pid }
happen (pid_forgotten slot_idx) a = record a { pids = pop a.pids slot_idx }

unfoldable pub happen_all : List Event → Agent → Agent
happen_all [] a = a
happen_all (e ∷ es) a = happen_all es (happen e a)

-- `_on_process_terminated`: the await of `disconnect_slot` forgets the process and lets other tasks
-- run.
unfoldable pub on_process_terminated :
    ProcessTerminationEvent → String → List Event → Time → Agent → Agent
on_process_terminated event text meanwhile now a =
    after_disconnect event text now
      (happen_all meanwhile (record a { pids = pop a.pids event.slot_idx }))

pub record Pause : Type 0 where
  pub meanwhile : List Event
  pub clock : Time

-- The state of a task: the agent, and the clock.
pub record Task : Type 0 where
  pub agent : Agent
  pub clock : Time

-- What ends the body of a task by an exception.
pub data Raised : Type 0 where
  invalid_transition : SlotState → SlotEvent → ℕ → Raised
  key_error controller_error : Raised
  bad_config : Failure → Raised

pub data Result {ℓ} (A : Type ℓ) : Type ℓ where
  ok : A → Result A
  raised : Raised → Result A

abbrev pub Exec {ℓ} : Type ℓ → Type ℓ
Exec A = Task → Result A × Task

abbrev pub pure {ℓ} : {A : Type ℓ} → A → Exec A
pure a t = (ok a, t)

module _ {ℓ κ} {A : Type ℓ} {B : Type κ} where
  abbrev continue : Result A → (A → Task → Result B × Task) → Task → Result B × Task
  continue (ok a) f t = f a t
  continue (raised r) f t = (raised r, t)

infixl 5 ◌>>=◌ ◌>>◌
abbrev pub ◌>>=◌ {ℓ κ} : {A : Type ℓ} {B : Type κ} → Exec A → (A → Exec B) → Task → Result B × Task
◌>>=◌ m f t = let (r, t') = m t in continue r f t'

abbrev pub ◌>>◌ {ℓ} : {B : Type ℓ} → Exec (Unit {0}) → Exec B → Task → Result B × Task
◌>>◌ m k t = let (r, t') = m t in continue r (λ _. k) t'

abbrev pub modify : (Agent → Agent) → Exec (Unit {0})
modify f t = (ok tt, record t { agent = f t.agent })

unfoldable pub pause : Pause → Exec (Unit {0})
pause p t = (ok tt, record { agent = happen_all p.meanwhile t.agent; clock = p.clock })

-- How a call of the controller ends: it returns, or raises.
pub data Answer : Type 0 where
  returns : Bool → Answer
  raises : Answer

unfoldable pub await_answer : Pause → Answer → Exec Bool
unfolding pause
await_answer p (returns b) t = (ok b, (pause p t).1)
await_answer p raises t = (raised controller_error, (pause p t).1)

fired : ℕ → Outcome → Exec (Unit {0})
fired slot_idx (invalid s e i) t = (raised (invalid_transition s e i), t)
fired slot_idx (moved m ns) t =
    (ok tt, record t { agent = settle_slot slot_idx (moved m ns) t.agent })

-- slot_machine.trigger(...)
unfoldable pub fire : ℕ → SlotEvent → List Field → Option String → Exec (Unit {0})
unfolding fired
fire slot_idx event fields message t = elim (get_slot t.agent.slots slot_idx) [
  | none ↦ (raised key_error, t)
  | some m ↦ fired slot_idx (trigger event fields message t.clock m) t
]

-- if slot_machine.can_transition(event): slot_machine.trigger(...)
unfoldable pub fire_if_possible : ℕ → SlotEvent → Option String → Exec (Unit {0})
fire_if_possible slot_idx event message t = elim (get_slot t.agent.slots slot_idx) [
  | none ↦ (raised key_error, t)
  | some m ↦ if can_transition m event then fire slot_idx event [] message t else (ok tt, t)
]

-- slot_machine.force_state(...)
unfoldable pub force : ℕ → SlotState → Task → Task
force slot_idx state t = elim (get_slot t.agent.slots slot_idx) [
  | none ↦ t
  | some m ↦ record t { agent = set_slot slot_idx (force_state state t.clock m) t.agent }
]
