-- ===== src/Services/World.antt =====
-- services/batch_executor.py: what a `BatchExecutor` and the other tasks of the agent share while it
-- runs for one slot, and the executor's steps on it.
--
-- The executor awaits often, and at each await other tasks may run: a `Pause` says what they do
-- there, in order, and what the clock says when the executor goes on.
pub mod Steps
pub mod Ends
use aio_ss_usb_test_agent.Prelude.{
  ℕ, ◌==◌, if◌then◌else◌, Bool, true, false, Option, none, some, String, List, [], ◌∷◌, ◌++◌,
}
use aio_ss_usb_test_agent.Prelude.Dict
use aio_ss_usb_test_agent.Prelude.Dict.{Dict, nat_eq}
use aio_ss_usb_test_agent.Domain.State.{SlotState, SlotEvent}
use aio_ss_usb_test_agent.Domain.Context.{SlotContext, Field, Time, assign}
use aio_ss_usb_test_agent.Domain.Machine.{
  SlotStateMachine, Call, Outcome, invalid, moved, trigger, call, can_transition,
}
use aio_ss_usb_test_agent.Domain.Config.{TestConfig}

-- `progress_percent` is the float percent_num / percent_den.
pub record BatchProgress : Type 0 where
  pub slot_idx : ℕ
  pub current_batch : ℕ
  pub total_batch : ℕ
  pub current_loop : ℕ
  pub total_loop : ℕ
  pub loop_step : ℕ
  pub percent_num : ℕ
  pub percent_den : ℕ
  pub started_at : Option Time

-- A call of the controller.
pub data Command : Type 0 where
  start_test : TestConfig → Command
  continue_batch : Command

-- What another task does while the executor waits.
pub data Interference : Type 0 where
  cancels : ℕ → Interference
  calls : Call → Interference

pub record Pause : Type 0 where
  pub meanwhile : List Interference
  pub clock : Time

-- `local` is the object that the executor's variable `context` names, and `local_ref` its identity:
-- it is the machine's context as long as `local_ref` is the machine's `context_ref`.
-- `progress` and `commands` are the calls of the callback and of the controller so far.
pub record World : Type 0 where
  pub machine : SlotStateMachine
  pub cancel_requested : Dict ℕ Bool
  pub local : SlotContext
  pub local_ref : ℕ
  pub clock : Time
  pub progress : List BatchProgress
  pub commands : List Command

unfoldable pub request_cancel : ℕ → World → World
request_cancel slot_idx w = record w {
  cancel_requested = Dict.put w.cancel_requested slot_idx true;
}

unfoldable pub is_cancel_requested : ℕ → World → Bool
is_cancel_requested slot_idx w = elim (Dict.get w.cancel_requested slot_idx) [
  | none ↦ false
  | some b ↦ b
]

unfoldable pub clear_cancel : ℕ → World → World
clear_cancel slot_idx w = record w { cancel_requested = Dict.pop w.cancel_requested slot_idx }

unfoldable pub interfere : List Interference → World → World
interfere [] w = w
interfere (cancels slot_idx ∷ rest) w = interfere rest (request_cancel slot_idx w)
interfere (calls c ∷ rest) w = interfere rest (record w { machine = call w.machine c })

unfoldable pub pause : Pause → World → World
pause p w = record (interfere p.meanwhile w) { clock = p.clock }

-- context = self._state_machine.context
unfoldable pub grab_context : World → World
grab_context w = record w { local = w.machine.context; local_ref = w.machine.context_ref }

-- context.field = value: the machine sees it if `context` still names the machine's object.
unfoldable pub set_local : Field → World → World
set_local f w =
    let written = record w { local = assign w.local f } in
    if w.local_ref == w.machine.context_ref
    then record written { machine = record (w.machine) { context = assign w.local f } }
    else written

-- What ends an execution by an exception.
pub data Raised : Type 0 where
  invalid_transition : SlotState → SlotEvent → ℕ → Raised
  zero_division controller_error : Raised

-- `stuck`: the script of the environment has ended, and the execution has not.
pub data Result {ℓ} (A : Type ℓ) : Type ℓ where
  ok : A → Result A
  raised : Raised → Result A
  stuck : Result A

abbrev pub Exec {ℓ} : Type ℓ → Type ℓ
Exec A = World → Result A × World

module _ {ℓ} {A : Type ℓ} where
  abbrev pub pure : A → Exec A
  pure a w = (ok a, w)

  abbrev pub raise : Raised → Exec A
  raise r w = (raised r, w)

module _ {ℓ κ} {A : Type ℓ} {B : Type κ} where
  abbrev continue : Result A → (A → World → Result B × World) → World → Result B × World
  continue (ok a) f w = f a w
  continue (raised r) f w = (raised r, w)
  continue stuck f w = (stuck, w)

abbrev pub modify : (World → World) → Exec (Unit {0})
modify f w = (ok tt, f w)

infixl 5 ◌>>=◌ ◌>>◌
abbrev pub ◌>>=◌ {ℓ κ} :
    {A : Type ℓ} {B : Type κ} → Exec A → (A → Exec B) → World → Result B × World
◌>>=◌ m f w = let (r, w') = m w in continue r f w'

abbrev pub ◌>>◌ {ℓ} : {B : Type ℓ} → Exec (Unit {0}) → Exec B → World → Result B × World
◌>>◌ m k w = let (r, w') = m w in continue r (λ _. k) w'

settle : Outcome → World → Result (Unit {0}) × World
settle (invalid s e i) w = (raised (invalid_transition s e i), w)
settle (moved m ns) w = (ok tt, record w { machine = m })

-- self._state_machine.trigger(...)
unfoldable pub fire : SlotEvent → List Field → Option String → Exec (Unit {0})
unfolding settle
fire event fields message w = settle (trigger event fields message w.clock w.machine) w

-- if self._state_machine.can_transition(event): self._state_machine.trigger(...)
unfoldable pub fire_if_possible : SlotEvent → List Field → Option String → Exec (Unit {0})
fire_if_possible event fields message w =
    if can_transition w.machine event then fire event fields message w else (ok tt, w)
