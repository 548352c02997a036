-- ===== src/Agent/Task/Firing.antt =====
-- A trigger of a task's slot.
use aio_ss_usb_test_agent.Prelude.{
  ℕ, ◌≡◌, refl, ◌∙◌, true, false, Option, none, some, is_some, String, List, [], arith,
}
use aio_ss_usb_test_agent.Prelude.Dict.{nat_eq}
use aio_ss_usb_test_agent.Domain.State.{SlotState, SlotEvent, slot_state_eq}
use aio_ss_usb_test_agent.Domain.Transitions.{edge, next_state-eq-edge}
use aio_ss_usb_test_agent.Domain.Context.{Field, Time}
use aio_ss_usb_test_agent.Domain.Machine.{SlotStateMachine, moved, can_transition, move_to, notices}
use aio_ss_usb_test_agent.Domain.Machine.Moves.{trigger_invalid, trigger_moved}
use aio_ss_usb_test_agent.Domain.Manager.{get_slot}
use aio_ss_usb_test_agent.Agent.{settle_slot}
use aio_ss_usb_test_agent.Agent.Task.{
  Task, ok, raised, fire, fired, fire_if_possible, invalid_transition,
}
use aio_ss_usb_test_agent.Agent.Task.Slots.{get_slot-settle_slot}

pub can_transition-edge :
    (m : SlotStateMachine) (e : SlotEvent) → can_transition m e ≡ is_some (edge m.state e)
unfolding can_transition
can_transition-edge m e = ground (arith, next_state-eq-edge m.state e)

move_to_state :
    (s : SlotState) (e : SlotEvent) (fs : List Field) (msg : Option String) (now : Time)
    (m : SlotStateMachine)
    → (move_to s e fs msg now m).state ≡ s
unfolding move_to
move_to_state s e fs msg now m = refl

-- What the agent's slot i is.
abbrev pub Shows : ℕ → SlotState → Task → Type 0
Shows i s t = (m : SlotStateMachine) × (get_slot t.agent.slots i ≡ some m) × (m.state ≡ s)

module _ (i : ℕ) (m : SlotStateMachine) (t : Task) (there : get_slot t.agent.slots i ≡ some m)
    (e : SlotEvent) (fs : List Field) (msg : Option String) where
  pub fire_moved :
      (s : SlotState)
      → edge m.state e ≡ some s
      → (t' : Task) × (fire i e fs msg t ≡ (ok tt, t')) × Shows i s t'
  unfolding fire fired
  fire_moved s step =
      let m' = move_to s e fs msg t.clock m in
      let ns = notices s m in
      let a' = settle_slot i (moved m' ns) t.agent in
      (
        record t { agent = a' },
        rw (there, fire, trigger_moved e fs msg t.clock m s step),
        (
          m',
          get_slot-settle_slot i i m' ns t.agent ∙ ground arith,
          move_to_state s e fs msg t.clock m,
        ),
      )

  pub fire_invalid :
      edge m.state e ≡ none
      → fire i e fs msg t ≡ (raised (invalid_transition m.state e m.slot_idx), t)
  unfolding fire fired
  fire_invalid stuck = rw (there, fire, trigger_invalid e fs msg t.clock m stuck)

  pub fire_if_possible_yes :
      can_transition m e ≡ true → fire_if_possible i e msg t ≡ fire i e [] msg t
  unfolding fire_if_possible
  fire_if_possible_yes c = rw (there, fire_if_possible, c)

  pub fire_if_possible_no : can_transition m e ≡ false → fire_if_possible i e msg t ≡ (ok tt, t)
  unfolding fire_if_possible
  fire_if_possible_no c = rw (there, fire_if_possible, c)
