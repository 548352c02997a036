-- ===== src/Services/World/Steps.antt =====
-- The single steps of an execution: triggers, and pauses in which no other task runs.
use aio_ss_usb_test_agent.Prelude.{ℕ, ◌≡◌, Bool, Option, none, some, String, List, [], arith}
use aio_ss_usb_test_agent.Domain.State.{SlotState, SlotEvent}
use aio_ss_usb_test_agent.Domain.Context.{Field}
use aio_ss_usb_test_agent.Domain.Transitions.{edge, next_state-eq-edge}
use aio_ss_usb_test_agent.Domain.Machine.{move_to, can_transition}
use aio_ss_usb_test_agent.Domain.Machine.Moves.{trigger_moved, trigger_invalid}
use aio_ss_usb_test_agent.Services.World.{
  World, Pause, ok, raised, invalid_transition, fire, fire_if_possible, pause, interfere,
  is_cancel_requested,
}

module _ (e : SlotEvent) (fs : List Field) (msg : Option String) (w : World) where
  pub fire_moved :
      (t : SlotState)
      → edge w.machine.state e ≡ some t
      → fire e fs msg w ≡ (ok tt, record w { machine = move_to t e fs msg w.clock w.machine })
  unfolding fire
  fire_moved t h = rw (trigger_moved e fs msg w.clock w.machine t h)

  pub fire_invalid :
      edge w.machine.state e ≡ none
      → fire e fs msg w ≡ (raised (invalid_transition w.machine.state e w.machine.slot_idx), w)
  unfolding fire
  fire_invalid h = rw (trigger_invalid e fs msg w.clock w.machine h)

  pub fire_if_moved :
      (t : SlotState)
      → edge w.machine.state e ≡ some t
      → fire_if_possible e fs msg w
        ≡ (ok tt, record w { machine = move_to t e fs msg w.clock w.machine })
  unfolding fire_if_possible can_transition
  fire_if_moved t h = ground (arith, next_state-eq-edge w.machine.state e, fire_moved t h)

  pub fire_if_skipped : edge w.machine.state e ≡ none → fire_if_possible e fs msg w ≡ (ok tt, w)
  unfolding fire_if_possible can_transition
  fire_if_skipped h = ground (arith, next_state-eq-edge w.machine.state e)

-- No other task runs in the pause.
abbrev pub IsQuiet : Pause → Type 0
IsQuiet p = p.meanwhile ≡ []

pub pause_quiet : (p : Pause) (w : World) → IsQuiet p → pause p w ≡ record w { clock = p.clock }
unfolding pause interfere
pause_quiet p w h = rw h

-- A cancellation is asked for or not by the flags alone.
pub cancel_same :
    (slot_idx : ℕ) (u v : World) (b : Bool)
    → v.cancel_requested ≡ u.cancel_requested
    → is_cancel_requested slot_idx u ≡ b
    → is_cancel_requested slot_idx v ≡ b
unfolding is_cancel_requested
cancel_same slot_idx u v b e h = rw (e, is_cancel_requested) h
