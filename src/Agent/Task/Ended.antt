-- ===== src/Agent/Task/Ended.antt =====
-- How the unexpected end of a process leaves its slot.
use aio_ss_usb_test_agent.Prelude.{
  ℕ, ◌≡◌, ◌≢◌, ◌∙◌, true, false, none, some, String, List, [], arith, Option-cases, Bool-cases, inl,
  inr,
}
use aio_ss_usb_test_agent.Prelude.Dict.{Dict, get, pop, get-pop, beq, nat_eq}
use aio_ss_usb_test_agent.Domain.State.{SlotState, SlotEvent, SlotState-discrete, slot_state_eq}
use aio_ss_usb_test_agent.Domain.Transitions.{edge}
use aio_ss_usb_test_agent.Domain.Context.{Time}
use aio_ss_usb_test_agent.Domain.Machine.{SlotStateMachine, move_to, notices}
use aio_ss_usb_test_agent.Domain.Machine.Moves.{trigger_moved}
use aio_ss_usb_test_agent.Domain.Manager.{get_slot}
use aio_ss_usb_test_agent.Agent.{Agent, ProcessTerminationEvent, remove_monitored_slot}
use aio_ss_usb_test_agent.Agent.Task.{
  Event, after_disconnect, terminate_slot, fail_terminated, on_process_terminated,
}
use aio_ss_usb_test_agent.Agent.Task.Slots.{has, has-happen_all, get_slot-settle_slot}

-- Slot i does not run, and the window monitor does not poll it.
abbrev pub IsQuit : ℕ → Agent → Type 0
IsQuit i a =
    (m : SlotStateMachine) × (get_slot a.slots i ≡ some m)
    × (m.state ≢ SlotState.running)
    × (get a.monitored_slots i ≡ none)

module _ (i : ℕ) (m : SlotStateMachine) (text : String) (now : Time) (a : Agent)
    (there : get_slot a.slots i ≡ some m) where
  abbrev failed : SlotStateMachine
  failed = move_to SlotState.error SlotEvent.error [] (some text) now m

  failed_state : failed.state ≢ SlotState.running
  unfolding move_to SlotState-discrete
  failed_state = ground arith

  running_fails :
      beq m.state SlotState.running ≡ true → edge m.state SlotEvent.error ≡ some SlotState.error
  unfolding edge
  running_fails r = rw ((slot_state_eq.beq_iff m.state SlotState.running).0 r)

  terminate-running :
      beq m.state SlotState.running ≡ true
      → get_slot (terminate_slot i (get_slot a.slots i) text now a).slots i ≡ some failed
  unfolding terminate_slot fail_terminated
  terminate-running r =
      rw
        (
          there,
          terminate_slot,
          r,
          trigger_moved SlotEvent.error [] (some text) now m SlotState.error (running_fails r),
        )
        (get_slot-settle_slot i i failed (notices SlotState.error m) a ∙ ground arith)

  terminate-other :
      beq m.state SlotState.running ≡ false → terminate_slot i (get_slot a.slots i) text now a ≡ a
  unfolding terminate_slot
  terminate-other r = rw (there, terminate_slot, r)

  terminated :
      (n : SlotStateMachine) × (get_slot (terminate_slot i (get_slot a.slots i) text now a).slots i
        ≡ some n)
      × (n.state ≢ SlotState.running)
  terminated = elim (Bool-cases (beq m.state SlotState.running)) [
    | inl r ↦ (failed, terminate-running r, failed_state)
    | inr r ↦ (
      m,
      rw (terminate-other r) there,
      λ s. ground (arith, slot_state_eq.beq_iff m.state SlotState.running, r, s),
    )
  ]

popped : (d : Dict ℕ (Unit {0})) (i : ℕ) → get (pop d i) i ≡ none
popped d i = ground (arith, get-pop d i i)

module _ (event : ProcessTerminationEvent) (text : String) (now : Time) where
  after_disconnect-IsQuit :
      (a : Agent)
      → has event.slot_idx a ≡ true
      → IsQuit event.slot_idx (after_disconnect event text now a)
  unfolding after_disconnect remove_monitored_slot
  after_disconnect-IsQuit a h = elim (Option-cases (get_slot a.slots event.slot_idx)) [
    | inl gone ↦ ground (arith, h, gone)
    | inr (m, there) ↦
        let (n, there', state) = terminated event.slot_idx m text now a there in
        (n, there', state, popped _ event.slot_idx)
  ]

  -- When the agent has dealt with the unexpected end of a slot's process, the slot is not RUNNING and
  -- the window monitor does not poll it, whatever else happened while the slot was disconnected.
  pub on_process_terminated-IsQuit :
      (meanwhile : List Event) (a : Agent)
      → has event.slot_idx a ≡ true
      → IsQuit event.slot_idx (on_process_terminated event text meanwhile now a)
  unfolding on_process_terminated
  on_process_terminated-IsQuit es a h =
      after_disconnect-IsQuit _
        (has-happen_all event.slot_idx es (record a { pids = pop a.pids event.slot_idx }) h)
