-- ===== src/Agent/Commands/Stopping/Leaving.antt =====
-- How the task that stops a test leaves its slot.
use aio_ss_usb_test_agent.Prelude.{
  ℕ, ◌≡◌, ◌≢◌, refl, ◌∙◌, sym, ap, Bool, true, false, Option, none, some, is_some, String, [],
  arith, Option-cases, inl, inr,
}
use aio_ss_usb_test_agent.Domain.State.{SlotState, SlotEvent, SlotState-discrete, slot_state_eq}
use aio_ss_usb_test_agent.Domain.Transitions.{edge}
use aio_ss_usb_test_agent.Domain.Machine.{SlotStateMachine, can_transition, force_state}
use aio_ss_usb_test_agent.Domain.Manager.{get_slot}
use aio_ss_usb_test_agent.Agent.{Agent}
use aio_ss_usb_test_agent.Agent.Commands.{Texts}
use aio_ss_usb_test_agent.Agent.Commands.Stopping.{
  tell_stopped, await_stop, execute_stop_test, stop_body, catch_stop, conclude_stop, stop_failed,
}
use aio_ss_usb_test_agent.Agent.Task.{
  Task, Pause, Answer, Raised, ok, fire_if_possible, force, await_answer, pause, happen_all,
  controller_error,
}
use aio_ss_usb_test_agent.Agent.Task.Slots.{has, has-happen_all, get_slot-set_slot}
use aio_ss_usb_test_agent.Agent.Task.Firing.{
  can_transition-edge, fire_moved, fire_if_possible_yes, fire_if_possible_no,
}

-- Slot i is there, and not in STOPPING.
abbrev pub Left : ℕ → Task → Type 0
Left i t =
    (m : SlotStateMachine) × (get_slot t.agent.slots i ≡ some m) × (m.state ≢ SlotState.stopping)

-- An event that STOPPING accepts, and that does not lead to it.
record Leads (e : SlotEvent) : Type 0 where
  accepted : is_some (edge SlotState.stopping e) ≡ true
  away : (s u : SlotState) → edge s e ≡ some u → u ≢ SlotState.stopping

stopped-Leads : Leads SlotEvent.stopped
unfolding edge SlotState-discrete
stopped-Leads = record { accepted = refl; away = λ s u h. ground (arith, h) }

error-Leads : Leads SlotEvent.error
unfolding edge SlotState-discrete
error-Leads = record { accepted = refl; away = λ s u h. ground (arith, h) }

module _ (i : ℕ) (e : SlotEvent) (l : Leads e) (msg : Option String) (t : Task) where
  fire_if_possible-Left :
      (m : SlotStateMachine)
      → get_slot t.agent.slots i ≡ some m
      → (t' : Task) × (fire_if_possible i e msg t ≡ (ok tt, t')) × Left i t'
  fire_if_possible-Left m there = elim (Option-cases (edge m.state e)) [
    | inl stuck ↦ (
      t,
      fire_if_possible_no i m t there e [] msg (can_transition-edge m e ∙ ap is_some stuck),
      (m, there, λ s. ground (arith, l.accepted, s, stuck)),
    )
    | inr (u, step) ↦
        let (t', same, shown) = fire_moved i m t there e [] msg u step in
        let (m', there', state) = shown in
        (
          t',
          fire_if_possible_yes i m t there e [] msg (can_transition-edge m e ∙ ap is_some step)
              ∙ same,
          (m', there', λ s. l.away m.state u step (sym state ∙ s)),
        )
  ]

slot_of :
    (i : ℕ) (a : Agent) → has i a ≡ true → (m : SlotStateMachine) × (get_slot a.slots i ≡ some m)
slot_of i a h = elim (Option-cases (get_slot a.slots i)) [
  | inl gone ↦ ground (arith, h, gone)
  | inr there ↦ there
]

module _ (texts : Texts) (i : ℕ) where
  conclude_stop-Left :
      (b : Bool) (t : Task) (m : SlotStateMachine)
      → get_slot t.agent.slots i ≡ some m
      → (t' : Task) × (conclude_stop i b t ≡ (ok tt, t')) × Left i t'
  unfolding conclude_stop
  conclude_stop-Left true t m there =
      let (t', same, left) =
        fire_if_possible-Left i SlotEvent.stopped stopped-Leads none t m there in
      (record t' { agent = tell_stopped i t'.agent }, rw same, left)
  conclude_stop-Left false t m there =
      fire_if_possible-Left i SlotEvent.error error-Leads _ t m there

  force-Left :
      (t : Task) (m : SlotStateMachine)
      → get_slot t.agent.slots i ≡ some m
      → Left i (force i SlotState.error t)
  unfolding force force_state SlotState-discrete
  force-Left t m there =
      rw (there, force)
        (
          force_state SlotState.error t.clock m,
          get_slot-set_slot i i (force_state SlotState.error t.clock m) t.agent ∙ ground arith,
          ground arith,
        )

  stop_failed-Left :
      (r : Raised) (t : Task) (m : SlotStateMachine)
      → get_slot t.agent.slots i ≡ some m
      → Left i (stop_failed texts i r t)
  unfolding stop_failed
  stop_failed-Left r t m there = elim (Option-cases (edge m.state SlotEvent.error)) [
    | inl stuck ↦
        rw (there, stop_failed, can_transition-edge m SlotEvent.error, stuck) (force-Left t m there)
    | inr (u, step) ↦
        let (t', same, shown) =
          fire_moved i m t there SlotEvent.error [] (some (texts.of_raised r)) u step in
        let (m', there', state) = shown in
        rw (there, stop_failed, can_transition-edge m SlotEvent.error, step, same)
          (m', there', λ s. error-Leads.away m.state u step (sym state ∙ s))
  ]

  await_stop-Left :
      (p : Pause) (answer : Answer) (t : Task) (m : SlotStateMachine)
      → get_slot t.agent.slots i ≡ some m
      → Left i (catch_stop texts i (await_stop i p answer t).0 (await_stop i p answer t).1)
  unfolding await_stop await_answer catch_stop pause
  await_stop-Left p (Answer.returns b) t m there =
      let t₁ : Task = record { agent = happen_all p.meanwhile t.agent; clock = p.clock } in
      let (m₁, there₁) =
        slot_of i t₁.agent (has-happen_all i p.meanwhile t.agent (ap is_some there)) in
      let (t₂, same, left) = conclude_stop-Left b t₁ m₁ there₁ in rw same left
  await_stop-Left p Answer.raises t m there =
      let t₁ : Task = record { agent = happen_all p.meanwhile t.agent; clock = p.clock } in
      let (m₁, there₁) =
        slot_of i t₁.agent (has-happen_all i p.meanwhile t.agent (ap is_some there)) in
      stop_failed-Left controller_error t₁ m₁ there₁

  -- A slot that can be stopped is not left in STOPPING, whatever the controller answers to the call,
  -- be it an exception, and whatever happens in the agent until then.
  pub execute_stop_test-Left :
      (p : Pause) (answer : Answer) (t : Task) (m : SlotStateMachine)
      → get_slot t.agent.slots i ≡ some m
      → can_transition m SlotEvent.stop ≡ true
      → Left i (execute_stop_test texts i p answer t)
  unfolding execute_stop_test stop_body
  execute_stop_test-Left p answer t m there can =
      elim (Option-cases (edge m.state SlotEvent.stop)) [
        | inl stuck ↦ ground (arith, can, can_transition-edge m SlotEvent.stop, stuck)
        | inr (u, step) ↦
            let (t₁, same, shown) = fire_moved i m t there SlotEvent.stop [] none u step in
            let (m₁, there₁, state) = shown in
            rw (there, execute_stop_test, can, same) (await_stop-Left p answer t₁ m₁ there₁)
      ]
