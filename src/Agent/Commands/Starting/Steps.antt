-- ===== src/Agent/Commands/Starting/Steps.antt =====
-- The steps of a start, from the validated configuration to the answer of the controller.
use aio_ss_usb_test_agent.Prelude.{
  ℕ, ◌≡◌, ◌≢◌, ◌<◌, refl, ◌∙◌, sym, ltb, Bool, true, false, Option, none, some, String, List, [],
  ◌∷◌, arith, Option-cases, Bool-cases, inl, inr, ◌⊎◌,
}
use aio_ss_usb_test_agent.Prelude.Dict.{beq}
use aio_ss_usb_test_agent.Domain.State.{SlotState, SlotEvent, SlotState-discrete, slot_state_eq}
use aio_ss_usb_test_agent.Domain.Context.{Field}
use aio_ss_usb_test_agent.Domain.Transitions.{edge}
use aio_ss_usb_test_agent.Domain.Machine.{SlotStateMachine, force_state}
use aio_ss_usb_test_agent.Domain.Config.{TestConfig}
use aio_ss_usb_test_agent.Domain.Config.Validation.{to_validate, Runnable}
use aio_ss_usb_test_agent.Agent.Commands.{Texts}
use aio_ss_usb_test_agent.Agent.Commands.Starting.{
  Script, Started, is_preparing, conclude_start, total_batch, await_start, run_config,
  configure_if_preparing, start_valid, fail_start, catch_start,
}
use aio_ss_usb_test_agent.Agent.Task.{
  Task, Result, Pause, Answer, Raised, ok, raised, fire, force, await_answer, pause,
  controller_error, happen_all,
}
use aio_ss_usb_test_agent.Agent.Task.Slots.{get_slot-set_slot}
use aio_ss_usb_test_agent.Agent.Task.Spared.{SparesAll, happen_all-spared}
use aio_ss_usb_test_agent.Agent.Task.Firing.{Shows, fire_moved, fire_invalid}

-- What a start can come to: the slot is RUNNING a single test, which can be run; or it is CONFIGURING
-- and a background task runs its batches, of which there are several; or it is in ERROR.
abbrev pub Settled : ℕ → Started × Task → Type 0
Settled i (Started.single c, t) = Shows i SlotState.running t × Runnable (to_validate c)
Settled i (Started.batches c, t) =
    Shows i SlotState.configuring t × Runnable (to_validate c) × (1 < total_batch c)
Settled i (Started.nothing, t) = Shows i SlotState.error t

error_to_error : (s u : SlotState) → edge s SlotEvent.error ≡ some u → u ≡ SlotState.error
unfolding edge
error_to_error s u h = ground (arith, h)

forced_state :
    (m : SlotStateMachine) (t : Task)
    → (force_state SlotState.error t.clock m).state ≡ SlotState.error
unfolding force_state
forced_state m t = refl

module _ (texts : Texts) (i : ℕ) where
  pub step :
      (s u : SlotState) (e : SlotEvent) (fs : List Field) (msg : Option String) (t : Task)
      → Shows i s t
      → edge s e ≡ some u
      → (t' : Task) × (fire i e fs msg t ≡ (ok tt, t')) × Shows i u t'
  step s u e fs msg t (m, there, state) h = fire_moved i m t there e fs msg u (rw state h)

  abbrev pub after_pause : Pause → Task → Task
  after_pause p t = record { agent = happen_all p.meanwhile t.agent; clock = p.clock }

  pub waits :
      (s : SlotState) (p : Pause) (t : Task)
      → s ≢ SlotState.running
      → SparesAll i p.meanwhile
      → Shows i s t
      → Shows i s (after_pause p t)
  waits s p t ne spared (m, there, state) =
      (m, happen_all-spared i m (λ r. ne (sym state ∙ r)) p.meanwhile t.agent spared there, state)

  abbrev pub Ends : Result Started × Task → Type 0
  Ends (r, t) = Settled i (catch_start texts i r t)

  -- An exception, whatever the state.
  pub fail_start_lem :
      (s : SlotState) (r : Raised) (t : Task)
      → Shows i s t
      → Shows i SlotState.error (fail_start texts i r t)
  unfolding fail_start force
  fail_start_lem s r t (m, there, state) = elim (Option-cases (edge m.state SlotEvent.error)) [
    | inl stuck ↦
        let forced = force_state SlotState.error t.clock m in
        rw
          (
            fire_invalid i m t there SlotEvent.error [] (some (texts.of_raised r)) stuck,
            fail_start,
            there,
            force,
          )
          (forced, get_slot-set_slot i i forced t.agent ∙ ground arith, forced_state m t)
    | inr (u, h) ↦
        let (t', same, shown) =
          fire_moved i m t there SlotEvent.error [] (some (texts.of_raised r)) u h in
        let (m', there', state') = shown in
        rw (same, fail_start, same) (m', there', state' ∙ error_to_error m.state u h)
  ]

  pub raised-Ends : (t : Task) → Shows i SlotState.configuring t → Ends (raised controller_error, t)
  unfolding catch_start
  raised-Ends t shown = fail_start_lem SlotState.configuring controller_error t shown

  is_preparing-Shows :
      (s : SlotState) (t : Task) → Shows i s t → is_preparing i t ≡ beq s SlotState.preparing
  unfolding is_preparing
  is_preparing-Shows s t (m, there, state) = rw (there, is_preparing, state)

  configured :
      (u : SlotState)
      → (u ≡ SlotState.preparing) ⊎ (u ≡ SlotState.configuring)
      → (t : Task) → Shows i u t
      → (t' : Task) × (configure_if_preparing i t ≡ (ok tt, t')) × Shows i SlotState.configuring t'
  unfolding configure_if_preparing edge SlotState-discrete
  configured u (inl e) t shown =
      let (t', same, shown') =
        step u SlotState.configuring SlotEvent.configure [] none t shown (rw e) in
      (t', rw (is_preparing-Shows u t shown, e) same, shown')
  configured u (inr e) t shown =
      let (m, there, state) = shown in
      (t, rw (is_preparing-Shows u t shown, e) refl, (m, there, state ∙ e))

  module _ (s : Script) (c : TestConfig) (runnable : Runnable (to_validate c))
      (sp : SparesAll i s.starting.meanwhile) where
    conclude-Ends :
        (b : Bool) (t : Task) → Shows i SlotState.configuring t → Ends (conclude_start i c b t)
    unfolding conclude_start catch_start edge
    conclude-Ends true t shown =
        let (t', same, shown') =
          step SlotState.configuring SlotState.running SlotEvent.run
            (Field.total_loop c.loop_count ∷ []) none t shown refl in
        rw same (shown', runnable)
    conclude-Ends false t shown =
        let (t', same, shown') =
          step SlotState.configuring SlotState.error SlotEvent.error [] (some "테스트 시작에 실패했습니다.") t
            shown refl in
        rw same shown'

    await_start-Ends :
        (answer : Answer) (t : Task)
        → Shows i SlotState.configuring t
        → Ends (await_start s i c answer t)
    unfolding await_start await_answer pause SlotState-discrete
    await_start-Ends (Answer.returns b) t shown =
        conclude-Ends b (after_pause s.starting t)
          (waits SlotState.configuring s.starting t (ground arith) sp shown)
    await_start-Ends Answer.raises t shown =
        raised-Ends (after_pause s.starting t)
          (waits SlotState.configuring s.starting t (ground arith) sp shown)

    run_config-Ends : (t : Task) → Shows i SlotState.configuring t → Ends (run_config s i c t)
    unfolding run_config catch_start
    run_config-Ends t shown = elim (Bool-cases (ltb 1 (total_batch c))) [
      | inl many ↦ rw (many, run_config) (shown, runnable, ground (arith, many))
      | inr one ↦ rw (one, run_config) (await_start-Ends s.start_test t shown)
    ]

    pub valid-Ends :
        (u : SlotState)
        → (u ≡ SlotState.preparing) ⊎ (u ≡ SlotState.configuring)
        → (t : Task) → Shows i u t
        → Ends (start_valid texts s i c [] t)
    unfolding start_valid
    valid-Ends u h t shown =
        let (t', same, shown') = configured u h t shown in rw same (run_config-Ends t' shown')
