-- ===== src/Agent/Commands/Starting/Outcomes.antt =====
-- What the task that starts a test makes of its slot.
use aio_ss_usb_test_agent.Prelude.{
  ℕ, ◌≡◌, refl, Bool, true, false, none, some, String, List, [], ◌∷◌, arith, List-cases, inl, inr,
  ◌⊎◌,
}
use aio_ss_usb_test_agent.Domain.State.{SlotState, SlotEvent, SlotState-discrete, slot_state_eq}
use aio_ss_usb_test_agent.Domain.Context.{Field}
use aio_ss_usb_test_agent.Domain.Transitions.{edge}
use aio_ss_usb_test_agent.Domain.Machine.{SlotStateMachine, is_busy}
use aio_ss_usb_test_agent.Domain.Manager.{get_slot}
use aio_ss_usb_test_agent.Domain.Config.{TestConfig}
use aio_ss_usb_test_agent.Domain.Config.Codec.{Parsed}
use aio_ss_usb_test_agent.Domain.Config.Validation.{
  Problem, validate, to_validate, validate-Runnable,
}
use aio_ss_usb_test_agent.Agent.Commands.Configuring.{Received, get_or, received_config}
use aio_ss_usb_test_agent.Agent.Commands.{Texts}
use aio_ss_usb_test_agent.Agent.Commands.Starting.{
  Script, lift, read_clock, await_connection, start_valid, start_parsed, start_named,
  start_connected, after_connect, start_prepared, start_body, catch_start, execute_start_test,
}
use aio_ss_usb_test_agent.Agent.Task.{Task, Answer, await_answer, pause, bad_config}
use aio_ss_usb_test_agent.Agent.Task.Spared.{SparesAll}
use aio_ss_usb_test_agent.Agent.Task.Firing.{Shows, fire_moved}
use aio_ss_usb_test_agent.Agent.Commands.Starting.Steps.{
  Settled, step, waits, fail_start_lem, raised-Ends, valid-Ends, after_pause, Ends,
}

module _ (texts : Texts) (i : ℕ) where
  -- PREPARING or CONFIGURING, as long as the start is under way.
  abbrev Under : SlotState → Type 0
  Under u = (u ≡ SlotState.preparing) ⊎ (u ≡ SlotState.configuring)

  Under-error : (u : SlotState) → Under u → edge u SlotEvent.error ≡ some SlotState.error
  unfolding edge
  Under-error u (inl e) = rw e
  Under-error u (inr e) = rw e

  problem-Ends :
      (s : Script) (c : TestConfig) (p : Problem) (ps : List Problem) (u : SlotState)
      → Under u
      → (t : Task) → Shows i u t
      → Ends texts i (start_valid texts s i c (p ∷ ps) t)
  unfolding start_valid catch_start
  problem-Ends s c p ps u h t shown =
      let (t', same, shown') =
        step texts i u SlotState.error SlotEvent.error [] (some (texts.of_problems (p ∷ ps))) t
          shown (Under-error u h) in
      rw same shown'

  module _ (s : Script) (sp : SparesAll i s.starting.meanwhile) where
    validated-Ends :
        (c : TestConfig) (u : SlotState)
        → Under u
        → (t : Task) → Shows i u t
        → Ends texts i (start_valid texts s i c (validate (to_validate c)) t)
    validated-Ends c u h t shown = elim (List-cases (validate (to_validate c))) [
      | inl e ↦ rw e (valid-Ends texts i s c (validate-Runnable (to_validate c) e) sp u h t shown)
      | inr (p, ps, e) ↦ rw e (problem-Ends s c p ps u h t shown)
    ]

    lifted-Ends :
        (c : Parsed TestConfig) (u : SlotState)
        → Under u
        → (t : Task) → Shows i u t
        → Ends texts i (start_parsed texts s i c t)
    unfolding start_parsed lift catch_start
    lifted-Ends (Parsed.ok c) u h t shown = validated-Ends c u h t shown
    lifted-Ends (Parsed.failed e) u h t shown = fail_start_lem texts i u (bad_config e) t shown

    connected-Ends :
        (d : Received) (u : SlotState)
        → Under u
        → (t : Task) → Shows i u t
        → Ends texts i (start_connected texts s i d t)
    unfolding start_connected read_clock
    connected-Ends d u h t shown = lifted-Ends (received_config t.clock i d) u h t shown

    after_connect-Ends :
        (d : Received) (b : Bool) (t : Task)
        → Shows i SlotState.configuring t
        → Ends texts i (after_connect texts s i d b t)
    unfolding after_connect catch_start edge
    after_connect-Ends d true t shown = connected-Ends d SlotState.configuring (inr refl) t shown
    after_connect-Ends d false t shown =
        let (t', same, shown') =
          step texts i SlotState.configuring SlotState.error SlotEvent.error []
            (some "USB Test.exe에 연결할 수 없습니다. 프로그램 경로를 확인하세요.") t shown refl in
        rw same shown'

    module _ (cp : SparesAll i s.connecting.meanwhile) where
      await_connection-Ends :
          (d : Received) (answer : Answer) (t : Task)
          → Shows i SlotState.configuring t
          → Ends texts i (await_connection texts s i d answer t)
      unfolding await_connection await_answer pause SlotState-discrete
      await_connection-Ends d (Answer.returns b) t shown =
          after_connect-Ends d b (after_pause texts i s.connecting t)
            (waits texts i SlotState.configuring s.connecting t (ground arith) cp shown)
      await_connection-Ends d Answer.raises t shown =
          raised-Ends texts i (after_pause texts i s.connecting t)
            (waits texts i SlotState.configuring s.connecting t (ground arith) cp shown)

      prepared-Ends :
          (d : Received) (b : Bool) (t : Task)
          → Shows i SlotState.preparing t
          → Ends texts i (start_prepared texts s i d b t)
      unfolding start_prepared edge
      prepared-Ends d true t shown = connected-Ends d SlotState.preparing (inl refl) t shown
      prepared-Ends d false t shown =
          let (t', same, shown') =
            step texts i SlotState.preparing SlotState.configuring SlotEvent.configure [] none t
              shown refl in
          rw same (await_connection-Ends d s.connect_slot t' shown')

      named-Ends :
          (d : Received) (name : String) (t : Task) (m : SlotStateMachine)
          → get_slot t.agent.slots i ≡ some m
          → edge m.state SlotEvent.start_test ≡ some SlotState.preparing
          → Ends texts i (start_named texts s i d name t)
      unfolding start_named
      named-Ends d name t m there h =
          let (t', same, shown) =
            fire_moved i m t there SlotEvent.start_test (Field.test_name (some name) ∷ []) none
              SlotState.preparing h in
          rw same (prepared-Ends d s.is_connected t' shown)

free_starts :
    (m : SlotStateMachine)
    → is_busy m ≡ false
    → edge m.state SlotEvent.start_test ≡ some SlotState.preparing
unfolding is_busy edge SlotState-discrete
free_starts m h = ground (arith, h)

-- A start of a slot that is not busy leaves it RUNNING a single test, which the configuration allows,
-- or CONFIGURING with several batches to run in the background, or in ERROR: it never leaves the slot
-- PREPARING, nor CONFIGURING without a task. It holds for every message of the backend whose values have
-- the types of the protocol, with no negative numbers, be keys missing or not, whatever the controller
-- answers, exceptions included, and whatever the monitors see meanwhile, if no other task triggers the
-- slot's machine.
pub execute_start_test-Settled :
    (texts : Texts) (s : Script) (i : ℕ) (d : Received) (t : Task) (m : SlotStateMachine)
    → SparesAll i s.connecting.meanwhile
    → SparesAll i s.starting.meanwhile
    → get_slot t.agent.slots i ≡ some m
    → is_busy m ≡ false
    → Settled i (execute_start_test texts s i d t)
unfolding execute_start_test start_body
execute_start_test-Settled texts s i d t m cp sp there free =
    rw (there, execute_start_test, free)
      (named-Ends texts i s sp cp d (get_or "USB Test" d.test_name) t m there (free_starts m free))
