-- ===== src/Agent/Commands/Starting.antt =====
-- main.py: the task that starts a slot's test, `_execute_start_test`, on a message whose values have the
-- types of the protocol.
pub mod Steps
pub mod Outcomes
use aio_ss_usb_test_agent.Prelude.{
  ℕ, ◌+◌, ◌-◌, ◌/◌, ltb, if◌then◌else◌, Bool, true, false, Option, none, some, String, List, [],
  ◌∷◌,
}
use aio_ss_usb_test_agent.Prelude.Dict.{beq}
use aio_ss_usb_test_agent.Domain.State.{SlotState, SlotEvent, slot_state_eq}
use aio_ss_usb_test_agent.Domain.Context.{Field, Time}
use aio_ss_usb_test_agent.Domain.Machine.{SlotStateMachine, can_transition, is_busy}
use aio_ss_usb_test_agent.Domain.Manager.{get_slot}
use aio_ss_usb_test_agent.Domain.Config.{TestConfig}
use aio_ss_usb_test_agent.Domain.Config.Codec.{Parsed}
use aio_ss_usb_test_agent.Domain.Config.Validation.{Problem, validate, to_validate}
use aio_ss_usb_test_agent.Agent.{Agent}
use aio_ss_usb_test_agent.Agent.Commands.{Texts, tell_error}
use aio_ss_usb_test_agent.Agent.Commands.Configuring.{Received, get_or, received_config}
use aio_ss_usb_test_agent.Agent.Task.{
  Task, Exec, Result, Raised, ok, raised, Pause, Answer, pure, modify, ◌>>=◌, ◌>>◌, await_answer,
  fire, force, invalid_transition, bad_config,
}

-- What happens in a start: whether the slot is connected, and what happens until the controller has
-- connected it and until it has started the test.
pub record Script : Type 0 where
  pub is_connected : Bool
  pub connecting : Pause
  pub connect_slot : Answer
  pub starting : Pause
  pub start_test : Answer

-- What a start comes to: nothing, a test that the controller has started, or a background task of
-- batches.
pub data Started : Type 0 where
  nothing : Started
  single batches : TestConfig → Started

unfoldable lift {ℓ} : {A : Type ℓ} → Parsed A → Exec A
lift (Parsed.ok a) t = (ok a, t)
lift (Parsed.failed e) t = (raised (bad_config e), t)

unfoldable read_clock : Exec Time
read_clock t = (ok t.clock, t)

-- Whether slot_machine.state is PREPARING.
unfoldable is_preparing : ℕ → Task → Bool
is_preparing slot_idx t = elim (get_slot t.agent.slots slot_idx) [
  | none ↦ false
  | some m ↦ beq m.state SlotState.preparing
]

-- success = await start_test(...): RUN, or ERROR.
unfoldable conclude_start : ℕ → TestConfig → Bool → Exec Started
conclude_start slot_idx config true = do
  fire slot_idx SlotEvent.run (Field.total_loop config.loop_count ∷ []) none
  pure (Started.single config)
conclude_start slot_idx config false = do
  fire slot_idx SlotEvent.error [] (some "테스트 시작에 실패했습니다.")
  pure Started.nothing

abbrev pub total_batch : TestConfig → ℕ
total_batch c = (c.loop_count + c.loop_step - 1) / c.loop_step

-- The call of the controller's `start_test`.
unfoldable await_start : Script → ℕ → TestConfig → Answer → Exec Started
unfolding conclude_start
await_start s slot_idx config answer = do
  success ← await_answer s.starting answer
  conclude_start slot_idx config success

-- Batches in the background, or a single test.
unfoldable run_config : Script → ℕ → TestConfig → Exec Started
unfolding await_start
run_config s slot_idx config =
    if ltb 1 (total_batch config)
    then pure (Started.batches config)
    else await_start s slot_idx config s.start_test

-- if slot_machine.state == SlotState.PREPARING: trigger(CONFIGURE)
unfoldable configure_if_preparing : ℕ → Exec (Unit {0})
unfolding is_preparing
configure_if_preparing slot_idx t =
    if is_preparing slot_idx t then fire slot_idx SlotEvent.configure [] none t else (ok tt, t)

-- if validation_errors: ...
unfoldable start_valid : Texts → Script → ℕ → TestConfig → List Problem → Exec Started
unfolding run_config configure_if_preparing
start_valid texts s slot_idx config [] = do
  configure_if_preparing slot_idx
  run_config s slot_idx config
start_valid texts s slot_idx config (p ∷ ps) = do
  fire slot_idx SlotEvent.error [] (some (texts.of_problems (p ∷ ps)))
  modify (tell_error slot_idx (texts.of_problems (p ∷ ps)))
  pure Started.nothing

-- validation_errors = config.validate()
unfoldable start_parsed : Texts → Script → ℕ → Parsed TestConfig → Exec Started
unfolding lift start_valid
start_parsed texts s slot_idx parsed = do
  config ← lift parsed
  start_valid texts s slot_idx config (validate (to_validate config))

unfoldable start_connected : Texts → Script → ℕ → Received → Exec Started
unfolding read_clock start_parsed
start_connected texts s slot_idx d = do
  now ← read_clock
  start_parsed texts s slot_idx (received_config now slot_idx d)

-- if not connected: ...
unfoldable after_connect : Texts → Script → ℕ → Received → Bool → Exec Started
unfolding start_connected
after_connect texts s slot_idx d true = start_connected texts s slot_idx d
after_connect texts s slot_idx d false = do
  fire slot_idx SlotEvent.error [] (some "USB Test.exe에 연결할 수 없습니다. 프로그램 경로를 확인하세요.")
  modify (tell_error slot_idx "Failed to connect USB Test.exe")
  pure Started.nothing

-- The call of the controller's `connect_slot`.
unfoldable await_connection : Texts → Script → ℕ → Received → Answer → Exec Started
unfolding after_connect
await_connection texts s slot_idx d answer = do
  connected ← await_answer s.connecting answer
  after_connect texts s slot_idx d connected

-- if not is_slot_connected(slot_idx): ...
unfoldable start_prepared : Texts → Script → ℕ → Received → Bool → Exec Started
unfolding start_connected await_connection
start_prepared texts s slot_idx d true = start_connected texts s slot_idx d
start_prepared texts s slot_idx d false = do
  fire slot_idx SlotEvent.configure [] none
  await_connection texts s slot_idx d s.connect_slot

-- The body of the `try`.
unfoldable start_named : Texts → Script → ℕ → Received → String → Exec Started
unfolding start_prepared
start_named texts s slot_idx d test_name = do
  fire slot_idx SlotEvent.start_test (Field.test_name (some test_name) ∷ []) none
  start_prepared texts s slot_idx d s.is_connected

unfoldable start_body : Texts → Script → ℕ → Received → Exec Started
unfolding start_named
start_body texts s slot_idx d = start_named texts s slot_idx d (get_or "USB Test" d.test_name)

-- except Exception as e: trigger(ERROR), or force_state.
unfoldable fail_start : Texts → ℕ → Raised → Task → Task
fail_start texts slot_idx r t =
    let (result, t') = fire slot_idx SlotEvent.error [] (some (texts.of_raised r)) t in
    elim result [ ok _ ↦ t' | raised _ ↦ force slot_idx SlotState.error t ]

-- The two `except` clauses.
unfoldable catch_start : Texts → ℕ → Result Started → Task → Started × Task
unfolding fail_start
catch_start texts slot_idx (ok started) t = (started, t)
catch_start texts slot_idx (raised (invalid_transition s e i)) t = (
  Started.nothing,
  record t { agent = tell_error slot_idx (texts.of_raised (invalid_transition s e i)) t.agent },
)
catch_start texts slot_idx (raised r) t = (Started.nothing, fail_start texts slot_idx r t)

unfoldable pub execute_start_test : Texts → Script → ℕ → Received → Task → Started × Task
unfolding start_body catch_start
execute_start_test texts s slot_idx d t = elim (get_slot t.agent.slots slot_idx) [
  | none ↦ (Started.nothing, t)
  | some m ↦
      if is_busy m
      then (
        Started.nothing,
        record t { agent = tell_error slot_idx (texts.busy slot_idx m.state) t.agent },
      )
      else let (result, t') = start_body texts s slot_idx d t in
        catch_start texts slot_idx result t'
]
