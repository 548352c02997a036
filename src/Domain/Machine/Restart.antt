-- ===== src/Domain/Machine/Restart.antt =====
-- A single test that the agent starts on a slot whose last test was cut into batches (main.py,
-- `_execute_start_test`).
use aio_ss_usb_test_agent.Prelude.{
  ℕ, ◌≡◌, refl, true, Option, none, some, String, List, [], ◌∷◌, arith, ◌∙◌,
}
use aio_ss_usb_test_agent.Domain.State.{SlotState, SlotEvent}
use aio_ss_usb_test_agent.Domain.Context.{Field, Time, assign, update}
use aio_ss_usb_test_agent.Domain.Transitions.{edge}
use aio_ss_usb_test_agent.Domain.Machine.{
  SlotStateMachine, Call, triggers, run_calls, call, after, in_terminal, trigger, move_to,
  change_context, put_context, error_fields, start_fields, restart_fields,
}
use aio_ss_usb_test_agent.Domain.Machine.Moves.{trigger_moved}

-- The triggers of a single test that starts.
abbrev pub single_test : Option String → ℕ → Time → List Call
single_test test_name loop_count now =
    triggers SlotEvent.start_test (Field.test_name test_name ∷ []) none now
    ∷ triggers SlotEvent.configure [] none now
    ∷ triggers SlotEvent.run (Field.total_loop loop_count ∷ []) none now
    ∷ []

moved_to :
    (e : SlotEvent) (fs : List Field) (now : Time) (m : SlotStateMachine) (t : SlotState)
    → edge m.state e ≡ some t
    → after m (trigger e fs none now m) ≡ move_to t e fs none now m
moved_to e fs now m t h = rw (trigger_moved e fs none now m t h) refl

module _ (m : SlotStateMachine) (test_name : Option String) (loop_count : ℕ) (now : Time) where
  restart_edge :
      in_terminal m.state ≡ true → edge m.state SlotEvent.start_test ≡ some SlotState.preparing
  unfolding edge
  restart_edge h = ground arith

  abbrev preparing_slot : SlotStateMachine
  preparing_slot =
      move_to SlotState.preparing SlotEvent.start_test (Field.test_name test_name ∷ []) none now m

  abbrev configuring_slot : SlotStateMachine
  configuring_slot = move_to SlotState.configuring SlotEvent.configure [] none now preparing_slot

  start_keeps : preparing_slot.context.total_batch ≡ m.context.total_batch
  unfolding move_to change_context put_context error_fields start_fields restart_fields update
      assign
  start_keeps = ground arith

  configure_step :
      after preparing_slot (trigger SlotEvent.configure [] none now preparing_slot)
      ≡ configuring_slot
  unfolding edge move_to
  configure_step = moved_to SlotEvent.configure [] now preparing_slot SlotState.configuring refl

  run_keeps :
      let m' =
        after configuring_slot
          (trigger SlotEvent.run (Field.total_loop loop_count ∷ []) none now configuring_slot) in
      (m'.state ≡ SlotState.running) × (m'.context.total_batch ≡ preparing_slot.context.total_batch)
  unfolding edge move_to change_context put_context error_fields start_fields update assign
  run_keeps =
      rw
        (moved_to SlotEvent.run (Field.total_loop loop_count ∷ []) now configuring_slot
          SlotState.running refl)
        (refl, refl)

  -- A single test that starts on a COMPLETED, FAILED or ERROR slot leaves it RUNNING with the number
  -- of batches of the test before, which no step of the start sets back to 1.
  pub total_batch-single_test :
      in_terminal m.state ≡ true
      → let m' = run_calls m (single_test test_name loop_count now) in
        (m'.state ≡ SlotState.running) × (m'.context.total_batch ≡ m.context.total_batch)
  unfolding run_calls call
  total_batch-single_test h =
      rw
        (
          moved_to SlotEvent.start_test (Field.test_name test_name ∷ []) now m SlotState.preparing
              (restart_edge h),
          configure_step,
        )
        (run_keeps.0, run_keeps.1 ∙ start_keeps)
