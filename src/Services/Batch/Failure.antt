-- ===== src/Services/Batch/Failure.antt =====
-- How an execution ends otherwise: cancelled, failed, or by an exception.
use aio_ss_usb_test_agent.Prelude.{
  ℕ, ◌==◌, ◌<◌, ◌≡◌, ◌≢◌, refl, true, false, none, some, List, [], arith, ◌∙◌, ap,
}
use aio_ss_usb_test_agent.Domain.State.{SlotState, SlotEvent}
use aio_ss_usb_test_agent.Domain.Context.{Time}
use aio_ss_usb_test_agent.Domain.Config.{needs_precondition}
use aio_ss_usb_test_agent.Domain.Transitions.{edge}
use aio_ss_usb_test_agent.Domain.Machine.{move_to}
use aio_ss_usb_test_agent.Services.World.{
  World, ok, raised, invalid_transition, is_cancel_requested, clear_cancel,
}
use aio_ss_usb_test_agent.Services.World.Steps.{fire_moved, fire_invalid}
use aio_ss_usb_test_agent.Services.Batch.{
  Setup, Round, execute, main_batches, total_batches, ceil_div, batches, run_batch,
}
use aio_ss_usb_test_agent.Services.Batch.Completion.{planned_lem}
use aio_ss_usb_test_agent.Services.Batch.Turn.{StartsRun}

-- A turn that finds a cancellation asked for, with the slot in CONFIGURING or RUNNING, takes it to
-- STOPPING and ends the execution with False, without a further call of the controller.
pub turn_cancelled :
    (s : Setup) (total num : ℕ) (at : Time) (r : Round) (w : World)
    → StartsRun w.machine.state
    → is_cancel_requested s.slot_idx w ≡ true
    → let (result, w') = run_batch s total num at r w in
      (result ≡ ok (some false))
      × (w'.machine.state ≡ SlotState.stopping)
      × (w'.commands ≡ w.commands)
      × (w'.progress ≡ w.progress)
unfolding run_batch edge move_to
turn_cancelled s total num at r w h c =
    let e : edge w.machine.state SlotEvent.stop ≡ some SlotState.stopping = ground arith in
    rw (c, run_batch, fire_moved SlotEvent.stop [] none w SlotState.stopping e)
      (refl, refl, refl, refl)

done_edge : (t : SlotState) → t ≢ SlotState.waiting → edge t SlotEvent.all_batches_done ≡ none
unfolding edge
done_edge t h = ground arith

no_batches :
    (s : Setup) (at : Time) (rs : List Round) (w : World)
    → w.machine.state ≢ SlotState.waiting
    → (batches s 0 0 0 at rs w).0
      ≡ raised (invalid_transition w.machine.state SlotEvent.all_batches_done w.machine.slot_idx)
unfolding batches
no_batches s at rs w h =
    rw (batches, fire_invalid SlotEvent.all_batches_done [] none w (done_edge w.machine.state h))
      refl

zero_batches : (b : ℕ) → 0 < b → ceil_div 0 b ≡ 0
zero_batches b h = grind arith

-- With no batch to run, which a loop count of 0 gives, `execute` raises InvalidTransitionError from
-- every state but WAITING, since ALL_BATCHES_DONE leads on from there only.
pub execute_empty :
    (s : Setup) (p : Round) (rs : List Round) (w : World)
    → needs_precondition s.config ≡ false
    → s.config.loop_count ≡ 0
    → 0 < s.config.loop_step
    → w.machine.state ≢ SlotState.waiting
    → (execute s p rs w).0
      ≡ raised (invalid_transition w.machine.state SlotEvent.all_batches_done w.machine.slot_idx)
unfolding execute main_batches clear_cancel
execute_empty s p rs w n zero_loops step h =
    let nonzero : (s.config.loop_step == 0) ≡ false = ground arith in
    let none_left : total_batches s ≡ 0 =
      ap (λ k. ceil_div k s.config.loop_step) zero_loops ∙ zero_batches s.config.loop_step step in
    rw (n, execute, nonzero, main_batches, planned_lem, none_left) (no_batches s _ rs _ h)
