-- ===== src/Services/Batch/Completion.antt =====
-- An execution that goes well, from the first batch to the last.
mod Loop
use native.Mathlib.Numerals.{add-one}
use aio_ss_usb_test_agent.Prelude.{
  ℕ, zero, suc, ◌+◌, ◌-◌, ◌*◌, ◌≤◌, ◌<◌, ◌==◌, ◌≡◌, refl, inl, true, false, none, List, [], ◌∷◌,
  ◌++◌, arith, if◌then◌else◌, sym, ◌∙◌, ap, append_assoc, append-nil, replicate,
}
use aio_ss_usb_test_agent.Prelude.Dict.{get-pop, nat_eq}
use aio_ss_usb_test_agent.Domain.State.{SlotState, SlotEvent}
use aio_ss_usb_test_agent.Domain.Context.{SlotContext, Field, Time, assign}
use aio_ss_usb_test_agent.Domain.Config.{needs_precondition}
use aio_ss_usb_test_agent.Domain.Transitions.{edge}
use aio_ss_usb_test_agent.Domain.Machine.{move_to}
use aio_ss_usb_test_agent.Services.World.{
  World, ok, Command, set_local, grab_context, clear_cancel, is_cancel_requested,
}
use aio_ss_usb_test_agent.Services.World.Steps.{fire_moved, cancel_same}
use aio_ss_usb_test_agent.Services.Batch.{
  Setup, Round, execute, main_batches, batches, run_batch, ceil_div, total_batches, loops_after,
  start_command,
}
use aio_ss_usb_test_agent.Services.Batch.Turn.{IsGood, IsShared, StartsRun, Effect, turn_good}
pub use Loop.*

-- The world at the first turn: the executor's `context` is the machine's, and holds the plan.
abbrev pub planned : Setup → World → World
planned s w = set_local (Field.is_precondition false) (
    set_local (Field.total_batch (total_batches s)) (
      set_local (Field.loop_step s.config.loop_step)
        (set_local (Field.total_loop s.config.loop_count) (grab_context w))))

abbrev pub plan : Setup → SlotContext → SlotContext
plan s c = record c {
  total_loop = s.config.loop_count;
  loop_step = s.config.loop_step;
  total_batch = total_batches s;
  is_precondition = false;
}

-- The world in which the plan has been written.
abbrev pub planned_world : Setup → World → World
planned_world s w = record w {
  machine = record (w.machine) { context = plan s w.machine.context };
  local = plan s w.machine.context;
  local_ref = w.machine.context_ref;
}

pub planned_lem : (s : Setup) (w : World) → planned s w ≡ planned_world s w
unfolding set_local assign grab_context
planned_lem s w = ground arith

head_of : (n : ℕ) (t : SlotState) → 0 < n → StartsRun t → AtHead n t
head_of zero t h k = absurd (omega arith)
head_of (suc n) t h k = k

main_good :
    (s : Setup) (at : Time) (rs : List Round) (w : World)
    → 0 < s.config.loop_step
    → 0 < s.config.loop_count
    → AllGood s (total_batches s) rs
    → StartsRun w.machine.state
    → is_cancel_requested s.slot_idx w ≡ false
    → (w' : World) × (main_batches s at rs w ≡ (ok true, w'))
      × IsDone s (total_batches s) (total_batches s) 0 (planned_world s w) w'
unfolding main_batches is_cancel_requested
main_good s at rs w step count g h n =
    let total = total_batches s in
    let (w', done, d) =
      batches_good s total total 0 at rs (planned_world s w) (omega arith) g
        (record { older = omega arith; same = λ _. refl })
        (head_of total w.machine.state
          (ceil_positive s.config.loop_count s.config.loop_step step count) h)
        n in
    let nonzero : (s.config.loop_step == 0) ≡ false = ground arith in
    (w', rw (nonzero, main_batches, planned_lem) done, d)

clear_cancel_lem :
    (slot_idx : ℕ) (w : World) → is_cancel_requested slot_idx (clear_cancel slot_idx w) ≡ false
unfolding is_cancel_requested clear_cancel
clear_cancel_lem slot_idx w = ground (arith, get-pop w.cancel_requested slot_idx slot_idx)

-- What the environment does in an execution that goes well.
pub record GoesWell (s : Setup) (rs : List Round) (w : World) : Type 0 where
  pub no_phase_1 : needs_precondition s.config ≡ false
  pub step : 0 < s.config.loop_step
  pub count : 0 < s.config.loop_count
  pub rounds : AllGood s (total_batches s) rs
  pub ready : StartsRun w.machine.state

module _ (s : Setup) (p : Round) (rs : List Round) (w : World) (h : GoesWell s rs w) where
  execute-IsDone :
      (w' : World) × (execute s p rs w ≡ (ok true, w'))
      × IsDone s
          (total_batches s)
          (total_batches s)
          0
          (planned_world s (clear_cancel s.slot_idx w))
          w'
  unfolding execute clear_cancel
  execute-IsDone =
      let w0 = clear_cancel s.slot_idx w in
      let (w', done, d) =
        main_good s w0.clock rs w0 h.step h.count h.rounds h.ready
          (clear_cancel_lem s.slot_idx w) in
      (w', rw (h.no_phase_1, execute) done, d)

  positive : 0 < total_batches s
  positive = ceil_positive s.config.loop_count s.config.loop_step h.step h.count

later_commands :
    (s : Setup) (num left : ℕ)
    → commands_from s (suc num) left ≡ replicate left Command.continue_batch
later_commands s num zero = refl
later_commands s num (suc left) = ground (arith, later_commands s (suc num) left, add-one (suc num))

all_commands :
    (s : Setup) (n : ℕ)
    → 0 < n
    → commands_from s 0 n ≡ Command.start_test s.config ∷ replicate (n - 1) Command.continue_batch
all_commands s zero h = absurd (omega arith)
all_commands s (suc n) h = ground (arith, later_commands s 0 n)

loops_total :
    (s : Setup) → 0 < s.config.loop_step → loops_after s (total_batches s) ≡ s.config.loop_count
loops_total s h = omega (arith, ceil_covers s.config.loop_count s.config.loop_step h)

module _ (s : Setup) (p : Round) (rs : List Round) (w : World) (h : GoesWell s rs w) where
  -- If every batch is started by the controller and is seen to pass, with no other task at work,
  -- from CONFIGURING or RUNNING and without a precondition, `execute` returns True, the slot is
  -- COMPLETED with all loops counted, and the controller was asked for one full start and for one
  -- continuation for each further batch.
  pub execute_completes :
      let w' = (execute s p rs w).1 in
      ((execute s p rs w).0 ≡ ok true)
      × (w'.machine.state ≡ SlotState.completed)
      × (w'.machine.context.current_loop ≡ s.config.loop_count)
      × (w'.machine.context.total_batch ≡ total_batches s)
      × (w'.commands
          ≡ w.commands
            ++ Command.start_test s.config ∷ replicate (total_batches s - 1) Command.continue_batch)
  unfolding clear_cancel
  execute_completes =
      let (w', done, d) = execute-IsDone s p rs w h in
      rw done (
        refl,
        d.state,
        told (total_batches s) w' (positive s p rs w h) d.current_loop ∙ loops_total s h.step,
        d.total_batch,
        d.commands
            ∙ ap (λ cs. w.commands ++ cs) (all_commands s (total_batches s) (positive s p rs w h)),
      )
    where
      told :
          (n : ℕ) (w' : World)
          → 0 < n
          → w'.machine.context.current_loop
            ≡ loop_told s (total_batches s) n (planned_world s (clear_cancel s.slot_idx w))
          → w'.machine.context.current_loop ≡ loops_after s (total_batches s)
      told zero w' k e = absurd (omega arith)
      told (suc n) w' k e = e

  -- In such an execution the slot's context says at the end that the current batch is the first,
  -- however many batches there were: the executor goes on writing to the context object that it
  -- took before the loop, and the first BATCH_COMPLETE puts another one in its place.
  pub current_batch-execute : (execute s p rs w).1.machine.context.current_batch ≡ 1
  unfolding clear_cancel
  current_batch-execute =
      let (w', done, d) = execute-IsDone s p rs w h in
      rw done (d.current_batch ∙ told (total_batches s) (positive s p rs w h))
    where
      told : (n : ℕ) → 0 < n → batch_told n 0 (planned_world s (clear_cancel s.slot_idx w)) ≡ 1
      told zero k = absurd (omega arith)
      told (suc n) k = ground arith
