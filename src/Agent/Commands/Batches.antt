-- ===== src/Agent/Commands/Batches.antt =====
-- main.py: `_run_batch_test`, the background task of a slot's batches. `on_progress` is given.
use aio_ss_usb_test_agent.Prelude.{
  ℕ, ◌≡◌, inl, inr, refl, Bool, true, false, Option, none, some, String, List, [], arith,
  Option-cases,
}
use aio_ss_usb_test_agent.Domain.State.{SlotState, SlotEvent}
use aio_ss_usb_test_agent.Domain.Transitions.{edge}
use aio_ss_usb_test_agent.Domain.Machine.{move_to}
use aio_ss_usb_test_agent.Services.World.{World, Raised, Result, ok, raised, stuck, fire}
use aio_ss_usb_test_agent.Services.World.Steps.{fire_moved, fire_invalid}
use aio_ss_usb_test_agent.Services.Batch.{Setup, Round, execute, total_batches}
use aio_ss_usb_test_agent.Services.Batch.Soundness.{IsCompleted, execute-true}
use aio_ss_usb_test_agent.Agent.{Message, Status}

abbrev pub all_completed : ℕ → Message
all_completed slot_idx =
    Message.status_update slot_idx Status.completed (some "All batches completed") none

abbrev pub batches_failed : ℕ → Message
batches_failed slot_idx =
    Message.status_update slot_idx Status.failed (some "Batch test failed or cancelled") none

-- What the backend is told, and what an exception does to the slot; `of_raised` is `str`.
unfoldable conclude_batches : (Raised → String) → ℕ → Result Bool → World → Option Message × World
conclude_batches of_raised slot_idx (ok true) w = (some (all_completed slot_idx), w)
conclude_batches of_raised slot_idx (ok false) w = (some (batches_failed slot_idx), w)
conclude_batches of_raised slot_idx (raised r) w =
    (none, (fire SlotEvent.error [] (some (of_raised r)) w).1)
conclude_batches of_raised slot_idx stuck w = (none, w)

unfoldable pub run_batch_test :
    (Raised → String) → Setup → Round → List Round → World → Option Message × World
unfolding conclude_batches
run_batch_test of_raised s precondition rs w =
    let (result, w') = execute s precondition rs w in
    conclude_batches of_raised s.slot_idx result w'

-- What the slot is when the task has ended with a result of `execute`, and what the backend is told.
abbrev pub Concluded : Setup → List Round → Result Bool → Option Message × World → Type 0
Concluded s rs (ok true) (told, w) =
    (told ≡ some (all_completed s.slot_idx)) × IsCompleted s (total_batches s) rs w
Concluded s rs (ok false) (told, w) = told ≡ some (batches_failed s.slot_idx)
Concluded s rs (raised r) (told, w) = (told ≡ none) × (edge w.machine.state SlotEvent.error ≡ none)
Concluded s rs stuck (told, w) = told ≡ none

error_is_last : (s u : SlotState) → edge s SlotEvent.error ≡ some u → edge u SlotEvent.error ≡ none
unfolding edge
error_is_last s u h = ground (arith, h)

module _ (of_raised : Raised → String) (s : Setup) (rs : List Round) where
  errs :
      (msg : Option String) (w : World)
      → edge (fire SlotEvent.error [] msg w).1.machine.state SlotEvent.error ≡ none
  unfolding move_to
  errs msg w = elim (Option-cases (edge w.machine.state SlotEvent.error)) [
    | inl stays ↦ rw (fire_invalid SlotEvent.error [] msg w stays) stays
    | inr (u, h) ↦ rw (fire_moved SlotEvent.error [] msg w u h) (error_is_last w.machine.state u h)
  ]

  conclude-Concluded :
      (r : Result Bool) (w : World)
      → (r ≡ ok true → IsCompleted s (total_batches s) rs w)
      → Concluded s rs r (conclude_batches of_raised s.slot_idx r w)
  unfolding conclude_batches
  conclude-Concluded (ok true) w h = (refl, h refl)
  conclude-Concluded (ok false) w h = refl
  conclude-Concluded (raised r) w h = (refl, errs (some (of_raised r)) w)
  conclude-Concluded stuck w h = refl

  -- The background task tells the backend that all batches are completed if `execute` returns True,
  -- and then the slot is COMPLETED and each batch was started and seen to pass; it tells of a failure
  -- if `execute` returns False; and after an exception it tells nothing, but leaves the slot in a
  -- state that does not accept ERROR, so in none in which a test is prepared, run or stopped.
  pub run_batch_test-Concluded :
      (precondition : Round) (w : World)
      → Concluded s rs
          (execute s precondition rs w).0
          (run_batch_test of_raised s precondition rs w)
  unfolding run_batch_test
  run_batch_test-Concluded p w =
      conclude-Concluded (execute s p rs w).0 (execute s p rs w).1 (execute-true s p rs w)
