-- ===== src/Services/Batch/Soundness.antt =====
-- What a result of `execute` says of the machine and of the batches.
use aio_ss_usb_test_agent.Prelude.{
  ℕ, zero, suc, ◌+◌, ◌≡◌, ◌≢◌, true, false, Option, none, some, String, List, [], ◌∷◌, arith, inl,
  inr, Bool-cases,
}
use aio_ss_usb_test_agent.Domain.State.{SlotState, SlotEvent}
use aio_ss_usb_test_agent.Domain.Context.{Field, Time}
use aio_ss_usb_test_agent.Domain.Config.{needs_precondition}
use aio_ss_usb_test_agent.Domain.Transitions.{edge, next_state-eq-edge}
use aio_ss_usb_test_agent.Domain.Machine.{trigger}
use aio_ss_usb_test_agent.Services.World.{
  World, ok, fire, fire_if_possible, pause, set_local, grab_context, clear_cancel,
}
use aio_ss_usb_test_agent.Services.Waiting.Verdict.{HasPassed, wait_for_pass-true}
use aio_ss_usb_test_agent.Services.Batch.{
  Setup, Round, returns, execute, main_batches, batches, run_batch, follow_batch, finish_batch,
  abandon_batch, give_up, launch_with, answer, send, await_pass, report, loops_before,
  start_command, total_batches, run_precondition, phase_1,
}

-- A trigger that returns has taken an edge.
fire_ok :
    (e : SlotEvent) (fs : List Field) (msg : Option String) (w : World)
    → (fire e fs msg w).0 ≡ ok tt
    → edge w.machine.state e ≡ some (fire e fs msg w).1.machine.state
unfolding fire trigger
fire_ok e fs msg w h = ground (arith, next_state-eq-edge w.machine.state e)

follow_ne_true :
    (s : Setup) (total num : ℕ) (r : Round) (w : World)
    → (follow_batch s total num r w).0 ≢ ok (some true)
unfolding follow_batch finish_batch abandon_batch give_up
follow_ne_true s total num r w h = ground arith

follow_none :
    (s : Setup) (total num : ℕ) (r : Round) (w : World)
    → (follow_batch s total num r w).0 ≡ ok none
    → HasPassed s.slot_idx s.pass_wait_timeout r.began r.polls
unfolding follow_batch finish_batch abandon_batch give_up await_pass
follow_none s total num r w h = ground (
  arith,
  wait_for_pass-true s.slot_idx s.pass_wait_timeout r.began r.polls
      (pause r.first_sleep (fire_if_possible SlotEvent.run [] none w).1),
)

-- What a batch that the loop goes on from has shown.
abbrev pub IsPassed : Setup → Round → Type 0
IsPassed s r = (r.launch ≡ returns true) × HasPassed s.slot_idx s.pass_wait_timeout r.began r.polls

-- The world when the controller has answered.
abbrev launched : Setup → ℕ → ℕ → Time → Round → World → World
launched s total num at r w =
    let w1 =
      set_local (Field.current_loop (loops_before s num)) (set_local (Field.current_batch num) w) in
    let w2 = (report s total num at r w1).1 in (launch_with (start_command s num) r w2).1

batch_none :
    (s : Setup) (total num : ℕ) (at : Time) (r : Round) (w : World)
    → (run_batch s total num at r w).0 ≡ ok none
    → IsPassed s r
unfolding run_batch report launch_with answer send abandon_batch give_up
batch_none s total num at r w h =
    ground (arith, follow_none s total num r (launched s total num at r w))

batch_ne_true :
    (s : Setup) (total num : ℕ) (at : Time) (r : Round) (w : World)
    → (run_batch s total num at r w).0 ≢ ok (some true)
unfolding run_batch report launch_with answer send abandon_batch give_up
batch_ne_true s total num at r w h =
    ground (arith, follow_ne_true s total num r (launched s total num at r w))

-- The first rounds, one for each batch.
abbrev pub AllPassed : Setup → ℕ → List Round → Type 0
AllPassed s zero rs = Unit {0}
AllPassed s (suc n) [] = ⊥
AllPassed s (suc n) (r ∷ rs) = IsPassed s r × AllPassed s n rs

abbrev pub IsCompleted : Setup → ℕ → List Round → World → Type 0
IsCompleted s n rs w = (w.machine.state ≡ SlotState.completed) × AllPassed s n rs

batches-true :
    (s : Setup) (total left num : ℕ) (at : Time) (rs : List Round) (w : World)
    → (batches s total left num at rs w).0 ≡ ok true
    → IsCompleted s left rs (batches s total left num at rs w).1
unfolding batches edge
batches-true s total zero num at rs w h =
    ground (arith, fire_ok SlotEvent.all_batches_done [] none w)
batches-true s total (suc left) num at [] w h = cc
batches-true s total (suc left) num at (r ∷ rs) w h = ground (
  arith,
  batch_ne_true s total (num + 1) at r w,
  batch_none s total (num + 1) at r w,
  batches-true s total left (num + 1) at rs (run_batch s total (num + 1) at r w).1,
)

main_true :
    (s : Setup) (at : Time) (rs : List Round) (w : World)
    → (main_batches s at rs w).0 ≡ ok true
    → IsCompleted s (total_batches s) rs (main_batches s at rs w).1
unfolding main_batches
main_true s at rs w h = ground (
  arith,
  batches-true s (total_batches s) (total_batches s) 0 at rs (
      set_local (Field.is_precondition false) (
        set_local (Field.total_batch (total_batches s)) (
          set_local (Field.loop_step s.config.loop_step)
            (set_local (Field.total_loop s.config.loop_count) (grab_context w))))),
)

with_phase_1 :
    (s : Setup) (p : Round) (rs : List Round) (w : World)
    → (phase_1 s p w.clock rs (clear_cancel s.slot_idx w)).0 ≡ ok true
    → IsCompleted s (total_batches s) rs (phase_1 s p w.clock rs (clear_cancel s.slot_idx w)).1
unfolding phase_1 give_up
with_phase_1 s p rs w h =
    ground (arith, main_true s w.clock rs (run_precondition s p (clear_cancel s.slot_idx w)).1)

-- Whatever other tasks do to the slot meanwhile: if `execute` returns True, the slot is COMPLETED,
-- and each of the ⌈loop_count / loop_step⌉ batches was started by the controller and was seen to
-- pass.
pub execute-true :
    (s : Setup) (precondition : Round) (rs : List Round) (w : World)
    → (execute s precondition rs w).0 ≡ ok true
    → IsCompleted s (total_batches s) rs (execute s precondition rs w).1
unfolding execute clear_cancel
execute-true s p rs w h = elim (Bool-cases (needs_precondition s.config)) [
  | inl e ↦ rw (e, execute) (with_phase_1 s p rs w (rw (e, execute) at h))
  | inr e ↦
      rw (e, execute) (main_true s w.clock rs (clear_cancel s.slot_idx w) (rw (e, execute) at h))
]
