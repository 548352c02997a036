-- ===== src/Services/Batch/Turn.antt =====
-- One turn of the executor's loop that goes well, with no other task at work.
mod Steps
use aio_ss_usb_test_agent.Prelude.{
  ℕ, suc, ◌≤◌, ◌==◌, ◌≡◌, refl, ◌⊎◌, inl, inr, true, false, none, some, [], ◌∷◌, ◌++◌, arith, ltb,
  if◌then◌else◌, Bool-cases, All, ◌∙◌, ap, ==_iff,
}
use aio_ss_usb_test_agent.Domain.State.{SlotState, SlotEvent}
use aio_ss_usb_test_agent.Domain.Context.{SlotContext, Field, Time, assign}
use aio_ss_usb_test_agent.Domain.Transitions.{edge}
use aio_ss_usb_test_agent.Domain.Machine.{move_to}
use aio_ss_usb_test_agent.Services.World.{
  World, ok, fire_if_possible, set_local, is_cancel_requested, Command,
}
use aio_ss_usb_test_agent.Services.World.Steps.{
  IsQuiet, pause_quiet, fire_moved, fire_if_moved, fire_if_skipped,
}
use aio_ss_usb_test_agent.Services.Waiting.Quiet.{quiet_verdict, wait_for_pass-quiet}
use aio_ss_usb_test_agent.Services.Batch.{
  Setup, Round, returns, run_batch, follow_batch, finish_batch, launch_with, answer, send,
  await_pass, report, loops_before, loops_after, start_command,
}
pub use Steps.*

-- `w'` is the world after a whole turn in `w`.
pub record Turned (s : Setup) (total num : ℕ) (w w' : World) : Type 0 where
  pub state : w'.machine.state ≡ state_after total num
  pub context_ref : w'.machine.context_ref ≡ suc w.machine.context_ref
  pub current_loop : w'.machine.context.current_loop ≡ loops_after s num
  pub keeps : Keeps w w'

follow_good :
    (s : Setup) (total num : ℕ) (r : Round) (w : World)
    → IsGood s r
    → StartsRun w.machine.state
    → is_cancel_requested s.slot_idx w ≡ false
    → (w' : World) × (follow_batch s total num r w ≡ (ok none, w')) × Turned s total num w w'
unfolding follow_batch await_pass is_cancel_requested
follow_good s total num r w g h n =
    let (w1, run, running, ref, keeps) = run_step w h in
    let w2 : World = record w1 { clock = r.first_sleep.clock } in
    let (c, waited) =
      wait_for_pass-quiet s.slot_idx s.pass_wait_timeout r.began r.polls w2 true g.polls
        (rw keeps.cancels n) g.passes in
    let w3 : World = record w2 { clock = c } in
    let (state, ref', loop, keeps') = finish_fields s total num w3 in
    (
      finished s total num w3,
      rw (run, pause_quiet r.first_sleep w1 g.first_sleep, waited)
          (finish_world s total num w3 running),
      record {
        state = state;
        context_ref = ref' ∙ ap suc ref;
        current_loop = loop;
        keeps = Keeps-trans (Keeps-clock c keeps) keeps';
      },
    )

-- The world when the controller has answered, in a turn that goes well.
abbrev started : Setup → ℕ → ℕ → Time → Round → World → World
started s total num at r w =
    let w1 =
      set_local (Field.current_loop (loops_before s num)) (set_local (Field.current_batch num) w) in
    let w2 = (report s total num at r w1).1 in
    record w2 { commands = w2.commands ++ start_command s num ∷ []; clock = r.launching.clock }

launch_good :
    (s : Setup) (c : Command) (r : Round) (w : World)
    → IsGood s r
    → launch_with c r w
      ≡ (ok true, record w { commands = w.commands ++ c ∷ []; clock = r.launching.clock })
unfolding launch_with answer send
launch_good s c r w g =
    rw
      (pause_quiet r.launching (record w { commands = w.commands ++ c ∷ [] }) g.launching, g.launch)

report_ok :
    (s : Setup) (total num : ℕ) (at : Time) (r : Round) (w : World)
    → report s total num at r w ≡ (ok tt, (report s total num at r w).1)
unfolding report
report_ok s total num at r w = ground arith

-- A turn that goes well is the start of the batch and what follows it.
run_batch_world :
    (s : Setup) (total num : ℕ) (at : Time) (r : Round) (w : World)
    → IsGood s r
    → is_cancel_requested s.slot_idx w ≡ false
    → run_batch s total num at r w ≡ follow_batch s total num r (started s total num at r w)
unfolding run_batch
run_batch_world s total num at r w g n =
    rw (n, run_batch, report_ok s total num at r, launch_good s (start_command s num) r _ g)

-- The effect of a turn that goes well. The machine's context is told the number of the batch only
-- if the executor's `context` is still the machine's object.
pub record Effect (s : Setup) (total num : ℕ) (w w' : World) : Type 0 where
  pub state : w'.machine.state ≡ state_after total num
  pub context_ref : w'.machine.context_ref ≡ suc w.machine.context_ref
  pub current_loop : w'.machine.context.current_loop ≡ loops_after s num
  pub current_batch :
      w'.machine.context.current_batch
      ≡ (if w.local_ref == w.machine.context_ref then num else w.machine.context.current_batch)
  pub total_batch : w'.machine.context.total_batch ≡ w.machine.context.total_batch
  pub cancels : w'.cancel_requested ≡ w.cancel_requested
  pub local_ref : w'.local_ref ≡ w.local_ref
  pub commands : w'.commands ≡ w.commands ++ start_command s num ∷ []

-- The executor's `context` is the machine's object, or an older one.
pub record IsShared (w : World) : Type 0 where
  pub older : w.local_ref ≤ w.machine.context_ref
  pub same : w.local_ref ≡ w.machine.context_ref → w.local ≡ w.machine.context

report_fields :
    (s : Setup) (total num : ℕ) (at : Time) (r : Round) (w : World)
    → IsGood s r
    → let w' = (report s total num at r w).1 in
      (w'.machine ≡ w.machine)
      × (w'.cancel_requested ≡ w.cancel_requested)
      × (w'.local_ref ≡ w.local_ref)
      × (w'.commands ≡ w.commands)
unfolding report
report_fields s total num at r w g = elim (Bool-cases s.has_progress) [
  | inl yes_ ↦
      rw (yes_, report) (rw (pause_quiet r.reporting _ g.reporting) (refl, refl, refl, refl))
  | inr no_ ↦ rw (no_, report) (refl, refl, refl, refl)
]

-- The fields that the start of a batch sets.
abbrev pub numbered : Setup → ℕ → World → World
numbered s num w =
    set_local (Field.current_loop (loops_before s num)) (set_local (Field.current_batch num) w)

pub numbered_fields :
    (s : Setup) (num : ℕ) (w : World)
    → IsShared w
    → let w' = numbered s num w in
      (w'.machine.state ≡ w.machine.state)
      × (w'.machine.context_ref ≡ w.machine.context_ref)
      × (w'.machine.context.current_batch
          ≡ (if w.local_ref == w.machine.context_ref then num else w.machine.context.current_batch))
      × (w'.machine.context.total_batch ≡ w.machine.context.total_batch)
      × (w'.cancel_requested ≡ w.cancel_requested)
      × (w'.local_ref ≡ w.local_ref)
      × (w'.commands ≡ w.commands)
unfolding set_local assign
numbered_fields s num w h = elim (Bool-cases (w.local_ref == w.machine.context_ref)) [
  | inl shared ↦
      rw (shared, set_local)
        (rw shared (
          refl,
          refl,
          refl,
          ap (λ (c : SlotContext). c.total_batch) (h.same ((==_iff _ _).0 shared)),
          refl,
          refl,
          refl,
        ))
  | inr apart ↦ rw (apart, set_local) (rw apart (refl, refl, refl, refl, refl, refl, refl))
]

-- A turn that goes well goes on with the loop, with this effect.
pub turn_good :
    (s : Setup) (total num : ℕ) (at : Time) (r : Round) (w : World)
    → IsGood s r
    → IsShared w
    → StartsRun w.machine.state
    → is_cancel_requested s.slot_idx w ≡ false
    → (w' : World) × (run_batch s total num at r w ≡ (ok none, w')) × Effect s total num w w'
unfolding is_cancel_requested
turn_good s total num at r w g shared h n =
    let (f_state, f_ref, f_batch, f_total, f_cancel, f_local, f_commands) =
      numbered_fields s num w shared in
    let (p_machine, p_cancel, p_local, p_commands) =
      report_fields s total num at r (numbered s num w) g in
    let v = started s total num at r w in
    let state : v.machine.state ≡ w.machine.state = rw p_machine f_state in
    let cancel : v.cancel_requested ≡ w.cancel_requested = p_cancel ∙ f_cancel in
    let (w', done, turned) = follow_good s total num r v g (rw state h) (rw cancel n) in
    (
      w',
      run_batch_world s total num at r w g n ∙ done,
      record {
        state = turned.state;
        context_ref = turned.context_ref ∙ ap suc (rw p_machine f_ref);
        current_loop = turned.current_loop;
        current_batch = turned.keeps.current_batch ∙ rw p_machine f_batch;
        total_batch = turned.keeps.total_batch ∙ rw p_machine f_total;
        cancels = turned.keeps.cancels ∙ cancel;
        local_ref = turned.keeps.local_ref ∙ (p_local ∙ f_local);
        commands =
            turned.keeps.commands
            ∙ ap (λ cs. cs ++ start_command s num ∷ []) (p_commands ∙ f_commands);
      },
    )
