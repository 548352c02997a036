-- ===== src/Services/Batch/Turn/Steps.antt =====
-- The steps of a turn that goes well: the start of the batch, and its end.
use aio_ss_usb_test_agent.Prelude.{
  ℕ, suc, ◌≡◌, refl, ◌⊎◌, inl, inr, true, none, some, [], ◌∷◌, ltb, if◌then◌else◌, Bool-cases, All,
  ◌∙◌,
}
use aio_ss_usb_test_agent.Domain.State.{SlotState, SlotEvent}
use aio_ss_usb_test_agent.Domain.Context.{Field, Time}
use aio_ss_usb_test_agent.Domain.Transitions.{edge}
use aio_ss_usb_test_agent.Domain.Machine.{move_to}
use aio_ss_usb_test_agent.Services.World.{World, ok, fire_if_possible}
use aio_ss_usb_test_agent.Services.World.Steps.{IsQuiet, fire_moved, fire_if_moved, fire_if_skipped}
use aio_ss_usb_test_agent.Services.Waiting.Quiet.{quiet_verdict}
use aio_ss_usb_test_agent.Services.Batch.{Setup, Round, returns, finish_batch, loops_after}

-- The controller starts the batch, the polls show that it passes, and no other task runs.
pub record IsGood (s : Setup) (r : Round) : Type 0 where
  pub reporting : IsQuiet r.reporting
  pub launching : IsQuiet r.launching
  pub launch : r.launch ≡ returns true
  pub first_sleep : IsQuiet r.first_sleep
  pub polls : All (λ p. IsQuiet p.before) r.polls
  pub passes : quiet_verdict s.pass_wait_timeout r.began none r.polls ≡ some true

-- The states in which the executor can take the slot to RUNNING or finds it there.
abbrev pub StartsRun : SlotState → Type 0
StartsRun t = (t ≡ SlotState.configuring) ⊎ (t ≡ SlotState.running)

-- What a part of the execution leaves alone.
pub record Keeps (w w' : World) : Type 0 where
  pub cancels : w'.cancel_requested ≡ w.cancel_requested
  pub local_ref : w'.local_ref ≡ w.local_ref
  pub local : w'.local ≡ w.local
  pub commands : w'.commands ≡ w.commands
  pub progress : w'.progress ≡ w.progress
  pub current_batch : w'.machine.context.current_batch ≡ w.machine.context.current_batch
  pub total_batch : w'.machine.context.total_batch ≡ w.machine.context.total_batch

pub Keeps-trans : {u v w : World} → Keeps u v → Keeps v w → Keeps u w
Keeps-trans a b = record {
  cancels = b.cancels ∙ a.cancels;
  local_ref = b.local_ref ∙ a.local_ref;
  local = b.local ∙ a.local;
  commands = b.commands ∙ a.commands;
  progress = b.progress ∙ a.progress;
  current_batch = b.current_batch ∙ a.current_batch;
  total_batch = b.total_batch ∙ a.total_batch;
}

pub Keeps-clock : {w v : World} (c : Time) → Keeps w v → Keeps w (record v { clock = c })
Keeps-clock c k = record {
  cancels = k.cancels;
  local_ref = k.local_ref;
  local = k.local;
  commands = k.commands;
  progress = k.progress;
  current_batch = k.current_batch;
  total_batch = k.total_batch;
}

pub run_step :
    (w : World)
    → StartsRun w.machine.state
    → (w' : World) × (fire_if_possible SlotEvent.run [] none w ≡ (ok tt, w'))
      × (w'.machine.state ≡ SlotState.running)
      × (w'.machine.context_ref ≡ w.machine.context_ref)
      × Keeps w w'
unfolding edge move_to
run_step w (inl h) = (
  record w { machine = move_to SlotState.running SlotEvent.run [] none w.clock w.machine },
  fire_if_moved SlotEvent.run [] none w SlotState.running (rw h),
  refl,
  refl,
  record {
    cancels = refl;
    local_ref = refl;
    local = refl;
    commands = refl;
    progress = refl;
    current_batch = refl;
    total_batch = refl;
  },
)
run_step w (inr h) = (
  w,
  fire_if_skipped SlotEvent.run [] none w (rw h),
  h,
  refl,
  record {
    cancels = refl;
    local_ref = refl;
    local = refl;
    commands = refl;
    progress = refl;
    current_batch = refl;
    total_batch = refl;
  },
)

-- The state after a batch that has passed.
abbrev pub state_after : ℕ → ℕ → SlotState
state_after total num = if ltb num total then SlotState.configuring else SlotState.waiting

-- The world after BATCH_COMPLETE.
abbrev completed_batch : Setup → ℕ → World → World
completed_batch s num w = record w {
  machine =
      move_to SlotState.waiting SlotEvent.batch_complete
        (Field.current_loop (loops_after s num) ∷ []) none w.clock w.machine;
}

-- The world after the end of a batch.
abbrev pub finished : Setup → ℕ → ℕ → World → World
finished s total num w =
    let w1 = completed_batch s num w in
    if ltb num total
    then record w1 {
      machine = move_to SlotState.configuring SlotEvent.batch_next [] none w1.clock w1.machine;
    }
    else w1

pub finish_world :
    (s : Setup) (total num : ℕ) (w : World)
    → w.machine.state ≡ SlotState.running
    → finish_batch s total num w ≡ (ok none, finished s total num w)
unfolding edge move_to finish_batch
finish_world s total num w h =
    rw
      (
        fire_moved SlotEvent.batch_complete (Field.current_loop (loops_after s num) ∷ []) none w
            SlotState.waiting (rw h),
        finish_batch,
      )
      (elim (Bool-cases (ltb num total)) [
        | inl more ↦ rw (
          more,
          fire_moved SlotEvent.batch_next [] none (completed_batch s num w) SlotState.configuring
              refl,
        )
        | inr last ↦ rw last
      ])

pub finish_fields :
    (s : Setup) (total num : ℕ) (w : World)
    → let w' = finished s total num w in
      (w'.machine.state ≡ state_after total num)
      × (w'.machine.context_ref ≡ suc w.machine.context_ref)
      × (w'.machine.context.current_loop ≡ loops_after s num)
      × Keeps w w'
unfolding move_to
finish_fields s total num w = elim (Bool-cases (ltb num total)) [
  | inl more ↦ rw more (
    refl,
    refl,
    refl,
    record {
      cancels = refl;
      local_ref = refl;
      local = refl;
      commands = refl;
      progress = refl;
      current_batch = refl;
      total_batch = refl;
    },
  )
  | inr last ↦ rw last (
    refl,
    refl,
    refl,
    record {
      cancels = refl;
      local_ref = refl;
      local = refl;
      commands = refl;
      progress = refl;
      current_batch = refl;
      total_batch = refl;
    },
  )
]
