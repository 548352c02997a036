-- ===== src/Services/Batch/Completion/Loop.antt =====
-- The loop over the batches, where every batch goes well.
use aio_ss_usb_test_agent.Prelude.{
  ℕ, zero, suc, ◌+◌, ◌*◌, ◌≤◌, ◌<◌, ◌==◌, ◌≡◌, refl, inl, true, false, none, List, [], ◌∷◌, ◌++◌,
  arith, if◌then◌else◌, sym, ◌∙◌, ap, append_assoc, append-nil,
}
use aio_ss_usb_test_agent.Prelude.Dict.{nat_eq}
use aio_ss_usb_test_agent.Domain.State.{SlotState, SlotEvent}
use aio_ss_usb_test_agent.Domain.Context.{Time}
use aio_ss_usb_test_agent.Domain.Transitions.{edge}
use aio_ss_usb_test_agent.Domain.Machine.{move_to}
use aio_ss_usb_test_agent.Services.World.{World, ok, Command, is_cancel_requested}
use aio_ss_usb_test_agent.Services.World.Steps.{fire_moved, cancel_same}
use aio_ss_usb_test_agent.Services.Batch.{
  Setup, Round, batches, run_batch, ceil_div, loops_after, start_command,
}
use aio_ss_usb_test_agent.Services.Batch.Turn.{IsGood, IsShared, StartsRun, Effect, turn_good}

pub ceil_covers : (a b : ℕ) → 0 < b → a ≤ ceil_div a b * b
ceil_covers a b h = grind arith

pub ceil_tight : (a b : ℕ) → 0 < b → ceil_div a b * b < a + b
ceil_tight a b h = grind arith

pub ceil_positive : (a b : ℕ) → 0 < b → 0 < a → 0 < ceil_div a b
ceil_positive a b h k = grind arith

-- The first rounds go well, one for each batch.
abbrev pub AllGood : Setup → ℕ → List Round → Type 0
AllGood s zero rs = Unit {0}
AllGood s (suc n) [] = ⊥
AllGood s (suc n) (r ∷ rs) = IsGood s r × AllGood s n rs

-- The calls of the controller for the batches after `num` of them.
abbrev pub commands_from : Setup → ℕ → ℕ → List Command
commands_from s num zero = []
commands_from s num (suc left) = start_command s (num + 1) ∷ commands_from s (num + 1) left

-- The states at the head of the loop.
abbrev pub AtHead : ℕ → SlotState → Type 0
AtHead zero t = t ≡ SlotState.waiting
AtHead (suc left) t = StartsRun t

-- What the machine's context says of the batch at the end: only the first turn can tell it.
abbrev pub batch_told : ℕ → ℕ → World → ℕ
batch_told zero num w = w.machine.context.current_batch
batch_told (suc left) num w =
    if w.local_ref == w.machine.context_ref then num + 1 else w.machine.context.current_batch

abbrev pub loop_told : Setup → ℕ → ℕ → World → ℕ
loop_told s total zero w = w.machine.context.current_loop
loop_told s total (suc left) w = loops_after s total

pub record IsDone (s : Setup) (total left num : ℕ) (w w' : World) : Type 0 where
  pub state : w'.machine.state ≡ SlotState.completed
  pub current_loop : w'.machine.context.current_loop ≡ loop_told s total left w
  pub current_batch : w'.machine.context.current_batch ≡ batch_told left num w
  pub total_batch : w'.machine.context.total_batch ≡ w.machine.context.total_batch
  pub commands : w'.commands ≡ w.commands ++ commands_from s num left

batches-IsDone :
    (s : Setup) (total num : ℕ) (at : Time) (rs : List Round) (w : World)
    → w.machine.state ≡ SlotState.waiting
    → (w' : World) × (batches s total zero num at rs w ≡ (ok true, w'))
      × IsDone s total zero num w w'
unfolding batches edge move_to
batches-IsDone s total num at rs w h = (
  record w {
    machine = move_to SlotState.completed SlotEvent.all_batches_done [] none w.clock w.machine;
  },
  rw (fire_moved SlotEvent.all_batches_done [] none w SlotState.completed (rw h), batches),
  record {
    state = refl;
    current_loop = refl;
    current_batch = refl;
    total_batch = refl;
    commands = sym (append-nil _);
  },
)

batches_step :
    (s : Setup) (total left num : ℕ) (at : Time) (r : Round) (rs : List Round) (w w1 : World)
    → run_batch s total (num + 1) at r w ≡ (ok none, w1)
    → batches s total (suc left) num at (r ∷ rs) w ≡ batches s total left (num + 1) at rs w1
unfolding batches
batches_step s total left num at r rs w w1 h = rw (h, batches)

module _ (s : Setup) (total num : ℕ) (w w1 : World) (e : Effect s total (num + 1) w w1) where
  next_head : (left : ℕ) → num + suc left ≡ total → AtHead left w1.machine.state
  next_head zero h = ground (arith, e.state)
  next_head (suc left) h = inl (ground (arith, e.state))

  next-IsShared : IsShared w → IsShared w1
  next-IsShared h = record {
    older = omega (arith, e.local_ref, e.context_ref, h.older);
    same = λ x. absurd (omega (arith, e.local_ref, e.context_ref, h.older, x));
  }

  next_commands :
      (left : ℕ) (w' : World)
      → IsDone s total left (num + 1) w1 w'
      → w'.commands ≡ w.commands ++ commands_from s num (suc left)
  next_commands left w' d =
      d.commands
      ∙ (ap (λ cs. cs ++ commands_from s (num + 1) left) e.commands ∙ append_assoc w.commands _ _)

  next-IsDone :
      (left : ℕ) (w' : World)
      → num + suc left ≡ total
      → IsShared w
      → IsDone s total left (num + 1) w1 w'
      → IsDone s total (suc left) num w w'
  next-IsDone zero w' h shared d = record {
    state = d.state;
    current_loop = d.current_loop ∙ (e.current_loop ∙ ap (loops_after s) h);
    current_batch = d.current_batch ∙ e.current_batch;
    total_batch = d.total_batch ∙ e.total_batch;
    commands = next_commands zero w' d;
  }
  next-IsDone (suc left) w' h shared d = record {
    state = d.state;
    current_loop = d.current_loop;
    current_batch =
        ground (arith, d.current_batch, e.current_batch, e.local_ref, e.context_ref, shared.older);
    total_batch = d.total_batch ∙ e.total_batch;
    commands = next_commands (suc left) w' d;
  }

pub batches_good :
    (s : Setup) (total left num : ℕ) (at : Time) (rs : List Round) (w : World)
    → num + left ≡ total
    → AllGood s left rs
    → IsShared w
    → AtHead left w.machine.state
    → is_cancel_requested s.slot_idx w ≡ false
    → (w' : World) × (batches s total left num at rs w ≡ (ok true, w'))
      × IsDone s total left num w w'
batches_good s total zero num at rs w h g shared head n = batches-IsDone s total num at rs w head
batches_good s total (suc left) num at [] w h g shared head n = absurd g
batches_good s total (suc left) num at (r ∷ rs) w h g shared head n =
    let (w1, done, e) = turn_good s total (num + 1) at r w g.0 shared head n in
    let (w', rest, d) =
      batches_good s total left (num + 1) at rs w1 (omega (arith, h)) g.1
        (next-IsShared s total num w w1 e shared) (next_head s total num w w1 e left h)
        (cancel_same s.slot_idx w w1 false e.cancels n) in
    (
      w',
      batches_step s total left num at r rs w w1 done ∙ rest,
      next-IsDone s total num w w1 e left w' h shared d,
    )
