-- ===== src/Infrastructure/StateStore.antt =====
-- infrastructure/state_store.py: `InMemoryStateStore`. A slot's index is a natural number; the float
-- `progress` is a number of thousandths, only copied. The lock makes each call one step.
pub mod Refinement
mod Examples
use aio_ss_usb_test_agent.Prelude.{
  ℕ, zero, suc, ltb, if◌then◌else◌, Option, none, some, String, List, [], ◌∷◌,
}
use aio_ss_usb_test_agent.Prelude.Dict.{Dict, get, put, nat_eq}
use aio_ss_usb_test_agent.Domain.Context.{Time}

-- `SlotState` of this file, which is not the state of the slot's machine.
pub record StoredState : Type 0 where
  pub slot_idx : ℕ
  pub status : String
  pub progress : ℕ
  pub current_phase : Option String
  pub test_id : Option String
  pub error_message : Option String
  pub last_updated : Time

-- SlotState(slot_idx=...)
abbrev pub new_state : ℕ → Time → StoredState
new_state slot_idx now = record {
  slot_idx = slot_idx;
  status = "idle";
  progress = 0;
  current_phase = none;
  test_id = none;
  error_message = none;
  last_updated = now;
}

-- The dictionary of an update: which of the keys that are read are in it, with their values.
pub record Update : Type 0 where
  pub status : Option String
  pub progress : Option ℕ
  pub current_phase : Option (Option String)
  pub test_id : Option (Option String)
  pub error_message : Option (Option String)

pub record InMemoryStateStore : Type 0 where
  pub max_slots : ℕ
  pub states : Dict ℕ StoredState

-- for i in range(max_slots): self._states[i] = SlotState(slot_idx=i)
unfoldable pub fill : ℕ → Time → Dict ℕ StoredState → Dict ℕ StoredState
fill zero now d = d
fill (suc n) now d = put (fill n now d) n (new_state n now)

unfoldable pub new_store : ℕ → Time → InMemoryStateStore
unfolding fill
new_store max_slots now = record { max_slots = max_slots; states = fill max_slots now [] }

unfoldable pub get_slot_state : InMemoryStateStore → ℕ → Option StoredState
get_slot_state s slot_idx = get s.states slot_idx

abbrev pub given {ℓ} : {A : Type ℓ} → Option A → A → A
given none old = old
given (some new) old = new

-- Only the fields that the update has are changed.
abbrev pub change : Update → Time → StoredState → StoredState
change u now s = record {
  slot_idx = s.slot_idx;
  status = given u.status s.status;
  progress = given u.progress s.progress;
  current_phase = given u.current_phase s.current_phase;
  test_id = given u.test_id s.test_id;
  error_message = given u.error_message s.error_message;
  last_updated = now;
}

-- self._states.get(slot_idx) or SlotState(slot_idx=slot_idx)
abbrev pub current_or_new : ℕ → Time → Option StoredState → StoredState
current_or_new slot_idx now none = new_state slot_idx now
current_or_new slot_idx now (some s) = s

-- `none` is ValueError.
unfoldable pub set_slot_state : ℕ → Update → Time → InMemoryStateStore → Option InMemoryStateStore
set_slot_state slot_idx u now s =
    if ltb slot_idx s.max_slots
    then some (record s {
      states =
          put s.states slot_idx
            (change u now (current_or_new slot_idx now (get s.states slot_idx)));
    })
    else none

unfoldable pub get_all_states : InMemoryStateStore → Dict ℕ StoredState
get_all_states s = s.states

-- The index is not tested.
unfoldable pub reset_slot : ℕ → Time → InMemoryStateStore → InMemoryStateStore
reset_slot slot_idx now s = record s { states = put s.states slot_idx (new_state slot_idx now) }

unfoldable pub reset_all : Time → InMemoryStateStore → InMemoryStateStore
unfolding fill
reset_all now s = record s { states = fill s.max_slots now s.states }

-- A call of the store.
pub data Call : Type 0 where
  sets : ℕ → Update → Time → Call
  resets : ℕ → Time → Call
  resets_all : Time → Call

-- A call that raises leaves the store as it is.
abbrev pub kept_if_raised : InMemoryStateStore → Option InMemoryStateStore → InMemoryStateStore
kept_if_raised s none = s
kept_if_raised s (some s') = s'

unfoldable pub run_call : InMemoryStateStore → Call → InMemoryStateStore
run_call s (sets i u now) = kept_if_raised s (set_slot_state i u now s)
run_call s (resets i now) = reset_slot i now s
run_call s (resets_all now) = reset_all now s

unfoldable pub run_calls : InMemoryStateStore → List Call → InMemoryStateStore
run_calls s [] = s
run_calls s (c ∷ cs) = run_calls (run_call s c) cs
