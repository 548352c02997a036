-- ===== src/Services/StateMonitor.antt =====
-- services/state_monitor.py: `StateMonitor`. A time is that of the monotonic clock. A callback is the
-- function that says whether the call returns (true) or raises (false). What is told to the callbacks
-- is the list of their calls, in order. The log is left out.
pub mod Hangs
mod Locality
mod Stalling
mod Examples
use aio_ss_usb_test_agent.Prelude.{
  ℕ, zero, suc, ◌+◌, ◌-◌, leb, ◌==◌, if◌then◌else◌, Bool, true, false, not, ◌||◌, Option, none,
  some, String, str_eq, List, [], ◌∷◌, ◌++◌,
}
use aio_ss_usb_test_agent.Prelude.Dict.{Dict, get, put, pop, nat_eq}
use aio_ss_usb_test_agent.Domain.Context.{Time}
use aio_ss_usb_test_agent.Infrastructure.StateStore.{
  StoredState, InMemoryStateStore, get_slot_state,
}

pub record SlotSnapshot : Type 0 where
  pub slot_idx : ℕ
  pub status : String
  pub progress : ℕ
  pub current_phase : Option String
  pub is_changed : Bool

abbrev pub snapshot : ℕ → Bool → StoredState → SlotSnapshot
snapshot slot_idx is_changed s = record {
  slot_idx = slot_idx;
  status = s.status;
  progress = s.progress;
  current_phase = s.current_phase;
  is_changed = is_changed;
}

pub record StateMonitor : Type 0 where
  pub max_slots : ℕ
  pub is_running : Bool
  pub has_task : Bool
  pub previous_states : Dict ℕ StoredState
  pub on_change : Option (SlotSnapshot → Bool)
  pub on_hang_detected : Option (ℕ → Time → Bool)
  pub last_progress_change : Dict ℕ Time
  pub hang_threshold_seconds : Time

unfoldable pub new_state_monitor : ℕ → StateMonitor
new_state_monitor max_slots = record {
  max_slots = max_slots;
  is_running = false;
  has_task = false;
  previous_states = [];
  on_change = none;
  on_hang_detected = none;
  last_progress_change = [];
  hang_threshold_seconds = 300;
}

unfoldable pub set_change_callback : (SlotSnapshot → Bool) → StateMonitor → StateMonitor
set_change_callback f m = record m { on_change = some f }

unfoldable pub set_hang_callback : (ℕ → Time → Bool) → Time → StateMonitor → StateMonitor
set_hang_callback f threshold m = record m {
  on_hang_detected = some f;
  hang_threshold_seconds = threshold;
}

unfoldable pub start : StateMonitor → StateMonitor
start m = if m.is_running then m else record m { is_running = true; has_task = true }

unfoldable pub stop : StateMonitor → StateMonitor
stop m = record m { is_running = false; has_task = false }

-- A call of a callback.
pub data Told : Type 0 where
  changed_to : SlotSnapshot → Told
  hung : ℕ → Time → Told

-- Python's `==` of values that may be None.
abbrev pub same {ℓ} : {A : Type ℓ} → (A → A → Bool) → Option A → Option A → Bool
same eq none none = true
same eq none (some b) = false
same eq (some a) none = false
same eq (some a) (some b) = eq a b

-- What `get` reads of the previous state, which is an empty dictionary at first.
abbrev pub read {ℓ} : {A : Type ℓ} → (StoredState → Option A) → Option StoredState → Option A
read key none = none
read key (some s) = key s

abbrev pub key_differs {ℓ} :
    {A : Type ℓ}
    → (A → A → Bool)
    → (StoredState → Option A)
    → StoredState
    → Option StoredState
    → Bool
key_differs eq key current previous = not (same eq (key current) (read key previous))

unfoldable pub detect_change : StoredState → Option StoredState → Bool
detect_change current previous =
    key_differs str_eq (λ s. some s.status) current previous
    || (key_differs ◌==◌ (λ s. some s.progress) current previous
        || (key_differs str_eq (λ s. s.current_phase) current previous
            || key_differs str_eq (λ s. s.error_message) current previous))

unfoldable pub is_at_work : String → Bool
is_at_work status = str_eq status "running" || str_eq status "processing"

abbrev pub set_last_change : ℕ → Time → StateMonitor → StateMonitor
set_last_change slot_idx now m = record m {
  last_progress_change = put m.last_progress_change slot_idx now;
}

-- The call of the callback, and the reset of the time, which a callback that raises prevents.
abbrev pub report_hang :
    ℕ → Time → Time → StateMonitor → Option (ℕ → Time → Bool) → StateMonitor × List Told × Bool
report_hang slot_idx now duration m none = (set_last_change slot_idx now m, [], true)
report_hang slot_idx now duration m (some f) =
    if f slot_idx duration
    then (set_last_change slot_idx now m, Told.hung slot_idx duration ∷ [], true)
    else (m, Told.hung slot_idx duration ∷ [], false)

abbrev pub check_duration : ℕ → Time → StateMonitor → Option Time → StateMonitor × List Told × Bool
check_duration slot_idx now m none = (set_last_change slot_idx now m, [], true)
check_duration slot_idx now m (some last_change) =
    if leb (last_change + m.hang_threshold_seconds) now
    then report_hang slot_idx now (now - last_change) m m.on_hang_detected
    else (m, [], true)

unfoldable pub check_hang : ℕ → StoredState → Time → StateMonitor → StateMonitor × List Told × Bool
check_hang slot_idx s now m =
    if is_at_work s.status
    then check_duration slot_idx now m (get m.last_progress_change slot_idx)
    else (record m { last_progress_change = pop m.last_progress_change slot_idx }, [], true)

-- self._previous_states[slot_idx] = ..., which is not reached after an exception.
abbrev pub save_state : ℕ → StoredState → StateMonitor × List Told × Bool → StateMonitor × List Told
save_state slot_idx s (m, told, true) =
    (record m { previous_states = put m.previous_states slot_idx s }, told)
save_state slot_idx s (m, told, false) = (m, told)

abbrev pub note_progress : ℕ → StoredState → Option StoredState → Time → StateMonitor → StateMonitor
note_progress slot_idx s previous now m =
    if key_differs ◌==◌ (λ s. some s.progress) s previous then set_last_change slot_idx now m else m

abbrev pub after_telling : List Told → StateMonitor × List Told → StateMonitor × List Told
after_telling told (m, more) = (m, told ++ more)

-- The change is told, if there is a callback. If it raises, the rest of the poll is skipped.
unfoldable pub tell_change :
    ℕ
    → StoredState
    → Option StoredState
    → Time
    → StateMonitor
    → Option (SlotSnapshot → Bool)
    → StateMonitor × List Told
unfolding check_hang
tell_change slot_idx s previous now m none =
    save_state slot_idx s (check_hang slot_idx s now (note_progress slot_idx s previous now m))
tell_change slot_idx s previous now m (some f) =
    if f (snapshot slot_idx true s)
    then after_telling (Told.changed_to (snapshot slot_idx true s) ∷ []) (
        save_state slot_idx s (check_hang slot_idx s now (note_progress slot_idx s previous now m)))
    else (m, Told.changed_to (snapshot slot_idx true s) ∷ [])

unfoldable pub poll_state : ℕ → Time → StateMonitor → Option StoredState → StateMonitor × List Told
unfolding tell_change
poll_state slot_idx now m none = (m, [])
poll_state slot_idx now m (some s) =
    let previous = get m.previous_states slot_idx in
    if detect_change s previous
    then tell_change slot_idx s previous now m m.on_change
    else save_state slot_idx s (check_hang slot_idx s now m)

unfoldable pub poll_slot_state :
    ℕ → Time → InMemoryStateStore → StateMonitor → StateMonitor × List Told
unfolding poll_state
poll_slot_state slot_idx now store m = poll_state slot_idx now m (get_slot_state store slot_idx)

-- for slot_idx in range(first, first + n)
unfoldable pub poll_range :
    ℕ → ℕ → Time → InMemoryStateStore → StateMonitor → StateMonitor × List Told
unfolding poll_slot_state
poll_range zero first now store m = (m, [])
poll_range (suc n) first now store m =
    let polled = poll_slot_state first now store m in
    after_telling polled.1 (poll_range n (suc first) now store polled.0)

unfoldable pub poll_states : Time → InMemoryStateStore → StateMonitor → StateMonitor × List Told
unfolding poll_range
poll_states now store m = poll_range m.max_slots 0 now store m

unfoldable pub get_snapshot : ℕ → InMemoryStateStore → Option SlotSnapshot
get_snapshot slot_idx store = elim (get_slot_state store slot_idx) [
  | none ↦ none
  | some s ↦ some (snapshot slot_idx false s)
]

abbrev pub append_snapshot : Option SlotSnapshot → List SlotSnapshot
append_snapshot none = []
append_snapshot (some s) = s ∷ []

-- for slot_idx in range(n): the snapshots that there are
unfoldable pub get_all_snapshots : ℕ → InMemoryStateStore → List SlotSnapshot
unfolding get_snapshot
get_all_snapshots zero store = []
get_all_snapshots (suc n) store =
    get_all_snapshots n store ++ append_snapshot (get_snapshot n store)
