-- ===== src/Services/StateMonitor/Locality.antt =====
-- A poll of a slot leaves what the monitor knows of the other slots, and its settings.
use aio_ss_usb_test_agent.Prelude.{
  ℕ, ◌≡◌, refl, ◌≢◌, ◌∙◌, ◌+◌, ◌-◌, leb, ◌==◌, Bool, true, false, Option, none, some, under_if,
  List, All, arith,
}
use aio_ss_usb_test_agent.Prelude.Dict.{Dict, get, put, pop, get-put, get-pop, nat_eq}
use aio_ss_usb_test_agent.Domain.Context.{Time}
use aio_ss_usb_test_agent.Infrastructure.StateStore.{
  StoredState, InMemoryStateStore, get_slot_state,
}
use aio_ss_usb_test_agent.Services.StateMonitor.{
  StateMonitor, SlotSnapshot, Told, report_hang, check_duration, check_hang, save_state,
  note_progress, set_last_change, tell_change, poll_state, poll_slot_state, is_at_work,
  detect_change, key_differs, snapshot,
}

-- What a call of a callback says of slot i is about it alone.
abbrev pub IsAbout : ℕ → Told → Type 0
IsAbout i (Told.changed_to s) = s.slot_idx ≡ i
IsAbout i (Told.hung j d) = j ≡ i

pub record Leaves (i : ℕ) (m m' : StateMonitor) : Type 0 where
  pub same_max : m'.max_slots ≡ m.max_slots
  pub same_on_change : m'.on_change ≡ m.on_change
  pub same_on_hang : m'.on_hang_detected ≡ m.on_hang_detected
  pub same_threshold : m'.hang_threshold_seconds ≡ m.hang_threshold_seconds
  pub same_times : (j : ℕ) → i ≢ j → get m'.last_progress_change j ≡ get m.last_progress_change j
  pub same_states : (j : ℕ) → i ≢ j → get m'.previous_states j ≡ get m.previous_states j

pub Leaves-refl : (i : ℕ) (m : StateMonitor) → Leaves i m m
Leaves-refl i m = record {
  same_max = refl;
  same_on_change = refl;
  same_on_hang = refl;
  same_threshold = refl;
  same_times = λ j n. refl;
  same_states = λ j n. refl;
}

Leaves-trans : (i : ℕ) {m m' m'' : StateMonitor} → Leaves i m m' → Leaves i m' m'' → Leaves i m m''
Leaves-trans i h k = record {
  same_max = k.same_max ∙ h.same_max;
  same_on_change = k.same_on_change ∙ h.same_on_change;
  same_on_hang = k.same_on_hang ∙ h.same_on_hang;
  same_threshold = k.same_threshold ∙ h.same_threshold;
  same_times = λ j n. k.same_times j n ∙ h.same_times j n;
  same_states = λ j n. k.same_states j n ∙ h.same_states j n;
}

get-put-other : {V : Type 0} (d : Dict ℕ V) (i j : ℕ) (v : V) → i ≢ j → get (put d i v) j ≡ get d j
get-put-other d i j v n = ground (arith, get-put d i j v)

get-pop-other : {V : Type 0} (d : Dict ℕ V) (i j : ℕ) → i ≢ j → get (pop d i) j ≡ get d j
get-pop-other d i j n = ground (arith, get-pop d i j)

change_times-Leaves :
    (i : ℕ) (m : StateMonitor) (d : Dict ℕ Time)
    → ((j : ℕ) → i ≢ j → get d j ≡ get m.last_progress_change j)
    → Leaves i m (record m { last_progress_change = d })
change_times-Leaves i m d h = record {
  same_max = refl;
  same_on_change = refl;
  same_on_hang = refl;
  same_threshold = refl;
  same_times = h;
  same_states = λ j n. refl;
}

change_states-Leaves :
    (i : ℕ) (m : StateMonitor) (d : Dict ℕ StoredState)
    → ((j : ℕ) → i ≢ j → get d j ≡ get m.previous_states j)
    → Leaves i m (record m { previous_states = d })
change_states-Leaves i m d h = record {
  same_max = refl;
  same_on_change = refl;
  same_on_hang = refl;
  same_threshold = refl;
  same_times = λ j n. refl;
  same_states = h;
}

set_last_change-Leaves :
    (i : ℕ) (now : Time) (m : StateMonitor) → Leaves i m (set_last_change i now m)
set_last_change-Leaves i now m =
    change_times-Leaves i m (put m.last_progress_change i now)
      (λ j n. get-put-other m.last_progress_change i j now n)

abbrev Kept : ℕ → StateMonitor → StateMonitor × List Told × Bool → Type 0
Kept i m (m', told, b) = Leaves i m m' × All (IsAbout i) told

abbrev pub Local : ℕ → StateMonitor → StateMonitor × List Told → Type 0
Local i m (m', told) = Leaves i m m' × All (IsAbout i) told

report_hang-Kept :
    (i : ℕ) (now d : Time) (m : StateMonitor) (o : Option (ℕ → Time → Bool))
    → Kept i m (report_hang i now d m o)
report_hang-Kept i now d m none = (set_last_change-Leaves i now m, tt)
report_hang-Kept i now d m (some f) =
    under_if (Kept i m) (f i d) (λ _. (set_last_change-Leaves i now m, (refl, tt)))
      (λ _. (Leaves-refl i m, (refl, tt)))

check_duration-Kept :
    (i : ℕ) (now : Time) (m : StateMonitor) (o : Option Time) → Kept i m (check_duration i now m o)
check_duration-Kept i now m none = (set_last_change-Leaves i now m, tt)
check_duration-Kept i now m (some t) =
    under_if (Kept i m) (leb (t + m.hang_threshold_seconds) now)
      (λ _. report_hang-Kept i now (now - t) m m.on_hang_detected) (λ _. (Leaves-refl i m, tt))

check_hang-Kept :
    (i : ℕ) (s : StoredState) (now : Time) (m : StateMonitor) → Kept i m (check_hang i s now m)
unfolding check_hang
check_hang-Kept i s now m =
    under_if (Kept i m) (is_at_work s.status)
      (λ _. check_duration-Kept i now m (get m.last_progress_change i))
      (λ _. (
        change_times-Leaves i m (pop m.last_progress_change i)
            (λ j n. get-pop-other m.last_progress_change i j n),
        tt,
      ))

save_state-Local :
    (i : ℕ) (s : StoredState) (m : StateMonitor) (r : StateMonitor × List Told × Bool)
    → Kept i m r
    → Local i m (save_state i s r)
save_state-Local i s m (m', told, true) h = (
  Leaves-trans i h.0 (
      change_states-Leaves i m' (put m'.previous_states i s)
        (λ j n. get-put-other m'.previous_states i j s n)),
  h.1,
)
save_state-Local i s m (m', told, false) h = h

pub note_progress-Leaves :
    (i : ℕ) (s : StoredState) (p : Option StoredState) (now : Time) (m : StateMonitor)
    → Leaves i m (note_progress i s p now m)
note_progress-Leaves i s p now m =
    under_if (Leaves i m) (key_differs ◌==◌ (λ s. some s.progress) s p)
      (λ _. set_last_change-Leaves i now m) (λ _. Leaves-refl i m)

check_noted-Local :
    (i : ℕ) (s : StoredState) (p : Option StoredState) (now : Time) (m : StateMonitor)
    → Local i m (save_state i s (check_hang i s now (note_progress i s p now m)))
check_noted-Local i s p now m =
    let noted = note_progress i s p now m in
    let checked = check_hang-Kept i s now noted in
    save_state-Local i s m (check_hang i s now noted)
      (Leaves-trans i (note_progress-Leaves i s p now m) checked.0, checked.1)

tell_change-Local :
    (i : ℕ) (s : StoredState) (p : Option StoredState) (now : Time) (m : StateMonitor)
    (o : Option (SlotSnapshot → Bool))
    → Local i m (tell_change i s p now m o)
unfolding tell_change
tell_change-Local i s p now m none = check_noted-Local i s p now m
tell_change-Local i s p now m (some f) =
    let noted = check_noted-Local i s p now m in
    under_if (Local i m) (f (snapshot i true s)) (λ _. (noted.0, (refl, noted.1)))
      (λ _. (Leaves-refl i m, (refl, tt)))

pub poll_slot_state-Local :
    (i : ℕ) (now : Time) (store : InMemoryStateStore) (m : StateMonitor)
    → Local i m (poll_slot_state i now store m)
unfolding poll_slot_state poll_state
poll_slot_state-Local i now store m = poll_state-Local (get_slot_state store i)
  where
    poll_state-Local : (o : Option StoredState) → Local i m (poll_state i now m o)
    poll_state-Local none = (Leaves-refl i m, tt)
    poll_state-Local (some s) =
        under_if (Local i m) (detect_change s (get m.previous_states i))
          (λ _. tell_change-Local i s (get m.previous_states i) now m m.on_change)
          (λ _. save_state-Local i s m (check_hang i s now m) (check_hang-Kept i s now m))
