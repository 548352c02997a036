-- ===== src/Services/StateMonitor/Stalling.antt =====
-- What the time of the last change of a slot's progress says of the polls since then.
use mathlib.Core.Path.{subst}
use aio_ss_usb_test_agent.Prelude.{
  ℕ, ◌+◌, ◌-◌, ◌≤◌, ◌≡◌, refl, sym, ◌⊎◌, inl, inr, leb, ◌==◌, Bool, true, false, Option, none, some,
  Option-cases, under_if, List, [], ◌∷◌, All, arith,
}
use aio_ss_usb_test_agent.Prelude.Dict.{Dict, get, put, pop, get-put, get-pop, nat_eq}
use aio_ss_usb_test_agent.Domain.Context.{Time}
use aio_ss_usb_test_agent.Infrastructure.StateStore.{
  StoredState, InMemoryStateStore, get_slot_state,
}
use aio_ss_usb_test_agent.Services.StateMonitor.{
  StateMonitor, SlotSnapshot, Told, report_hang, check_duration, check_hang, save_state,
  note_progress, set_last_change, tell_change, poll_state, poll_slot_state, is_at_work,
  detect_change, key_differs, snapshot,
}

-- A poll: its time, and the store that it reads.
abbrev pub Poll : Type 0
Poll = Time × InMemoryStateStore

-- A poll shows the slot at work at a progress, or does not show it.
abbrev pub ShowsAt : ℕ → Option StoredState → Type 0
ShowsAt p none = Unit
ShowsAt p (some s) = (s.progress ≡ p) × (is_at_work s.status ≡ true)

-- One of the polls, the last first, was at the time t, and it and all later ones show the slot at work
-- at the progress p.
abbrev pub Stalled : ℕ → ℕ → Time → List Poll → Type 0
Stalled i p t [] = ⊥
Stalled i p t ((now, store) ∷ before) =
    ShowsAt p (get_slot_state store i) × ((now ≡ t) ⊎ Stalled i p t before)

-- Whatever slot has a last change of its progress, the polls since then show that it stood still.
unfoldable pub Tracks : ℕ → List Poll → Option Time → Option StoredState → Type 0
Tracks i h none previous = Unit
Tracks i h (some t) none = ⊥
Tracks i h (some t) (some s) = Stalled i s.progress t h

-- A callback that raises at no call.
abbrev pub Returns {ℓ} : {A : Type ℓ} → Option (A → Bool) → Type ℓ
Returns none = Unit
Returns (some f) = (a : _) → f a ≡ true

abbrev pub Returns2 : Option (ℕ → Time → Bool) → Type 0
Returns2 none = Unit
Returns2 (some f) = (i : ℕ) (d : Time) → f i d ≡ true

-- Some time t: the duration of a hang that is told at `now` is the time since t.
abbrev pub Since : (Time → Type 0) → Time → Time → Time → Type 0
Since P threshold now d = (t : Time) × ((t + d ≡ now) × ((threshold ≤ d) × P t))

abbrev pub Explained : (Time → Type 0) → Time → Time → Told → Type 0
Explained P threshold now (Told.changed_to s) = Unit
Explained P threshold now (Told.hung j d) = Since P threshold now d

abbrev Each : (Time → Type 0) → Option Time → Type 0
Each P none = Unit
Each P (some t) = P t

get-put-same : {V : Type 0} (d : Dict ℕ V) (i : ℕ) (v : V) → get (put d i v) i ≡ some v
get-put-same d i v = ground (arith, get-put d i i v)

get-pop-same : {V : Type 0} (d : Dict ℕ V) (i : ℕ) → get (pop d i) i ≡ none
get-pop-same d i = ground (arith, get-pop d i i)

-- One slot, at one time, with what is to be known of the time of its last change.
module _ (i : ℕ) (now : Time) (P : Time → Type 0) where
  Checked : Time → StateMonitor × List Told × Bool → Type 0
  Checked threshold (m', told, b) =
      (b ≡ true) × (Each P (get m'.last_progress_change i) × All (Explained P threshold now) told)

  Each-set : (m : StateMonitor) → P now → Each P (get (put m.last_progress_change i now) i)
  Each-set m at_now = rw (get-put-same m.last_progress_change i now) at_now

  report_hang-Checked :
      (t : Time) (m : StateMonitor) (o : Option (ℕ → Time → Bool))
      → P now
      → P t
      → t + m.hang_threshold_seconds ≤ now
      → Returns2 o
      → Checked m.hang_threshold_seconds (report_hang i now (now - t) m o)
  unfolding Checked
  report_hang-Checked t m none at_now at_t late returns = (refl, (Each-set m at_now, tt))
  report_hang-Checked t m (some f) at_now at_t late returns =
      rw (returns i (now - t))
        (refl, (Each-set m at_now, ((t, (omega arith, (omega arith, at_t))), tt)))

  check_duration-Checked :
      (m : StateMonitor) (o : Option Time)
      → P now
      → Each P o
      → get m.last_progress_change i ≡ o
      → Returns2 m.on_hang_detected
      → Checked m.hang_threshold_seconds (check_duration i now m o)
  unfolding Checked
  check_duration-Checked m none at_now at_t e returns = (refl, (Each-set m at_now, tt))
  check_duration-Checked m (some t) at_now at_t e returns =
      under_if (Checked m.hang_threshold_seconds) (leb (t + m.hang_threshold_seconds) now)
        (λ late. report_hang-Checked t m m.on_hang_detected at_now at_t (ground arith) returns)
        (λ _. (refl, (rw e at_t, tt)))

  check_hang-Checked :
      (s : StoredState) (m : StateMonitor)
      → (is_at_work s.status ≡ true → P now)
      → (is_at_work s.status ≡ true → Each P (get m.last_progress_change i))
      → Returns2 m.on_hang_detected
      → Checked m.hang_threshold_seconds (check_hang i s now m)
  unfolding Checked check_hang
  check_hang-Checked s m at_now at_t returns =
      under_if (Checked m.hang_threshold_seconds) (is_at_work s.status)
        (λ w.
          check_duration-Checked m (get m.last_progress_change i) (at_now w) (at_t w) refl returns)
        (λ _. (refl, (rw (get-pop-same m.last_progress_change i) tt, tt)))

-- What a poll of slot i leaves and tells, when it is the last one of h.
unfoldable pub Watched : ℕ → List Poll → Time → Time → StateMonitor × List Told → Type 0
unfolding Tracks
Watched i h threshold now (m', told) =
    Tracks i h (get m'.last_progress_change i) (get m'.previous_states i)
    × All (Explained (λ t. (p : ℕ) × Stalled i p t h) threshold now) told

unchanged_progress :
    (s : StoredState) (o : Option StoredState)
    → detect_change s o ≡ false
    → key_differs ◌==◌ (λ s. some s.progress) s o ≡ false
unfolding detect_change
unchanged_progress s o e = ground (arith, e)

module _ (i : ℕ) (now : Time) (store : InMemoryStateStore) (s : StoredState)
    (shown : get_slot_state store i ≡ some s) (h : List Poll) where
  abbrev StalledHere : Time → Type 0
  StalledHere t = Stalled i s.progress t ((now, store) ∷ h)

  StalledHere-now : is_at_work s.status ≡ true → StalledHere now
  StalledHere-now w = (rw shown (refl, w), inl refl)

  StalledHere-Tracks :
      (o : Option Time) (p : Option StoredState)
      → Tracks i h o p
      → key_differs ◌==◌ (λ s. some s.progress) s p ≡ false
      → is_at_work s.status ≡ true
      → Each StalledHere o
  unfolding Tracks
  StalledHere-Tracks none p k e w = tt
  StalledHere-Tracks (some t) none k e w = absurd k
  StalledHere-Tracks (some t) (some q) k e w =
      (rw shown (refl, w), inr (subst (λ p. Stalled i p t h) (sym same_progress) k))
    where
      same_progress : s.progress ≡ q.progress
      same_progress = ground (arith, e)

  Tracks-saved : (o : Option Time) → Each StalledHere o → Tracks i ((now, store) ∷ h) o (some s)
  unfolding Tracks
  Tracks-saved none k = tt
  Tracks-saved (some t) k = k

  All-Explained :
      (threshold : Time) (told : List Told)
      → All (Explained StalledHere threshold now) told
      → All (Explained (λ t. (p : ℕ) × Stalled i p t ((now, store) ∷ h)) threshold now) told
  All-Explained threshold [] k = tt
  All-Explained threshold (Told.changed_to c ∷ told) k = (tt, All-Explained threshold told k.1)
  All-Explained threshold (Told.hung j d ∷ told) ((t, (sum, (late, at_t))), k) =
      ((t, (sum, (late, (s.progress, at_t)))), All-Explained threshold told k)

  save_state-Watched :
      (threshold : Time) (r : StateMonitor × List Told × Bool)
      → Checked i now StalledHere threshold r
      → Watched i ((now, store) ∷ h) threshold now (save_state i s r)
  unfolding Checked Watched
  save_state-Watched threshold (m', told, true) (returned, (since, ex)) = (
    rw (get-put-same m'.previous_states i s) (Tracks-saved (get m'.last_progress_change i) since),
    All-Explained threshold told ex,
  )
  save_state-Watched threshold (m', told, false) (returned, k) = absurd (ground (arith, returned))

  module _ (m : StateMonitor) (returns : Returns2 m.on_hang_detected)
      (tracked : Tracks i h (get m.last_progress_change i) (get m.previous_states i)) where
    abbrev WatchedHere : StateMonitor × List Told → Type 0
    WatchedHere = Watched i ((now, store) ∷ h) m.hang_threshold_seconds now

    unchanged-Watched :
        key_differs ◌==◌ (λ s. some s.progress) s (get m.previous_states i) ≡ false
        → WatchedHere (save_state i s (check_hang i s now m))
    unchanged-Watched e = save_state-Watched m.hang_threshold_seconds (check_hang i s now m) (
        check_hang-Checked i now StalledHere s m StalledHere-now
          (StalledHere-Tracks (get m.last_progress_change i) (get m.previous_states i) tracked e)
          returns)

    noted-Watched :
        WatchedHere
          (save_state i s (check_hang i s now (note_progress i s (get m.previous_states i) now m)))
    noted-Watched =
        under_if (λ m'. WatchedHere (save_state i s (check_hang i s now m')))
          (key_differs ◌==◌ (λ s. some s.progress) s (get m.previous_states i))
          (λ _.
            save_state-Watched m.hang_threshold_seconds
              (check_hang i s now (set_last_change i now m))
              (check_hang-Checked i now StalledHere s (set_last_change i now m) StalledHere-now
                (λ w. Each-set i now StalledHere m (StalledHere-now w)) returns))
          (λ e. unchanged-Watched e)

    tell_change-Watched :
        (o : Option (SlotSnapshot → Bool))
        → Returns o
        → WatchedHere (tell_change i s (get m.previous_states i) now m o)
    unfolding tell_change Watched
    tell_change-Watched none r = noted-Watched
    tell_change-Watched (some f) r =
        rw (r (snapshot i true s)) (noted-Watched.0, (tt, noted-Watched.1))

    poll_shown-Watched : Returns m.on_change → WatchedHere (poll_state i now m (some s))
    unfolding poll_state
    poll_shown-Watched r =
        under_if WatchedHere (detect_change s (get m.previous_states i))
          (λ _. tell_change-Watched m.on_change r)
          (λ e. unchanged-Watched (unchanged_progress s (get m.previous_states i) e))

-- The callbacks of a monitor raise at no call.
abbrev pub NeverRaises : StateMonitor → Type 0
NeverRaises m = Returns m.on_change × Returns2 m.on_hang_detected

Tracks-unshown :
    (i : ℕ) (now : Time) (store : InMemoryStateStore) (h : List Poll) (o : Option Time)
    (p : Option StoredState)
    → get_slot_state store i ≡ none
    → Tracks i h o p
    → Tracks i ((now, store) ∷ h) o p
unfolding Tracks
Tracks-unshown i now store h none p e k = tt
Tracks-unshown i now store h (some t) none e k = k
Tracks-unshown i now store h (some t) (some q) e k = (rw e tt, inr k)

poll_unshown-Watched :
    (i : ℕ) (now : Time) (store : InMemoryStateStore) (h : List Poll) (m : StateMonitor)
    → get_slot_state store i ≡ none
    → Tracks i h (get m.last_progress_change i) (get m.previous_states i)
    → Watched i ((now, store) ∷ h) m.hang_threshold_seconds now (poll_state i now m none)
unfolding poll_state Watched
poll_unshown-Watched i now store h m e k =
    (Tracks-unshown i now store h (get m.last_progress_change i) (get m.previous_states i) e k, tt)

pub poll_slot_state-Watched :
    (i : ℕ) (now : Time) (store : InMemoryStateStore) (h : List Poll) (m : StateMonitor)
    → NeverRaises m
    → Tracks i h (get m.last_progress_change i) (get m.previous_states i)
    → Watched i ((now, store) ∷ h) m.hang_threshold_seconds now (poll_slot_state i now store m)
unfolding poll_slot_state
poll_slot_state-Watched i now store h m returns k = elim (Option-cases (get_slot_state store i)) [
  | inl e ↦ rw e (poll_unshown-Watched i now store h m e k)
  | inr (s, e) ↦ rw e (poll_shown-Watched i now store s e h m returns.1 k returns.0)
]
