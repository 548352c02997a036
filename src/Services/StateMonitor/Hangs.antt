-- ===== src/Services/StateMonitor/Hangs.antt =====
-- When a hang of a slot is told.
use mathlib.Core.Path.{subst}
use aio_ss_usb_test_agent.Prelude.{
  ℕ, zero, suc, ◌+◌, ◌<◌, ◌≡◌, refl, ◌∙◌, ◌≢◌, List, [], ◌∷◌, All, All-append, arith,
}
use aio_ss_usb_test_agent.Prelude.Dict.{get, nat_eq}
use aio_ss_usb_test_agent.Domain.Context.{Time}
use aio_ss_usb_test_agent.Infrastructure.StateStore.{InMemoryStateStore}
use aio_ss_usb_test_agent.Services.StateMonitor.{
  StateMonitor, Told, poll_slot_state, poll_range, poll_states, after_telling,
}
use aio_ss_usb_test_agent.Services.StateMonitor.Locality.{IsAbout, Leaves, poll_slot_state-Local}
use aio_ss_usb_test_agent.Services.StateMonitor.Stalling.{
  Poll, Stalled, Since, Tracks, Watched, Explained, NeverRaises, poll_slot_state-Watched,
}

-- A hang of the slot j that is told has a reason.
abbrev pub Explains : ℕ → List Poll → Time → Time → Told → Type 0
Explains j h threshold now (Told.changed_to s) = Unit
Explains j h threshold now (Told.hung i d) =
    i ≡ j → Since (λ t. (p : ℕ) × Stalled j p t h) threshold now d

-- One round, whose store and time are the last poll's of h, seen from the slot j.
module _ (j : ℕ) (now : Time) (store : InMemoryStateStore) (h : List Poll) where
  abbrev Known : List Poll → StateMonitor → Type 0
  Known polls m = Tracks j polls (get m.last_progress_change j) (get m.previous_states j)

  abbrev AllExplain : Time → List Told → Type 0
  AllExplain threshold told = All (Explains j ((now, store) ∷ h) threshold now) told

  abbrev Followed : Time → StateMonitor × List Told → Type 0
  Followed threshold (m, told) = Known ((now, store) ∷ h) m × AllExplain threshold told

  Explains-others :
      (i : ℕ) (threshold : Time) (told : List Told)
      → i ≢ j
      → All (IsAbout i) told
      → AllExplain threshold told
  Explains-others i threshold [] n a = tt
  Explains-others i threshold (Told.changed_to s ∷ told) n a =
      (tt, Explains-others i threshold told n a.1)
  Explains-others i threshold (Told.hung k d ∷ told) n (e, a) =
      ((λ k_is_j. absurd (n (omega (arith, e, k_is_j)))), Explains-others i threshold told n a)

  Explains-own :
      (threshold : Time) (told : List Told)
      → All (Explained (λ t. (p : ℕ) × Stalled j p t ((now, store) ∷ h)) threshold now) told
      → AllExplain threshold told
  Explains-own threshold [] k = tt
  Explains-own threshold (Told.changed_to s ∷ told) k = (tt, Explains-own threshold told k.1)
  Explains-own threshold (Told.hung i d ∷ told) k = ((λ _. k.0), Explains-own threshold told k.1)

  Leaves-Known :
      (i : ℕ) (polls : List Poll) {m m' : StateMonitor}
      → Leaves i m m'
      → i ≢ j
      → Known polls m
      → Known polls m'
  Leaves-Known i polls l n k = rw (l.same_times j n, l.same_states j n) k

  -- A slot of the range before or after j, and the rest of the range.
  Followed-rest :
      (threshold : Time) (told : List Told) (r : StateMonitor × List Told)
      → AllExplain threshold told
      → Followed threshold r
      → Followed threshold (after_telling told r)
  Followed-rest threshold told (m, more) a k =
      (k.0, All-append (Explains j ((now, store) ∷ h) threshold now) told more a k.1)

  -- The slots after j.
  poll_after-Followed :
      (n first : ℕ) (threshold : Time) (m : StateMonitor)
      → j < first
      → Known ((now, store) ∷ h) m
      → Followed threshold (poll_range n first now store m)
  unfolding poll_range
  poll_after-Followed zero first threshold m later k = (k, tt)
  poll_after-Followed (suc n) first threshold m later k =
      let polled = poll_slot_state first now store m in
      let here = poll_slot_state-Local first now store m in
      Followed-rest threshold polled.1 (poll_range n (suc first) now store polled.0)
        (Explains-others first threshold polled.1 differs here.1)
        (poll_after-Followed n (suc first) threshold polled.0 (omega arith)
          (Leaves-Known first ((now, store) ∷ h) here.0 differs k))
    where
      differs : first ≢ j
      differs e = omega (arith, later, e)

  NeverRaises-Leaves :
      (i : ℕ) {m m' : StateMonitor} → Leaves i m m' → NeverRaises m → NeverRaises m'
  NeverRaises-Leaves i l k = (rw l.same_on_change k.0, rw l.same_on_hang k.1)

  -- A range that begins with j.
  poll_here-Followed :
      (n : ℕ) (m : StateMonitor)
      → NeverRaises m
      → Known h m
      → Followed m.hang_threshold_seconds (poll_range (suc n) j now store m)
  unfolding poll_range Watched
  poll_here-Followed n m returns k =
      let polled = poll_slot_state j now store m in
      let here = poll_slot_state-Watched j now store h m returns k in
      Followed-rest m.hang_threshold_seconds polled.1 (poll_range n (suc j) now store polled.0)
        (Explains-own m.hang_threshold_seconds polled.1 here.1)
        (poll_after-Followed n (suc j) m.hang_threshold_seconds polled.0 (omega arith) here.0)

  -- A range with j in it, k places after its first slot.
  poll_range-Followed :
      (k n first : ℕ) (threshold : Time) (m : StateMonitor)
      → first + k ≡ j
      → k < n
      → m.hang_threshold_seconds ≡ threshold
      → NeverRaises m
      → Known h m
      → Followed threshold (poll_range n first now store m)
  unfolding poll_range
  poll_range-Followed k zero first threshold m at high e returns kn = absurd (omega (arith, high))
  poll_range-Followed zero (suc n) first threshold m at high e returns kn =
      subst (λ t. Followed t (poll_range (suc n) first now store m)) e
        (subst (λ i. Followed m.hang_threshold_seconds (poll_range (suc n) i now store m))
          (omega (arith, at)) (poll_here-Followed n m returns kn))
  poll_range-Followed (suc k) (suc n) first threshold m at high e returns kn =
      let polled = poll_slot_state first now store m in
      let here = poll_slot_state-Local first now store m in
      Followed-rest threshold polled.1 (poll_range n (suc first) now store polled.0)
        (Explains-others first threshold polled.1 differs here.1)
        (poll_range-Followed k n (suc first) threshold polled.0 (omega (arith, at))
          (omega (arith, high)) (here.0.same_threshold ∙ e)
          (NeverRaises-Leaves first here.0 returns) (Leaves-Known first h here.0 differs kn))
    where
      differs : first ≢ j
      differs same = omega (arith, at, same)

-- The monitor after the polls of h, the last of them first.
abbrev pub after_polls : StateMonitor → List Poll → StateMonitor
after_polls m [] = m
after_polls m ((now, store) ∷ before) = (poll_states now store (after_polls m before)).0

-- What the last poll of h tells.
abbrev pub told_last : StateMonitor → List Poll → List Told
told_last m [] = []
told_last m ((now, store) ∷ before) = (poll_states now store (after_polls m before)).1

abbrev SameSettings : StateMonitor → StateMonitor → Type 0
SameSettings m m' =
    (m'.max_slots ≡ m.max_slots)
    × ((m'.on_change ≡ m.on_change)
        × ((m'.on_hang_detected ≡ m.on_hang_detected)
            × (m'.hang_threshold_seconds ≡ m.hang_threshold_seconds)))

poll_range-SameSettings :
    (n first : ℕ) (now : Time) (store : InMemoryStateStore) (m : StateMonitor)
    → SameSettings m (poll_range n first now store m).0
unfolding poll_range
poll_range-SameSettings zero first now store m = (refl, (refl, (refl, refl)))
poll_range-SameSettings (suc n) first now store m =
    let here = (poll_slot_state-Local first now store m).0 in
    let rest =
      poll_range-SameSettings n (suc first) now store (poll_slot_state first now store m).0 in
    (
      rest.0 ∙ here.same_max,
      (
        rest.1.0 ∙ here.same_on_change,
        (rest.1.1.0 ∙ here.same_on_hang, rest.1.1.1 ∙ here.same_threshold),
      ),
    )

after_polls-SameSettings : (m : StateMonitor) (h : List Poll) → SameSettings m (after_polls m h)
unfolding poll_states
after_polls-SameSettings m [] = (refl, (refl, (refl, refl)))
after_polls-SameSettings m ((now, store) ∷ h) =
    let before = after_polls-SameSettings m h in
    let p = after_polls m h in
    let here = poll_range-SameSettings p.max_slots 0 now store p in
    (
      here.0 ∙ before.0,
      (here.1.0 ∙ before.1.0, (here.1.1.0 ∙ before.1.1.0, here.1.1.1 ∙ before.1.1.1)),
    )

module _ (j : ℕ) (m : StateMonitor) (there : j < m.max_slots) (returns : NeverRaises m)
    (unpolled : m.last_progress_change ≡ []) where
  poll_states-Followed :
      (now : Time) (store : InMemoryStateStore) (h : List Poll)
      → Known j now store h h (after_polls m h)
      → Followed j now store h m.hang_threshold_seconds (poll_states now store (after_polls m h))
  unfolding poll_states
  poll_states-Followed now store h k =
      let same = after_polls-SameSettings m h in
      poll_range-Followed j now store h j (after_polls m h).max_slots 0 m.hang_threshold_seconds
        (after_polls m h) (omega arith) (rw same.0 there) same.1.1.1
        (rw same.1.0 returns.0, rw same.1.1.0 returns.1) k

  after_polls-Tracks :
      (h : List Poll)
      → Tracks j h
          (get (after_polls m h).last_progress_change j)
          (get (after_polls m h).previous_states j)
  unfolding Tracks get
  after_polls-Tracks [] = rw unpolled tt
  after_polls-Tracks ((now, store) ∷ h) =
      (poll_states-Followed now store h (after_polls-Tracks h)).0

  -- If a poll tells that the slot j hangs, with a duration d, then d is at least the threshold, there
  -- was a poll at the time d before this one, and that poll and all later ones, this one included,
  -- show the slot at work at one same progress or do not show it. It holds from a monitor that has
  -- polled nothing, after any polls, for a slot that it polls, if its callbacks never raise.
  pub told_last-Explains :
      (now : Time) (store : InMemoryStateStore) (h : List Poll)
      → All
          (Explains j ((now, store) ∷ h) m.hang_threshold_seconds now)
          (told_last m ((now, store) ∷ h))
  told_last-Explains now store h = (poll_states-Followed now store h (after_polls-Tracks h)).1
