-- ===== src/Services/Waiting/Verdict.antt =====
-- When `_wait_for_pass` says that the test has passed, and that it ends.
use aio_ss_usb_test_agent.Prelude.{
  ℕ, ◌+◌, ◌≤◌, ◌<◌, ◌≡◌, refl, ◌≢◌, ◌⊎◌, inl, inr, Bool, true, Option, none, some, List, [], ◌∷◌,
  arith,
}
use aio_ss_usb_test_agent.Domain.Enums.{ProcessState}
use aio_ss_usb_test_agent.Domain.Context.{Time}
use aio_ss_usb_test_agent.Services.World.{World, Result, ok, pause}
use aio_ss_usb_test_agent.Services.Waiting.{
  Poll, Judgement, verdict, go_on, time_base, round, wait_loop, wait_for_pass, min_test_duration,
}

pub Judgement-cases :
    (j : Judgement) → ((b : Bool) × (j ≡ verdict b)) ⊎ ((t : Option Time) × (j ≡ go_on t))
Judgement-cases (verdict b) = inl (b, refl)
Judgement-cases (go_on t) = inr (t, refl)

-- Some poll comes at the time or later.
abbrev pub Reaches : Time → List Poll → Type 0
Reaches t [] = ⊥
Reaches t (p ∷ ps) = (t ≤ p.tested_at) ⊎ Reaches t ps

abbrev pub IsAnswer : Result Bool → Type 0
IsAnswer r = (b : Bool) × (r ≡ ok b)

-- Some poll is as the first predicate says, later on comes one as the third says, and the polls
-- between them are as the second says.
abbrev pub Until : (Poll → Type 0) → (Poll → Type 0) → List Poll → Type 0
Until R Q [] = ⊥
Until R Q (p ∷ ps) = Q p ⊎ (R p × Until R Q ps)

module _ (slot_idx timeout : ℕ) (start_time : Time) where
  -- A poll within the time limit.
  abbrev pub InTime : Poll → Type 0
  InTime p = p.tested_at < start_time + timeout

  abbrev pub IsNeutral : Poll → Type 0
  IsNeutral p = InTime p × (p.ui ≢ some ProcessState.fail) × (p.ui ≢ some ProcessState.stop)

  abbrev pub IsLatePass : Time → Poll → Type 0
  IsLatePass t p =
      InTime p
      × (p.ui ≡ some ProcessState.pass)
      × (time_base start_time t + min_test_duration ≤ p.read_at)

  -- A poll reads TEST, and after it, with neither FAIL nor STOP between, one reads PASS at least ten
  -- seconds after the first.
  abbrev pub HasPassed : List Poll → Type 0
  HasPassed [] = ⊥
  HasPassed (p ∷ ps) =
      (InTime p × (p.ui ≡ some ProcessState.test) × Until IsNeutral (IsLatePass p.read_at) ps)
      ⊎ (InTime p × HasPassed ps)

  abbrev AfterRound : Option Time → List Poll → Type 0
  AfterRound none ps = HasPassed ps
  AfterRound (some t) ps = Until IsNeutral (IsLatePass t) ps

  round_in_time :
      (started t : Option Time) (p : Poll) (w : World)
      → round slot_idx timeout start_time started p w ≡ go_on t
      → p.tested_at < start_time + timeout
  unfolding round
  round_in_time started t p w e = ground arith

  module _ (started : Option Time) (p : Poll) (ps : List Poll) (w : World) where
    pub wait_verdict :
        (b : Bool)
        → round slot_idx timeout start_time started p (pause p.before w) ≡ verdict b
        → wait_loop slot_idx timeout start_time started (p ∷ ps) w ≡ (ok b, pause p.before w)
    unfolding wait_loop
    wait_verdict b e = rw (e, wait_loop)

    pub wait_go_on :
        (t : Option Time)
        → round slot_idx timeout start_time started p (pause p.before w) ≡ go_on t
        → wait_loop slot_idx timeout start_time started (p ∷ ps) w
          ≡ wait_loop slot_idx timeout start_time t ps (pause p.before w)
    unfolding wait_loop
    wait_go_on t e = rw (e, wait_loop)

  wait_loop_ends :
      (started : Option Time) (ps : List Poll) (w : World)
      → Reaches (start_time + timeout) ps
      → IsAnswer (wait_loop slot_idx timeout start_time started ps w).0
  unfolding wait_loop
  wait_loop_ends started [] w h = absurd h
  wait_loop_ends started (p ∷ ps) w h =
      elim (Judgement-cases (round slot_idx timeout start_time started p (pause p.before w))) [
        | inl (b, e) ↦ rw (wait_verdict started p ps w b e) (b, refl)
        | inr (t, e) ↦ rw (wait_go_on started p ps w t e) (
            wait_loop_ends t ps (pause p.before w)
              (later p ps h (round_in_time started t p (pause p.before w) e)))
      ]
    where
      later :
          (p : Poll) (ps : List Poll)
          → Reaches (start_time + timeout) (p ∷ ps)
          → p.tested_at < start_time + timeout
          → Reaches (start_time + timeout) ps
      later p ps (inl h) e = absurd (omega arith)
      later p ps (inr h) e = h

  -- The wait ends with an answer as soon as some poll comes at the time limit or later.
  pub wait_for_pass_ends :
      (ps : List Poll) (w : World)
      → Reaches (start_time + timeout) ps
      → IsAnswer (wait_for_pass slot_idx timeout start_time ps w).0
  unfolding wait_for_pass
  wait_for_pass_ends ps w h = wait_loop_ends none ps w h

  round-true :
      (started : Option Time) (p : Poll) (ps : List Poll) (w : World)
      → round slot_idx timeout start_time started p w ≡ verdict true
      → AfterRound started (p ∷ ps)
  unfolding round
  round-true none p ps w e = ground arith
  round-true (some t) p ps w e = ground arith

  true_later :
      (started t : Option Time) (p : Poll) (ps : List Poll) (w : World)
      → round slot_idx timeout start_time started p w ≡ go_on t
      → AfterRound t ps
      → AfterRound started (p ∷ ps)
  unfolding round
  true_later none none p ps w e h = ground arith
  true_later none (some u) p ps w e h = ground arith
  true_later (some s) none p ps w e h = ground arith
  true_later (some s) (some u) p ps w e h = ground arith

  wait_loop-true :
      (started : Option Time) (ps : List Poll) (w : World)
      → (wait_loop slot_idx timeout start_time started ps w).0 ≡ ok true
      → AfterRound started ps
  unfolding wait_loop
  wait_loop-true started [] w h = cc
  wait_loop-true started (p ∷ ps) w h =
      elim (Judgement-cases (round slot_idx timeout start_time started p (pause p.before w))) [
        | inl (b, e) ↦
            round-true started p ps (pause p.before w)
              (ground (arith, wait_verdict started p ps w b e))
        | inr (t, e) ↦
            true_later started t p ps (pause p.before w) e
              (wait_loop-true t ps (pause p.before w) (rw (← wait_go_on started p ps w t e) h))
      ]

  -- The wait says that the test has passed only if a poll read TEST and a later one read PASS, ten
  -- seconds after it or more, with neither FAIL nor STOP between, and all within the time limit.
  pub wait_for_pass-true :
      (ps : List Poll) (w : World)
      → (wait_for_pass slot_idx timeout start_time ps w).0 ≡ ok true
      → HasPassed ps
  unfolding wait_for_pass
  wait_for_pass-true ps w h = wait_loop-true none ps w h
