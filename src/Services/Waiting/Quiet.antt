-- ===== src/Services/Waiting/Quiet.antt =====
-- `_wait_for_pass` where no other task runs meanwhile and no cancellation is asked for.
use aio_ss_usb_test_agent.Prelude.{
  ℕ, ◌+◌, ◌≡◌, inl, inr, Bool, false, ltb, Option, none, some, List, [], ◌∷◌, arith, All, ◌∙◌,
  if◌then◌else◌,
}
use aio_ss_usb_test_agent.Domain.Context.{Time}
use aio_ss_usb_test_agent.Services.World.{World, ok, is_cancel_requested, pause}
use aio_ss_usb_test_agent.Services.World.Steps.{IsQuiet, pause_quiet}
use aio_ss_usb_test_agent.Services.Waiting.{
  Poll, Judgement, verdict, go_on, judge, round, wait_loop, wait_for_pass,
}
use aio_ss_usb_test_agent.Services.Waiting.Verdict.{Judgement-cases, wait_verdict, wait_go_on}

quiet_round : ℕ → Time → Option Time → Poll → Judgement
quiet_round timeout start_time started p =
    if ltb p.tested_at (start_time + timeout)
    then judge start_time started p.ui p.read_at
    else verdict false

-- The answer that the polls alone give.
unfoldable pub quiet_verdict : ℕ → Time → Option Time → List Poll → Option Bool
unfolding quiet_round
quiet_verdict timeout start_time started [] = none
quiet_verdict timeout start_time started (p ∷ ps) =
    elim (quiet_round timeout start_time started p) [
      | verdict b ↦ some b
      | go_on started' ↦ quiet_verdict timeout start_time started' ps
    ]

module _ (slot_idx timeout : ℕ) (start_time : Time) where
  round-quiet :
      (started : Option Time) (p : Poll) (w : World)
      → is_cancel_requested slot_idx w ≡ false
      → round slot_idx timeout start_time started p w ≡ quiet_round timeout start_time started p
  unfolding round quiet_round
  round-quiet started p w h = rw h

  round-pause :
      (started : Option Time) (p : Poll) (w : World)
      → IsQuiet p.before
      → is_cancel_requested slot_idx w ≡ false
      → round slot_idx timeout start_time started p (pause p.before w)
        ≡ quiet_round timeout start_time started p
  unfolding is_cancel_requested
  round-pause started p w q n =
      rw (pause_quiet p.before w q) (round-quiet started p (record w { clock = p.before.clock }) n)

  verdict-quiet :
      (started t : Option Time) (p : Poll) (ps : List Poll) (b c : Bool)
      → quiet_round timeout start_time started p ≡ verdict c
      → quiet_verdict timeout start_time started (p ∷ ps) ≡ some b
      → c ≡ b
  unfolding quiet_verdict
  verdict-quiet started t p ps b c e v = ground arith

  verdict-later :
      (started t : Option Time) (p : Poll) (ps : List Poll) (b : Bool)
      → quiet_round timeout start_time started p ≡ go_on t
      → quiet_verdict timeout start_time started (p ∷ ps) ≡ some b
      → quiet_verdict timeout start_time t ps ≡ some b
  unfolding quiet_verdict
  verdict-later started t p ps b e v = ground arith

  quiet_loop :
      (started : Option Time) (ps : List Poll) (w : World) (b : Bool)
      → All (λ p. IsQuiet p.before) ps
      → is_cancel_requested slot_idx w ≡ false
      → quiet_verdict timeout start_time started ps ≡ some b
      → (c : Time) × (wait_loop slot_idx timeout start_time started ps w
          ≡ (ok b, record w { clock = c }))
  unfolding quiet_verdict is_cancel_requested
  quiet_loop started [] w b q n v = cc
  quiet_loop started (p ∷ ps) w b q n v =
      let same = round-pause started p w q.0 n in
      let paused = pause_quiet p.before w q.0 in
      elim (Judgement-cases (quiet_round timeout start_time started p)) [
        | inl (c, e) ↦ (
          p.before.clock,
          rw (
            wait_verdict slot_idx timeout start_time started p ps w c (same ∙ e),
            paused,
            verdict-quiet started none p ps b c e v,
          ),
        )
        | inr (t, e) ↦
            rw (wait_go_on slot_idx timeout start_time started p ps w t (same ∙ e), paused)
              (quiet_loop t ps (record w { clock = p.before.clock }) b q.1 n
                (verdict-later started t p ps b e v))
      ]

  -- With no other task at work, the wait gives the answer of the polls and changes nothing but the
  -- time.
  pub wait_for_pass-quiet :
      (ps : List Poll) (w : World) (b : Bool)
      → All (λ p. IsQuiet p.before) ps
      → is_cancel_requested slot_idx w ≡ false
      → quiet_verdict timeout start_time none ps ≡ some b
      → (c : Time) × (wait_for_pass slot_idx timeout start_time ps w
          ≡ (ok b, record w { clock = c }))
  unfolding wait_for_pass
  wait_for_pass-quiet ps w b q n v = quiet_loop none ps w b q n v
