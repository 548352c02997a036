-- ===== src/Agent/Lifecycle/Ending.antt =====
-- main.py: how `Agent.start` ends.
use aio_ss_usb_test_agent.Prelude.{◌∙◌, Bool, true, false, List, [], ◌∷◌, ◌≡◌, refl, arith}
use aio_ss_usb_test_agent.Agent.Lifecycle.{
  Part, Lifecycle, Faults, Ended, Turn, ◌>>◌, cleanup, caught, body, prepare, start, launch, stop,
  main_turns, main_loop,
}
use aio_ss_usb_test_agent.Agent.Lifecycle.Cleanup.{
  Released, Accounted, was_stopped, needs_stop, cleanup-Released, cleanup-Accounted,
}

-- The stop has returned of each part that was held and needs one.
pub Stopped : (Part → Bool) → Lifecycle → Type 0
Stopped held a = (p : Part) → held p ≡ true → needs_stop p ≡ true → was_stopped p a.calls ≡ true

-- The step leaves the parts as they are.
KeepsHeld : (Lifecycle → Lifecycle × Ended) → Type 0
KeepsHeld k = (a : Lifecycle) → (k a).0.held ≡ a.held

then-returned :
    (r : Lifecycle × Ended) (k : Lifecycle → Lifecycle × Ended)
    → r.1 ≡ Ended.returned
    → (r >> k) ≡ k r.0
then-returned (a, Ended.returned) k h = refl
then-returned (a, Ended.raised) k h = cc
then-returned (a, Ended.cancelled) k h = cc

Held : (Part → Bool) → Lifecycle × Ended → Type 0
Held h r = r.0.held ≡ h

then-Held :
    (k : Lifecycle → Lifecycle × Ended) (h : Part → Bool) (r : Lifecycle × Ended)
    → KeepsHeld k
    → Held h r
    → Held h (r >> k)
unfolding KeepsHeld Held
then-Held k h (a, Ended.returned) keeps e = keeps a ∙ e
then-Held k h (a, Ended.raised) keeps e = e
then-Held k h (a, Ended.cancelled) keeps e = e

start-Held : (a : Lifecycle) → Held a.held (a, Ended.returned)
unfolding Held
start-Held a = refl

module _ (f : Faults) where
  launch-KeepsHeld : (p : Part) → KeepsHeld (launch f p)
  unfolding KeepsHeld launch
  launch-KeepsHeld p a = ground arith

  stop-held : (a : Lifecycle) → (stop f a).0.held ≡ a.held
  unfolding stop
  stop-held a = ground arith

  main_turns-KeepsHeld : (ts : List Turn) → KeepsHeld (main_turns f ts)
  unfolding KeepsHeld main_turns
  main_turns-KeepsHeld [] a = refl
  main_turns-KeepsHeld (Turn.quiet ∷ ts) a = ground (arith, main_turns-KeepsHeld ts a)
  main_turns-KeepsHeld (Turn.stop_called ∷ ts) a =
      ground (arith, stop-held a, main_turns-KeepsHeld ts (stop f a).0)
  main_turns-KeepsHeld (Turn.failing ∷ ts) a = refl

  main_loop-KeepsHeld : (ts : List Turn) → KeepsHeld (main_loop f ts)
  unfolding KeepsHeld main_loop
  main_loop-KeepsHeld ts a = ground (arith, main_turns-KeepsHeld ts a)

  body-Held : (ts : List Turn) (a : Lifecycle) → Held a.held (body f ts a)
  unfolding body
  body-Held ts a =
      (let h0 = then-Held _ _ _ (launch-KeepsHeld Part.memory_monitor) (start-Held a) in
        let h1 = then-Held _ _ _ (launch-KeepsHeld Part.process_monitor) h0 in
        let h2 = then-Held _ _ _ (launch-KeepsHeld Part.mfc_ui_monitor) h1 in
        then-Held _ _ _ (main_loop-KeepsHeld ts) h2)

  start-run :
      (turns : List Turn) (a : Lifecycle)
      → (prepare f a).1 ≡ Ended.returned
      → ((p : Part) → f.stopping p ≡ false)
      → start f turns a
        ≡ ((cleanup f (body f turns (prepare f a).0).0).0, caught (body f turns (prepare f a).0).1)
  unfolding start
  start-run turns a made calm =
      then-returned (prepare f a) _ made
      ∙ then-returned (cleanup f (body f turns (prepare f a).0).0) _
          (cleanup-Released f calm (body f turns (prepare f a).0).0).0

  cleanup-Stopped :
      (a : Lifecycle) (r : Lifecycle × Ended)
      → ((p : Part) → f.stopping p ≡ false)
      → Held a.held r
      → Stopped a.held (cleanup f r.0).0
  unfolding Stopped Accounted Released Held
  cleanup-Stopped a (b, e) calm kept p h n =
      let still : b.held p ≡ true = rw kept h in
      let accounted = cleanup-Accounted f b.held b (λ q g s. ground (arith, g)) p still n in
      ground (arith, accounted, (cleanup-Released f calm b).1 p)

  -- Once what `start` does before its `try` has returned, and if no stop raises: `start` ends,
  -- whatever the monitors and the main loop did, with their exception if there was one and as usual
  -- otherwise. No part is held then, and the stop has returned of each part that was held before
  -- the `try`, but of the executor and the memory manager, which have none.
  pub start-Released :
      (turns : List Turn) (a : Lifecycle)
      → (prepare f a).1 ≡ Ended.returned
      → ((p : Part) → f.stopping p ≡ false)
      → ((start f turns a).1 ≡ caught (body f turns (prepare f a).0).1)
        × Released (start f turns a).0
        × Stopped (prepare f a).0.held (start f turns a).0
  start-Released turns a made calm =
      let b = body f turns (prepare f a).0 in
      rw (start-run turns a made calm) (
        refl,
        (cleanup-Released f calm b.0).1,
        cleanup-Stopped (prepare f a).0 b calm (body-Held turns (prepare f a).0),
      )
