-- ===== src/Agent/Lifecycle/Cleanup.antt =====
-- main.py: what `Agent._cleanup` stops, and what it leaves.
use aio_ss_usb_test_agent.Prelude.{
  Bool, true, false, ◌||◌, not, List, [], ◌∷◌, ◌++◌, ◌≡◌, refl, arith,
}
use aio_ss_usb_test_agent.Prelude.Dict.{beq}
use aio_ss_usb_test_agent.Agent.Lifecycle.{
  Part, Call, part_eq, Part-discrete, Lifecycle, Faults, Ended, ◌>>◌, release, drop, cleanup,
}

-- No part is held.
unfoldable pub Released : Lifecycle → Type 0
Released a = (p : Part) → a.held p ≡ false

abbrev among : List Part → Part → Bool
among [] q = false
among (p ∷ ps) q = beq p q || among ps q

-- The steps so far have returned, and the parts among `d` are not held.
Cleared : List Part → Lifecycle × Ended → Type 0
Cleared d r = (r.1 ≡ Ended.returned) × ((p : Part) → among d p ≡ true → r.0.held p ≡ false)

-- The order of `_cleanup`, the last part first.
abbrev released_parts : List Part
released_parts =
    Part.ws_client ∷ Part.memory_manager ∷ Part.test_executor ∷ Part.slot_manager
    ∷ Part.mfc_controller ∷ Part.state_monitor ∷ Part.mfc_ui_monitor ∷ Part.process_monitor
    ∷ Part.memory_monitor ∷ Part.worker_pool ∷ []

among_released : (p : Part) → among released_parts p ≡ true
unfolding Part-discrete
among_released Part.worker_pool = refl
among_released Part.memory_monitor = refl
among_released Part.process_monitor = refl
among_released Part.mfc_ui_monitor = refl
among_released Part.state_monitor = refl
among_released Part.mfc_controller = refl
among_released Part.slot_manager = refl
among_released Part.test_executor = refl
among_released Part.memory_manager = refl
among_released Part.ws_client = refl

module _ (f : Faults) (calm : (p : Part) → f.stopping p ≡ false) where
  release-Cleared :
      (d : List Part) (p : Part) (r : Lifecycle × Ended)
      → Cleared d r
      → Cleared (p ∷ d) (r >> release f p)
  unfolding Cleared release
  release-Cleared d p (a, Ended.returned) (e, h) =
      (ground (arith, calm p), λ q s. ground (arith, calm p, h q))
  release-Cleared d p (a, Ended.raised) (e, h) = cc
  release-Cleared d p (a, Ended.cancelled) (e, h) = cc

  drop-Cleared :
      (d : List Part) (p : Part) (r : Lifecycle × Ended)
      → Cleared d r
      → Cleared (p ∷ d) (r >> drop p)
  unfolding Cleared drop
  drop-Cleared d p (a, Ended.returned) (e, h) = (refl, λ q s. ground (arith, h q))
  drop-Cleared d p (a, Ended.raised) (e, h) = cc
  drop-Cleared d p (a, Ended.cancelled) (e, h) = cc

  nothing-Cleared : (a : Lifecycle) → Cleared [] (a, Ended.returned)
  unfolding Cleared
  nothing-Cleared a = (refl, λ p s. cc)

  cleanup-Cleared : (a : Lifecycle) → Cleared released_parts (cleanup f a)
  unfolding cleanup
  cleanup-Cleared a =
      (let d0 = release-Cleared [] Part.worker_pool (a, Ended.returned) (nothing-Cleared a) in
        let d1 = release-Cleared _ Part.memory_monitor _ d0 in
        let d2 = release-Cleared _ Part.process_monitor _ d1 in
        let d3 = release-Cleared _ Part.mfc_ui_monitor _ d2 in
        let d4 = release-Cleared _ Part.state_monitor _ d3 in
        let d5 = release-Cleared _ Part.mfc_controller _ d4 in
        let d6 = release-Cleared _ Part.slot_manager _ d5 in
        let d7 = drop-Cleared _ Part.test_executor _ d6 in
        let d8 = drop-Cleared _ Part.memory_manager _ d7 in release-Cleared _ Part.ws_client _ d8)

  pub cleanup-Released :
      (a : Lifecycle) → ((cleanup f a).1 ≡ Ended.returned) × Released (cleanup f a).0
  unfolding Cleared Released
  cleanup-Released a = let c = cleanup-Cleared a in (c.0, λ p. c.1 p (among_released p))

-- Whether the stop of a part is among the calls.
unfoldable pub was_stopped : Part → List Call → Bool
was_stopped p [] = false
was_stopped p (Call.started q ∷ cs) = was_stopped p cs
was_stopped p (Call.stopped q ∷ cs) = beq q p || was_stopped p cs

was_stopped-note :
    (p q : Part) (cs : List Call)
    → was_stopped p (cs ++ Call.stopped q ∷ []) ≡ (was_stopped p cs || beq q p)
unfolding was_stopped
was_stopped-note p q [] = ground arith
was_stopped-note p q (Call.started x ∷ cs) = was_stopped-note p q cs
was_stopped-note p q (Call.stopped x ∷ cs) = ground (arith, was_stopped-note p q cs)

-- The parts that `_cleanup` only lets go.
unfoldable pub needs_stop : Part → Bool
needs_stop p = not (beq p Part.test_executor || beq p Part.memory_manager)

-- A part that was held and needs a stop is held still, or its stop has returned.
unfoldable pub Accounted : (Part → Bool) → Lifecycle × Ended → Type 0
Accounted held r =
    (p : Part)
    → held p ≡ true
    → needs_stop p ≡ true
    → (r.0.held p || was_stopped p r.0.calls) ≡ true

module _ (f : Faults) (held : Part → Bool) where
  release-Accounted :
      (p : Part) (r : Lifecycle × Ended) → Accounted held r → Accounted held (r >> release f p)
  unfolding Accounted release
  release-Accounted p (a, Ended.returned) h =
      λ q g s. ground (arith, h q g s, was_stopped-note q p a.calls)
  release-Accounted p (a, Ended.raised) h = h
  release-Accounted p (a, Ended.cancelled) h = h

  drop-Accounted :
      (p : Part) (r : Lifecycle × Ended)
      → needs_stop p ≡ false
      → Accounted held r
      → Accounted held (r >> drop p)
  unfolding Accounted drop
  drop-Accounted p (a, Ended.returned) n h = λ q g s. ground (arith, h q g s, n, s)
  drop-Accounted p (a, Ended.raised) n h = h
  drop-Accounted p (a, Ended.cancelled) n h = h

  pub cleanup-Accounted :
      (a : Lifecycle) → Accounted held (a, Ended.returned) → Accounted held (cleanup f a)
  unfolding cleanup needs_stop Part-discrete
  cleanup-Accounted a h =
      (let d0 = release-Accounted Part.worker_pool (a, Ended.returned) h in
        let d1 = release-Accounted Part.memory_monitor _ d0 in
        let d2 = release-Accounted Part.process_monitor _ d1 in
        let d3 = release-Accounted Part.mfc_ui_monitor _ d2 in
        let d4 = release-Accounted Part.state_monitor _ d3 in
        let d5 = release-Accounted Part.mfc_controller _ d4 in
        let d6 = release-Accounted Part.slot_manager _ d5 in
        let d7 = drop-Accounted Part.test_executor _ refl d6 in
        let d8 = drop-Accounted Part.memory_manager _ refl d7 in
        release-Accounted Part.ws_client _ d8)
