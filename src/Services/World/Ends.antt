-- ===== src/Services/World/Ends.antt =====
-- Which steps end with a result or an exception, from every world.
use aio_ss_usb_test_agent.Prelude.{
  refl, ◌≢◌, Bool, true, false, if◌then◌else◌, Option, String, List, arith,
}
use aio_ss_usb_test_agent.Domain.State.{SlotEvent}
use aio_ss_usb_test_agent.Domain.Context.{Field}
use aio_ss_usb_test_agent.Services.World.{
  World, Exec, Result, ok, raised, stuck, continue, ◌>>=◌, ◌>>◌, fire, fire_if_possible, settle,
}

abbrev pub Ends {ℓ} : {A : Type ℓ} → Exec A → Type ℓ
Ends m = (w : World) → (m w).0 ≢ stuck

module _ {A : Type 0} where
  continue-Ends :
      {B : Type 0} (r : Result A) (f : A → Exec B) (w : World)
      → r ≢ stuck
      → ((a : A) → Ends (f a))
      → (continue r f w).0 ≢ stuck
  continue-Ends (ok a) f w h k = k a w
  continue-Ends (raised e) f w h k = λ x. cc
  continue-Ends stuck f w h k = absurd (h refl)

  pub bind-Ends :
      {B : Type 0} (m : Exec A) (f : A → Exec B)
      → Ends m
      → ((a : A) → Ends (f a))
      → (w : World) → ((m >>= f) w).0 ≢ stuck
  bind-Ends m f h k w = continue-Ends (m w).0 f (m w).1 (h w) k

  pub if-Ends : (b : Bool) (m n : Exec A) → Ends m → Ends n → Ends (if b then m else n)
  if-Ends true m n h k = h
  if-Ends false m n h k = k

pub then-Ends :
    {B : Type 0} (m : Exec (Unit {0})) (n : Exec B)
    → Ends m
    → Ends n
    → (w : World) → ((m >> n) w).0 ≢ stuck
then-Ends m n h k w = continue-Ends (m w).0 (λ _. n) (m w).1 (h w) (λ _. k)

module _ (e : SlotEvent) (fs : List Field) (msg : Option String) where
  pub fire-Ends : Ends (fire e fs msg)
  unfolding fire settle
  fire-Ends w h = ground arith

  pub fire_if_possible-Ends : Ends (fire_if_possible e fs msg)
  unfolding fire_if_possible
  fire_if_possible-Ends w h = ground (arith, fire-Ends w)
