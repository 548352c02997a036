-- ===== src/Prelude/Integers.antt =====
-- Integers over the native numbers, with their order as Boolean tests.
use Prim.Native.Nat.{ℕ}
use mathlib.Core.Bool.{Bool, true, false}
use aio_ss_usb_test_agent.Prelude.Tests.{ltb}

-- `negsuc n` is -1 - n.
pub data ℤ : Type 0 where
  pos negsuc : ℕ → ℤ

abbrev pub ltb_int : ℤ → ℤ → Bool
ltb_int (ℤ.pos a) (ℤ.pos b) = ltb a b
ltb_int (ℤ.pos a) (ℤ.negsuc b) = false
ltb_int (ℤ.negsuc a) (ℤ.pos b) = true
ltb_int (ℤ.negsuc a) (ℤ.negsuc b) = ltb b a

abbrev pub leb_int : ℤ → ℤ → Bool
leb_int a b = elim (ltb_int b a) [ true ↦ false | false ↦ true ]
