-- ===== src/Domain/TestState/Batches.antt =====
-- The batches of a `TestState` against its loops.
use aio_ss_usb_test_agent.Prelude.{
  ℕ, zero, suc, ◌*◌, ◌≤◌, ◌<◌, ◌≡◌, ◌↔◌, refl, true, false, Bool-cases, inl, inr, min, List, [],
  ◌∷◌, arith, leb,
}
use aio_ss_usb_test_agent.Domain.Context.{Time}
use aio_ss_usb_test_agent.Domain.TestState.{
  TestState, increment_batch, is_batch_completed, is_completed,
}
use aio_ss_usb_test_agent.Services.Batch.{ceil_div}
use aio_ss_usb_test_agent.Services.Batch.Completion.{ceil_covers, ceil_tight}

-- The state after one batch for each of the times.
abbrev pub after_batches : List Time → TestState → TestState
after_batches [] s = s
after_batches (now ∷ nows) s = after_batches nows (increment_batch now s)

-- The loops of a state are those of its batches.
abbrev pub InStep : TestState → Type 0
InStep s = s.current_loop ≡ min (s.current_batch * s.loop_step) s.total_loop

increment_batch-InStep :
    (now : Time) (s : TestState)
    → let s' = increment_batch now s in
      (s'.total_batch ≡ s.total_batch)
      × (s'.loop_step ≡ s.loop_step)
      × (s'.total_loop ≡ s.total_loop)
      × InStep s'
unfolding increment_batch
increment_batch-InStep now s = (refl, refl, refl, refl)

mul_mono : (a n b : ℕ) → a ≤ n → a * b ≤ n * b
mul_mono zero n b h = omega arith
mul_mono (suc a) zero b h = absurd (omega arith)
mul_mono (suc a) (suc n) b h = grind (arith, mul_mono a n b (omega arith))

leb_le : (a b : ℕ) → leb a b ≡ true → a ≤ b
leb_le a b h = ground arith

leb_gt : (a b : ℕ) → leb a b ≡ false → suc b ≤ a
leb_gt a b h = ground arith

enough_batches : (n t b : ℕ) → 0 < b → ceil_div t b ≤ n → t ≤ n * b
enough_batches n t b h k = omega (arith, ceil_covers t b h, mul_mono (ceil_div t b) n b k)

enough_loops : (n t b : ℕ) → 0 < b → t ≤ n * b → ceil_div t b ≤ n
enough_loops n t b h k = elim (Bool-cases (leb (ceil_div t b) n)) [
  | inl e ↦ leb_le (ceil_div t b) n e
  | inr e ↦
      let more = mul_mono (suc n) (ceil_div t b) b (leb_gt (ceil_div t b) n e) in
      absurd (grind (arith, more, ceil_tight t b h, k))
]

-- With as many batches as the loops need, the batches are done exactly when the loops are.
done_together : (n t b : ℕ) → 0 < b → (leb (ceil_div t b) n ≡ true) ↔ (leb t (min (n * b) t) ≡ true)
done_together n t b h = ground (arith, enough_batches n t b h, enough_loops n t b h)

-- A state whose number of batches is that of the executor, and whose loops are those of its batches,
-- has all batches completed exactly when it has all loops completed, after any number of batches.
pub after_batches-done :
    (nows : List Time) (s : TestState)
    → 0 < s.loop_step
    → s.total_batch ≡ ceil_div s.total_loop s.loop_step
    → InStep s
    → let s' = after_batches nows s in (is_batch_completed s' ≡ true) ↔ (is_completed s' ≡ true)
unfolding is_batch_completed is_completed increment_batch
after_batches-done [] s h t i = rw (t, i) (done_together s.current_batch s.total_loop s.loop_step h)
after_batches-done (now ∷ nows) s h t i = after_batches-done nows (increment_batch now s) h t refl
