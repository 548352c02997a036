-- ===== src/Domain/TestState/Examples.antt =====
-- Five loops in batches of two.
use aio_ss_usb_test_agent.Prelude.{◌≡◌, ◌↔◌, refl, true, some, [], ◌∷◌, arith, pos}
use aio_ss_usb_test_agent.Domain.TestState.{
  TestState, new_test_state, is_batch_completed, is_completed, calculate_remaining,
}
use aio_ss_usb_test_agent.Domain.TestState.Batches.{after_batches, after_batches-done}

abbrev begun : TestState
begun = record (new_test_state 1 0) {
  total_loop = 5;
  loop_step = 2;
  total_batch = 3;
  avg_loop_time = some 2500;
}

remaining : calculate_remaining 2 begun ≡ some (pos 7)
unfolding calculate_remaining
remaining = refl

after_batches-done_example :
    let s = after_batches (10 ∷ 20 ∷ 30 ∷ []) begun in
    (is_batch_completed s ≡ true) ↔ (is_completed s ≡ true)
after_batches-done_example = after_batches-done (10 ∷ 20 ∷ 30 ∷ []) begun (omega arith) refl refl
