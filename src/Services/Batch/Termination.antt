-- ===== src/Services/Batch/Termination.antt =====
-- That an execution ends.
use aio_ss_usb_test_agent.Prelude.{
  ℕ, zero, suc, ◌+◌, ◌==◌, ltb, ◌≢◌, Bool, true, false, if◌then◌else◌, Bool-cases, Option, none,
  some, String, List, [], ◌∷◌, arith, inl, inr,
}
use aio_ss_usb_test_agent.Domain.State.{SlotEvent}
use aio_ss_usb_test_agent.Domain.Context.{Field, Time}
use aio_ss_usb_test_agent.Domain.Config.{needs_precondition}
use aio_ss_usb_test_agent.Domain.Enums.{TestCapacity}
use aio_ss_usb_test_agent.Services.World.{
  World, stuck, fire, fire_if_possible, pure, modify, ◌>>=◌, ◌>>◌, pause, Command, set_local,
  is_cancel_requested,
}
use aio_ss_usb_test_agent.Services.World.Ends.{
  Ends, bind-Ends, then-Ends, if-Ends, fire-Ends, fire_if_possible-Ends,
}
use aio_ss_usb_test_agent.Services.Waiting.{wait_for_pass}
use aio_ss_usb_test_agent.Services.Waiting.Verdict.{Reaches, IsAnswer, wait_for_pass_ends}
use aio_ss_usb_test_agent.Services.Batch.{
  Setup, Round, asks, execute, main_batches, batches, run_batch, follow_batch, finish_batch,
  abandon_batch, give_up, launch_with, answer, send, await_pass, report, total_batches,
  run_precondition, run_precondition_with, phase_1,
}

-- Some poll of the round comes at the time limit or later.
abbrev pub IsTimely : Setup → Round → Type 0
IsTimely s r = Reaches (r.began + s.pass_wait_timeout) r.polls

-- There is a round for each batch, and each is timely.
abbrev pub AllTimely : Setup → ℕ → List Round → Type 0
AllTimely s zero rs = Unit {0}
AllTimely s (suc n) [] = ⊥
AllTimely s (suc n) (r ∷ rs) = IsTimely s r × AllTimely s n rs

done : {A : Type 0} (a : A) → Ends (pure a)
done a w h = cc

changed : (f : World → World) → Ends (modify f)
changed f w h = cc

asked : {A : Type 0} (f : World → A) → Ends (asks f)
asked f w h = cc

give_up-Ends : (message : String) → Ends (give_up message)
unfolding give_up
give_up-Ends message =
    then-Ends _ _ (fire_if_possible-Ends SlotEvent.fail [] (some message)) (done false)

abandon_batch-Ends : (s : Setup) (num : ℕ) → Ends (abandon_batch s num)
unfolding abandon_batch
abandon_batch-Ends s num = bind-Ends _ _ (give_up-Ends (s.batch_failed num)) (λ b. done (some b))

finish_batch-Ends : (s : Setup) (total num : ℕ) → Ends (finish_batch s total num)
unfolding finish_batch
finish_batch-Ends s total num = then-Ends _ _ (fire-Ends SlotEvent.batch_complete _ none) (
    if-Ends (ltb num total) _ _ (then-Ends _ _ (fire-Ends SlotEvent.batch_next [] none) (done none))
      (done none))

launch_with-Ends : (c : Command) (r : Round) → Ends (launch_with c r)
unfolding launch_with send answer
launch_with-Ends c r w h = ground arith

report-Ends : (s : Setup) (total num : ℕ) (at : Time) (r : Round) → Ends (report s total num at r)
unfolding report
report-Ends s total num at r w h = ground arith

module _ (s : Setup) (r : Round) (t : IsTimely s r) where
  await_pass-Ends : Ends (await_pass s r)
  unfolding await_pass
  await_pass-Ends w h =
      let w' = pause r.first_sleep w in
      answered w' (wait_for_pass_ends s.slot_idx s.pass_wait_timeout r.began r.polls w' t) h
    where
      answered :
          (w : World)
          → IsAnswer (wait_for_pass s.slot_idx s.pass_wait_timeout r.began r.polls w).0
          → (wait_for_pass s.slot_idx s.pass_wait_timeout r.began r.polls w).0 ≢ stuck
      answered w (b, e) h = cc

  judge-Ends :
      (total num : ℕ) (pass_detected cancelled : Bool)
      → Ends (
          if pass_detected
          then finish_batch s total num
          else if cancelled
          then pure (some false)
          else abandon_batch s num)
  judge-Ends total num true cancelled = finish_batch-Ends s total num
  judge-Ends total num false true = done (some false)
  judge-Ends total num false false = abandon_batch-Ends s num

  follow_batch-Ends : (total num : ℕ) → Ends (follow_batch s total num r)
  unfolding follow_batch
  follow_batch-Ends total num = then-Ends _ _ (fire_if_possible-Ends SlotEvent.run [] none) (
      bind-Ends _ _ await_pass-Ends (λ pass_detected w.
        judge-Ends total num pass_detected (is_cancel_requested s.slot_idx w) w))

  passed_precondition-Ends :
      (success : Bool)
      → Ends (
          if success
          then (do
            fire_if_possible SlotEvent.run [] none
            pass_detected ← await_pass s r
            modify (set_local (Field.is_precondition false))
            pure pass_detected)
          else pure false)
  passed_precondition-Ends true =
      then-Ends _ _ (fire_if_possible-Ends SlotEvent.run [] none)
        (bind-Ends _ _ await_pass-Ends (λ pass_detected w h. cc))
  passed_precondition-Ends false = done false

  run_precondition_with-Ends : (capacity : TestCapacity) → Ends (run_precondition_with s r capacity)
  unfolding run_precondition_with
  run_precondition_with-Ends capacity w =
      bind-Ends (launch_with _ r) _ (launch_with-Ends _ r) passed_precondition-Ends _

  started-Ends :
      (total num : ℕ) (success : Bool)
      → Ends (if success then follow_batch s total num r else abandon_batch s num)
  started-Ends total num true = follow_batch-Ends total num
  started-Ends total num false = abandon_batch-Ends s num

  run_batch-Ends : (total num : ℕ) (at : Time) → Ends (run_batch s total num at r)
  unfolding run_batch
  run_batch-Ends total num at w = elim (Bool-cases (is_cancel_requested s.slot_idx w)) [
    | inl yes_ ↦ rw yes_ (
        then-Ends (fire SlotEvent.stop [] none) (pure (some false))
          (fire-Ends SlotEvent.stop [] none) (done (some false)) w)
    | inr no_ ↦ rw no_ (
        then-Ends (report s total num at r) _ (report-Ends s total num at r)
          (bind-Ends _ _ (launch_with-Ends _ r) (started-Ends total num)) _)
  ]

batches-Ends :
    (s : Setup) (total left num : ℕ) (at : Time) (rs : List Round)
    → AllTimely s left rs
    → Ends (batches s total left num at rs)
unfolding batches
batches-Ends s total zero num at rs t =
    then-Ends (fire SlotEvent.all_batches_done [] none) (pure true)
      (fire-Ends SlotEvent.all_batches_done [] none) (done true)
batches-Ends s total (suc left) num at [] t = absurd t
batches-Ends s total (suc left) num at (r ∷ rs) t =
    bind-Ends (run_batch s total (num + 1) at r) _ (run_batch-Ends s r t.0 total (num + 1) at)
      (next (batches-Ends s total left (num + 1) at rs t.1))
  where
    next :
        Ends (batches s total left (num + 1) at rs)
        → (ended : Option Bool)
        → Ends (elim ended [ some b ↦ pure b | none ↦ batches s total left (num + 1) at rs ])
    next rest none = rest
    next rest (some b) = done b

main_batches-Ends :
    (s : Setup) (at : Time) (rs : List Round)
    → AllTimely s (total_batches s) rs
    → Ends (main_batches s at rs)
unfolding main_batches
main_batches-Ends s at rs t w = elim (Bool-cases (s.config.loop_step == 0)) [
  | inl e ↦ rw e (λ x. cc)
  | inr e ↦ rw e (batches-Ends s (total_batches s) (total_batches s) 0 at rs t _)
]

run_precondition-Ends : (s : Setup) (p : Round) → IsTimely s p → Ends (run_precondition s p)
unfolding run_precondition
run_precondition-Ends s p t =
    by_capacity (run_precondition_with-Ends s p t) s.config.precondition.capacity
  where
    by_capacity :
        ((capacity : TestCapacity) → Ends (run_precondition_with s p capacity))
        → (o : Option TestCapacity)
        → Ends (elim o [ none ↦ pure false | some capacity ↦ run_precondition_with s p capacity ])
    by_capacity with_ none = done false
    by_capacity with_ (some capacity) = with_ capacity

phase_1-Ends :
    (s : Setup) (p : Round) (at : Time) (rs : List Round)
    → IsTimely s p
    → AllTimely s (total_batches s) rs
    → Ends (phase_1 s p at rs)
unfolding phase_1
phase_1-Ends s p at rs t ts = bind-Ends (run_precondition s p) _ (run_precondition-Ends s p t) next
  where
    next :
        (success : Bool)
        → Ends (if success then main_batches s at rs else give_up "Precondition failed")
    next true = main_batches-Ends s at rs ts
    next false = give_up-Ends "Precondition failed"

-- Whatever the controller answers, the window shows and other tasks do: if each wait comes to a
-- poll at its time limit or later, and there is a round for each batch, `execute` ends with a
-- result or an exception.
pub execute_ends :
    (s : Setup) (precondition : Round) (rs : List Round) (w : World)
    → IsTimely s precondition
    → AllTimely s (total_batches s) rs
    → (execute s precondition rs w).0 ≢ stuck
unfolding execute
execute_ends s p rs w t ts = elim (Bool-cases (needs_precondition s.config)) [
  | inl e ↦ rw e (phase_1-Ends s p _ rs t ts _)
  | inr e ↦ rw e (main_batches-Ends s _ rs ts _)
]
