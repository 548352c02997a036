-- ===== src/Domain/Machine/History.antt =====
-- The history that `SlotStateMachine` keeps: its length, and that its entries follow one another.
use aio_ss_usb_test_agent.Prelude.{
  ℕ, suc, zero, ◌+◌, ◌≤◌, ◌≡◌, refl, sym, ◌∙◌, ◌⊎◌, inl, inr, Option, some, String, List, [], ◌∷◌,
  ◌++◌, arith, length, drop, ltb, length-append, length-last_n, Bool-cases,
}
use aio_ss_usb_test_agent.Domain.State.{SlotState, SlotEvent}
use aio_ss_usb_test_agent.Domain.Context.{Field, Time}
use aio_ss_usb_test_agent.Domain.Transitions.{edge}
use aio_ss_usb_test_agent.Domain.Machine.Moves.{after_cases}
use aio_ss_usb_test_agent.Domain.Machine.{
  Entry, SlotStateMachine, record_transition, move_to, trigger, force_state, Call, triggers, forces,
  after, call, run_calls,
}

-- What one entry says: a row of the table was taken, or a state was forced.
abbrev pub IsMove : Entry → Type 0
IsMove e = (edge e.old_state e.event ≡ some e.new_state) ⊎ (e.event ≡ SlotEvent.reset)

-- The entries lead from one state to another, each from where the one before it ended.
abbrev pub Chain : SlotState → List Entry → SlotState → Type 0
Chain s [] t = s ≡ t
Chain s (e ∷ es) t = (e.old_state ≡ s) × IsMove e × Chain e.new_state es t

Chain-append :
    (s t : SlotState) (es : List Entry) (e : Entry)
    → Chain s es t
    → e.old_state ≡ t
    → IsMove e
    → Chain s (es ++ e ∷ []) e.new_state
Chain-append s t [] e h o v = (o ∙ sym h, v, refl)
Chain-append s t (x ∷ es) e h o v = (h.0, h.1, Chain-append x.new_state t es e h.2 o v)

-- The state from which the entries that `drop` keeps lead on.
drop_start : ℕ → SlotState → List Entry → SlotState
drop_start zero s es = s
drop_start (suc n) s [] = s
drop_start (suc n) s (e ∷ es) = drop_start n e.new_state es

Chain-drop :
    (n : ℕ) (s t : SlotState) (es : List Entry)
    → Chain s es t
    → Chain (drop_start n s es) (drop n es) t
unfolding drop_start
Chain-drop zero s t es h = h
Chain-drop (suc n) s t [] h = h
Chain-drop (suc n) s t (e ∷ es) h = Chain-drop n e.new_state t es h.2

-- The history leads from some state to the present one.
abbrev pub IsLinked : SlotStateMachine → Type 0
IsLinked m = (s : SlotState) × Chain s m.history m.state

record_linked :
    (s t : SlotState) (es : List Entry) (e : Entry)
    → Chain s es t
    → e.old_state ≡ t
    → IsMove e
    → (r : SlotState) × Chain r (record_transition e es) e.new_state
unfolding record_transition
record_linked s t es e h o v =
    let longer = Chain-append s t es e h o v in
    elim (Bool-cases (ltb 100 (length (es ++ e ∷ [])))) [
      | inl cut ↦ rw cut (drop_start _ s _, Chain-drop _ s e.new_state _ longer)
      | inr fits ↦ rw fits (s, longer)
    ]

record_short : (e : Entry) (es : List Entry) → length (record_transition e es) ≤ 100
unfolding record_transition
record_short e es = ground (arith, length-last_n 50 (es ++ e ∷ []))

module _ (e : SlotEvent) (fs : List Field) (msg : Option String) (now : Time)
    (m : SlotStateMachine) where
  trigger-IsLinked : IsLinked m → IsLinked (after m (trigger e fs msg now m))
  unfolding move_to
  trigger-IsLinked (s, h) =
      after_cases e fs msg now m IsLinked (s, h)
        λ t step.
          record_linked s m.state m.history
            (record { at = now; old_state = m.state; event = e; new_state = t }) h refl (inl step)

  trigger_short :
      (n : ℕ)
      → 100 ≤ n
      → length m.history ≤ n
      → length (after m (trigger e fs msg now m)).history ≤ n
  unfolding move_to
  trigger_short n room h =
      after_cases e fs msg now m (λ m'. length m'.history ≤ n) h
        λ t step. omega (
          arith,
          record_short (record { at = now; old_state = m.state; event = e; new_state = t })
              m.history,
        )

force_state-IsLinked :
    (t : SlotState) (now : Time) (m : SlotStateMachine)
    → IsLinked m
    → IsLinked (force_state t now m)
unfolding force_state
force_state-IsLinked t now m (s, h) = (s, Chain-append s m.state m.history _ h refl (inr refl))

-- Whatever is called, triggers that raise and forced states included, the history stays a chain of
-- moves that ends in the present state: each entry starts where the one before it ended, and is a
-- row of the table or a forced state.
pub run_calls-IsLinked :
    (m : SlotStateMachine) (cs : List Call) → IsLinked m → IsLinked (run_calls m cs)
unfolding run_calls call
run_calls-IsLinked m [] h = h
run_calls-IsLinked m (triggers e fs msg now ∷ cs) h =
    run_calls-IsLinked (call m (triggers e fs msg now)) cs (trigger-IsLinked e fs msg now m h)
run_calls-IsLinked m (forces t now ∷ cs) h =
    run_calls-IsLinked (call m (forces t now)) cs (force_state-IsLinked t now m h)

abbrev pub forced : List Call → ℕ
forced [] = 0
forced (triggers _ _ _ _ ∷ cs) = forced cs
forced (forces _ _ ∷ cs) = suc (forced cs)

grows :
    (n : ℕ) (m : SlotStateMachine) (cs : List Call)
    → 100 ≤ n
    → length m.history ≤ n
    → length (run_calls m cs).history ≤ n + forced cs
unfolding run_calls call force_state
grows n m [] room h = omega arith
grows n m (triggers e fs msg now ∷ cs) room h =
    grows n _ cs room (trigger_short e fs msg now m n room h)
grows n m (forces t now ∷ cs) room h = omega (
  arith,
  grows (suc n) (force_state t now m) cs (omega arith)
      (omega (arith, h, length-append m.history (_ ∷ []))),
)

-- From a history of at most 100 entries, the history has at most 100 entries more than there were
-- forced states: triggers alone never make it longer than 100.
pub history_bounded :
    (m : SlotStateMachine) (cs : List Call)
    → length m.history ≤ 100
    → length (run_calls m cs).history ≤ 100 + forced cs
history_bounded m cs h = grows 100 m cs (omega arith) h

abbrev pub resets : ℕ → List Call
resets zero = []
resets (suc n) = forces SlotState.idle 0 ∷ resets n

-- `force_state` does not cut the history: n forced states in a row make it n entries longer, with
-- no bound.
pub force_unbounded :
    (n : ℕ) (m : SlotStateMachine) → length (run_calls m (resets n)).history ≡ length m.history + n
unfolding run_calls call force_state
force_unbounded zero m = omega arith
force_unbounded (suc n) m =
    omega
      (arith, force_unbounded n (force_state SlotState.idle 0 m), length-append m.history (_ ∷ []))
