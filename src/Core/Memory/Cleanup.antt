-- ===== src/Core/Memory/Cleanup.antt =====
-- The clean-up callbacks: who is called, and who stays.
use text.Mathlib.TextEquality.{eq_iff}
use aio_ss_usb_test_agent.Prelude.{
  ℕ, ◌≡◌, refl, sym, ap, ◌∙◌, if◌then◌else◌, true, false, Bool-cases, under_if, String, List, [],
  ◌∷◌, ◌++◌, map, length, arith, ◌≢◌, inl, inr, str_eq, All,
}
use aio_ss_usb_test_agent.Prelude.Dict.{Dict, put, pop}
use aio_ss_usb_test_agent.Domain.Context.{Time}
use aio_ss_usb_test_agent.Core.Memory.{
  MemoryManager, Callback, string_eq, call_each, pop_all, execute_cleanup_callbacks,
}

-- The callbacks that return, in the order in which they were registered.
unfoldable pub returning : Time → Dict String Callback → Dict String Callback
returning now [] = []
returning now ((name, callback) ∷ d) =
    let rest = returning now d in if callback now then (name, callback) ∷ rest else rest

abbrev pub IsNew : {V : Type 0} → String → Dict String V → Type 0
IsNew name [] = Unit
IsNew name ((other, v) ∷ d) = (name ≢ other) × IsNew name d

-- No name is there twice, as in a dict.
abbrev pub IsDict : {V : Type 0} → Dict String V → Type 0
IsDict [] = Unit
IsDict ((name, v) ∷ d) = IsNew name d × IsDict d

str_eq-other : {a b : String} → a ≢ b → str_eq a b ≡ false
str_eq-other {a} {b} n = elim (Bool-cases (str_eq a b)) [
  | inl e ↦ absurd (n ((eq_iff a b).0 e))
  | inr e ↦ e
]

str_eq-same : (a : String) → str_eq a a ≡ true
str_eq-same a = (eq_iff a a).1 refl

pop-new : {V : Type 0} (d : Dict String V) (name : String) → IsNew name d → pop d name ≡ d
unfolding pop
pop-new [] name n = refl
pop-new ((other, v) ∷ d) name n = rw (str_eq-other (λ e. n.0 (sym e)), pop-new d name n.1) refl

pop_all-kept :
    (d : Dict String Callback) (name : String) (c : Callback) (names : List String)
    → All (λ other. name ≢ other) names
    → pop_all ((name, c) ∷ d) names ≡ (name, c) ∷ pop_all d names
unfolding pop_all pop
pop_all-kept d name c [] n = refl
pop_all-kept d name c (other ∷ names) n =
    rw (str_eq-other n.0) (pop_all-kept (pop d other) name c names n.1)

call_each-new :
    (now : Time) (d : Dict String Callback) (name : String)
    → IsNew name d
    → All (λ other. name ≢ other) (call_each now d).1
unfolding call_each
call_each-new now [] name n = tt
call_each-new now ((other, c) ∷ d) name n =
    under_if (λ (r : ℕ × List String × List String). All (λ o. name ≢ o) r.1) (c now)
      (λ _. call_each-new now d name n.1) (λ _. (n.0, call_each-new now d name n.1))

call_each-count :
    (now : Time) (d : Dict String Callback) → (call_each now d).0 ≡ length (returning now d)
unfolding call_each returning
call_each-count now [] = refl
call_each-count now ((name, c) ∷ d) = ground (arith, call_each-count now d)

pop_all-call_each :
    (now : Time) (d : Dict String Callback)
    → IsDict d
    → pop_all d (call_each now d).1 ≡ returning now d
unfolding call_each returning pop_all pop
pop_all-call_each now [] k = refl
pop_all-call_each now ((name, c) ∷ d) (n, k) = elim (Bool-cases (c now)) [
  | inl e ↦ rw e (
      pop_all-kept d name c (call_each now d).1 (call_each-new now d name n)
      ∙ ap (λ rest. (name, c) ∷ rest) (pop_all-call_each now d k))
  | inr e ↦ rw e (raised ∙ pop_all-call_each now d k)
]
  where
    raised : pop_all (pop ((name, c) ∷ d) name) (call_each now d).1 ≡ pop_all d (call_each now d).1
    raised = rw (str_eq-same name, pop-new d name n) refl

call_each-names : (now : Time) (d : Dict String Callback) → (call_each now d).2 ≡ map (λ e. e.0) d
unfolding call_each
call_each-names now [] = refl
call_each-names now ((name, c) ∷ d) =
    under_if (λ (r : ℕ × List String × List String). r.2 ≡ name ∷ map (λ e. e.0) d) (c now)
      (λ _. ap (λ names. name ∷ names) (call_each-names now d))
      (λ _. ap (λ names. name ∷ names) (call_each-names now d))

-- The clean-up calls every callback once, in the order of the registrations, the count is of those
-- that returned, and these alone are registered afterwards, in their order. It holds of callbacks with
-- distinct names.
pub execute-returning :
    (now : Time) (m : MemoryManager)
    → IsDict m.cleanup_callbacks
    → execute_cleanup_callbacks now m ≡ (
      length (returning now m.cleanup_callbacks),
      record m {
        cleanup_callbacks = returning now m.cleanup_callbacks;
        called = m.called ++ map (λ e. e.0) m.cleanup_callbacks;
      },
    )
unfolding execute_cleanup_callbacks
execute-returning now m k =
    rw
      (
        call_each-count now m.cleanup_callbacks,
        call_each-names now m.cleanup_callbacks,
        pop_all-call_each now m.cleanup_callbacks k,
      )
      refl

module _ {V : Type 0} where
  put-IsNew :
      (d : Dict String V) (name k : String) (v : V)
      → name ≢ k
      → IsNew name d
      → IsNew name (put d k v)
  unfolding put
  put-IsNew [] name k v n h = (n, tt)
  put-IsNew ((j, w) ∷ d) name k v n h =
      under_if (IsNew name) (str_eq j k) (λ _. h) (λ _. (h.0, put-IsNew d name k v n h.1))

  pub put-IsDict : (d : Dict String V) (k : String) (v : V) → IsDict d → IsDict (put d k v)
  unfolding put
  put-IsDict [] k v h = (tt, tt)
  put-IsDict ((j, w) ∷ d) k v h =
      under_if IsDict (str_eq j k) (λ _. h)
        (λ e. (
          put-IsNew d j k v (λ same. true_not_false (sym ((eq_iff j k).1 same) ∙ e)) h.0,
          put-IsDict d k v h.1,
        ))
    where
      true_not_false : true ≡ false → ⊥
      true_not_false e = ground (arith, e)

  pop-IsNew : (d : Dict String V) (name k : String) → IsNew name d → IsNew name (pop d k)
  unfolding pop
  pop-IsNew [] name k h = tt
  pop-IsNew ((j, w) ∷ d) name k h =
      under_if (IsNew name) (str_eq j k) (λ _. pop-IsNew d name k h.1)
        (λ _. (h.0, pop-IsNew d name k h.1))

  pub pop-IsDict : (d : Dict String V) (k : String) → IsDict d → IsDict (pop d k)
  unfolding pop
  pop-IsDict [] k h = tt
  pop-IsDict ((j, w) ∷ d) k h =
      under_if IsDict (str_eq j k) (λ _. pop-IsDict d k h.1)
        (λ _. (pop-IsNew d j k h.0, pop-IsDict d k h.1))

pub pop_all-IsDict :
    (d : Dict String Callback) (names : List String) → IsDict d → IsDict (pop_all d names)
unfolding pop_all
pop_all-IsDict d [] h = h
pop_all-IsDict d (name ∷ names) h = pop_all-IsDict (pop d name) names (pop-IsDict d name h)
