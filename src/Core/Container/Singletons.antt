-- ===== src/Core/Container/Singletons.antt =====
-- A singleton is made once.
use aio_ss_usb_test_agent.Prelude.{
  ℕ, ◌≡◌, ◌≢◌, ◌+◌, ◌&&◌, refl, ap, ◌∙◌, true, Option, none, some, is_some, List, [], ◌∷◌, arith,
  ==_iff, Bool-cases, Option-cases, inl, inr, ℕ_discrete,
}
use aio_ss_usb_test_agent.Prelude.Dict.{Dict, get, put, get-put, get-pop, nat_eq}
use aio_ss_usb_test_agent.Core.Container.{
  Container, Dependency, Resolved, ContainerCall, register, register_instance, resolve,
  resolve_dependency, make, keep_if_singleton, override, clear_override, clear_all_overrides,
  container_call, run_container,
}

-- What neither registers the interface again, nor overrides it, nor resets the container.
abbrev pub Leaves : ℕ → ContainerCall → Type 0
Leaves i (ContainerCall.registers j f s) = j ≢ i
Leaves i (ContainerCall.registers_instance j x) = j ≢ i
Leaves i (ContainerCall.overrides j x) = j ≢ i
Leaves i ContainerCall.resets = ⊥
Leaves i _ = Unit {0}

abbrev pub LeavesAll : ℕ → List ContainerCall → Type 0
LeavesAll i [] = Unit {0}
LeavesAll i (k ∷ ks) = Leaves i k × LeavesAll i ks

-- The container has instance x of the interface, which nothing overrides.
pub record Holds (i x : ℕ) (c : Container) : Type 0 where
  pub dep : Dependency
  pub registered : get c.dependencies i ≡ some dep
  pub singleton : dep.singleton ≡ true
  pub cached : dep.cached ≡ some x
  pub plain : get c.overrides i ≡ none

module _ (i x : ℕ) where
  put_other : (d : Dict ℕ Dependency) (j : ℕ) (v : Dependency) → j ≢ i → get (put d j v) i ≡ get d i
  put_other d j v ne = ground (arith, get-put d j i v, ==_iff j i)

  registered_other :
      (c : Container) (j n : ℕ) (v : Dependency)
      → j ≢ i
      → Holds i x c
      → Holds i x (record c { dependencies = put c.dependencies j v; calls = n })
  registered_other c j n v ne h = record {
    dep = h.dep;
    registered = rw (put_other c.dependencies j v ne) h.registered;
    singleton = h.singleton;
    cached = h.cached;
    plain = h.plain;
  }

  resolve_held : (c : Container) → Holds i x c → resolve i c ≡ (Resolved.instance_of (some x), c)
  unfolding resolve resolve_dependency
  resolve_held c h = rw (h.plain, resolve, h.registered, h.singleton, h.cached)

  make-Holds :
      (c : Container) (j : ℕ) (dep : Dependency) → j ≢ i → Holds i x c → Holds i x (make j dep c).1
  unfolding make keep_if_singleton
  make-Holds c j dep ne h = elim (Bool-cases dep.singleton) [
    | inl e ↦ rw (e, make) (registered_other c j (c.calls + 1) _ ne h)
    | inr e ↦
        rw (e, make)
          (record {
            dep = h.dep;
            registered = h.registered;
            singleton = h.singleton;
            cached = h.cached;
            plain = h.plain;
          })
  ]

  dependency-Holds :
      (c : Container) (j : ℕ) (o : Option Dependency)
      → j ≢ i
      → Holds i x c
      → Holds i x (resolve_dependency j o c).1
  unfolding resolve_dependency
  dependency-Holds c j none ne h = h
  dependency-Holds c j (some dep) ne h = elim (Bool-cases (dep.singleton && is_some dep.cached)) [
    | inl e ↦ rw e h
    | inr e ↦ rw e (make-Holds c j dep ne h)
  ]

  resolve-Holds : (c : Container) (j : ℕ) → Holds i x c → Holds i x (resolve j c).1
  unfolding resolve
  resolve-Holds c j h = elim (ℕ_discrete j i) [
    | yes same ↦ rw (same, resolve_held c h) h
    | no apart ↦ elim (Option-cases (get c.overrides j)) [
      | inl e ↦ rw (e, resolve) (dependency-Holds c j (get c.dependencies j) apart h)
      | inr (given, e) ↦ rw (e, resolve) h
    ]
  ]

  plain_with :
      (c : Container) (os : Dict ℕ (Option ℕ))
      → get os i ≡ none
      → Holds i x c
      → Holds i x (record c { overrides = os })
  plain_with c os e h = record {
    dep = h.dep;
    registered = h.registered;
    singleton = h.singleton;
    cached = h.cached;
    plain = e;
  }

  call-Holds :
      (c : Container) (k : ContainerCall)
      → Leaves i k
      → Holds i x c
      → Holds i x (container_call c k)
  unfolding container_call register register_instance override clear_override clear_all_overrides
      get
  call-Holds c (ContainerCall.registers j f s) ne h = registered_other c j c.calls _ ne h
  call-Holds c (ContainerCall.registers_instance j y) ne h = registered_other c j c.calls _ ne h
  call-Holds c (ContainerCall.resolves j) _ h = resolve-Holds c j h
  call-Holds c (ContainerCall.overrides j y) ne h =
      plain_with c _ (ground (arith, get-put c.overrides j i y, ==_iff j i, h.plain)) h
  call-Holds c (ContainerCall.clears j) _ h =
      plain_with c _ (ground (arith, get-pop c.overrides j i, h.plain)) h
  call-Holds c ContainerCall.clears_all _ h = plain_with c [] refl h
  call-Holds c ContainerCall.resets never h = absurd never

  calls-Holds :
      (c : Container) (ks : List ContainerCall)
      → LeavesAll i ks
      → Holds i x c
      → Holds i x (run_container c ks)
  unfolding run_container
  calls-Holds c [] _ h = h
  calls-Holds c (k ∷ ks) (l, ls) h = calls-Holds (container_call c k) ks ls (call-Holds c k l h)

module _ (i : ℕ) (c : Container) (dep : Dependency) (plain : get c.overrides i ≡ none)
    (there : get c.dependencies i ≡ some dep) (single : dep.singleton ≡ true) where
  resolve_first :
      dep.cached ≡ none
      → resolve i c ≡ (
        Resolved.instance_of (dep.factory c.calls),
        record c {
          dependencies = put c.dependencies i (record dep { cached = dep.factory c.calls });
          calls = c.calls + 1;
        },
      )
  unfolding resolve resolve_dependency make keep_if_singleton
  resolve_first e = rw (plain, resolve, there, single, e)

  resolve_cached : (y : ℕ) → dep.cached ≡ some y → resolve i c ≡ (Resolved.instance_of (some y), c)
  unfolding resolve resolve_dependency
  resolve_cached y e = rw (plain, resolve, there, single, e)

  instance_inj :
      (a : Option ℕ) (x : ℕ) → Resolved.instance_of a ≡ Resolved.instance_of (some x) → a ≡ some x
  instance_inj a x h = ground (arith, h)

  own_entry : (v : Dependency) → get (put c.dependencies i v) i ≡ some v
  own_entry v = ground (arith, get-put c.dependencies i i v)

  -- The first resolution of a singleton keeps its instance.
  resolved-Holds :
      (x : ℕ) → (resolve i c).0 ≡ Resolved.instance_of (some x) → Holds i x (resolve i c).1
  resolved-Holds x h = elim (Option-cases dep.cached) [
    | inl e ↦
        let first = resolve_first e in
        let made = instance_inj (dep.factory c.calls) x (rw first at h) in
        rw first (record {
          dep = record dep { cached = dep.factory c.calls };
          registered = own_entry _;
          singleton = single;
          cached = made;
          plain = plain;
        })
    | inr (y, e) ↦
        let kept = resolve_cached y e in
        rw kept (record {
          dep = dep;
          registered = there;
          singleton = single;
          cached = e ∙ instance_inj (some y) x (rw kept at h);
          plain = plain;
        })
  ]

-- A singleton that has been resolved gives the same instance again after any calls, as long as its
-- interface is not registered again or overridden and the container is not reset.
pub resolve_again :
    (i x : ℕ) (c : Container) (dep : Dependency) (ks : List ContainerCall)
    → get c.overrides i ≡ none
    → get c.dependencies i ≡ some dep
    → dep.singleton ≡ true
    → (resolve i c).0 ≡ Resolved.instance_of (some x)
    → LeavesAll i ks
    → (resolve i (run_container (resolve i c).1 ks)).0 ≡ Resolved.instance_of (some x)
resolve_again i x c dep ks plain there single h ls =
    let held =
      calls-Holds i x (resolve i c).1 ks ls (resolved-Holds i c dep plain there single x h) in
    ap (λ r. r.0) (resolve_held i x _ held)
