-- ===== src/Core/Container.antt =====
-- core/container.py: `Container`. An interface is known by a number, and an instance by its identity;
-- None as an instance is `none`. A class is the factory that calls it.
pub mod Singletons
mod Examples
use aio_ss_usb_test_agent.Prelude.{
  ℕ, ◌+◌, if◌then◌else◌, Bool, true, false, ◌&&◌, ◌||◌, Option, none, some, is_some, List, [], ◌∷◌,
}
use aio_ss_usb_test_agent.Prelude.Dict.{Dict, get, put, pop, nat_eq}

-- What the factory returns, when n calls of factories have been made before. `cached` is `instance`.
pub record Dependency : Type 0 where
  pub factory : ℕ → Option ℕ
  pub singleton : Bool
  pub cached : Option ℕ

pub record Container : Type 0 where
  pub dependencies : Dict ℕ Dependency
  pub overrides : Dict ℕ (Option ℕ)
  pub calls : ℕ

unfoldable pub new_container : Container
new_container = record { dependencies = []; overrides = []; calls = 0 }

unfoldable pub register : ℕ → (ℕ → Option ℕ) → Bool → Container → Container
register interface factory singleton c = record c {
  dependencies =
      put c.dependencies interface
        (record { factory = factory; singleton = singleton; cached = none });
}

unfoldable pub register_instance : ℕ → Option ℕ → Container → Container
register_instance interface given c = record c {
  dependencies =
      put c.dependencies interface
        (record { factory = λ _. given; singleton = true; cached = given });
}

-- dep.instance = instance, if the dependency is a singleton
unfoldable keep_if_singleton : ℕ → Dependency → Option ℕ → Container → Container
keep_if_singleton interface dep made c =
    if dep.singleton
    then record c { dependencies = put c.dependencies interface (record dep { cached = made }) }
    else c

unfoldable make : ℕ → Dependency → Container → Option ℕ × Container
unfolding keep_if_singleton
make interface dep c =
    let made = dep.factory c.calls in
    (made, keep_if_singleton interface dep made (record c { calls = c.calls + 1 }))

-- How `resolve` ends: with an instance, or with KeyError.
pub data Resolved : Type 0 where
  instance_of : Option ℕ → Resolved
  key_error : Resolved

abbrev made_one : Option ℕ × Container → Resolved × Container
made_one (made, c) = (Resolved.instance_of made, c)

unfoldable resolve_dependency : ℕ → Option Dependency → Container → Resolved × Container
unfolding make
resolve_dependency interface none c = (Resolved.key_error, c)
resolve_dependency interface (some dep) c =
    if dep.singleton && is_some dep.cached
    then (Resolved.instance_of dep.cached, c)
    else made_one (make interface dep c)

unfoldable pub resolve : ℕ → Container → Resolved × Container
unfolding resolve_dependency
resolve interface c = elim (get c.overrides interface) [
  | some given ↦ (Resolved.instance_of given, c)
  | none ↦ resolve_dependency interface (get c.dependencies interface) c
]

unfoldable pub override : ℕ → Option ℕ → Container → Container
override interface given c = record c { overrides = put c.overrides interface given }

unfoldable pub clear_override : ℕ → Container → Container
clear_override interface c = record c { overrides = pop c.overrides interface }

unfoldable pub clear_all_overrides : Container → Container
clear_all_overrides c = record c { overrides = [] }

unfoldable pub reset : Container → Container
reset c = record c { dependencies = []; overrides = [] }

unfoldable pub has : ℕ → Container → Bool
has interface c = is_some (get c.dependencies interface) || is_some (get c.overrides interface)

-- A call of the container.
pub data ContainerCall : Type 0 where
  registers : ℕ → (ℕ → Option ℕ) → Bool → ContainerCall
  registers_instance : ℕ → Option ℕ → ContainerCall
  resolves : ℕ → ContainerCall
  overrides : ℕ → Option ℕ → ContainerCall
  clears : ℕ → ContainerCall
  clears_all resets : ContainerCall

unfoldable pub container_call : Container → ContainerCall → Container
container_call c (ContainerCall.registers i f s) = register i f s c
container_call c (ContainerCall.registers_instance i x) = register_instance i x c
container_call c (ContainerCall.resolves i) = (resolve i c).1
container_call c (ContainerCall.overrides i x) = override i x c
container_call c (ContainerCall.clears i) = clear_override i c
container_call c ContainerCall.clears_all = clear_all_overrides c
container_call c ContainerCall.resets = reset c

unfoldable pub run_container : Container → List ContainerCall → Container
run_container c [] = c
run_container c (k ∷ ks) = run_container (container_call c k) ks
