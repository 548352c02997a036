-- ===== src/Core/Container/Examples.antt =====
-- A container with a singleton.
use aio_ss_usb_test_agent.Prelude.{◌≡◌, ◌+◌, refl, true, false, none, some, List, [], ◌∷◌, arith}
use aio_ss_usb_test_agent.Prelude.Dict.{get}
use aio_ss_usb_test_agent.Core.Container.{
  Container, Dependency, Resolved, ContainerCall, resolve, run_container,
}
use aio_ss_usb_test_agent.Core.Container.Singletons.{resolve_again}

abbrev counting : Dependency
counting = record { factory = λ n. some (n + 100); singleton = true; cached = none }

abbrev container : Container
container = record { dependencies = (4, counting) ∷ []; overrides = []; calls = 0 }

abbrev later : List ContainerCall
later =
    ContainerCall.registers 5 (λ n. some n) false
    ∷ ContainerCall.resolves 5
    ∷ ContainerCall.resolves 4
    ∷ []

made : (resolve 4 container).0 ≡ Resolved.instance_of (some 100)
unfolding resolve get
made = refl

resolve_again_example :
    (resolve 4 (run_container (resolve 4 container).1 later)).0 ≡ Resolved.instance_of (some 100)
unfolding get
resolve_again_example =
    resolve_again 4 100 container counting later refl refl refl made (ground arith, (tt, (tt, tt)))

unknown : (resolve 9 container).0 ≡ Resolved.key_error
unfolding resolve get
unknown = refl
