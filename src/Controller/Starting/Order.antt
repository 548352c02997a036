-- ===== src/Controller/Starting/Order.antt =====
-- In which order a window is set and its test is started.
use aio_ss_usb_test_agent.Prelude.{
  ℕ, ◌≡◌, refl, ◌⊎◌, inl, inr, if◌then◌else◌, Bool, true, false, ◌&&◌, under_if, Option, none, some,
  List, [], ◌∷◌, All,
}
use aio_ss_usb_test_agent.Domain.Config.{TestConfig}
use aio_ss_usb_test_agent.Controller.Starting.{
  Action, Fault, Performed, Answers, select, done_if, uncheck_ignore_fail, drive_choice,
  capacity_choice, method_choice, loop_choice, file_choice, is_pass, is_to_uncheck, is_clicked,
  is_enabled_once, click_start_button, contact_and_test, wait_for_test_button_enabled,
  start_sequence, continue_sequence, ◌and_then◌,
}

abbrev pub is_test : Action → Bool
is_test Action.test_clicked = true
is_test _ = false

-- Test has not been clicked.
abbrev pub NoTest : List Action → Type 0
NoTest done = All (λ x. is_test x ≡ false) done

-- A sequence that ends well has done what P asks for; one that an exception ended has not clicked Test.
abbrev pub Orderly : (List Action → Type 0) → Performed → Type 0
Orderly P (done, none) = P done
Orderly P (done, some fault) = NoTest done

-- An action comes first, or is left out.
abbrev pub Maybe : Action → (List Action → Type 0) → List Action → Type 0
Maybe x P done = P done ⊎ ((rest : List Action) × ((done ≡ x ∷ rest) × P rest))

abbrev pub First : Action → (List Action → Type 0) → List Action → Type 0
First x P done = (rest : List Action) × ((done ≡ x ∷ rest) × P rest)

-- The selection of a chosen item comes first.
abbrev pub Selected : (ℕ → Action) → Option ℕ → (List Action → Type 0) → List Action → Type 0
Selected act o P done = (n : ℕ) × ((o ≡ some n) × First (act n) P done)

module _ (P : List Action → Type 0) (q : Performed) (h : Orderly P q) where
  done_if-First :
      (b : Bool) (x : Action) (fault : Fault)
      → is_test x ≡ false
      → Orderly (First x P) (done_if b (x ∷ []) fault and_then q)
  done_if-First false x fault e = tt
  done_if-First true x fault e = after q h
    where
      after : (q : Performed) → Orderly P q → Orderly (First x P) ((x ∷ [], none) and_then q)
      after (done, none) k = (done, (refl, k))
      after (done, some f) k = (e, k)

  done_if-nothing : (b : Bool) (fault : Fault) → Orderly P (done_if b [] fault and_then q)
  done_if-nothing false fault = tt
  done_if-nothing true fault = after q h
    where
      after : (q : Performed) → Orderly P q → Orderly P (([], none) and_then q)
      after (done, none) k = k
      after (done, some f) k = k

  Maybe-Orderly :
      (b : Bool) (x : Action)
      → is_test x ≡ false
      → Orderly (Maybe x P) ((if b then (x ∷ [], none) else ([], none)) and_then q)
  Maybe-Orderly false x e = after q h
    where
      after : (q : Performed) → Orderly P q → Orderly (Maybe x P) (([], none) and_then q)
      after (done, none) k = inl k
      after (done, some f) k = k
  Maybe-Orderly true x e = after q h
    where
      after : (q : Performed) → Orderly P q → Orderly (Maybe x P) ((x ∷ [], none) and_then q)
      after (done, none) k = inr (done, (refl, k))
      after (done, some f) k = (e, k)

  select-Selected :
      (act : ℕ → Action) (fault : Fault) (o : Option ℕ)
      → ((n : ℕ) → is_test (act n) ≡ false)
      → Orderly (Selected act o P) (select act fault o and_then q)
  select-Selected act fault none e = tt
  select-Selected act fault (some n) e = after q h
    where
      after :
          (q : Performed)
          → Orderly P q
          → Orderly (Selected act (some n) P) ((act n ∷ [], none) and_then q)
      after (done, none) k = (n, (refl, (done, (refl, k))))
      after (done, some f) k = (e n, k)

-- The click of Contact, and then that of Test, which is the last action.
abbrev pub IsContactAndTest : List Action → Type 0
IsContactAndTest = First Action.contact_clicked (λ done. done ≡ Action.test_clicked ∷ [])

click_start_button-Orderly :
    (a : Answers) → Orderly (λ done. done ≡ Action.test_clicked ∷ []) (click_start_button a)
click_start_button-Orderly a =
    under_if (Orderly (λ done. done ≡ Action.test_clicked ∷ [])) (is_clicked a.test) (λ _. refl)
      (λ _. tt)

contact_and_test-Orderly : (a : Answers) → Orderly IsContactAndTest (contact_and_test a)
unfolding contact_and_test
contact_and_test-Orderly a =
    done_if-First (λ done. done ≡ Action.test_clicked ∷ [])
      (wait_for_test_button_enabled a and_then click_start_button a)
      (done_if-nothing (λ done. done ≡ Action.test_clicked ∷ []) (click_start_button a)
        (click_start_button-Orderly a) (is_enabled_once a.test_enabled) Fault.test_not_enabled)
      (is_clicked a.contact) Action.contact_clicked Fault.contact_not_clicked refl

abbrev IsFromFile : TestConfig → Answers → List Action → Type 0
IsFromFile c a = Selected Action.file_selected (file_choice c a) IsContactAndTest

abbrev IsFromLoop : TestConfig → Answers → List Action → Type 0
IsFromLoop c a = Selected Action.loop_set (loop_choice c a) (IsFromFile c a)

abbrev IsFromMethod : TestConfig → Answers → List Action → Type 0
IsFromMethod c a = Selected Action.method_selected (method_choice c a) (IsFromLoop c a)

abbrev IsFromCapacity : TestConfig → Answers → List Action → Type 0
IsFromCapacity c a = Selected Action.capacity_selected (capacity_choice c a) (IsFromMethod c a)

-- The drive, the capacity, the method, the number of loops and the file of the configuration, in this
-- order and each as it is chosen among the items of its control, then Contact, and Test at last.
abbrev pub IsConfigured : TestConfig → Answers → List Action → Type 0
IsConfigured c a = Selected Action.drive_selected (drive_choice c a) (IsFromCapacity c a)

-- The same after the reset and the box of ignored failures, if they are to be clicked.
abbrev pub IsStarted : TestConfig → Answers → List Action → Type 0
IsStarted c a = Maybe Action.contact_reset (Maybe Action.ignore_fail_unchecked (IsConfigured c a))

-- Whatever the controls answer: a start that no exception ends has set the drive, the capacity, the
-- method, the number of loops and the file of the configuration, in this order, and has then clicked
-- Contact and, as its last action, Test; and one that an exception ends has not clicked Test.
pub start_sequence-Orderly :
    (c : TestConfig) (a : Answers) → Orderly (IsStarted c a) (start_sequence c a)
unfolding start_sequence
start_sequence-Orderly c a =
    Maybe-Orderly (Maybe Action.ignore_fail_unchecked (IsConfigured c a)) from_unchecking
      (Maybe-Orderly (IsConfigured c a) from_drive
        (select-Selected (IsFromCapacity c a) from_capacity
          (select-Selected (IsFromMethod c a) from_method
            (select-Selected (IsFromLoop c a) from_loop
              (select-Selected (IsFromFile c a) from_file
                (select-Selected IsContactAndTest (contact_and_test a) (contact_and_test-Orderly a)
                  Action.file_selected Fault.file_not_set (file_choice c a) (λ n. refl))
                Action.loop_set Fault.loop_not_set (loop_choice c a) (λ n. refl))
              Action.method_selected Fault.method_not_set (method_choice c a) (λ n. refl))
            Action.capacity_selected Fault.capacity_not_set (capacity_choice c a) (λ n. refl))
          Action.drive_selected Fault.drive_not_set (drive_choice c a) (λ n. refl))
        (is_to_uncheck a.ignore_fail) Action.ignore_fail_unchecked refl)
      (is_pass a.status_text && a.reset_works) Action.contact_reset refl
  where
    from_file : Performed
    from_file =
        select Action.file_selected Fault.file_not_set (file_choice c a) and_then contact_and_test a

    from_loop : Performed
    from_loop = select Action.loop_set Fault.loop_not_set (loop_choice c a) and_then from_file

    from_method : Performed
    from_method =
        select Action.method_selected Fault.method_not_set (method_choice c a) and_then from_loop

    from_capacity : Performed
    from_capacity =
        select Action.capacity_selected Fault.capacity_not_set (capacity_choice c a)
        and_then from_method

    from_drive : Performed
    from_drive =
        select Action.drive_selected Fault.drive_not_set (drive_choice c a) and_then from_capacity

    from_unchecking : Performed
    from_unchecking = uncheck_ignore_fail a and_then from_drive

pub continue_sequence-Orderly : (a : Answers) → Orderly IsContactAndTest (continue_sequence a)
unfolding continue_sequence
continue_sequence-Orderly a =
    done_if-nothing IsContactAndTest (contact_and_test a) (contact_and_test-Orderly a)
      (is_enabled_once a.contact_enabled) Fault.contact_not_enabled
