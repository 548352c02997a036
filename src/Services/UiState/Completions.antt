-- ===== src/Services/UiState/Completions.antt =====
-- How often the polls of one slot report the end of a test.
use aio_ss_usb_test_agent.Prelude.{
  ℕ, ◌+◌, ◌≤◌, ◌≡◌, refl, ◌⊎◌, inl, inr, Bool, false, ◌&&◌, not, if◌then◌else◌, Option, none, some,
  List, [], ◌∷◌, arith,
}
use aio_ss_usb_test_agent.Domain.Enums.{ProcessState, process_state_eq, ProcessState-discrete}
use aio_ss_usb_test_agent.Services.UiState.{
  MfcUiState, ChangedField, detect_changes, check_test_completion, concluded, if_changed, is_active,
}

-- The previous poll shows a test at work.
abbrev pub was_active : Option MfcUiState → Bool
was_active none = false
was_active (some p) = is_active p.process_state

abbrev told_pass : Option ProcessState → ℕ
told_pass (some ProcessState.pass) = 1
told_pass _ = 0

-- The successes that a run of polls reports, from the previous poll on.
abbrev pub passes_told : Option MfcUiState → List MfcUiState → ℕ
passes_told p [] = 0
passes_told p (c ∷ cs) = told_pass (concluded p c) + passes_told (some c) cs

-- The polls of the run at which the window begins to show Pass or Test.
abbrev pub tests_begun : Option MfcUiState → List MfcUiState → ℕ
tests_begun p [] = 0
tests_begun p (c ∷ cs) =
    (if is_active c.process_state && not (was_active p) then 1 else 0) + tests_begun (some c) cs

abbrev at_work : Option MfcUiState → ℕ
at_work p = if was_active p then 1 else 0

step_bound :
    (p : Option MfcUiState) (c : MfcUiState) (o : Option ProcessState)
    → (o ≡ none) ⊎ (o ≡ check_test_completion p c)
    → told_pass o + at_work (some c)
      ≤ (if is_active c.process_state && not (was_active p) then 1 else 0) + at_work p
unfolding check_test_completion ProcessState-discrete
step_bound none c o h = ground arith
step_bound (some p) c o h = ground arith

changed-cases :
    (changed : List ChangedField) (o : Option ProcessState)
    → (if_changed changed o ≡ none) ⊎ (if_changed changed o ≡ o)
changed-cases [] o = inl refl
changed-cases (f ∷ fs) o = inr refl

concluded-cases :
    (p : Option MfcUiState) (c : MfcUiState)
    → (concluded p c ≡ none) ⊎ (concluded p c ≡ check_test_completion p c)
unfolding concluded
concluded-cases p c = changed-cases (detect_changes p c) (check_test_completion p c)

run_bound :
    (p : Option MfcUiState) (cs : List MfcUiState) → passes_told p cs ≤ tests_begun p cs + at_work p
run_bound p [] = omega arith
run_bound p (c ∷ cs) =
    omega (arith, run_bound (some c) cs, step_bound p c (concluded p c) (concluded-cases p c))

-- From a window that shows no test at work, a success is reported at most once for each time that it
-- begins to show Pass or Test, whatever it shows between.
pub passes_bounded :
    (p : Option MfcUiState) (cs : List MfcUiState)
    → was_active p ≡ false
    → passes_told p cs ≤ tests_begun p cs
passes_bounded p cs h = ground (arith, run_bound p cs)
