-- ===== src/Domain/Config/Validation.antt =====
-- domain/models/test_config.py: `validate` and `is_valid`, over any integers, on the fields that they
-- read, and `get_precondition_capacity`.
use aio_ss_usb_test_agent.Prelude.{
  ℕ, zero, suc, ◌<◌, ◌≡◌, ◌↔◌, ◌⊎◌, inl, inr, refl, Bool, true, false, not, ◌&&◌, none, some,
  String, str_eq, List, [], ◌∷◌, ℤ, ltb_int, leb_int, arith,
}
use aio_ss_usb_test_agent.Domain.Enums.{TestCapacity, is_hot_test}
use aio_ss_usb_test_agent.Domain.Values.{value, file_enum}
use aio_ss_usb_test_agent.Domain.Config.{TestConfig}
use aio_ss_usb_test_agent.Domain.Values.Capacity.{from_drive_capacity}

-- A configuration as it is before validation.
pub record Unchecked : Type 0 where
  pub slot_idx : ℤ
  pub jira_no : String
  pub sample_no : String
  pub drive : String
  pub loop_count : ℤ
  pub loop_step : ℤ
  pub start_loop : ℤ
  pub hr_enabled : Bool
  pub die_count : ℤ

-- The fields of a configuration that `validate` reads.
abbrev pub to_validate : TestConfig → Unchecked
to_validate c = record {
  slot_idx = ℤ.pos c.slot_idx;
  jira_no = c.jira_no;
  sample_no = c.sample_no;
  drive = c.drive;
  loop_count = ℤ.pos c.loop_count;
  loop_step = ℤ.pos c.loop_step;
  start_loop = ℤ.pos c.start_loop;
  hr_enabled = c.hr_enabled;
  die_count = ℤ.pos c.die_count;
}

-- The messages, with the numbers they print.
pub data Problem : Type 0 where
  slot_idx_range loop_count_below loop_step_below start_loop_negative die_count_below : ℤ → Problem
  start_loop_late : ℤ → ℤ → Problem
  drive_required jira_no_required sample_no_required : Problem

abbrev problem_if : Bool → Problem → List Problem → List Problem
problem_if true p ps = p ∷ ps
problem_if false p ps = ps

unfoldable pub validate : Unchecked → List Problem
validate c =
    problem_if (not (leb_int (ℤ.pos 0) c.slot_idx && ltb_int c.slot_idx (ℤ.pos 4)))
      (Problem.slot_idx_range c.slot_idx)
      (problem_if (ltb_int c.loop_count (ℤ.pos 1)) (Problem.loop_count_below c.loop_count) (
        problem_if (ltb_int c.loop_step (ℤ.pos 1)) (Problem.loop_step_below c.loop_step) (
          problem_if (ltb_int c.start_loop (ℤ.pos 0)) (Problem.start_loop_negative c.start_loop) (
            problem_if (leb_int c.loop_count c.start_loop)
              (Problem.start_loop_late c.start_loop c.loop_count)
              (problem_if (str_eq c.drive "") Problem.drive_required (
                problem_if (str_eq c.jira_no "") Problem.jira_no_required (
                  problem_if (str_eq c.sample_no "") Problem.sample_no_required (
                    problem_if (c.hr_enabled && ltb_int c.die_count (ℤ.pos 1))
                      (Problem.die_count_below c.die_count) []))))))))

-- len(errors) == 0
abbrev is_empty : List Problem → Bool
is_empty [] = true
is_empty (_ ∷ _) = false

unfoldable pub is_valid : Unchecked → Bool
is_valid c = is_empty (validate c)

-- str(self.test_file), which is its value
unfoldable pub get_test_file_value : TestConfig → String
get_test_file_value c = value c.test_file

unfoldable pub is_hot : TestConfig → Bool
is_hot c = is_hot_test c.test_preset

unfoldable pub get_precondition_capacity : TestConfig → TestCapacity
get_precondition_capacity c = elim (c.precondition).capacity [
  | some capacity ↦ capacity
  | none ↦ from_drive_capacity c.drive_capacity_gb
]

-- What a test can be run with.
pub record Runnable (c : Unchecked) : Type 0 where
  pub slot : (n : ℕ) × (c.slot_idx ≡ ℤ.pos n) × (n < 4)
  pub loops :
      (start : ℕ) × (count : ℕ) × (c.start_loop ≡ ℤ.pos start)
      × (c.loop_count ≡ ℤ.pos count)
      × (start < count)
  pub step : (n : ℕ) × (c.loop_step ≡ ℤ.pos (suc n))
  pub drive : str_eq c.drive "" ≡ false
  pub jira_no : str_eq c.jira_no "" ≡ false
  pub sample_no : str_eq c.sample_no "" ≡ false
  pub die : (c.hr_enabled ≡ false) ⊎ ((n : ℕ) × (c.die_count ≡ ℤ.pos (suc n)))

problem_if-nil :
    (b : Bool) (p : Problem) (ps : List Problem) → problem_if b p ps ≡ [] → (b ≡ false) × (ps ≡ [])
problem_if-nil true p ps h = ground arith
problem_if-nil false p ps h = (refl, h)

slot_lem :
    (s : ℤ)
    → not (leb_int (ℤ.pos 0) s && ltb_int s (ℤ.pos 4)) ≡ false
    → (n : ℕ) × (s ≡ ℤ.pos n) × (n < 4)
slot_lem (ℤ.pos n) h = (n, refl, ground (arith, h))
slot_lem (ℤ.negsuc n) h = ground (arith, h)

positive_lem : (s : ℤ) → ltb_int s (ℤ.pos 1) ≡ false → (n : ℕ) × (s ≡ ℤ.pos (suc n))
positive_lem (ℤ.pos zero) h = ground arith
positive_lem (ℤ.pos (suc n)) h = (n, refl)
positive_lem (ℤ.negsuc n) h = ground arith

loops_lem :
    (s m : ℤ)
    → ltb_int s (ℤ.pos 0) ≡ false
    → leb_int m s ≡ false
    → (start : ℕ) × (count : ℕ) × (s ≡ ℤ.pos start) × (m ≡ ℤ.pos count) × (start < count)
loops_lem (ℤ.negsuc n) m h g = ground arith
loops_lem (ℤ.pos n) (ℤ.negsuc m) h g = ground arith
loops_lem (ℤ.pos n) (ℤ.pos m) h g = (n, m, refl, refl, ground arith)

die_lem :
    (hr : Bool) (d : ℤ)
    → hr && ltb_int d (ℤ.pos 1) ≡ false
    → (hr ≡ false) ⊎ ((n : ℕ) × (d ≡ ℤ.pos (suc n)))
die_lem false d h = inl refl
die_lem true d h = inr (positive_lem d h)

-- The problems that come before the last ones are none, and the last ones are none.
pub validate-Runnable : (c : Unchecked) → validate c ≡ [] → Runnable c
unfolding validate
validate-Runnable c h =
    let (slot, h₁) = problem_if-nil _ _ _ h in
    let (_, h₂) = problem_if-nil _ _ _ h₁ in
    let (step, h₃) = problem_if-nil _ _ _ h₂ in
    let (start, h₄) = problem_if-nil _ _ _ h₃ in
    let (late, h₅) = problem_if-nil _ _ _ h₄ in
    let (drive, h₆) = problem_if-nil _ _ _ h₅ in
    let (jira, h₇) = problem_if-nil _ _ _ h₆ in
    let (sample, h₈) = problem_if-nil _ _ _ h₇ in
    let (die, _) = problem_if-nil _ _ _ h₈ in
    record {
      slot = slot_lem c.slot_idx slot;
      loops = loops_lem c.start_loop c.loop_count start late;
      step = positive_lem c.loop_step step;
      drive = drive;
      jira_no = jira;
      sample_no = sample;
      die = die_lem c.hr_enabled c.die_count die;
    }

slot_ok : (n : ℕ) → n < 4 → not (leb_int (ℤ.pos 0) (ℤ.pos n) && ltb_int (ℤ.pos n) (ℤ.pos 4)) ≡ false
slot_ok n h = ground arith

late_ok : (n m : ℕ) → n < m → leb_int (ℤ.pos m) (ℤ.pos n) ≡ false
late_ok n m h = ground arith

count_ok : (n m : ℕ) → n < m → ltb_int (ℤ.pos m) (ℤ.pos 1) ≡ false
count_ok n m h = ground arith

step_ok : (n : ℕ) → ltb_int (ℤ.pos (suc n)) (ℤ.pos 1) ≡ false
step_ok n = ground arith

start_ok : (n : ℕ) → ltb_int (ℤ.pos n) (ℤ.pos 0) ≡ false
start_ok n = ground arith

die_ok :
    (hr : Bool) (d : ℤ)
    → (hr ≡ false) ⊎ ((n : ℕ) × (d ≡ ℤ.pos (suc n)))
    → hr && ltb_int d (ℤ.pos 1) ≡ false
die_ok hr d (inl e) = rw e
die_ok false d (inr _) = refl
die_ok true d (inr (n, e)) = rw e (step_ok n)

Runnable-validate : (c : Unchecked) → Runnable c → validate c ≡ []
unfolding validate
Runnable-validate c r =
    let (n, e, n<4) = r.slot in
    let (start, count, es, ec, lt) = r.loops in
    let (k, ek) = r.step in
    rw (
      e,
      slot_ok n n<4,
      ec,
      count_ok start count lt,
      ek,
      step_ok k,
      es,
      start_ok start,
      late_ok start count lt,
      r.drive,
      r.jira_no,
      r.sample_no,
      die_ok c.hr_enabled c.die_count r.die,
    )

is_empty_nil : (ps : List Problem) → is_empty ps ≡ true → ps ≡ []
is_empty_nil [] h = refl
is_empty_nil (x ∷ xs) h = ground arith

-- A configuration of any integers is valid exactly if it can be run: its slot is one of the four,
-- its first loop is before its last, its loop step is at least one, its texts are there, and with
-- hr enabled its number of dies is at least one.
pub is_valid-Runnable : (c : Unchecked) → (is_valid c ≡ true) ↔ Runnable c
unfolding is_valid
is_valid-Runnable c = (λ h. validate-Runnable c (is_empty_nil _ h), λ r. rw (Runnable-validate c r))
