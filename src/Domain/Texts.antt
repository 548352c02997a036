-- ===== src/Domain/Texts.antt =====
-- config/constants.py: `from_text` of ProcessState and TestPhase, which read the texts of a window. A
-- text is the list of its characters' code points. Case, letters, digits and blanks are those of
-- ASCII, in which the window writes.
pub mod Progress
mod Examples
use Prim.Native.Char.{code}
use Prim.Native.String.{[] as nil_text, ◌∷◌ as cons_text}
use aio_ss_usb_test_agent.Prelude.{
  ℕ, ◌+◌, ◌-◌, ◌*◌, ◌==◌, leb, if◌then◌else◌, Bool, true, false, ◌&&◌, ◌||◌, not, Option, none,
  some, or_else, String, List, [], ◌∷◌, ◌++◌, map,
}
use aio_ss_usb_test_agent.Domain.Enums.{ProcessState, TestPhase}

abbrev pub Text : Type 0
Text = List ℕ

abbrev pub codes : String → Text
codes nil_text = []
codes (cons_text c t) = code c ∷ codes t

abbrev pub same_text : Text → Text → Bool
same_text [] [] = true
same_text [] (d ∷ ds) = false
same_text (c ∷ cs) [] = false
same_text (c ∷ cs) (d ∷ ds) = (c == d) && same_text cs ds

abbrev pub between : ℕ → ℕ → ℕ → Bool
between a b c = leb a c && leb c b

-- str.lower
abbrev lower_code : ℕ → ℕ
lower_code c = if between 65 90 c then c + 32 else c

abbrev pub lower : Text → Text
lower = map lower_code

abbrev is_alpha : ℕ → Bool
is_alpha c = between 65 90 c || between 97 122 c

abbrev pub is_digit : ℕ → Bool
is_digit c = between 48 57 c

-- Tab to carriage return, the four separators of ASCII, and the blank.
abbrev pub is_space : ℕ → Bool
is_space c = between 9 13 c || between 28 32 c

abbrev filter : (ℕ → Bool) → Text → Text
filter p [] = []
filter p (c ∷ cs) = let rest = filter p cs in if p c then c ∷ rest else rest

abbrev lstrip : Text → Text
lstrip [] = []
lstrip (c ∷ cs) = let rest = lstrip cs in if is_space c then rest else c ∷ cs

abbrev cons_unless_blank : ℕ → Text → Text
cons_unless_blank c [] = if is_space c then [] else c ∷ []
cons_unless_blank c (d ∷ ds) = c ∷ d ∷ ds

abbrev rstrip : Text → Text
rstrip [] = []
rstrip (c ∷ cs) = cons_unless_blank c (rstrip cs)

-- str.strip
abbrev pub strip : Text → Text
strip cs = lstrip (rstrip cs)

-- A new part at the front, or one more character of the first one.
abbrev into_first : ℕ → List Text → List Text
into_first c [] = (c ∷ []) ∷ []
into_first c (part ∷ parts) = (c ∷ part) ∷ parts

abbrev end_part : List Text → List Text
end_part [] = []
end_part ([] ∷ parts) = [] ∷ parts
end_part ((c ∷ cs) ∷ parts) = [] ∷ (c ∷ cs) ∷ parts

-- The parts between blanks; the first is empty after a blank.
abbrev split_from : Text → List Text
split_from [] = []
split_from (c ∷ cs) =
    let rest = split_from cs in if is_space c then end_part rest else into_first c rest

abbrev drop_empty : List Text → List Text
drop_empty ([] ∷ parts) = parts
drop_empty parts = parts

-- str.split
abbrev pub split : Text → List Text
split cs = drop_empty (split_from cs)

-- parts[-1] if len(parts) >= 2
abbrev last_part : List Text → Option Text
last_part [] = none
last_part (part ∷ []) = none
last_part (part ∷ next ∷ []) = some next
last_part (part ∷ next ∷ more ∷ parts) = last_part (next ∷ more ∷ parts)

abbrev pub starts_with : Text → Text → Bool
starts_with cs [] = true
starts_with [] (d ∷ ds) = false
starts_with (c ∷ cs) (d ∷ ds) = (c == d) && starts_with cs ds

-- `key in text`
abbrev pub contains : Text → Text → Bool
contains [] key = starts_with [] key
contains (c ∷ cs) key = starts_with (c ∷ cs) key || contains cs key

-- The value of the first key that passes the test.
abbrev first_value {ℓ} : {A : Type ℓ} → (Text → Bool) → List (Text × A) → Option A
first_value test [] = none
first_value test ((key, value) ∷ items) =
    let rest = first_value test items in if test key then some value else rest

abbrev or_default {ℓ} : {A : Type ℓ} → A → Option A → A
or_default a none = a
or_default a (some b) = b

abbrev state_map : List (Text × ProcessState)
state_map =
    (codes "Idle", ProcessState.idle)
    ∷ (codes "Pass", ProcessState.pass)
    ∷ (codes "Stop", ProcessState.stop)
    ∷ (codes "Fail", ProcessState.fail)
    ∷ (codes "Test", ProcessState.test)
    ∷ []

-- key.lower() == text
abbrev lower_is : Text → Text → Bool
lower_is text key = same_text (lower key) text

abbrev state_of_last : Option Text → Option ProcessState
state_of_last none = none
state_of_last (some part) = first_value (lower_is (lower part)) state_map

unfoldable pub process_state_from_text : Text → ProcessState
process_state_from_text [] = ProcessState.unknown
process_state_from_text (c ∷ cs) = or_default ProcessState.unknown (
    or_else (first_value (same_text (c ∷ cs)) state_map) (
      or_else (first_value (lower_is (strip (lower (c ∷ cs)))) state_map)
        (state_of_last (last_part (split (c ∷ cs))))))

abbrev phase_map : List (Text × TestPhase)
phase_map =
    (codes "ContactTest", TestPhase.contact)
    ∷ (codes "FileCopy", TestPhase.copy)
    ∷ (codes "TestStop", TestPhase.stop)
    ∷ (codes "FileCompare", TestPhase.compare)
    ∷ (codes "FileDel", TestPhase.delete)
    ∷ (codes "IDLE", TestPhase.idle)
    ∷ []

abbrev not_blank : ℕ → Bool
not_blank c = not (c == 32)

unfoldable pub test_phase_from_text : Text → TestPhase
test_phase_from_text [] = TestPhase.unknown
test_phase_from_text (c ∷ cs) =
    let cleaned = filter is_alpha (c ∷ cs) in
    let no_space = lower (filter not_blank (c ∷ cs)) in
    or_default TestPhase.unknown (
      or_else (first_value (same_text cleaned) phase_map) (
        or_else (first_value (contains cleaned) phase_map)
          (first_value (λ key. contains no_space (lower key)) phase_map)))

-- The number that a list of digits writes, after the digits before it.
abbrev pub number_from : ℕ → Text → ℕ
number_from n [] = n
number_from n (d ∷ ds) = number_from (n * 10 + (d - 48)) ds

abbrev pub digits : Text → Text
digits [] = []
digits (c ∷ cs) = let rest = digits cs in if is_digit c then c ∷ rest else []

abbrev pub after_digits : Text → Text
after_digits [] = []
after_digits (c ∷ cs) = let rest = after_digits cs in if is_digit c then rest else c ∷ cs

abbrev pub numbers_if : Text → Text → Option (ℕ × ℕ)
numbers_if [] es = none
numbers_if (d ∷ ds) [] = none
numbers_if (d ∷ ds) (e ∷ es) = some (number_from 0 (d ∷ ds), number_from 0 (e ∷ es))

abbrev after_slash : Text → Text → Option (ℕ × ℕ)
after_slash ds [] = none
after_slash ds (c ∷ cs) = let found = numbers_if ds (digits cs) in if c == 47 then found else none

-- re.match(r"(\d+)/(\d+)", text), as two numbers
unfoldable pub match_loops : Text → Option (ℕ × ℕ)
match_loops cs = after_slash (digits cs) (after_digits cs)

-- `_parse_progress_text` of services/mfc_ui_monitor.py, on the current and the total loop.
abbrev set_loops : Option (ℕ × ℕ) → ℕ × ℕ → ℕ × ℕ
set_loops none loops = loops
set_loops (some (current, total)) (_, total_loop) =
    if total_loop == 0 then (current, total) else (current, total_loop)

unfoldable pub parse_progress_text : Text → ℕ × ℕ → ℕ × ℕ
parse_progress_text cs loops = set_loops (match_loops (strip cs)) loops
