-- ===== src/Controller/Selecting.antt =====
-- controller/controller.py: which item of a combo box is selected for a value. Texts are those of
-- Domain/Texts, over ASCII.
use mathlib.Core.Path.{subst, fun_ext}
use aio_ss_usb_test_agent.Prelude.{
  ℕ, zero, suc, ◌-◌, ◌≡◌, ◌≢◌, refl, sym, ◌==◌, ==_iff, if◌then◌else◌, Bool, true, false,
  Bool-cases, inl, inr, ◌⊎◌, ◌&&◌, ◌||◌, under_if, Option, none, some, or_else, List, [], ◌∷◌, All,
  map, arith,
}
use aio_ss_usb_test_agent.Domain.Texts.{
  Text, between, lower, strip, same_text, starts_with, contains,
}

abbrev suc_if_any : Option ℕ → Option ℕ
suc_if_any none = none
suc_if_any (some n) = some (suc n)

-- The first index of an item that passes the test, as the loops with `enumerate` find it.
abbrev pub first_index : (Text → Bool) → List Text → Option ℕ
first_index test [] = none
first_index test (t ∷ ts) =
    let rest = first_index test ts in if test t then some 0 else suc_if_any rest

-- `_normalize`
abbrev normalize : Text → Text
normalize t = lower (strip t)

abbrev pub is_nonempty : Text → Bool
is_nonempty [] = false
is_nonempty (c ∷ cs) = true

abbrev pub is_exact : Text → Text → Bool
is_exact value t = same_text (normalize t) (normalize value)

abbrev pub is_partial : Text → Text → Bool
is_partial value t = is_nonempty (normalize value) && contains (normalize t) (normalize value)

-- The choice of `_select_combobox_item`: an equal item before one that contains the value.
unfoldable pub choose_item : Text → List Text → Option ℕ
choose_item value items =
    or_else (first_index (is_exact value) items) (first_index (is_partial value) items)

-- str.upper
abbrev upper_code : ℕ → ℕ
upper_code c = if between 97 122 c then c - 32 else c

abbrev pub upper : Text → Text
upper = map upper_code

-- text.split(c)[0]
abbrev before : ℕ → Text → Text
before c [] = []
before c (d ∷ ds) = let rest = before c ds in if d == c then [] else d ∷ rest

abbrev pub first_character : Text → Text
first_character [] = []
first_character (c ∷ cs) = c ∷ []

-- The letter that `_set_drive` takes from a drive's text; 58 is the colon, and 45 the hyphen.
unfoldable pub drive_letter : Text → Text
drive_letter drive = first_character (upper (strip (before 45 (before 58 drive))))

-- item.rstrip(":\\"); 92 is the backslash.
abbrev is_root_mark : ℕ → Bool
is_root_mark c = (c == 58) || (c == 92)

abbrev cons_unless_mark : ℕ → Text → Text
cons_unless_mark c [] = if is_root_mark c then [] else c ∷ []
cons_unless_mark c (d ∷ ds) = c ∷ d ∷ ds

abbrev rstrip_root : Text → Text
rstrip_root [] = []
rstrip_root (c ∷ cs) = cons_unless_mark c (rstrip_root cs)

abbrev is_drive : Text → Text → Bool
is_drive letter t = same_text (upper (rstrip_root t)) letter || starts_with (upper t) letter

-- The choice of `_select_drive_by_letter`.
unfoldable pub choose_drive : Text → List Text → Option ℕ
choose_drive letter items = first_index (is_drive letter) items

-- The index is the first one whose item passes the test.
abbrev pub IsFirst : (Text → Bool) → ℕ → List Text → Type 0
IsFirst test n [] = ⊥
IsFirst test zero (t ∷ ts) = test t ≡ true
IsFirst test (suc n) (t ∷ ts) = (test t ≡ false) × IsFirst test n ts

-- What a search may give: the first index of an item that passes, or none if no item passes.
abbrev pub Found : (Text → Bool) → List Text → Option ℕ → Type 0
Found test items none = All (λ t. test t ≡ false) items
Found test items (some n) = IsFirst test n items

Found-later :
    (test : Text → Bool) (t : Text) (ts : List Text) (o : Option ℕ)
    → test t ≡ false
    → Found test ts o
    → Found test (t ∷ ts) (suc_if_any o)
Found-later test t ts none e h = (e, h)
Found-later test t ts (some n) e h = (e, h)

first_index-Found :
    (test : Text → Bool) (items : List Text) → Found test items (first_index test items)
first_index-Found test [] = tt
first_index-Found test (t ∷ ts) =
    under_if (Found test (t ∷ ts)) (test t) (λ e. e)
      (λ e. Found-later test t ts (first_index test ts) e (first_index-Found test ts))

starts_with-nothing : (t : Text) → starts_with t [] ≡ true
starts_with-nothing [] = refl
starts_with-nothing (c ∷ cs) = refl

same : (c : ℕ) → (c == c) ≡ true
same c = (==_iff c c).1 refl

same_text-begins :
    (t p q : Text) → starts_with t p ≡ true → same_text p q ≡ true → starts_with t q ≡ true
same_text-begins t p [] h e = starts_with-nothing t
same_text-begins [] [] (d ∷ q) h e = absurd (ground (arith, e))
same_text-begins (c ∷ t) [] (d ∷ q) h e = absurd (ground (arith, e))
same_text-begins [] (b ∷ p) (d ∷ q) h e = absurd (ground (arith, h))
same_text-begins (c ∷ t) (b ∷ p) (d ∷ q) h e =
    ground (arith, h, e, same_text-begins t p q (ground (arith, h)) (ground (arith, e)))

starts_with-rstrip_root : (t : Text) → starts_with (upper t) (upper (rstrip_root t)) ≡ true
starts_with-rstrip_root [] = refl
starts_with-rstrip_root (c ∷ cs) = go (rstrip_root cs) (starts_with-rstrip_root cs)
  where
    go :
        (r : Text)
        → starts_with (upper cs) (upper r) ≡ true
        → starts_with (upper (c ∷ cs)) (upper (cons_unless_mark c r)) ≡ true
    go [] h =
        under_if (λ r. starts_with (upper (c ∷ cs)) (upper r) ≡ true) (is_root_mark c) (λ _. refl)
          (λ _. rw (same (upper_code c)) (starts_with-nothing (upper cs)))
    go (d ∷ ds) h = rw (same (upper_code c)) h

abbrev pub begins_with : Text → Text → Bool
begins_with letter t = starts_with (upper t) letter

is_drive-begins_with : (letter t : Text) → is_drive letter t ≡ begins_with letter t
is_drive-begins_with letter t = elim (Bool-cases (same_text (upper (rstrip_root t)) letter)) [
  | inl e ↦ rw e (
      sym (same_text-begins (upper t) (upper (rstrip_root t)) letter (starts_with-rstrip_root t) e))
  | inr e ↦ rw e refl
]

-- The drive that is selected for a letter is the first item whose text, in capitals, begins with it;
-- and none is selected only if no item begins with it.
pub choose_drive-Found :
    (letter : Text) (items : List Text)
    → Found (begins_with letter) items (choose_drive letter items)
unfolding choose_drive
choose_drive-Found letter items =
    subst (λ test. Found (begins_with letter) items (first_index test items))
      (sym (fun_ext (is_drive-begins_with letter))) (first_index-Found (begins_with letter) items)

-- What may be chosen for a value: the first equal item; the first item that contains it, if the value
-- is not blank and no item is equal to it; or nothing, if no item is equal to it, and it is blank or no
-- item contains it.
abbrev pub Chosen : Text → List Text → Option ℕ → Type 0
Chosen value items none =
    All (λ t. is_exact value t ≡ false) items
    × ((normalize value ≡ []) ⊎ All (λ t. contains (normalize t) (normalize value) ≡ false) items)
Chosen value items (some n) =
    IsFirst (is_exact value) n items
    ⊎ (All (λ t. is_exact value t ≡ false) items
        × (normalize value ≢ [])
        × IsFirst (λ t. contains (normalize t) (normalize value)) n items)

-- A test with a condition on the value alone.
guarded-Found :
    (b : Bool) (test : Text → Bool) (items : List Text) (r : Option ℕ)
    → Found (λ t. b && test t) items r
    → ((b ≡ false) × (r ≡ none)) ⊎ ((b ≡ true) × Found test items r)
guarded-Found true test items r h = inr (refl, h)
guarded-Found false test items none h = inl (refl, refl)
guarded-Found false test items (some n) h = absurd (never items n h)
  where
    never : (ts : List Text) (k : ℕ) → IsFirst (λ t. false) k ts → ⊥
    never [] k h = h
    never (t ∷ ts) zero h = ground (arith, h)
    never (t ∷ ts) (suc k) h = never ts k h.1

blank : (t : Text) → is_nonempty t ≡ false → t ≡ []
blank [] h = refl
blank (c ∷ cs) h = absurd (ground (arith, h))

not_blank : (t : Text) → is_nonempty t ≡ true → t ≢ []
not_blank [] h e = ground (arith, h)
not_blank (c ∷ cs) h e = cc

or_else-Chosen :
    (value : Text) (items : List Text) (o r : Option ℕ)
    → Found (is_exact value) items o
    → ((is_nonempty (normalize value) ≡ false) × (r ≡ none))
      ⊎ ((is_nonempty (normalize value) ≡ true)
          × Found (λ t. contains (normalize t) (normalize value)) items r)
    → Chosen value items (or_else o r)
or_else-Chosen value items (some n) r h k = inl h
or_else-Chosen value items none none h (inl (e, _)) = (h, inl (blank (normalize value) e))
or_else-Chosen value items none none h (inr (e, k)) = (h, inr k)
or_else-Chosen value items none (some n) h (inl (e, k)) = cc
or_else-Chosen value items none (some n) h (inr (e, k)) = inr (h, not_blank (normalize value) e, k)

-- The item that is selected in a combo box for a value is the first one that is equal to it but for
-- case and blanks around it, or, if there is none and the value is not blank, the first one that
-- contains it; and nothing is selected only if no item is equal to it, and it is blank or no item
-- contains it.
pub choose_item-Chosen :
    (value : Text) (items : List Text) → Chosen value items (choose_item value items)
unfolding choose_item
choose_item-Chosen value items =
    or_else-Chosen value items (first_index (is_exact value) items)
      (first_index (is_partial value) items) (first_index-Found (is_exact value) items)
      (guarded-Found (is_nonempty (normalize value)) _ items (first_index (is_partial value) items)
        (first_index-Found (is_partial value) items))
