-- ===== src/Domain/Texts/Progress.antt =====
-- The loops that a window prints, read back.
use aio_ss_usb_test_agent.Prelude.{
  ℕ, zero, suc, ◌+◌, ◌-◌, ◌*◌, ◌/◌, ◌%◌, ◌≤◌, ◌<◌, ◌≡◌, refl, ◌∙◌, ap, ltb, if◌then◌else◌, true,
  false, some, [], ◌∷◌, ◌++◌, arith, Bool-cases, inl, inr,
}
use aio_ss_usb_test_agent.Domain.Texts.{
  Text, is_digit, digits, after_digits, number_from, numbers_if, match_loops,
}

-- The decimal digits of a number below 10 ^ (fuel + 1).
abbrev decimal_on : ℕ → ℕ → Text
decimal_on zero n = (48 + n) ∷ []
decimal_on (suc fuel) n =
    let front = decimal_on fuel (n / 10) in
    if ltb n 10 then (48 + n) ∷ [] else front ++ (48 + n % 10) ∷ []

-- str(n)
abbrev pub decimal : ℕ → Text
decimal n = decimal_on n n

abbrev AllDigits : Text → Type 0
AllDigits [] = Unit {0}
AllDigits (c ∷ cs) = (is_digit c ≡ true) × AllDigits cs

-- No digit comes first.
abbrev pub EndsDigits : Text → Type 0
EndsDigits [] = Unit {0}
EndsDigits (c ∷ cs) = is_digit c ≡ false

digits-append : (ds rest : Text) → AllDigits ds → EndsDigits rest → digits (ds ++ rest) ≡ ds
digits-append [] [] a e = refl
digits-append [] (c ∷ cs) a e = rw e
digits-append (d ∷ ds) rest (a, more) e = rw (a, digits-append ds rest more e)

after_digits-append :
    (ds rest : Text) → AllDigits ds → EndsDigits rest → after_digits (ds ++ rest) ≡ rest
after_digits-append [] [] a e = refl
after_digits-append [] (c ∷ cs) a e = rw e
after_digits-append (d ∷ ds) rest (a, more) e = rw (a, after_digits-append ds rest more e)

number_from-append :
    (n : ℕ) (ds : Text) (d : ℕ) → number_from n (ds ++ d ∷ []) ≡ number_from n ds * 10 + (d - 48)
number_from-append n [] d = refl
number_from-append n (c ∷ cs) d = number_from-append (n * 10 + (c - 48)) cs d

AllDigits-append : (ds es : Text) → AllDigits ds → AllDigits es → AllDigits (ds ++ es)
AllDigits-append [] es a b = b
AllDigits-append (d ∷ ds) es (a, more) b = (a, AllDigits-append ds es more b)

digit : (n : ℕ) → n < 10 → is_digit (48 + n) ≡ true
digit n h = ground arith

smaller : (n fuel : ℕ) → n ≤ suc fuel → n / 10 ≤ fuel
smaller n fuel h = omega arith

tens : (n : ℕ) → n / 10 * 10 + (48 + n % 10 - 48) ≡ n
tens n = omega arith

number-decimal_on : (fuel n : ℕ) → n ≤ fuel → number_from 0 (decimal_on fuel n) ≡ n
number-decimal_on zero n h = omega arith
number-decimal_on (suc fuel) n h = elim (Bool-cases (ltb n 10)) [
  | inl e ↦ rw e (omega arith)
  | inr e ↦
      rw
        (
          e,
          number_from-append 0 (decimal_on fuel (n / 10)) (48 + n % 10),
          number-decimal_on fuel (n / 10) (smaller n fuel h),
        )
        (tens n)
]

decimal_on-AllDigits : (fuel n : ℕ) → n ≤ fuel → AllDigits (decimal_on fuel n)
decimal_on-AllDigits zero n h = (digit n (omega arith), tt)
decimal_on-AllDigits (suc fuel) n h = elim (Bool-cases (ltb n 10)) [
  | inl e ↦ rw e (digit n (ground (arith, e)), tt)
  | inr e ↦ rw e (
      AllDigits-append (decimal_on fuel (n / 10)) ((48 + n % 10) ∷ [])
        (decimal_on-AllDigits fuel (n / 10) (smaller n fuel h)) (digit (n % 10) (omega arith), tt))
]

-- A printed number is a digit and more.
decimal_on-cons : (fuel n : ℕ) → (d : ℕ) × (ds : Text) × (decimal_on fuel n ≡ d ∷ ds)
decimal_on-cons zero n = (48 + n, [], refl)
decimal_on-cons (suc fuel) n = elim (Bool-cases (ltb n 10)) [
  | inl e ↦ rw e (48 + n, [], refl)
  | inr e ↦
      let (d, ds, same) = decimal_on-cons fuel (n / 10) in
      rw (e, same) (d, ds ++ (48 + n % 10) ∷ [], refl)
]

numbers_if-decimal : (c t : ℕ) → numbers_if (decimal c) (decimal t) ≡ some (c, t)
numbers_if-decimal c t =
    let (d, ds, e) = decimal_on-cons c c in
    let (f, fs, g) = decimal_on-cons t t in
    let first : number_from 0 (d ∷ ds) ≡ c = rw (← e) (number-decimal_on c c (omega arith)) in
    let second : number_from 0 (f ∷ fs) ≡ t = rw (← g) (number-decimal_on t t (omega arith)) in
    rw (e, g) (ap (λ x. some (x, number_from 0 (f ∷ fs))) first ∙ ap (λ y. some (c, y)) second)

-- Whatever numbers a window prints as the current and the total loop, with a slash between them,
-- the pattern reads these two off its text, if what follows them does not begin with a digit.
pub match_loops-decimal :
    (c t : ℕ) (rest : Text)
    → EndsDigits rest
    → match_loops (decimal c ++ (47 ∷ (decimal t ++ rest))) ≡ some (c, t)
unfolding match_loops
match_loops-decimal c t rest h =
    let all_c = decimal_on-AllDigits c c (omega arith) in
    let all_t = decimal_on-AllDigits t t (omega arith) in
    rw
      (
        digits-append (decimal c) (47 ∷ (decimal t ++ rest)) all_c refl,
        after_digits-append (decimal c) (47 ∷ (decimal t ++ rest)) all_c refl,
        digits-append (decimal t) rest all_t h,
      )
      (numbers_if-decimal c t)
