-- ===== src/Domain/Values/Capacity.antt =====
-- config/constants.py: the sizes of `TestCapacity`. Sizes are in thousandths of a gigabyte; the
-- code's floats are exact enough for drives whose size has three decimals.
use aio_ss_usb_test_agent.Prelude.{
  ℕ, ◌+◌, ◌-◌, ◌≤◌, ◌<◌, ◌≡◌, refl, Bool, true, false, Option, none, some, List, [], ◌∷◌,
  if◌then◌else◌, ltb, leb, arith, All, drop, Bool-cases, inl, inr,
}
use aio_ss_usb_test_agent.Domain.Enums.{TestCapacity, TestPreset}

abbrev pub to_gb : TestCapacity → ℕ
to_gb TestCapacity.gb_1 = 1000
to_gb TestCapacity.gb_4 = 4000
to_gb TestCapacity.gb_32 = 32000
to_gb TestCapacity.gb_64 = 64000
to_gb TestCapacity.gb_128 = 128000
to_gb TestCapacity.gb_256 = 256000
to_gb TestCapacity.gb_512 = 512000
to_gb TestCapacity.tb_1 = 1024000

abbrev pub distance : ℕ → ℕ → ℕ
distance a b = (a - b) + (b - a)

abbrev sizes : List TestCapacity
sizes =
    TestCapacity.gb_1 ∷ TestCapacity.gb_4 ∷ TestCapacity.gb_32 ∷ TestCapacity.gb_64
    ∷ TestCapacity.gb_128 ∷ TestCapacity.gb_256 ∷ TestCapacity.gb_512 ∷ TestCapacity.tb_1 ∷ []

-- diff < min_diff, where `min_diff` is infinite at first
abbrev is_closer : ℕ → Option ℕ → Bool
is_closer diff none = true
is_closer diff (some min_diff) = ltb diff min_diff

-- The loop, from the closest so far and its difference.
find_closest : ℕ → TestCapacity → Option ℕ → List TestCapacity → TestCapacity
find_closest d closest min_diff [] = closest
find_closest d closest min_diff (c ∷ cs) =
    let diff = distance d (to_gb c) in
    let nearer = find_closest d c (some diff) cs in
    let kept = find_closest d closest min_diff cs in
    if is_closer diff min_diff then nearer else kept

unfoldable pub from_drive_capacity : ℕ → TestCapacity
unfolding find_closest
from_drive_capacity d =
    if leb d 0 then TestCapacity.gb_32 else find_closest d TestCapacity.gb_32 none sizes

unfoldable pub get_default_capacity : TestPreset → ℕ → TestCapacity
get_default_capacity TestPreset.hot d = TestCapacity.gb_4
get_default_capacity TestPreset.full d = from_drive_capacity d

-- No size of the list is nearer to `d` than `r` is.
abbrev Nearest : ℕ → TestCapacity → List TestCapacity → Type 0
Nearest d r cs = All (λ b. distance d (to_gb r) ≤ distance d (to_gb b)) cs

Nearest-eq :
    (d : ℕ) (r r' : TestCapacity) (cs : List TestCapacity)
    → r ≡ r'
    → Nearest d r' cs
    → Nearest d r cs
Nearest-eq d r r' cs e h = rw e h

module _ (d : ℕ) (c b : TestCapacity) (bs : List TestCapacity) where
  takes_nearer :
      ltb (distance d (to_gb b)) (distance d (to_gb c)) ≡ true
      → find_closest d c (some (distance d (to_gb c))) (b ∷ bs)
        ≡ find_closest d b (some (distance d (to_gb b))) bs
  unfolding find_closest
  takes_nearer e = rw e refl

  keeps_closest :
      ltb (distance d (to_gb b)) (distance d (to_gb c)) ≡ false
      → find_closest d c (some (distance d (to_gb c))) (b ∷ bs)
        ≡ find_closest d c (some (distance d (to_gb c))) bs
  unfolding find_closest
  keeps_closest e = rw e refl

-- The loop's result is not farther than the closest so far, nor than any size that is left.
find_closest-Nearest :
    (d : ℕ) (c : TestCapacity) (cs : List TestCapacity)
    → Nearest d (find_closest d c (some (distance d (to_gb c))) cs) (c ∷ cs)
unfolding find_closest
find_closest-Nearest d c [] = (omega arith, tt)
find_closest-Nearest d c (b ∷ bs) =
    elim (Bool-cases (ltb (distance d (to_gb b)) (distance d (to_gb c)))) [
      | inl e ↦
          let (near, rest) = find_closest-Nearest d b bs in
          Nearest-eq d _ _ (c ∷ b ∷ bs) (takes_nearer d c b bs e)
            (ground (arith, near), (near, rest))
      | inr e ↦
          let (near, rest) = find_closest-Nearest d c bs in
          Nearest-eq d _ _ (c ∷ b ∷ bs) (keeps_closest d c b bs e)
            (near, (ground (arith, near), rest))
    ]

all_sizes : (P : TestCapacity → Type 0) → All P sizes → (c : TestCapacity) → P c
all_sizes P h TestCapacity.gb_1 = h.0
all_sizes P h TestCapacity.gb_4 = h.1.0
all_sizes P h TestCapacity.gb_32 = h.1.1.0
all_sizes P h TestCapacity.gb_64 = h.1.1.1.0
all_sizes P h TestCapacity.gb_128 = h.1.1.1.1.0
all_sizes P h TestCapacity.gb_256 = h.1.1.1.1.1.0
all_sizes P h TestCapacity.gb_512 = h.1.1.1.1.1.1.0
all_sizes P h TestCapacity.tb_1 = h.1.1.1.1.1.1.1.0

first_size :
    (d : ℕ)
    → find_closest d TestCapacity.gb_32 none sizes
      ≡ find_closest d TestCapacity.gb_1 (some (distance d 1000)) (drop 1 sizes)
unfolding find_closest
first_size d = refl

positive_drive :
    (d : ℕ)
    → 0 < d
    → from_drive_capacity d
      ≡ find_closest d TestCapacity.gb_1 (some (distance d 1000)) (drop 1 sizes)
unfolding from_drive_capacity
positive_drive d h =
    let nonzero : leb d 0 ≡ false = ground arith in rw (from_drive_capacity, nonzero) (first_size d)

-- For a drive with a size, no member of `TestCapacity` is nearer to it than the one chosen.
pub from_drive_capacity-nearest :
    (d : ℕ) (c : TestCapacity)
    → 0 < d
    → distance d (to_gb (from_drive_capacity d)) ≤ distance d (to_gb c)
from_drive_capacity-nearest d c h =
    all_sizes (λ b. distance d (to_gb (from_drive_capacity d)) ≤ distance d (to_gb b))
      (Nearest-eq d _ _ sizes (positive_drive d h)
        (find_closest-Nearest d TestCapacity.gb_1 (drop 1 sizes)))
      c
