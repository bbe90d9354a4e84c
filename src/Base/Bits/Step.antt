-- ===== src/Base/Bits/Step.antt =====
-- What the native `|` and `&` do to the lowest digit, and an induction that halves a number.
use Prim.Native.Nat.{
  ℕ, zero, suc, ◌+◌, ◌-◌, ◌*◌, ◌/◌, ◌%◌, ◌≤◌, min, max, bit_and, bit_or, digits, bit_and-bitwise,
  bit_or-bitwise,
}
use mathlib.Core.Path.{◌≡◌, refl, ◌∙◌}
use native.Mathlib.Omega.{arith}

halves_from {ℓ} :
    (P : ℕ → Type ℓ) → P 0 → ((w : ℕ) → P (w / 2) → P w) → (bound w : ℕ) → w ≤ bound → P w
halves_from P base step zero w le = let ended : w ≡ 0 = omega arith in rw ended base
halves_from P base step (suc bound) w le =
    step w (halves_from P base step bound (w / 2) (omega arith))

-- A property of all numbers, from 0 and from half of each.
pub by_halves {ℓ} : (P : ℕ → Type ℓ) → P 0 → ((w : ℕ) → P (w / 2) → P w) → (w : ℕ) → P w
by_halves P base step w = halves_from P base step w w (omega arith)

module _ (left_over : ℕ → ℕ) (digit : ℕ → ℕ → ℕ) where
  one_more_round :
      (rounds w v : ℕ)
      → w ≤ rounds
      → digits left_over digit (suc rounds) w v ≡ digits left_over digit rounds w v
  one_more_round zero w v le = let none_left : w ≡ 0 = omega arith in rw none_left refl
  one_more_round (suc rounds) zero v le = refl
  one_more_round (suc rounds) (suc w) v le =
      rw (one_more_round rounds (suc w / 2) (v / 2) (omega arith))

  -- Rounds past the last digit change nothing.
  more_rounds :
      (spare many rounds w v : ℕ)
      → many ≡ spare + rounds
      → w ≤ rounds
      → digits left_over digit many w v ≡ digits left_over digit rounds w v
  more_rounds zero many rounds w v e le = let same : many ≡ rounds = omega arith in rw same refl
  more_rounds (suc spare) zero rounds w v e le = absurd (omega arith)
  more_rounds (suc spare) (suc many) rounds w v e le =
      one_more_round many w v (omega arith) ∙ more_rounds spare many rounds w v (omega arith) le

  spare_rounds :
      (w v : ℕ)
      → digits left_over digit w (suc w / 2) v ≡ digits left_over digit (suc w / 2) (suc w / 2) v
  spare_rounds w v =
      more_rounds (w - suc w / 2) w (suc w / 2) (suc w / 2) v (omega arith) (omega arith)

pub bit_or_digit : (w v : ℕ) → bit_or w v ≡ max (w % 2) (v % 2) + 2 * bit_or (w / 2) (v / 2)
bit_or_digit zero v = omega (arith, bit_or-bitwise 0 v, bit_or-bitwise 0 (v / 2))
bit_or_digit (suc w) v = omega (
  arith,
  spare_rounds (λ t. t) max w (v / 2),
  bit_or-bitwise (suc w) v,
  bit_or-bitwise (suc w / 2) (v / 2),
)

pub bit_and_digit : (w v : ℕ) → bit_and w v ≡ min (w % 2) (v % 2) + 2 * bit_and (w / 2) (v / 2)
bit_and_digit zero v = omega (arith, bit_and-bitwise 0 v, bit_and-bitwise 0 (v / 2))
bit_and_digit (suc w) v = omega (
  arith,
  spare_rounds (λ t. 0) min w (v / 2),
  bit_and-bitwise (suc w) v,
  bit_and-bitwise (suc w / 2) (v / 2),
)
