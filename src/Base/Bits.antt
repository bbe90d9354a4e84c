-- ===== src/Base/Bits.antt =====
-- The binary digits of a number, and what `|`, `&`, `~` and `<<` do to each.
mod Step
use Step.{by_halves, bit_or_digit, bit_and_digit}
use native.Mathlib.Nat.{pow-suc, one-le-pow, div-div-eq-div-mul, mul_comm, mod-add-div'}
use ma_os.Base.Tests.{◌==◌, if◌then◌else◌}
use Prim.Native.Nat.{
  ℕ, zero, suc, ◌+◌, ◌-◌, ◌*◌, ◌/◌, ◌%◌, ◌^◌, ◌≤◌, ◌<◌, min, max, bit_and, bit_or, bit_and-bitwise,
  bit_or-bitwise,
}
use mathlib.Core.Path.{◌≡◌, refl, ap, ◌∙◌}
use native.Mathlib.Omega.{arith}

-- The digit of weight 2 ^ k.
unfoldable pub bit : ℕ → ℕ → ℕ
bit w k = w / 2 ^ k % 2

pub bit-lt : (w k : ℕ) → bit w k < 2
unfolding bit
bit-lt w k = omega arith

pub bit-zero : (w : ℕ) → bit w 0 ≡ w % 2
unfolding bit
bit-zero w = omega arith

pub bit-suc : (w k : ℕ) → bit w (suc k) ≡ bit (w / 2) k
unfolding bit
bit-suc w k = rw (div-div-eq-div-mul w 2 (2 ^ k), mul_comm 2 (2 ^ k), ← pow-suc 2 k)

pub zero-bit : (k : ℕ) → bit 0 k ≡ 0
zero-bit zero = omega (arith, bit-zero 0)
zero-bit (suc k) = omega (arith, bit-suc 0 k, zero-bit k)

pub bit-bit_or : (w v k : ℕ) → bit (bit_or w v) k ≡ max (bit w k) (bit v k)
bit-bit_or w v zero = omega (arith, bit-zero (bit_or w v), bit-zero w, bit-zero v, bit_or_digit w v)
bit-bit_or w v (suc k) =
    let half : bit_or w v / 2 ≡ bit_or (w / 2) (v / 2) = omega (arith, bit_or_digit w v) in
    rw (bit-suc (bit_or w v) k, bit-suc w k, bit-suc v k, half) (bit-bit_or (w / 2) (v / 2) k)

pub bit-bit_and : (w v k : ℕ) → bit (bit_and w v) k ≡ min (bit w k) (bit v k)
bit-bit_and w v zero =
    omega (arith, bit-zero (bit_and w v), bit-zero w, bit-zero v, bit_and_digit w v)
bit-bit_and w v (suc k) =
    let half : bit_and w v / 2 ≡ bit_and (w / 2) (v / 2) = omega (arith, bit_and_digit w v) in
    rw (bit-suc (bit_and w v) k, bit-suc w k, bit-suc v k, half) (bit-bit_and (w / 2) (v / 2) k)

two-pow-half : (k : ℕ) → 2 ^ suc k / 2 ≡ 2 ^ k
two-pow-half k = omega (arith, pow-suc 2 k)

-- `1 << k` has the digit k alone.
pub bit-two_pow : (k j : ℕ) → bit (2 ^ k) j ≡ (if k == j then 1 else 0)
bit-two_pow zero zero = omega (arith, bit-zero 1)
bit-two_pow zero (suc j) = ground (arith, bit-suc 1 j, zero-bit j)
bit-two_pow (suc k) zero = ground (arith, bit-zero (2 ^ suc k), pow-suc 2 k)
bit-two_pow (suc k) (suc j) = ground (arith, bit-suc (2 ^ suc k) j, two-pow-half k, bit-two_pow k j)

-- Complementing n digits flips each of them.
pub bit-complement : (n w k : ℕ) → w < 2 ^ n → k < n → bit (2 ^ n - 1 - w) k ≡ 1 - bit w k
bit-complement zero w k fits small = absurd (omega arith)
bit-complement (suc n) w zero fits small =
    omega (arith, bit-zero (2 ^ suc n - 1 - w), bit-zero w, pow-suc 2 n)
bit-complement (suc n) w (suc k) fits small =
    let half : (2 ^ suc n - 1 - w) / 2 ≡ 2 ^ n - 1 - w / 2 = omega (arith, pow-suc 2 n) in
    let fits' : w / 2 < 2 ^ n = omega (arith, pow-suc 2 n) in
    rw (bit-suc (2 ^ suc n - 1 - w) k, bit-suc w k, half)
      (bit-complement n (w / 2) k fits' (omega arith))

-- A number with all n digits zero that fits n digits is zero.
pub eq-zero_of_bits : (n w : ℕ) → w < 2 ^ n → ((k : ℕ) → k < n → bit w k ≡ 0) → w ≡ 0
eq-zero_of_bits zero w fits h = omega arith
eq-zero_of_bits (suc n) w fits h =
    let high : w / 2 ≡ 0 =
      eq-zero_of_bits n (w / 2) (omega (arith, pow-suc 2 n))
        (λ k l. omega (arith, bit-suc w k, h (suc k) (omega arith))) in
    omega (arith, bit-zero w, h 0 (omega arith))

-- Clearing digits makes no number larger.
pub bit_and-le : (w v : ℕ) → bit_and w v ≤ w
bit_and-le w v =
    by_halves (λ x. (y : ℕ) → bit_and x y ≤ x) (λ y. omega (arith, bit_and-bitwise 0 y))
      (λ x ih y. omega (arith, bit_and_digit x y, ih (y / 2))) w v

none_kept : (w : ℕ) → bit_and w 0 ≡ 0
none_kept =
    by_halves (λ x. bit_and x 0 ≡ 0) (bit_and-bitwise 0 0)
      (λ x ih. omega (arith, bit_and_digit x 0, ih))

-- `w & (1 << k)` keeps the digit k alone.
pub bit_and-two_pow : (w k : ℕ) → bit_and w (2 ^ k) ≡ bit w k * 2 ^ k
bit_and-two_pow w zero = omega (arith, bit-zero w, bit_and_digit w 1, none_kept (w / 2))
bit_and-two_pow w (suc k) =
    let half : bit_and (w / 2) (2 ^ suc k / 2) ≡ bit (w / 2) k * 2 ^ k =
      rw (two-pow-half k) (bit_and-two_pow (w / 2) k) in
    omega (
      arith,
      bit_and_digit w (2 ^ suc k),
      pow-suc 2 k,
      half,
      ap (λ (t : ℕ). t * 2 ^ suc k) (bit-suc w k),
      ap (λ (t : ℕ). bit (w / 2) k * t) (pow-suc 2 k),
    )

pub bit_or-lt : (n w v : ℕ) → w < 2 ^ n → v < 2 ^ n → bit_or w v < 2 ^ n
bit_or-lt zero zero v p q = omega (arith, bit_or-bitwise 0 v)
bit_or-lt zero (suc w) v p q = absurd (omega arith)
bit_or-lt (suc n) w v p q = omega (
  arith,
  bit_or_digit w v,
  pow-suc 2 n,
  bit_or-lt n (w / 2) (v / 2) (omega (arith, pow-suc 2 n)) (omega (arith, pow-suc 2 n)),
)

bit_and-ones : (n w : ℕ) → w < 2 ^ n → bit_and w (2 ^ n - 1) ≡ w
bit_and-ones zero w h = omega (arith, bit_and-le w 0)
bit_and-ones (suc n) w h =
    let half : (2 ^ suc n - 1) / 2 ≡ 2 ^ n - 1 = omega (arith, pow-suc 2 n) in
    let rest : bit_and (w / 2) ((2 ^ suc n - 1) / 2) ≡ w / 2 =
      rw half (bit_and-ones n (w / 2) (omega (arith, pow-suc 2 n))) in
    omega (arith, bit_and_digit w (2 ^ suc n - 1), pow-suc 2 n, rest, one-le-pow n 2)

-- Masking the k low digits away rounds down to a multiple of 2 ^ k.
pub bit_and-high : (n k w : ℕ) → k ≤ n → w < 2 ^ n → bit_and w (2 ^ n - 2 ^ k) ≡ w / 2 ^ k * 2 ^ k
bit_and-high n zero w le h = omega (arith, bit_and-ones n w h)
bit_and-high zero (suc k) w le h = absurd (omega arith)
bit_and-high (suc n) (suc k) w le h =
    let half : (2 ^ suc n - 2 ^ suc k) / 2 ≡ 2 ^ n - 2 ^ k =
      omega (arith, pow-suc 2 n, pow-suc 2 k) in
    let rest : bit_and (w / 2) ((2 ^ suc n - 2 ^ suc k) / 2) ≡ w / 2 / 2 ^ k * 2 ^ k =
      rw half (bit_and-high n k (w / 2) (omega arith) (omega (arith, pow-suc 2 n))) in
    let quotient : w / 2 ^ suc k ≡ w / 2 / 2 ^ k =
      rw (div-div-eq-div-mul w 2 (2 ^ k), mul_comm 2 (2 ^ k), ← pow-suc 2 k) in
    rw quotient (
      omega (
        arith,
        bit_and_digit w (2 ^ suc n - 2 ^ suc k),
        pow-suc 2 n,
        pow-suc 2 k,
        rest,
        ap (λ (t : ℕ). w / 2 / 2 ^ k * t) (pow-suc 2 k),
      ))

none_added : (w : ℕ) → bit_or w 0 ≡ w
none_added =
    by_halves (λ x. bit_or x 0 ≡ x) (bit_or-bitwise 0 0)
      (λ x ih. omega (arith, bit_or_digit x 0, ih))

-- Fields that do not overlap are joined by `|` as by a sum.
pub bit_or-disjoint :
    (k high low : ℕ) → low < 2 ^ k → bit_or (high * 2 ^ k) low ≡ high * 2 ^ k + low
bit_or-disjoint zero high low h =
    let none_left : low ≡ 0 = omega arith in rw none_left (omega (arith, none_added (high * 2 ^ 0)))
bit_or-disjoint (suc k) high low h =
    let double : high * 2 ^ suc k ≡ high * 2 ^ k * 2 =
      omega (arith, ap (λ (t : ℕ). high * t) (pow-suc 2 k)) in
    let half : high * 2 ^ suc k / 2 ≡ high * 2 ^ k = omega arith in
    let rest : bit_or (high * 2 ^ suc k / 2) (low / 2) ≡ high * 2 ^ k + low / 2 =
      rw half (bit_or-disjoint k high (low / 2) (omega (arith, pow-suc 2 k))) in
    omega (arith, bit_or_digit (high * 2 ^ suc k) low, rest)

pub bit_and_comm : (w v : ℕ) → bit_and w v ≡ bit_and v w
bit_and_comm w v =
    by_halves (λ x. (y : ℕ) → bit_and x y ≡ bit_and y x)
      (λ y. omega (arith, bit_and-bitwise 0 y, none_kept y))
      (λ x ih y. omega (arith, bit_and_digit x y, bit_and_digit y x, ih (y / 2))) w v

pub bit_or_comm : (w v : ℕ) → bit_or w v ≡ bit_or v w
bit_or_comm w v =
    by_halves (λ x. (y : ℕ) → bit_or x y ≡ bit_or y x)
      (λ y. omega (arith, bit_or-bitwise 0 y, none_added y))
      (λ x ih y. omega (arith, bit_or_digit x y, bit_or_digit y x, ih (y / 2))) w v

-- Keeping the n low digits.
pub bit_and-low : (n w : ℕ) → bit_and w (2 ^ n - 1) ≡ w % 2 ^ n
bit_and-low zero w = omega (arith, none_kept w)
bit_and-low (suc n) w =
    let half : (2 ^ suc n - 1) / 2 ≡ 2 ^ n - 1 = omega (arith, pow-suc 2 n) in
    let rest : bit_and (w / 2) ((2 ^ suc n - 1) / 2) ≡ w / 2 % 2 ^ n =
      rw half (bit_and-low n (w / 2)) in
    let quotient : w / 2 ^ suc n ≡ w / 2 / 2 ^ n =
      rw (div-div-eq-div-mul w 2 (2 ^ n), mul_comm 2 (2 ^ n), ← pow-suc 2 n) in
    let whole : w % 2 ^ suc n + w / 2 / 2 ^ n * 2 ^ suc n ≡ w =
      rw (← quotient) (mod-add-div' w (2 ^ suc n)) in
    omega (
      arith,
      bit_and_digit w (2 ^ suc n - 1),
      pow-suc 2 n,
      rest,
      one-le-pow n 2,
      whole,
      mod-add-div' (w / 2) (2 ^ n),
      ap (λ (t : ℕ). w / 2 / 2 ^ n * t) (pow-suc 2 n),
    )
