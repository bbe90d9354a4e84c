-- ===== src/Pmm/Log.antt =====
-- `log2`: the exponent of the largest power of two that is not above a number.
use ma_os.Base.{ℕ, zero, suc, ◌+◌, ◌/◌, ◌^◌, ◌≤◌, ◌<◌, ◌≡◌, arith, ◌==◌, Bool-cases, inl, inr}
use native.Mathlib.Nat.{pow-suc}
use ma_os.Pmm.{log2, log2_loop}

abbrev IsLog : ℕ → ℕ → Type 0
IsLog n k = (2 ^ k ≤ n) × (n < 2 ^ suc k)

log2_loop-IsLog :
    (rounds n ans : ℕ)
    → 0 < n
    → n < 2 ^ rounds
    → (k : ℕ) × (log2_loop rounds n ans ≡ ans + k) × IsLog n k
unfolding log2_loop
log2_loop-IsLog zero n ans pos fits = absurd (omega arith)
log2_loop-IsLog (suc rounds) n ans pos fits = elim (Bool-cases (n / 2 == 0)) [
  | inl e ↦ rw e (0, omega arith, (omega arith, ground arith))
  | inr e ↦
      let (k, r, l) =
        log2_loop-IsLog rounds (n / 2) (ans + 1) (ground arith) (omega (arith, pow-suc 2 rounds)) in
      rw e (suc k, omega arith, omega (arith, pow-suc 2 k, pow-suc 2 (suc k)))
]

-- For a positive `size_t`, `log2` is its binary logarithm, rounded down: 32 rounds are enough.
pub log2-IsLog : (n : ℕ) → 0 < n → n < 2 ^ 32 → (2 ^ log2 n ≤ n) × (n < 2 ^ suc (log2 n))
unfolding log2
log2-IsLog n pos fits =
    let (k, e, l) = log2_loop-IsLog 32 n 0 pos fits in
    let same : log2_loop 32 n 0 ≡ k = omega arith in rw same l
