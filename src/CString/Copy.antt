-- ===== src/CString/Copy.antt =====
-- `memcpy` is the copy of a block, byte by byte or with `memcpy_aligned`.
use ma_os.Base.{
  ℕ, zero, suc, ◌+◌, ◌-◌, ◌*◌, ◌/◌, ◌^◌, ◌≤◌, ◌<◌, ◌≡◌, ◌≢◌, refl, sym, ◌∙◌, ◌⊎◌, inl, inr, arith,
  bit_and, ltb, ◌==◌, Bool-cases, false, dec_lt,
}
use mathlib.Core.Path.{subst}
use ma_os.Base.Bits.{bit_and-high}
use ma_os.CString.{
  Memory, store, copy_bytes, copy_dword, copy_dwords, memcpy_aligned, copy_rest, memcpy,
}

-- `m'` has the block of `n` bytes at `s` in `m` at `d`, and is `m` elsewhere.
abbrev pub Copied : ℕ → ℕ → ℕ → Memory → Memory → Type 0
Copied d s n m m' =
    ((k : ℕ) → k < n → m' (d + k) ≡ m (s + k)) × ((x : ℕ) → (x < d) ⊎ (d + n ≤ x) → m' x ≡ m x)

-- Two blocks of `n` bytes do not overlap.
abbrev pub Apart : ℕ → ℕ → ℕ → Type 0
Apart d s n = (d + n ≤ s) ⊎ (s + n ≤ d)

Apart-tail : (d s a b : ℕ) → Apart d s (a + b) → Apart (d + a) (s + a) b
Apart-tail d s a b (inl h) = inl (omega arith)
Apart-tail d s a b (inr h) = inr (omega arith)

-- A place in the second part of the source is not in the first part of the destination.
outside : (d s a b k : ℕ) → Apart d s (a + b) → k < b → (s + a + k < d) ⊎ (d + a ≤ s + a + k)
outside d s a b k (inl h) l = inr (omega arith)
outside d s a b k (inr h) l = inl (omega arith)

behind : (d a b x : ℕ) → (x < d) ⊎ (d + (a + b) ≤ x) → (x < d + a) ⊎ (d + a + b ≤ x)
behind d a b x (inl h) = inl (omega arith)
behind d a b x (inr h) = inr (omega arith)

before : (d a b x : ℕ) → (x < d) ⊎ (d + (a + b) ≤ x) → (x < d) ⊎ (d + a ≤ x)
before d a b x (inl h) = inl h
before d a b x (inr h) = inr (omega arith)

-- A copy in two parts.
Copied-trans :
    (d s a b : ℕ) (m m1 m2 : Memory)
    → Apart d s (a + b)
    → Copied d s a m m1
    → Copied (d + a) (s + a) b m1 m2
    → Copied d s (a + b) m m2
Copied-trans d s a b m m1 m2 apart (front, kept) (back, kept') = (
  λ k l. elim (dec_lt k a) [
    | yes low ↦ kept' (d + k) (inl (omega arith)) ∙ front k low
    | no high ↦
        let j : d + k ≡ d + a + (k - a) = omega arith in
        let i : s + k ≡ s + a + (k - a) = omega arith in
        let small : k - a < b = omega arith in
        rw (j, i)
          (back (k - a) small ∙ kept (s + a + (k - a)) (outside d s a b (k - a) apart small))
  ],
  λ x out. kept' x (behind d a b x out) ∙ kept x (before d a b x out),
)

store_self : (a v : ℕ) (m : Memory) → store a v m a ≡ v
unfolding store
store_self a v m = ground arith

store_ne : (a v x : ℕ) (m : Memory) → a ≢ x → store a v m x ≡ m x
unfolding store
store_ne a v x m ne = ground arith

store-Copied : (d s : ℕ) (m : Memory) → Copied d s 1 m (store d (m s) m)
store-Copied d s m = (
  λ k l.
      let none : d + k ≡ d = omega arith in
      let none' : s + k ≡ s = omega arith in rw (none, none') (store_self d (m s) m),
  λ x out. store_ne d (m s) x m (λ e. elim out [ inl h ↦ omega arith | inr h ↦ omega arith ]),
)

copy_bytes-Copied : (n d s : ℕ) (m : Memory) → Apart d s n → Copied d s n m (copy_bytes n d s m)
unfolding copy_bytes
copy_bytes-Copied zero d s m apart = (λ k l. absurd (omega arith), λ x out. refl)
copy_bytes-Copied (suc n) d s m apart =
    let parts : suc n ≡ 1 + n = omega arith in
    let apart' : Apart d s (1 + n) = rw (← parts) apart in
    let next = store d (m s) m in
    rw parts (
      Copied-trans d s 1 n m next (copy_bytes n (d + 1) (s + 1) next) apart' (store-Copied d s m)
        (copy_bytes-Copied n (d + 1) (s + 1) next (Apart-tail d s 1 n apart')))

dword_bytes : (d s : ℕ) (m : Memory) (k : ℕ) → k < 4 → copy_dword d s m (d + k) ≡ m (s + k)
unfolding copy_dword store
dword_bytes d s m zero l = ground arith
dword_bytes d s m (suc zero) l = ground arith
dword_bytes d s m (suc (suc zero)) l = ground arith
dword_bytes d s m (suc (suc (suc zero))) l = ground arith
dword_bytes d s m (suc (suc (suc (suc k)))) l = absurd (omega arith)

dword_kept : (d s : ℕ) (m : Memory) (x : ℕ) → (x < d) ⊎ (d + 4 ≤ x) → copy_dword d s m x ≡ m x
unfolding copy_dword store
dword_kept d s m x out = ground arith

copy_dwords-Copied :
    (n d s : ℕ) (m : Memory) → Apart d s (n * 4) → Copied d s (n * 4) m (copy_dwords n d s m)
unfolding copy_dwords
copy_dwords-Copied zero d s m apart = (λ k l. absurd (omega arith), λ x out. refl)
copy_dwords-Copied (suc n) d s m apart =
    let parts : suc n * 4 ≡ 4 + n * 4 = omega arith in
    let apart' : Apart d s (4 + n * 4) = rw (← parts) apart in
    let next = copy_dword d s m in
    rw parts (
      Copied-trans d s 4 (n * 4) m next (copy_dwords n (d + 4) (s + 4) next) apart'
        (dword_bytes d s m, dword_kept d s m)
        (copy_dwords-Copied n (d + 4) (s + 4) next (Apart-tail d s 4 (n * 4) apart')))

copy_rest-copy_bytes :
    (rounds i d s : ℕ) (m : Memory) → copy_rest rounds i d s m ≡ copy_bytes rounds (d + i) (s + i) m
unfolding copy_rest copy_bytes
copy_rest-copy_bytes zero i d s m = refl
copy_rest-copy_bytes (suc rounds) i d s m =
    let d' : d + i + 1 ≡ d + (i + 1) = omega arith in
    let s' : s + i + 1 ≡ s + (i + 1) = omega arith in
    rw (d', s') (copy_rest-copy_bytes rounds (i + 1) d s (store (d + i) (m (s + i)) m))

memcpy_aligned-Copied :
    (q d s : ℕ) (m : Memory)
    → 0 < q
    → Apart d s (q * 4)
    → Copied d s (q * 4) m (memcpy_aligned d s (q * 4) m)
unfolding memcpy_aligned
memcpy_aligned-Copied q d s m pos apart =
    let count : q * 4 / 4 ≡ q = omega arith in
    let some_left : (q == 0) ≡ false = ground arith in
    rw (count, some_left) (copy_dwords-Copied q d s m apart)

Apart-front : (d s a b : ℕ) → Apart d s (a + b) → Apart d s a
Apart-front d s a b (inl h) = inl (omega arith)
Apart-front d s a b (inr h) = inr (omega arith)

two_parts :
    (q rest d s : ℕ) (m : Memory)
    → 0 < q
    → Apart d s (q * 4 + rest)
    → Copied d s
        (q * 4 + rest)
        m
        (copy_bytes rest (d + q * 4) (s + q * 4) (memcpy_aligned d s (q * 4) m))
two_parts q rest d s m pos apart =
    let front = memcpy_aligned d s (q * 4) m in
    Copied-trans d s (q * 4) rest m front (copy_bytes rest (d + q * 4) (s + q * 4) front) apart
      (memcpy_aligned-Copied q d s m pos (Apart-front d s (q * 4) rest apart))
      (copy_bytes-Copied rest (d + q * 4) (s + q * 4) front (Apart-tail d s (q * 4) rest apart))

-- For blocks of less than 2 ^ 32 bytes that do not overlap, `memcpy` copies the block, whatever its
-- length, and changes nothing else.
pub memcpy-Copied :
    (dest src n : ℕ) (m : Memory)
    → n < 2 ^ 32
    → Apart dest src n
    → Copied dest src n m (memcpy dest src n m)
unfolding memcpy
memcpy-Copied dest src n m fits apart = elim (Bool-cases (ltb n 16)) [
  | inl small ↦ rw small (copy_bytes-Copied n dest src m apart)
  | inr large ↦
      let whole : bit_and n 0xFFFFFFFC ≡ n / 4 * 4 = bit_and-high 32 2 n (omega arith) fits in
      let q = n / 4 in
      let rest = n - q * 4 in
      let parts : n ≡ q * 4 + rest = omega arith in
      let apart' : Apart dest src (q * 4 + rest) =
        subst (λ (t : ℕ). Apart dest src t) parts apart in
      let front = memcpy_aligned dest src (q * 4) m in
      let result = copy_bytes rest (dest + q * 4) (src + q * 4) front in
      rw (large, whole, copy_rest-copy_bytes rest (q * 4) dest src front)
        (subst (λ (t : ℕ). Copied dest src t m result) (sym parts)
          (two_parts q rest dest src m (ground arith) apart'))
]
