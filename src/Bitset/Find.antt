-- ===== src/Bitset/Find.antt =====
-- `bitset_find`: the least index of the set, or none when the set is empty.
use ma_os.Base.{
  ℕ, zero, suc, ◌+◌, ◌-◌, ◌*◌, ◌/◌, ◌%◌, ◌^◌, ◌≤◌, ◌<◌, bit_and, ◌≡◌, refl, Bool, true, false,
  Option, none, some, List, [], ◌∷◌, arith, get_elem?, length, ◌==◌, if◌then◌else◌, u32, Bool-cases,
  inl, inr, dec_lt, ltb, lt→ltb, ge→ltb,
}
use ma_os.Base.Bits.{bit, bit-lt, zero-bit, bit-suc, bit_and-two_pow}
use native.Mathlib.Nat.{add-sub_cancel}
use ma_os.Bitset.{Bitset, find_bit, find_from, find}
use ma_os.Bitset.Member.{has, contains, capacity}

-- The least digit of `item` that is one, counted from `j`; or every digit below `rounds` is zero.
abbrev BitFound : ℕ → ℕ → ℕ → Option ℕ → Type 0
BitFound rounds j item none = (k : ℕ) → k < rounds → bit item k ≡ 0
BitFound rounds j item (some r) =
    (k : ℕ) × (r ≡ j + k) × (k < rounds) × (bit item k ≡ 1) × ((m : ℕ) → m < k → bit item m ≡ 0)

low_digit : (item : ℕ) → bit_and item 1 ≡ bit item 0
low_digit item = omega (arith, bit_and-two_pow item 0)

bits-suc :
    (n item : ℕ)
    → bit item 0 ≡ 0
    → ((k : ℕ) → k < n → bit (item / 2) k ≡ 0)
    → (k : ℕ) → k < suc n
    → bit item k ≡ 0
bits-suc n item low high zero l = low
bits-suc n item low high (suc k) l = omega (arith, bit-suc item k, high k (omega arith))

find_bit-suc :
    (rounds j item : ℕ) (r : Option ℕ)
    → bit item 0 ≡ 0
    → BitFound rounds (j + 1) (item / 2) r
    → BitFound (suc rounds) j item r
find_bit-suc rounds j item none low h = bits-suc rounds item low h
find_bit-suc rounds j item (some r) low (k, e, l, one, least) =
    (suc k, omega arith, omega arith, omega (arith, bit-suc item k), bits-suc k item low least)

find_bit-BitFound : (rounds j item : ℕ) → BitFound rounds j item (find_bit rounds j item)
unfolding find_bit
find_bit-BitFound zero j item = λ k l. absurd (omega arith)
find_bit-BitFound (suc rounds) j item = elim (Bool-cases (bit_and item 1 == 0)) [
  | inl e ↦ rw e (
      find_bit-suc rounds j item (find_bit rounds (j + 1) (item / 2))
        (ground (arith, low_digit item)) (find_bit-BitFound rounds (j + 1) (item / 2)))
  | inr e ↦ rw e (
    0,
    omega arith,
    omega arith,
    ground (arith, low_digit item, bit-lt item 0),
    λ m l. absurd (omega arith),
  )
]

-- The digit `k` of a slot, if the slot is there.
abbrev slot_digit : Option ℕ → ℕ → Bool
slot_digit none k = false
slot_digit (some d) k = bit d k == 1

has-at :
    (items : List ℕ) (m s k : ℕ)
    → m / 32 ≡ s
    → m % 32 ≡ k
    → has items m ≡ slot_digit (get_elem? items s) k
unfolding has
has-at items m s k p q = rw (← p, ← q) (ground arith)

has-cons :
    (d : ℕ) (ds : List ℕ) (m : ℕ)
    → has (d ∷ ds) m ≡ (if ltb m 32 then bit d m == 1 else has ds (m - 32))
has-cons d ds m = elim (dec_lt m 32) [
  | yes l ↦ rw (has-at (d ∷ ds) m 0 m (omega arith) (omega arith), lt→ltb m 32 l)
  | no g ↦ rw (
    has-at (d ∷ ds) m (suc ((m - 32) / 32)) ((m - 32) % 32) (omega arith) (omega arith),
    has-at ds (m - 32) ((m - 32) / 32) ((m - 32) % 32) refl refl,
    ge→ltb m 32 (omega arith),
  )
]

-- What the loop over the dwords `items` reports, the first of which is dword `i` of the set.
abbrev Found : ℕ → List ℕ → Option ℕ → Type 0
Found i items none = (m : ℕ) → has items m ≡ false
Found i items (some r) =
    (m : ℕ) × (r ≡ 32 * i + m) × (has items m ≡ true) × ((n : ℕ) → n < m → has items n ≡ false)

-- A dword with no digit set does not change what the loop finds.
Found-skip :
    (i d : ℕ) (ds : List ℕ) (r : Option ℕ)
    → ((k : ℕ) → k < 32 → bit d k ≡ 0)
    → Found (i + 1) ds r
    → Found i (d ∷ ds) r
Found-skip i d ds none z h = λ m. ground (arith, has-cons d ds m, h (m - 32), z m)
Found-skip i d ds (some r) z (m, e, one, least) =
    let again : has ds (m + 32 - 32) ≡ true = rw add-sub_cancel one in
    (
      m + 32,
      omega arith,
      ground (arith, has-cons d ds (m + 32), again),
      λ n l. ground (arith, has-cons d ds n, least (n - 32), z n),
    )

Found-here :
    (i d r : ℕ) (ds : List ℕ)
    → 32 * i + 32 ≤ 2 ^ 32
    → BitFound 32 0 d (some r)
    → Found i (d ∷ ds) (some (u32 (32 * i + r)))
Found-here i d r ds small (k, e, l, one, least) = (
  k,
  omega arith,
  ground (arith, has-cons d ds k),
  λ n m. ground (arith, has-cons d ds n, least n),
)

-- the rest of a round, at what the inner loop found
Found-step :
    (i d : ℕ) (ds : List ℕ) (rest inner : Option ℕ)
    → 32 * i + 32 ≤ 2 ^ 32
    → BitFound 32 0 d inner
    → Found (i + 1) ds rest
    → Found i (d ∷ ds) (elim inner [ none ↦ rest | some j ↦ some (u32 (32 * i + j)) ])
Found-step i d ds rest none small h tail = Found-skip i d ds rest h tail
Found-step i d ds rest (some j) small h tail = Found-here i d j ds small h

find_from-Found :
    (i : ℕ) (items : List ℕ) → 32 * (i + length items) ≤ 2 ^ 32 → Found i items (find_from i items)
unfolding find_from
find_from-Found i [] small = λ m. unfold has in refl
find_from-Found i (d ∷ ds) small =
    let tail = find_from-Found (i + 1) ds (omega arith) in
    elim (Bool-cases (d == 0)) [
      | inl e ↦
          rw e (Found-skip i d ds (find_from (i + 1) ds) (λ k l. ground (arith, zero-bit k)) tail)
      | inr e ↦ rw e (
          Found-step i d ds (find_from (i + 1) ds) (find_bit 32 0 d) (omega arith)
            (find_bit-BitFound 32 0 d) tail)
    ]

-- The answer of `bitset_find` is the least index of the set, and `false` means the empty set.
abbrev pub IsLeast : Bitset → Option ℕ → Type 0
IsLeast b none = (m : ℕ) → contains b m ≡ false
IsLeast b (some r) = (contains b r ≡ true) × ((n : ℕ) → n < r → contains b n ≡ false)

Found-IsLeast : (b : Bitset) (r : Option ℕ) → Found 0 b.dwords r → IsLeast b r
Found-IsLeast b none h = h
Found-IsLeast b (some r) (m, e, one, least) = let same : r ≡ m = omega arith in rw same (one, least)

-- `bitset_find` returns the least index of the set, and reports that there is none exactly when
-- the set is empty. The set has at most 2 ^ 32 indices.
pub find-IsLeast : (b : Bitset) → capacity b ≤ 2 ^ 32 → IsLeast b (find b)
unfolding find
find-IsLeast b small =
    Found-IsLeast b (find_from 0 b.dwords) (find_from-Found 0 b.dwords (omega arith))
