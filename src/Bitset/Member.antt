-- ===== src/Bitset/Member.antt =====
-- The operations of bitset.c on single bits, against the set of indices that a bit set stands for.
use ma_os.Base.{
  ℕ, zero, suc, ◌*◌, ◌/◌, ◌%◌, ◌^◌, ◌≤◌, ◌<◌, bit_and, bit_or, ◌≡◌, refl, ap, Bool, true, false,
  none, some, List, [], ◌∷◌, map, Outcome, ok, fault, arith, get_elem?, length, get_elem?-lt,
  get_elem?-ge, get_elem?-set_self, get_elem?-set_ne, length-set, ℕ_discrete, dec_lt,
  lt-length_of_get, ◌==◌, if◌then◌else◌, not32,
}
use ma_os.Base.{set as set_elem}
use ma_os.Base.Bits.{
  bit, bit-lt, bit-bit_or, bit-bit_and, bit-two_pow, bit-complement, bit_and-two_pow, bit_or-lt,
  bit_and-le,
}
use native.Mathlib.Nat.{pow-le-pow_right, one-le-pow}
use ma_os.Bitset.{Bitset, len, bit_mask, read, set, clear, write, fill}

-- The number of indices of a set.
abbrev pub capacity : Bitset → ℕ
capacity b = 32 * len b

unfoldable pub has : List ℕ → ℕ → Bool
has items i = elim (get_elem? items (i / 32)) [ none ↦ false | some d ↦ bit d (i % 32) == 1 ]

-- Whether the index `i` is in the set; no index out of range is.
abbrev pub contains : Bitset → ℕ → Bool
contains b i = has b.dwords i

-- Every item is a dword.
abbrev pub AreDwords : List ℕ → Type 0
AreDwords [] = Unit {0}
AreDwords (d ∷ ds) = (d < 2 ^ 32) × AreDwords ds

abbrev pub IsValid : Bitset → Type 0
IsValid b = AreDwords b.dwords

AreDwords-get : (ds : List ℕ) (i : ℕ) {d : ℕ} → AreDwords ds → get_elem? ds i ≡ some d → d < 2 ^ 32
AreDwords-get [] i v e = ground arith
AreDwords-get (x ∷ ds) zero v e = ground arith
AreDwords-get (x ∷ ds) (suc i) v e = AreDwords-get ds i v.1 e

AreDwords-set : (ds : List ℕ) (i d : ℕ) → AreDwords ds → d < 2 ^ 32 → AreDwords (set_elem ds i d)
AreDwords-set [] i d v h = tt
AreDwords-set (x ∷ ds) zero d v h = (h, v.1)
AreDwords-set (x ∷ ds) (suc i) d v h = (v.0, AreDwords-set ds i d v.1 h)

-- A write to one slot shows at its 32 indices.
has-set :
    (ds : List ℕ) (s v j : ℕ)
    → s < length ds
    → has (set_elem ds s v) j ≡ (if s == j / 32 then bit v (j % 32) == 1 else has ds j)
unfolding has
has-set ds s v j h = elim (ℕ_discrete s (j / 32)) [
  | yes e ↦ ground (arith, get_elem?-set_self ds s v h)
  | no ne ↦ ground (arith, get_elem?-set_ne ds s (j / 32) v ne)
]

bit_mask-lt : (i : ℕ) → 2 ^ (i % 32) < 2 ^ 32
bit_mask-lt i =
    let small : 2 ^ (i % 32) ≤ 2 ^ 31 = pow-le-pow_right (omega arith) {j = 31} (omega arith) in
    omega arith

bit_mask-eq : (i : ℕ) → bit_mask i ≡ 2 ^ (i % 32)
bit_mask-eq i = omega (arith, bit_mask-lt i)

-- What an update of one index leaves: the same storage, and the same set but for that index.
pub record Updated (b : Bitset) (i : ℕ) (value : Bool) (result : Outcome Bitset) : Type 0 where
  pub out : Bitset
  pub returns : result ≡ ok out
  pub address : out.address ≡ b.address
  pub len : len out ≡ len b
  pub valid : IsValid out
  pub member : (j : ℕ) → contains out j ≡ (if i == j then value else contains b j)

-- `bitset_read` of an index in range is true exactly when the index is in the set.
read-contains : (b : Bitset) (i : ℕ) → i < capacity b → read b i ≡ ok (contains b i)
unfolding read has
read-contains b i h =
    let (d, e) = get_elem?-lt b.dwords (i / 32) (omega arith) in
    rw (bit_mask-eq i, e, bit_and-two_pow d (i % 32))
      (ground (arith, bit-lt d (i % 32), one-le-pow (i % 32) 2))

abbrev digit : Bool → ℕ
digit true = 1
digit false = 0

module _ (b : Bitset) (i : ℕ) (value : Bool) (d d' : ℕ) (e : get_elem? b.dwords (i / 32) ≡ some d)
    (digits : (k : ℕ) → k < 32 → bit d' k ≡ (if i % 32 == k then digit value else bit d k)) where
  -- The storage after a write of `d'`, which differs from the dword `d` at the digit of `i` alone.
  store-has :
      (j : ℕ) → has (set_elem b.dwords (i / 32) d') j ≡ (if i == j then value else has b.dwords j)
  unfolding has
  store-has j = elim (ℕ_discrete (i / 32) (j / 32)) [
    | yes s ↦
        let e' : get_elem? b.dwords (j / 32) ≡ some d = rw (← s) e in
        rw (has-set b.dwords (i / 32) d' j (lt-length_of_get b.dwords (i / 32) e))
          (ground (arith, digits (j % 32) (omega arith)))
    | no ne ↦
        rw (has-set b.dwords (i / 32) d' j (lt-length_of_get b.dwords (i / 32) e)) (ground arith)
  ]

  store-Updated :
      IsValid b
      → d' < 2 ^ 32
      → Updated b i value (ok (record b { dwords = set_elem b.dwords (i / 32) d' }))
  store-Updated v fits = record {
    out = record b { dwords = set_elem b.dwords (i / 32) d' };
    returns = refl;
    address = refl;
    len = length-set b.dwords (i / 32) d';
    valid = AreDwords-set b.dwords (i / 32) d' v fits;
    member = store-has;
  }

pub set-Updated : (b : Bitset) (i : ℕ) → IsValid b → i < capacity b → Updated b i true (set b i)
unfolding set
set-Updated b i v h =
    let (d, e) = get_elem?-lt b.dwords (i / 32) (omega arith) in
    rw (bit_mask-eq i, e)
      (store-Updated b i true d (bit_or d (2 ^ (i % 32))) e
        (λ k l. ground (arith, bit-bit_or d (2 ^ (i % 32)) k, bit-two_pow (i % 32) k, bit-lt d k)) v
        (bit_or-lt 32 d (2 ^ (i % 32)) (AreDwords-get b.dwords (i / 32) v e) (bit_mask-lt i)))

pub clear-Updated :
    (b : Bitset) (i : ℕ) → IsValid b → i < capacity b → Updated b i false (clear b i)
unfolding clear
clear-Updated b i v h =
    let (d, e) = get_elem?-lt b.dwords (i / 32) (omega arith) in
    let mask : ℕ = 2 ^ (i % 32) in
    rw (bit_mask-eq i, e)
      (store-Updated b i false d (bit_and d (not32 mask)) e
        (λ k l. ground (
          arith,
          bit-bit_and d (not32 mask) k,
          bit-complement 32 mask k (bit_mask-lt i) l,
          bit-two_pow (i % 32) k,
          bit-lt d k,
        ))
        v (omega (arith, bit_and-le d (not32 mask), AreDwords-get b.dwords (i / 32) v e)))

-- On an index in range `bitset_write` (and so `bitset_set` and `bitset_clear`) gives that index
-- the state and leaves every other index, the length and the storage's address as they were.
pub write-Updated :
    (b : Bitset) (i : ℕ) (state : Bool)
    → IsValid b
    → i < capacity b
    → Updated b i state (write b i state)
unfolding write
write-Updated b i true v h = set-Updated b i v h
write-Updated b i false v h = clear-Updated b i v h

-- At an index that is not in range `bitset_read`, `bitset_set` and `bitset_clear` access memory
-- outside the set.
pub access-fault :
    (b : Bitset) (i : ℕ)
    → capacity b ≤ i
    → (read b i ≡ fault) × (set b i ≡ fault) × (clear b i ≡ fault)
unfolding read set clear
access-fault b i h =
    let gone : get_elem? b.dwords (i / 32) ≡ none = get_elem?-ge b.dwords (i / 32) (omega arith) in
    (rw gone, rw gone, rw gone)

length-map_const : (v : ℕ) (ds : List ℕ) → length (map (λ _. v) ds) ≡ length ds
length-map_const v [] = refl
length-map_const v (d ∷ ds) = ap suc (length-map_const v ds)

AreDwords-map_const : (v : ℕ) (ds : List ℕ) → v < 2 ^ 32 → AreDwords (map (λ _. v) ds)
AreDwords-map_const v [] h = tt
AreDwords-map_const v (d ∷ ds) h = (h, AreDwords-map_const v ds h)

get-map_const :
    (v : ℕ) (ds : List ℕ) (s : ℕ) → s < length ds → get_elem? (map (λ _. v) ds) s ≡ some v
get-map_const v [] s h = absurd (omega arith)
get-map_const v (d ∷ ds) zero h = refl
get-map_const v (d ∷ ds) (suc s) h = get-map_const v ds s (omega arith)

-- `bitset_fill` with a dword keeps the length, and puts an index in range into the set exactly
-- when the dword has the digit of its place.
pub fill_lem :
    (b : Bitset) (value : ℕ)
    → value < 2 ^ 32
    → IsValid (fill b value)
      × (len (fill b value) ≡ len b)
      × ((j : ℕ) → j < capacity b → contains (fill b value) j ≡ (bit value (j % 32) == 1))
unfolding fill has
fill_lem b value h = (
  AreDwords-map_const value b.dwords h,
  length-map_const value b.dwords,
  λ j l. ground (arith, get-map_const value b.dwords (j / 32) (omega arith)),
)

-- No index out of range is in a set.
pub contains-range : (b : Bitset) (i : ℕ) → contains b i ≡ true → i < capacity b
unfolding has
contains-range b i h = elim (dec_lt i (capacity b)) [
  | yes l ↦ l
  | no g ↦ ground (arith, get_elem?-ge b.dwords (i / 32) (omega arith))
]
