-- ===== src/Pmm/Layout.antt =====
-- The layout loop of `pmm_init`: where the levels are stored, and what the fills make of them.
use ma_os.Base.{
  ℕ, zero, suc, ◌+◌, ◌*◌, ◌/◌, ◌%◌, ◌^◌, ◌≤◌, ◌<◌, ◌≡◌, refl, sym, ap, ◌∙◌, Bool, true, false, List,
  [], ◌∷◌, arith, length, ltb, ge→ltb, lt→ltb, if◌then◌else◌, dec_lt, u32, ◌>>>◌, Bool-cases, inl,
  inr,
}
use ma_os.Base.Bits.{bit, zero-bit, bit-complement}
use native.Mathlib.Nat.{
  one-le-pow, pow-suc, mul-le-mul_left, mul-le-mul_right, lt-div-mul-add, div-mul-le_self,
  mul-div_cancel,
}
use ma_os.Bitset
use ma_os.Bitset.{Bitset}
use ma_os.Bitset.Member
use ma_os.Bitset.Member.{contains, capacity, fill_lem, contains-range}
use ma_os.Pmm.{dwords_at, lay_out, fill_levels}
use ma_os.Pmm.Cover.{weight, free_blocks, Levels}

pub length-dwords_at :
    (memory : ℕ → ℕ) (address count : ℕ) → length (dwords_at memory address count) ≡ count
unfolding dwords_at
length-dwords_at memory address zero = refl
length-dwords_at memory address (suc count) =
    ap suc (length-dwords_at memory (u32 (address + 4)) count)

contains-out : (b : Bitset) (j : ℕ) → capacity b ≤ j → contains b j ≡ false
contains-out b j h = elim (Bool-cases (contains b j)) [
  | inl e ↦ absurd (omega (arith, contains-range b j e))
  | inr e ↦ e
]

-- A level that is filled with zeros has no free block.
contains-zeros : (b : Bitset) (j : ℕ) → contains (Bitset.fill b 0) j ≡ false
contains-zeros b j =
    let (w, same, bits) = fill_lem b 0 (omega arith) in
    elim (dec_lt j (capacity b)) [
      | yes l ↦ bits j l ∙ ground (arith, zero-bit (j % 32))
      | no g ↦ contains-out (Bitset.fill b 0) j (omega arith)
    ]

all_ones : (k : ℕ) → k < 32 → bit 0xFFFFFFFF k ≡ 1
all_ones k l = omega (arith, bit-complement 32 0 k (omega arith) l, zero-bit k)

-- A level that is filled with ones has every block free.
contains-ones : (b : Bitset) (j : ℕ) → contains (Bitset.fill b 0xFFFFFFFF) j ≡ ltb j (capacity b)
contains-ones b j =
    let (w, same, bits) = fill_lem b 0xFFFFFFFF (omega arith) in
    elim (dec_lt j (capacity b)) [
      | yes l ↦ bits j l ∙ ground (arith, all_ones (j % 32))
      | no g ↦ contains-out (Bitset.fill b 0xFFFFFFFF) j (omega arith) ∙ ground arith
    ]

-- The storage of the levels, one behind the other from `start` on, ends at or before `stop`.
abbrev pub IsPacked : ℕ → List Bitset → ℕ → Type 0
IsPacked start [] stop = start ≤ stop
IsPacked start (b ∷ bs) stop = (b.address ≡ start) × IsPacked (start + 4 * Bitset.len b) bs stop

-- `fill_levels` fills every level below the last with zeros.
fill_levels-cons :
    (memory : ℕ → ℕ) (n rounds i : ℕ) (b c : Bitset)
    → fill_levels (b ∷ lay_out memory n rounds i c)
      ≡ Bitset.fill b 0 ∷ fill_levels (lay_out memory n rounds i c)
unfolding fill_levels lay_out
fill_levels-cons memory n zero i b c = refl
fill_levels-cons memory n (suc rounds) i b c = refl

-- The levels from `k` on, the first of which is empty but for its storage.
pub record IsFilled (k n start stop rounds : ℕ) (bs : List Bitset) : Type 0 where
  pub count : length bs ≡ suc rounds
  pub levels : Levels k n bs
  pub free : (f : ℕ) → free_blocks k bs f ≡ (if ltb f n then 1 else 0)
  pub packed : IsPacked start bs stop

fill-level :
    (b : Bitset) (value k n : ℕ)
    → value < 2 ^ 32
    → 32 * Bitset.len b * 2 ^ k ≡ n
    → Member.IsValid (Bitset.fill b value) × (capacity (Bitset.fill b value) * 2 ^ k ≡ n)
fill-level b value k n h e = let (w, same, bits) = fill_lem b value h in (w, rw same e)

-- The last level has a free block round each of the `n` frames.
last-free :
    (b : Bitset) (k n f : ℕ)
    → 32 * Bitset.len b * 2 ^ k ≡ n
    → ltb (f / 2 ^ k) (capacity b) ≡ ltb f n
last-free b k n f e =
    let pos : 0 < 2 ^ k = one-le-pow k 2 (omega arith) in
    elim (dec_lt (f / 2 ^ k) (capacity b)) [
      | yes l ↦
          let up : (f / 2 ^ k + 1) * 2 ^ k ≤ capacity b * 2 ^ k =
            mul-le-mul_right (2 ^ k) (omega arith) in
          let inside : f < n = omega (arith, lt-div-mul-add {a = f} pos) in
          lt→ltb (f / 2 ^ k) (capacity b) l ∙ sym (lt→ltb f n inside)
      | no g ↦
          let up : capacity b * 2 ^ k ≤ f / 2 ^ k * 2 ^ k =
            mul-le-mul_right (2 ^ k) (omega arith) in
          let outside : n ≤ f = omega (arith, div-mul-le_self f (2 ^ k)) in
          ge→ltb (f / 2 ^ k) (capacity b) (omega arith) ∙ sym (ge→ltb f n outside)
    ]

weight-ltb : (b : Bool) → weight b + 0 ≡ (if b then 1 else 0)
weight-ltb true = omega arith
weight-ltb false = omega arith

IsFilled-last :
    (k n stop : ℕ) (b : Bitset)
    → 32 * Bitset.len b * 2 ^ k ≡ n
    → b.address + 4 * Bitset.len b ≤ stop
    → IsFilled k n b.address stop 0 (Bitset.fill b 0xFFFFFFFF ∷ [])
unfolding free_blocks
IsFilled-last k n stop b size room =
    let (w, cap) = fill-level b 0xFFFFFFFF k n (omega arith) size in
    let (w', same, bits) = fill_lem b 0xFFFFFFFF (omega arith) in
    record {
      count = refl;
      levels = (w, cap, tt);
      free = λ f. rw (contains-ones b (f / 2 ^ k), last-free b k n f size) (weight-ltb (ltb f n));
      packed = (unfold Bitset.fill in refl, rw same room);
    }

IsFilled-cons :
    (k n stop rounds behind : ℕ) (b : Bitset) (bs : List Bitset)
    → 32 * Bitset.len b * 2 ^ k ≡ n
    → behind ≡ b.address + 4 * Bitset.len b
    → IsFilled (suc k) n behind stop rounds bs
    → IsFilled k n b.address stop (suc rounds) (Bitset.fill b 0 ∷ bs)
unfolding free_blocks
IsFilled-cons k n stop rounds behind b bs size place rest =
    let (w, cap) = fill-level b 0 k n (omega arith) size in
    let (w', same, bits) = fill_lem b 0 (omega arith) in
    record {
      count = ap suc rest.count;
      levels = (w, cap, rest.levels);
      free = λ f. rw (contains-zeros b (f / 2 ^ k)) (omega (arith, rest.free f));
      packed = (unfold Bitset.fill in refl, rw (same, ← place) rest.packed);
    }

shift-eq : (k : ℕ) → 2 ^ (5 + suc k) ≡ 2 ^ k * 64
shift-eq k =
    let five : 5 + suc k ≡ suc (suc (suc (suc (suc (suc k))))) = omega arith in
    rw five (
      omega (
        arith,
        pow-suc 2 (suc (suc (suc (suc (suc k))))),
        pow-suc 2 (suc (suc (suc (suc k)))),
        pow-suc 2 (suc (suc (suc k))),
        pow-suc 2 (suc (suc k)),
        pow-suc 2 (suc k),
        pow-suc 2 k,
      ))

module _ (memory : ℕ → ℕ) (d n stop : ℕ) (below : stop < 2 ^ 32) where
  -- The level that `lay_out` puts behind another.
  abbrev next_level : ℕ → Bitset → Bitset
  next_level i prev =
      let address = u32 (prev.address + 4 * Bitset.len prev) in
      record { address = address; dwords = dwords_at memory address (n >>> (5 + i)) }

  lay_out-suc :
      (rounds i : ℕ) (prev : Bitset)
      → fill_levels (lay_out memory n (suc rounds) i prev)
        ≡ Bitset.fill prev 0 ∷ fill_levels (lay_out memory n rounds (i + 1) (next_level i prev))
  unfolding lay_out
  lay_out-suc rounds i prev = fill_levels-cons memory n rounds (i + 1) prev (next_level i prev)

  pub lay_out-IsFilled :
      (rounds k i : ℕ) (prev : Bitset)
      → i ≡ suc k
      → n ≡ 32 * (d * 2 ^ rounds) * 2 ^ k
      → Bitset.len prev ≡ d * 2 ^ rounds
      → prev.address + 8 * (d * 2 ^ rounds) ≤ stop + 4 * d
      → IsFilled k n prev.address stop rounds (fill_levels (lay_out memory n rounds i prev))
  lay_out-IsFilled zero k i prev j e size room =
      unfold fill_levels lay_out in IsFilled-last k n stop prev (rw size (sym e)) (omega arith)
  lay_out-IsFilled (suc rounds) k i prev j e size room =
      let double : d * 2 ^ suc rounds ≡ d * 2 ^ rounds * 2 =
        omega (arith, ap (λ (t : ℕ). d * t) (pow-suc 2 rounds)) in
      let whole : n ≡ d * 2 ^ rounds * 2 ^ (5 + suc k) =
        rw (shift-eq k) (omega (arith, ap (λ (t : ℕ). 32 * t * 2 ^ k) double)) in
      let count : n >>> (5 + i) ≡ d * 2 ^ rounds =
        rw (j, whole) (mul-div_cancel (d * 2 ^ rounds) (one-le-pow (5 + suc k) 2 (omega arith))) in
      let some_left : d * 1 ≤ d * 2 ^ rounds =
        mul-le-mul_left d (one-le-pow rounds 2 (omega arith)) in
      let start : u32 (prev.address + 4 * Bitset.len prev) ≡ prev.address + 4 * Bitset.len prev =
        omega arith in
      let next_size : Bitset.len (next_level i prev) ≡ d * 2 ^ rounds =
        length-dwords_at memory _ (n >>> (5 + i)) ∙ count in
      let rest =
        lay_out-IsFilled rounds (suc k) (i + 1) (next_level i prev) (omega arith)
          (omega (
            arith,
            shift-eq k,
            pow-suc 2 k,
            ap (λ (t : ℕ). d * 2 ^ rounds * t) (pow-suc 2 k),
            ap (λ (t : ℕ). 32 * t * 2 ^ k) double,
          ))
          next_size (omega arith) in
      rw (lay_out-suc rounds i prev)
        (IsFilled-cons k n stop rounds _ prev _ (rw size (sym e)) start rest)
