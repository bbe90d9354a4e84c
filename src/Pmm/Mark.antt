-- ===== src/Pmm/Mark.antt =====
-- `mark_used`: of a block that is not free, its first `n_frames` frames stay taken and the rest of
-- it is given back, as blocks of the lower levels.
use ma_os.Base.{
  ℕ, zero, suc, ◌+◌, ◌-◌, ◌*◌, ◌/◌, ◌^◌, ◌≤◌, ◌<◌, ℕ_discrete, ◌≡◌, sym, ap, Bool, true, false,
  some, List, ◌>>=◌, arith, get_elem?, length, get_elem?-lt, ◌==◌, leb, ltb, if◌then◌else◌, ◌<<<◌,
  min, u32, Bool-cases, inl, inr, ◌∙◌,
}
use native.Mathlib.Nat.{
  pow-suc, one-le-pow, lt-div-mul-add, div-mul-le_self, mul-div_cancel, div-eq_of_lt-le,
  div-div-eq-div-mul,
}
use ma_os.Bitset
use ma_os.Bitset.{Bitset}
use ma_os.Bitset.Member.{contains, capacity, set-Updated, clear-Updated}
use ma_os.Pmm.{at_level, mark_used}
use ma_os.Pmm.Cover.{
  weight, free_blocks, Levels, Levels-get, weight-le-free_blocks, Changed, Changed-mono,
  at_level-Changed,
}

-- The count of free blocks after the first `n` frames of a block are taken.
abbrev pub taken : List Bitset → ℕ → ℕ → ℕ → ℕ → ℕ
taken bs level n idx f =
    if f / 2 ^ level == idx
    then (if leb (idx * 2 ^ level + n) f then 1 else 0)
    else free_blocks 0 bs f

-- No frame of the block is free.
abbrev pub IsTaken : List Bitset → ℕ → ℕ → Type 0
IsTaken bs level idx = (f : ℕ) → f / 2 ^ level ≡ idx → free_blocks 0 bs f ≡ 0

module _ (p : ℕ) (pos : 0 < p) where
  -- The frames of the block `idx` of `p` frames.
  pub block_bounds : (f idx : ℕ) → f / p ≡ idx → (idx * p ≤ f) × (f < idx * p + p)
  block_bounds f idx e = rw (← e) (div-mul-le_self f p, lt-div-mul-add pos)

  pub block_index : (f idx : ℕ) → idx * p ≤ f → f < idx * p + p → f / p ≡ idx
  block_index f idx lo hi = div-eq_of_lt-le p lo (omega arith)

  pub index-lt : (idx c frames : ℕ) → c * p ≡ frames → (idx + 1) * p ≤ frames → idx < c
  index-lt idx c frames e l = grind arith

  index-double : (idx frames : ℕ) → (idx + 1) * p * 2 ≤ frames → idx * 2 + 1 < frames
  index-double idx frames l = grind arith

  halve : (f : ℕ) → f / (p * 2) ≡ f / p / 2
  halve f = sym (div-div-eq-div-mul f p 2)

-- The bit of a block is clear where no frame of the block is free.
pub block-clear :
    (bs : List Bitset) (l idx : ℕ) (b : Bitset)
    → get_elem? bs l ≡ some b
    → IsTaken bs l idx
    → contains b idx ≡ false
block-clear bs l idx b g none_free =
    let first : idx * 2 ^ l / 2 ^ l ≡ idx = mul-div_cancel idx (one-le-pow l 2 (omega arith)) in
    let count : weight (contains b idx) ≤ free_blocks 0 bs (idx * 2 ^ l) =
      rw first at (weight-le-free_blocks 0 l bs l b (idx * 2 ^ l) (omega arith) g) in
    weight-zero (contains b idx) (omega (arith, none_free (idx * 2 ^ l) first))
  where
    weight-zero : (x : Bool) → weight x ≤ 0 → x ≡ false
    weight-zero x h = ground arith

module _ (frames : ℕ) (bs : List Bitset) (l idx : ℕ) (v : Levels 0 frames bs)
    (in_range : l < length bs) (fits : (idx + 1) * 2 ^ l ≤ frames)
    (none_free : IsTaken bs l idx) where
  clear-taken : Changed frames bs (taken bs l (2 ^ l) idx) (at_level bs l (λ b. Bitset.clear b idx))
  clear-taken =
      let (b, g) = get_elem?-lt bs l in_range in
      let (w, cap) = Levels-get 0 l frames bs l (omega arith) v g in
      let range : idx < capacity b =
        index-lt (2 ^ l) (one-le-pow l 2 (omega arith)) idx (capacity b) frames cap fits in
      let clear_bit = block-clear bs l idx b g none_free in
      Changed-mono
        (at_level-Changed frames bs l idx false b (λ b. Bitset.clear b idx) v g
          (clear-Updated b idx w range) (λ f e. ground (arith, none_free f e)))
        (λ f. ground (arith, block_bounds (2 ^ l) (one-le-pow l 2 (omega arith)) f idx))

  set-taken : Changed frames bs (taken bs l 0 idx) (at_level bs l (λ b. Bitset.set b idx))
  set-taken =
      let (b, g) = get_elem?-lt bs l in_range in
      let (w, cap) = Levels-get 0 l frames bs l (omega arith) v g in
      let range : idx < capacity b =
        index-lt (2 ^ l) (one-le-pow l 2 (omega arith)) idx (capacity b) frames cap fits in
      let clear_bit = block-clear bs l idx b g none_free in
      Changed-mono
        (at_level-Changed frames bs l idx true b (λ b. Bitset.set b idx) v g
          (set-Updated b idx w range) (λ f e. ground (arith, none_free f e)))
        (λ f. ground (arith, block_bounds (2 ^ l) (one-le-pow l 2 (omega arith)) f idx))

-- The frames of a block are those of its two halves.
halves-index : (level f : ℕ) → f / 2 ^ suc level ≡ f / 2 ^ level / 2
halves-index level f = rw (pow-suc 2 level) (halve (2 ^ level) (one-le-pow level 2 (omega arith)) f)

-- Taking `n` frames of a block is taking what falls into each half.
taken-halves :
    (bs out : List Bitset) (level n idx f : ℕ)
    → ((g : ℕ) → free_blocks 0 out g ≡ taken bs level (min n (2 ^ level)) (idx * 2) g)
    → taken out level (n - 2 ^ level) (idx * 2 + 1) f ≡ taken bs (suc level) n idx f
taken-halves bs out level n idx f first =
    let pos : 0 < 2 ^ level = one-le-pow level 2 (omega arith) in
    let left : idx * 2 * 2 ^ level ≡ idx * 2 ^ level * 2 = omega arith in
    let right : (idx * 2 + 1) * 2 ^ level ≡ idx * 2 ^ level * 2 + 2 ^ level = omega arith in
    let whole : idx * 2 ^ suc level ≡ idx * 2 ^ level * 2 =
      omega (arith, ap (λ (t : ℕ). idx * t) (pow-suc 2 level)) in
    ground (
      arith,
      first f,
      halves-index level f,
      block_bounds (2 ^ level) pos f (idx * 2),
      block_bounds (2 ^ level) pos f (idx * 2 + 1),
    )

-- The two calls of a split, one after the other.
halves-Changed :
    (frames level n idx : ℕ) (bs : List Bitset)
    → idx * 2 + 1 < 2 ^ 32
    → (left : Changed frames bs
        (taken bs level (min n (2 ^ level)) (idx * 2))
        (mark_used level (min n (2 ^ level)) (idx * 2) bs))
    → Changed frames left.out
        (taken left.out level (n - 2 ^ level) (idx * 2 + 1))
        (mark_used level (n - 2 ^ level) (idx * 2 + 1) left.out)
    → Changed frames bs (taken bs (suc level) n idx) (
        mark_used level (min n (1 <<< level)) (u32 (idx * 2)) bs
        >>= mark_used level
            (if ltb (1 <<< level) n then n - (1 <<< level) else 0)
            (u32 (idx * 2 + 1)))
halves-Changed frames level n idx bs bound left right =
    let one_shifted : 1 <<< level ≡ 2 ^ level = omega arith in
    let small_left : u32 (idx * 2) ≡ idx * 2 = omega arith in
    let small_right : u32 (idx * 2 + 1) ≡ idx * 2 + 1 = omega arith in
    let rest : (if ltb (2 ^ level) n then n - 2 ^ level else 0) ≡ n - 2 ^ level = ground arith in
    record {
      out = right.out;
      returns = rw (one_shifted, small_left, small_right, rest, left.returns) right.returns;
      same_length = right.same_length ∙ left.same_length;
      levels = right.levels;
      blocks = λ f. right.blocks f ∙ taken-halves bs left.out level n idx f left.blocks;
    }

-- On a block that has at least `n` frames, none of them free, `mark_used` returns with the first
-- `n` frames of the block still taken, the rest of it free in exactly one block each, and every
-- other frame as it was.
pub mark_used-Changed :
    (frames level n idx : ℕ) (bs : List Bitset)
    → frames ≤ 2 ^ 32
    → Levels 0 frames bs
    → level < length bs
    → (idx + 1) * 2 ^ level ≤ frames
    → n ≤ 2 ^ level
    → IsTaken bs level idx
    → Changed frames bs (taken bs level n idx) (mark_used level n idx bs)
unfolding mark_used
mark_used-Changed frames zero n idx bs small v in_range fits le t = elim (ℕ_discrete n 1) [
  | yes e ↦ rw e (clear-taken frames bs 0 idx v in_range fits t)
  | no ne ↦ let e : n ≡ 0 = omega arith in rw e (set-taken frames bs 0 idx v in_range fits t)
]
mark_used-Changed frames (suc level) n idx bs small v in_range fits le t =
    elim (Bool-cases (n == 1 <<< suc level)) [
      | inl full ↦
          let e : n ≡ 2 ^ suc level = ground arith in
          rw full
            (Changed-mono (clear-taken frames bs (suc level) idx v in_range fits t) (λ f. rw e))
      | inr partial ↦ elim (ℕ_discrete n 0) [
        | yes e ↦
            let empty : (n == 0) ≡ true = ground arith in
            rw (partial, empty)
              (Changed-mono (set-taken frames bs (suc level) idx v in_range fits t) (λ f. rw e))
        | no ne ↦
            let split : (n == 0) ≡ false = ground arith in
            let wide : 2 ^ suc level ≡ 2 ^ level * 2 = pow-suc 2 level in
            let room : (idx + 1) * 2 ^ level * 2 ≤ frames =
              omega (arith, ap (λ (t : ℕ). (idx + 1) * t) wide) in
            let bound : idx * 2 + 1 < 2 ^ 32 = omega (
              arith,
              index-double (2 ^ level) (one-le-pow level 2 (omega arith)) idx frames room,
            ) in
            let left =
              mark_used-Changed frames level (min n (2 ^ level)) (idx * 2) bs small v (omega arith)
                (omega arith) (omega arith) (λ f e. t f (omega (arith, halves-index level f))) in
            let right =
              mark_used-Changed frames level (n - 2 ^ level) (idx * 2 + 1) left.out small
                left.levels (omega (arith, left.same_length)) (omega arith) (omega arith)
                (λ f e. ground (arith, left.blocks f, t f (omega (arith, halves-index level f)))) in
            rw (partial, split) (halves-Changed frames level n idx bs bound left right)
      ]
    ]
