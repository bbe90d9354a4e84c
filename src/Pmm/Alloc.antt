-- ===== src/Pmm/Alloc.antt =====
-- `pmm_alloc`: the block that it takes, and when it says that there is none.
use ma_os.Base.{
  ℕ, zero, suc, ◌+◌, ◌-◌, ◌*◌, ◌/◌, ◌^◌, ◌≤◌, ◌<◌, ◌≡◌, refl, ap, ◌⊎◌, inl, inr, true, false,
  Option, none, some, Outcome, ok, arith, get_elem?, get_elem?-lt, lt-length_of_get, ◌==◌,
  if◌then◌else◌, u32, ◌<<<◌, ℕ_discrete, dec_lt,
}
use native.Mathlib.Nat.{
  pow-suc, one-le-pow, mul-le-mul_right, mul-le-mul_left, le_trans, pow-le-pow_right,
}
use ma_os.Bitset
use ma_os.Bitset.{Bitset}
use ma_os.Bitset.Member.{contains, capacity, clear-Updated, contains-range}
use ma_os.Bitset.Find.{IsLeast, find-IsLeast}
use ma_os.Pmm.{
  Pmm, Allocation, e_ok, page_size, at_level, mark_used, take_block, alloc_from, alloc, alloc_buddy,
  log2,
}
use ma_os.Pmm.Cover.{
  weight, free_blocks, Levels-get, weight-le-free_blocks, Changed, Changed-mono, at_level-Changed,
}
use ma_os.Pmm.Mark.{block_bounds, block_index, mark_used-Changed}
use ma_os.Pmm.Managed.{IsManaged, within, Granted, Refused}

-- A block of a higher level is whole blocks of a lower one.
two_pow-split : (m d : ℕ) → 2 ^ (m + d) ≡ 2 ^ d * 2 ^ m
two_pow-split m zero = let same : m + 0 ≡ m = omega arith in rw same (omega arith)
two_pow-split m (suc d) =
    let next : m + suc d ≡ suc (m + d) = omega arith in
    rw next
      (omega (arith, pow-suc 2 (m + d), two_pow-split m d, ap (λ (t : ℕ). t * 2 ^ m) (pow-suc 2 d)))

module _ (frames : ℕ) (p : Pmm) (v : IsManaged frames p) (i n idx : ℕ) (b : Bitset)
    (g : get_elem? p.buddies i ≡ some b) (member : contains b idx ≡ true) (le : n ≤ 2 ^ i) where
  -- The frames of a free block are free.
  block_free : (f : ℕ) → f / 2 ^ i ≡ idx → free_blocks 0 p.buddies f ≡ 1
  block_free f e =
      let one : weight (contains b (f / 2 ^ i)) ≡ 1 = rw (e, member) in
      omega (arith, v.single f, weight-le-free_blocks 0 i p.buddies i b f (omega arith) g)

  block_fits : (idx + 1) * 2 ^ i ≤ frames
  block_fits =
      let (w, cap) = Levels-get 0 i frames p.buddies i (omega arith) v.levels g in
      let range = contains-range b idx member in rw (← cap) (mul-le-mul_right (2 ^ i) (omega arith))

  cleared :
      Changed frames p.buddies
        (λ f. if f / 2 ^ i == idx then 0 else free_blocks 0 p.buddies f)
        (at_level p.buddies i (λ c. Bitset.clear c idx))
  cleared =
      let (w, cap) = Levels-get 0 i frames p.buddies i (omega arith) v.levels g in
      at_level-Changed frames p.buddies i idx false b (λ c. Bitset.clear c idx) v.levels g
        (clear-Updated b idx w (contains-range b idx member)) (λ f e. rw member (block_free f e))

  marked :
      Changed frames cleared.out
        (λ f. if within (idx * 2 ^ i) n f then 0 else free_blocks 0 p.buddies f)
        (mark_used i n idx cleared.out)
  marked =
      let pos : 0 < 2 ^ i = one-le-pow i 2 (omega arith) in
      Changed-mono
        (mark_used-Changed frames i n idx cleared.out (omega (arith, v.addressable)) cleared.levels
          (omega (arith, cleared.same_length, lt-length_of_get p.buddies i g)) block_fits le
          (λ f e. ground (arith, cleared.blocks f)))
        (λ f. ground (
          arith,
          cleared.blocks f,
          block_bounds (2 ^ i) pos f idx,
          block_index (2 ^ i) pos f idx,
          block_free f,
        ))

  granted : (m : ℕ) → m ≤ i → Granted frames m n p (take_block i n idx p)
  unfolding take_block
  granted m below =
      let split : 2 ^ i ≡ 2 ^ (i - m) * 2 ^ m =
        rw (← two_pow-split m (i - m)) (ap (λ (t : ℕ). 2 ^ t) (omega arith)) in
      let place : idx * 2 ^ (i - m) * 2 ^ m ≡ idx * 2 ^ i =
        omega (arith, ap (λ (t : ℕ). idx * t) split) in
      let address : u32 (p.buddy_base + u32 ((page_size <<< i) * idx))
          ≡ p.buddy_base + page_size * (idx * 2 ^ (i - m) * 2 ^ m) =
        omega (arith, place, block_fits, v.addressable, one-le-pow i 2 (omega arith)) in
      record {
        out = record p { buddies = marked.out };
        index = idx * 2 ^ (i - m);
        returns =
            rw (cleared.returns, marked.returns)
              (ap (λ a. ok record { pmm = record p { buddies = marked.out }; err = e_ok; addr = a })
                address);
        managed = record {
          count = omega (arith, v.count, cleared.same_length, marked.same_length);
          levels = marked.levels;
          single = λ f. ground (arith, marked.blocks f, v.single f);
          addressable = v.addressable;
        };
        same_base = refl;
        in_range = rw place (omega (arith, block_fits));
        was_free = λ f. rw place (λ lo hi.
            block_free f
              (block_index (2 ^ i) (one-le-pow i 2 (omega arith)) f idx lo (omega arith)));
        blocks = λ f. rw place (marked.blocks f);
      }

-- The choice that one round of the search makes.
abbrev pub at_found : ℕ → ℕ → Pmm → Outcome Allocation → Option ℕ → Outcome Allocation
at_found i n p next found = elim found [ none ↦ next | some idx ↦ take_block i n idx p ]

pub alloc_from-suc :
    (rounds i n : ℕ) (p : Pmm) (b : Bitset)
    → get_elem? p.buddies i ≡ some b
    → alloc_from (suc rounds) i n p ≡ at_found i n p (alloc_from rounds (i + 1) n p) (Bitset.find b)
unfolding alloc_from
alloc_from-suc rounds i n p b g = rw g

module _ (frames : ℕ) (p : Pmm) (v : IsManaged frames p) where
  -- A level with no free block is passed over.
  Refused-step :
      (i : ℕ) (b : Bitset) (result : Outcome Allocation)
      → get_elem? p.buddies i ≡ some b
      → ((j : ℕ) → contains b j ≡ false)
      → Refused (i + 1) p result
      → Refused i p result
  Refused-step i b result g empty r = record {
    returns = r.returns;
    no_block = λ l j c le e. elim (ℕ_discrete l i) [
      | yes same ↦
          let e' : get_elem? p.buddies i ≡ some c = rw (← same) e in
          let here : c ≡ b = cc in rw here (empty j)
      | no ne ↦ r.no_block l j c (omega arith) e
    ];
  }

  -- One level of the search, at what `bitset_find` says of it.
  level-result :
      (i n m : ℕ) (b : Bitset) (found : Option ℕ) (next : Outcome Allocation)
      → m ≤ i
      → n ≤ 2 ^ i
      → get_elem? p.buddies i ≡ some b
      → IsLeast b found
      → Granted frames m n p next ⊎ Refused (i + 1) p next
      → Granted frames m n p (at_found i n p next found) ⊎ Refused i p (at_found i n p next found)
  level-result i n m b none next below le g empty (inl done) = inl done
  level-result i n m b none next below le g empty (inr r) = inr (Refused-step i b next g empty r)
  level-result i n m b (some idx) next below le g least rest =
      inl (granted frames p v i n idx b g least.0 le m below)

  capacity-le : (i : ℕ) (b : Bitset) → get_elem? p.buddies i ≡ some b → capacity b ≤ 2 ^ 32
  capacity-le i b g =
      let (w, cap) = Levels-get 0 i frames p.buddies i (omega arith) v.levels g in
      let wide : capacity b * 1 ≤ capacity b * 2 ^ i =
        mul-le-mul_left (capacity b) (one-le-pow i 2 (omega arith)) in
      omega (arith, v.addressable)

  -- There is no level above the last.
  no_level : (i n : ℕ) → 7 ≤ i → Refused i p (alloc_from 0 i n p)
  unfolding alloc_from
  no_level i n high = record {
    returns = refl;
    no_block = λ l j b over g. absurd (omega (arith, lt-length_of_get p.buddies l g, v.count));
  }

  -- The search from level `i` upwards, for `n` frames that fit a block of that level.
  alloc_from-result :
      (rounds i n m : ℕ)
      → i + rounds ≡ 7
      → m ≤ i
      → n ≤ 2 ^ i
      → Granted frames m n p (alloc_from rounds i n p) ⊎ Refused i p (alloc_from rounds i n p)
  alloc_from-result zero i n m e below le = inr (no_level i n (omega arith))
  alloc_from-result (suc rounds) i n m e below le =
      let (b, g) = get_elem?-lt p.buddies i (omega (arith, v.count)) in
      rw (alloc_from-suc rounds i n p b g) (
        level-result i n m b (Bitset.find b) (alloc_from rounds (i + 1) n p) below le g
          (find-IsLeast b (capacity-le i b g))
          (alloc_from-result rounds (i + 1) n m (omega arith) (omega arith)
            (le_trans le (pow-le-pow_right (omega arith) (omega arith)))))

  -- Where the search starts at blocks of at least `n` frames, `pmm_alloc` ends in one of two ways.
  -- It returns E_OK with the address of `n` frames that were free and are not any more, at a
  -- multiple of the block size, and changes no other frame; or it returns E_NOMEM with address 0,
  -- changes nothing, and no level from the first on has a free block.
  pub alloc-result :
      (n : ℕ)
      → n ≤ 2 ^ log2 n
      → Granted frames (log2 n) n p (alloc n p) ⊎ Refused (log2 n) p (alloc n p)
  unfolding alloc alloc_buddy
  alloc-result n fits = elim (dec_lt (log2 n) 7) [
    | yes low ↦ alloc_from-result (7 - log2 n) (log2 n) n (log2 n) (omega arith) (omega arith) fits
    | no high ↦
        let none_left : 7 - log2 n ≡ 0 = omega arith in
        rw none_left (inr (no_level (log2 n) n (omega arith)))
  ]
