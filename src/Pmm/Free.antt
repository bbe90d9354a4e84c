-- ===== src/Pmm/Free.antt =====
-- `pmm_free`: the block that it gives back, and that it undoes an allocation.
use ma_os.Base.{
  ℕ, ◌+◌, ◌-◌, ◌*◌, ◌/◌, ◌^◌, ◌≤◌, ◌<◌, ◌≡◌, refl, sym, ap, ◌∙◌, inl, inr, true, Outcome, ok, panic,
  ok-injective, arith, get_elem?-lt, ◌==◌, ge→ltb, lt→ltb, if◌then◌else◌, dec_lt,
}
use mathlib.Core.Path.{subst}
use native.Mathlib.Nat.{one-le-pow, pow-le-pow_right, mul-div_cancel}
use ma_os.Bitset
use ma_os.Bitset.{Bitset}
use ma_os.Bitset.Member.{capacity, set-Updated}
use ma_os.Pmm.{Pmm, Allocation, e_ok, e_nomem, page_size, alloc, free, log2}
use ma_os.Pmm.Cover.{free_blocks, Levels-get, at_level-Changed}
use ma_os.Pmm.Mark.{IsTaken, block-clear, block_bounds, block_index, index-lt}
use ma_os.Pmm.Managed.{IsManaged, within, Granted}
use ma_os.Pmm.Alloc.{alloc-result}

-- The block `idx` of the level, none of whose frames was free, is free, and nothing else changes.
pub record Released (frames level idx : ℕ) (p : Pmm) (result : Outcome Pmm) : Type 0 where
  pub out : Pmm
  pub returns : result ≡ ok out
  pub managed : IsManaged frames out
  pub same_base : out.buddy_base ≡ p.buddy_base
  pub blocks :
      (f : ℕ)
      → free_blocks 0 out.buddies f
        ≡ (if f / 2 ^ level == idx then 1 else free_blocks 0 p.buddies f)

-- The frame of an address.
abbrev pub frame_of : Pmm → ℕ → ℕ
frame_of p addr = (addr - p.buddy_base) / page_size

module _ (frames : ℕ) (p : Pmm) (v : IsManaged frames p) (n addr : ℕ) where
  -- `pmm_free` of `n` frames at an address gives back exactly the aligned block of 2 ^ log2(n)
  -- frames round the address, if no frame of the block was free and the block is managed.
  pub free-result :
      p.buddy_base ≤ addr
      → log2 n < 7
      → (frame_of p addr / 2 ^ log2 n + 1) * 2 ^ log2 n ≤ frames
      → IsTaken p.buddies (log2 n) (frame_of p addr / 2 ^ log2 n)
      → Released frames (log2 n) (frame_of p addr / 2 ^ log2 n) p (free n addr p)
  unfolding free
  free-result above low fits none_free =
      let l : ℕ = log2 n in
      let idx : ℕ = frame_of p addr / 2 ^ l in
      let (b, g) = get_elem?-lt p.buddies l (omega (arith, v.count)) in
      let (w, cap) = Levels-get 0 l frames p.buddies l (omega arith) v.levels g in
      let range : idx < capacity b =
        index-lt (2 ^ l) (one-le-pow l 2 (omega arith)) idx (capacity b) frames cap fits in
      let clear_bit = block-clear p.buddies l idx b g none_free in
      let changed =
        at_level-Changed frames p.buddies l idx true b (λ c. Bitset.set c idx) v.levels g
          (set-Updated b idx w range) (λ f e. ground (arith, none_free f e)) in
      record {
        out = record p { buddies = changed.out };
        returns = rw (ge→ltb addr p.buddy_base above, changed.returns);
        managed = record {
          count = changed.same_length ∙ v.count;
          levels = changed.levels;
          single = λ f. ground (arith, changed.blocks f, v.single f);
          addressable = v.addressable;
        };
        same_base = refl;
        blocks = changed.blocks;
      }

  -- An address below the managed memory is refused by a panic.
  pub free-panic : addr < p.buddy_base → free n addr p ≡ panic
  unfolding free
  free-panic below = rw (lt→ltb addr p.buddy_base below)

-- The frames of a granted block are the block of its level.
pub granted-block :
    (index level n f : ℕ)
    → n ≡ 2 ^ level
    → within (index * 2 ^ level) n f ≡ (f / 2 ^ level == index)
granted-block index level n f e =
    let pos : 0 < 2 ^ level = one-le-pow level 2 (omega arith) in
    ground (arith, block_bounds (2 ^ level) pos f index, block_index (2 ^ level) pos f index)

-- What a free of exactly the frames that were granted does.
pub record Restored (frames : ℕ) (p : Pmm) (result : Outcome Pmm) : Type 0 where
  pub out : Pmm
  pub returns : result ≡ ok out
  pub managed : IsManaged frames out
  pub blocks : (f : ℕ) → free_blocks 0 out.buddies f ≡ free_blocks 0 p.buddies f

module _ (frames : ℕ) (p : Pmm) (n : ℕ) (power : n ≡ 2 ^ log2 n) (small : n ≤ 64) where
  pub low_level : log2 n < 7
  low_level = elim (dec_lt (log2 n) 7) [
    | yes l ↦ l
    | no g ↦
        let wide : 2 ^ 7 ≤ 2 ^ log2 n = pow-le-pow_right (omega arith) {i = 7} (omega arith) in
        absurd (omega arith)
  ]

  granted-free :
      (result : Outcome Allocation) (g : Granted frames (log2 n) n p result)
      → Restored frames p (free n (p.buddy_base + page_size * (g.index * 2 ^ log2 n)) g.out)
  granted-free result g =
      let l : ℕ = log2 n in
      let addr : ℕ = p.buddy_base + page_size * (g.index * 2 ^ l) in
      let pos : 0 < 2 ^ l = one-le-pow l 2 (omega arith) in
      let frame : frame_of g.out addr ≡ g.index * 2 ^ l = omega (arith, g.same_base) in
      let block : frame_of g.out addr / 2 ^ l ≡ g.index = rw frame (mul-div_cancel g.index pos) in
      let released =
        free-result frames g.out g.managed n addr (omega (arith, g.same_base)) low_level
          (rw block (omega (arith, g.in_range)))
          (rw block (λ f e. ground (arith, g.blocks f, granted-block g.index l n f))) in
      record {
        out = released.out;
        returns = released.returns;
        managed = released.managed;
        blocks = λ f. ground (
          arith,
          released.blocks f,
          g.blocks f,
          granted-block g.index l n f,
          block,
          g.was_free f,
          block_bounds (2 ^ l) pos f g.index,
        );
      }

  -- For a power of two up to 64, freeing the frames that `pmm_alloc` returned, at the address that
  -- it returned, succeeds and leaves every frame as it was before the allocation.
  pub alloc-free :
      IsManaged frames p
      → (a : Allocation) → alloc n p ≡ ok a
      → a.err ≡ e_ok
      → Restored frames p (free n a.addr a.pmm)
  alloc-free v a returned fine = elim (alloc-result frames p v n (omega arith)) [
    | inl g ↦
        let same = ok-injective (sym returned ∙ g.returns) in
        subst (λ (c : Allocation). Restored frames p (free n c.addr c.pmm)) (sym same)
          (granted-free (alloc n p) g)
    | inr r ↦
        let same = ok-injective (sym returned ∙ r.returns) in
        let failed : a.err ≡ e_nomem = ap (λ (c : Allocation). c.err) same in absurd (cc)
  ]
