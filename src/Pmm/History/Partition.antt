-- ===== src/Pmm/History/Partition.antt =====
-- Over any sequence of calls, each managed frame is free or has exactly one holder.
use ma_os.Base.{
  ℕ, ◌+◌, ◌-◌, ◌*◌, ◌/◌, ◌^◌, ◌≤◌, ◌<◌, ◌≡◌, refl, sym, ap, ◌∙◌, ◌⊎◌, inl, inr, List, [], ◌∷◌, ◌++◌,
  ok, ok-injective, arith, ltb, ◌==◌, if◌then◌else◌,
}
use mathlib.Core.Path.{subst}
use native.Mathlib.Nat.{one-le-pow, mul-div_cancel}
use ma_os.Pmm.{Pmm, Allocation, e_ok, e_nomem, page_size, alloc, free, log2}
use ma_os.Pmm.Cover.{free_blocks}
use ma_os.Pmm.Mark.{IsTaken}
use ma_os.Pmm.Managed.{IsManaged, Granted}
use ma_os.Pmm.Alloc.{alloc-result}
use ma_os.Pmm.Free.{frame_of, free-result, granted-block, low_level}
use ma_os.Pmm.History.{
  Holding, Shared, Call, allocated, refused, freed, Reaches, begun, called, has, holders, IsHolding,
  AllHoldings, IsShared, Request, want, give, Returns,
}

holders-between :
    (base : ℕ) (ls : List Holding) (h : Holding) (rs : List Holding) (f : ℕ)
    → holders base (ls ++ h ∷ rs) f ≡ has base h f + holders base (ls ++ rs) f
holders-between base [] h rs f = refl
holders-between base (l ∷ ls) h rs f = omega (arith, holders-between base ls h rs f)

AllHoldings-between :
    (frames base : ℕ) (ls : List Holding) (h : Holding) (rs : List Holding)
    → AllHoldings frames base (ls ++ h ∷ rs)
    → IsHolding frames base h × AllHoldings frames base (ls ++ rs)
AllHoldings-between frames base [] h rs all = all
AllHoldings-between frames base (l ∷ ls) h rs (this, all) =
    let (found, others) = AllHoldings-between frames base ls h rs all in (found, (this, others))

module _ (frames base : ℕ) where
  -- The frames of a new holding were free.
  granted-IsShared :
      (n : ℕ) (p : Pmm) (held : List Holding)
      → n ≡ 2 ^ log2 n
      → n ≤ 64
      → IsShared frames base record { pmm = p; held = held }
      → (g : Granted frames (log2 n) n p (alloc n p))
      → IsShared frames base record {
        pmm = g.out;
        held =
            record { addr = p.buddy_base + page_size * (g.index * 2 ^ log2 n); count = n } ∷ held;
      }
  granted-IsShared n p held power small s g =
      let first : (p.buddy_base + page_size * (g.index * 2 ^ log2 n) - base) / page_size
          ≡ g.index * 2 ^ log2 n =
        omega (arith, s.same_base) in
      record {
        managed = g.managed;
        same_base = g.same_base ∙ s.same_base;
        holdings = (
          record {
            power = power;
            small = small;
            index = g.index;
            at = omega (arith, s.same_base);
            in_range = g.in_range;
          },
          s.holdings,
        );
        partition = λ f. rw first (ground (arith, g.blocks f, g.was_free f, s.partition f));
      }

  -- What an allocation returns is one of the two ways in which it ends.
  alloc-IsShared :
      (n : ℕ) (p : Pmm) (held : List Holding) (a : Allocation)
      → n ≡ 2 ^ log2 n
      → n ≤ 64
      → IsShared frames base record { pmm = p; held = held }
      → alloc n p ≡ ok a
      → ((a.err ≡ e_ok)
          × IsShared frames base
              record { pmm = a.pmm; held = record { addr = a.addr; count = n } ∷ held })
        ⊎ ((a.err ≡ e_nomem) × IsShared frames base record { pmm = a.pmm; held = held })
  alloc-IsShared n p held a power small s returned =
      elim (alloc-result frames p s.managed n (omega arith)) [
        | inl g ↦
            let same = ok-injective (sym g.returns ∙ returned) in
            inl (
              ap (λ (b : Allocation). b.err) (sym same),
              subst
                  (λ (b : Allocation).
                    IsShared frames base
                      record { pmm = b.pmm; held = record { addr = b.addr; count = n } ∷ held })
                  same (granted-IsShared n p held power small s g),
            )
        | inr r ↦
            let same = ok-injective (sym r.returns ∙ returned) in
            inr (
              ap (λ (b : Allocation). b.err) (sym same),
              subst (λ (b : Allocation). IsShared frames base record { pmm = b.pmm; held = held })
                  same s,
            )
      ]

  -- The frames of a holding are not free.
  holding-IsTaken :
      (p : Pmm) (ls : List Holding) (h : Holding) (rs : List Holding)
      → IsShared frames base record { pmm = p; held = ls ++ h ∷ rs }
      → (i : IsHolding frames base h) → IsTaken p.buddies (log2 h.count) i.index
  holding-IsTaken p ls h rs s i f e =
      let first : (h.addr - base) / page_size ≡ i.index * 2 ^ log2 h.count = omega (arith, i.at) in
      let inside = granted-block i.index (log2 h.count) h.count f i.power in
      let one : has base h f ≡ 1 = rw (first, inside) (ground arith) in
      ground (arith, one, s.partition f, holders-between base ls h rs f)

  -- A free of what is held returns, and its frames are free again.
  free-IsShared :
      (p : Pmm) (ls : List Holding) (h : Holding) (rs : List Holding)
      → IsShared frames base record { pmm = p; held = ls ++ h ∷ rs }
      → (p' : Pmm) × (free h.count h.addr p ≡ ok p')
        × IsShared frames base record { pmm = p'; held = ls ++ rs }
  free-IsShared p ls h rs s =
      let (i, others) = AllHoldings-between frames base ls h rs s.holdings in
      let l : ℕ = log2 h.count in
      let pos : 0 < 2 ^ l = one-le-pow l 2 (omega arith) in
      let frame : frame_of p h.addr ≡ i.index * 2 ^ l = omega (arith, i.at, s.same_base) in
      let block : frame_of p h.addr / 2 ^ l ≡ i.index = rw frame (mul-div_cancel i.index pos) in
      let released =
        free-result frames p s.managed h.count h.addr (omega (arith, i.at, s.same_base))
          (low_level frames p h.count i.power i.small)
          (rw block (omega (arith, i.in_range, i.power)))
          (rw block (holding-IsTaken p ls h rs s i)) in
      let first : (h.addr - base) / page_size ≡ i.index * 2 ^ l = omega (arith, i.at) in
      (
        released.out,
        released.returns,
        record {
          managed = released.managed;
          same_base = released.same_base ∙ s.same_base;
          holdings = others;
          partition = λ f.
              let inside = granted-block i.index l h.count f i.power in
              let taken = holding-IsTaken p ls h rs s i f in
              let here : has base h f ≡ (if f / 2 ^ l == i.index then 1 else 0) =
                rw (first, inside) refl in
              let back : free_blocks 0 released.out.buddies f
                  ≡ (if f / 2 ^ l == i.index then 1 else free_blocks 0 p.buddies f) =
                released.blocks f
                ∙ ap (λ (t : ℕ). if f / 2 ^ l == t then 1 else free_blocks 0 p.buddies f) block in
              ground (arith, back, here, taken, s.partition f, holders-between base ls h rs f);
        },
      )

  -- Every call keeps the frames shared out.
  Call-IsShared : (s s' : Shared) → Call s s' → IsShared frames base s → IsShared frames base s'
  Call-IsShared s s' (allocated n p p' addr held power small returned) shared =
      elim (alloc-IsShared n p held _ power small shared returned) [
        | inl (fine, after) ↦ after
        | inr (failed, after) ↦ absurd (cc)
      ]
  Call-IsShared s s' (refused n p p' addr held power small returned) shared =
      elim (alloc-IsShared n p held _ power small shared returned) [
        | inl (fine, after) ↦ absurd (cc)
        | inr (failed, after) ↦ after
      ]
  Call-IsShared s s' (freed p p' ls h rs returned) shared =
      let (out, done, after) = free-IsShared p ls h rs shared in
      let same = ok-injective (sym done ∙ returned) in
      subst (λ (q : Pmm). IsShared frames base record { pmm = q; held = ls ++ rs }) same after

  Reaches-IsShared :
      (start s : Shared) → IsShared frames base start → Reaches start s → IsShared frames base s
  Reaches-IsShared start s shared begun = shared
  Reaches-IsShared start s shared (called before _ reached call) =
      Call-IsShared before s call (Reaches-IsShared start before shared reached)

Request-Returns :
    (frames base : ℕ) (s : Shared) → IsShared frames base s → (q : Request s) → Returns s q
Request-Returns frames base s shared (want n power small) =
    elim (alloc-result frames s.pmm shared.managed n (omega arith)) [
      | inl g ↦ (_, g.returns)
      | inr r ↦ (_, r.returns)
    ]
Request-Returns frames base s shared (give ls h rs e) =
    let shared' : IsShared frames base record { pmm = s.pmm; held = ls ++ h ∷ rs } =
      subst (λ (hs : List Holding). IsShared frames base record { pmm = s.pmm; held = hs }) e
        shared in
    let (p, done, _) = free-IsShared frames base s.pmm ls h rs shared' in (p, done)

-- From all frames free, over any calls for 1, 2, 4 ... or 64 frames and any frees of what they have
-- returned, each managed frame is free or has exactly one holder, and no holding reaches out of the
-- managed frames. The next such call returns, whatever it is.
pub Reaches-Sound :
    (frames : ℕ) (p : Pmm) (s : Shared)
    → IsManaged frames p
    → ((f : ℕ) → free_blocks 0 p.buddies f ≡ (if ltb f frames then 1 else 0))
    → Reaches record { pmm = p; held = [] } s
    → (q : Request s) → IsShared frames p.buddy_base s × Returns s q
Reaches-Sound frames p s managed all_free reached q =
    let start : IsShared frames p.buddy_base record { pmm = p; held = [] } = record {
      managed = managed;
      same_base = refl;
      holdings = tt;
      partition = λ f. omega (arith, all_free f);
    } in
    let shared =
      Reaches-IsShared frames p.buddy_base record { pmm = p; held = [] } s start reached in
    (shared, Request-Returns frames p.buddy_base s shared q)
