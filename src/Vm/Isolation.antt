-- ===== src/Vm/Isolation.antt =====
-- Over any sequence of calls of `vm_alloc_kpages`, no two of the pages that they return share a
-- frame.
use ma_os.Base.{
  ℕ, zero, suc, ◌+◌, ◌-◌, ◌*◌, ◌/◌, ◌^◌, ◌≤◌, ◌<◌, ◌≡◌, refl, sym, ap, ◌∙◌, ◌⊎◌, inl, inr, true,
  some, List, [], ◌∷◌, Outcome, ok, panic, ok-injective, arith, length, get_elem?, dec_lt,
}
use mathlib.Core.Path.{subst}
use ma_os.Pmm.{Pmm}
use ma_os.Pmm.Cover.{free_blocks}
use ma_os.Pmm.Managed.{IsFree}
use ma_os.Paging.{AddressSpace}
use ma_os.Paging.Translate.{translate}
use ma_os.FreeList.Chain.{Without, Distinct}
use ma_os.Vm.{Vm, Granted, vm_alloc_kpages}
use ma_os.Vm.Walk.{walk, walk-translate}
use ma_os.Vm.Boot.{IsBooted}
use ma_os.Vm.Frames.{member, AllFree, LeadsTo}
use ma_os.Vm.Grow.{Grows, vm_alloc_kpages-Grows}

-- The states that calls of `vm_alloc_kpages` lead to, with the number of the first free page.
pub data Grown (start : Vm) : ℕ → Vm → Type 0 where
  begun : Grown start 0xC0800 start
  grown :
      (rounds pages next : ℕ) (v : Vm) (g : Granted)
      → Grown start next v
      → 0 < pages
      → next + pages ≤ 2 ^ 20
      → 1 ≤ rounds
      → vm_alloc_kpages rounds pages v ≡ ok g
      → Grown start (next + pages) g.vm

-- Each page below `next` that was allocated leads to a frame that is not free, no two of them to
-- the same one, and the processor finds these frames.
pub record IsIsolated (next frames bucket base : ℕ) (v : Vm) : Type 0 where
  pub booted : IsBooted next frames bucket v
  pub same_base : v.pmm.buddy_base ≡ base
  pub own :
      (p : ℕ)
      → 0xC0800 ≤ p
      → p < next
      → (f : ℕ) × (translate v.current_as (p * 4096) ≡ some (base / 4096 + f))
        × (free_blocks 0 v.pmm.buddies f ≡ 0)
  pub found :
      (p : ℕ)
      → 0xC0800 ≤ p
      → p < next
      → walk booted.table_at v.current_as (p * 4096) ≡ translate v.current_as (p * 4096)
  pub apart :
      (p q : ℕ)
      → 0xC0800 ≤ p
      → p < next
      → 0xC0800 ≤ q
      → q < next
      → translate v.current_as (p * 4096) ≡ translate v.current_as (q * 4096)
      → p ≡ q

member-get_elem? : (fs : List ℕ) (k f : ℕ) → get_elem? fs k ≡ some f → member fs f ≡ true
member-get_elem? [] k f e = ground arith
member-get_elem? (g ∷ fs) zero f e = ground arith
member-get_elem? (g ∷ fs) (suc k) f e = ground (arith, member-get_elem? fs k f e)

IsFree-get_elem? :
    (p : Pmm) (fs : List ℕ) (k f : ℕ) → AllFree p fs → get_elem? fs k ≡ some f → IsFree p f
IsFree-get_elem? p [] k f free e = ground arith
IsFree-get_elem? p (g ∷ fs) zero f (this, free) e = ground arith
IsFree-get_elem? p (g ∷ fs) (suc k) f (this, free) e = IsFree-get_elem? p fs k f free e

Without-get_elem? : (g : ℕ) (fs : List ℕ) (k : ℕ) → Without g fs → ¬ (get_elem? fs k ≡ some g)
Without-get_elem? g [] k w e = ground arith
Without-get_elem? g (x ∷ fs) zero (ne, w) e = ground arith
Without-get_elem? g (x ∷ fs) (suc k) (ne, w) e = Without-get_elem? g fs k w e

index_unique :
    (fs : List ℕ) (j k f : ℕ)
    → Distinct fs
    → get_elem? fs j ≡ some f
    → get_elem? fs k ≡ some f
    → j ≡ k
index_unique [] j k f d e e' = ground arith
index_unique (g ∷ fs) zero zero f d e e' = refl
index_unique (g ∷ fs) zero (suc k) f (w, d) e e' = absurd (Without-get_elem? g fs k w (e' ∙ sym e))
index_unique (g ∷ fs) (suc j) zero f (w, d) e e' = absurd (Without-get_elem? g fs j w (e ∙ sym e'))
index_unique (g ∷ fs) (suc j) (suc k) f (w, d) e e' =
    ap (λ (t : ℕ). suc t) (index_unique fs j k f d e e')

leads_at :
    (space : AddressSpace) (fs : List ℕ) (first base k : ℕ)
    → LeadsTo space first base fs
    → k < length fs
    → (f : ℕ) × (translate space ((first + k) * 4096) ≡ some (base + f)) × (get_elem? fs k ≡ some f)
leads_at space [] first base k leads l = absurd (omega arith)
leads_at space (f ∷ fs) first base zero (here, leads) l =
    let same : first + 0 ≡ first = omega arith in (f, rw same here, refl)
leads_at space (f ∷ fs) first base (suc k) (here, leads) l =
    let same : first + suc k ≡ first + 1 + k = omega arith in
    rw same (leads_at space fs (first + 1) base k leads (omega arith))

-- A page after a call: one from before, or one of those that the call has mapped.
abbrev Origin : ℕ → ℕ → List ℕ → Vm → Vm → ℕ → Type 0
Origin next base fs v v' p =
    ((p < next) × (translate v'.current_as (p * 4096) ≡ translate v.current_as (p * 4096)))
    ⊎ ((k : ℕ) × (f : ℕ) × (p ≡ next + k)
        × (get_elem? fs k ≡ some f)
        × (translate v'.current_as (p * 4096) ≡ some (base / 4096 + f)))

module _ (pages next frames bucket base : ℕ) (v : Vm) (s : IsIsolated next frames bucket base v)
    (r : Outcome Granted) (g : Grows pages next frames bucket v r)
    (fits : next + pages ≤ 2 ^ 20) where
  origin : (p : ℕ) → p < next + pages → Origin next base g.fs v g.out p
  origin p h = elim (dec_lt p next) [
    | yes old ↦ inl (old, g.others (p * 4096) (inl (omega arith)))
    | no new ↦
        let leads = rw s.same_base at g.leads in
        let (f, there, at_k) =
          leads_at g.out.current_as g.fs next (base / 4096) (p - next) leads
            (omega (arith, g.one_each)) in
        let same : p ≡ next + (p - next) = omega arith in
        inr (p - next, f, same, at_k, rw (← same) at there)
  ]

  own_after :
      (p : ℕ)
      → 0xC0800 ≤ p
      → p < next + pages
      → (f : ℕ) × (translate g.out.current_as (p * 4096) ≡ some (base / 4096 + f))
        × (free_blocks 0 g.out.pmm.buddies f ≡ 0)
  own_after p low high = elim (origin p high) [
    | inl (old, same) ↦
        let (f, there, taken) = s.own p low old in
        (f, same ∙ there, ground (arith, g.blocks f, taken))
    | inr (k, f, at_p, at_k, there) ↦
        (f, there, ground (arith, g.blocks f, member-get_elem? g.fs k f at_k))
  ]

  -- An old page and a new one.
  old_ne-new :
      (p q k f : ℕ)
      → 0xC0800 ≤ p
      → p < next
      → translate g.out.current_as (p * 4096) ≡ translate v.current_as (p * 4096)
      → get_elem? g.fs k ≡ some f
      → translate g.out.current_as (q * 4096) ≡ some (base / 4096 + f)
      → ¬ (translate g.out.current_as (p * 4096) ≡ translate g.out.current_as (q * 4096))
  old_ne-new p q k f low old same at_k there e =
      let (f', there', taken) = s.own p low old in
      let frames : some (base / 4096 + f') ≡ some (base / 4096 + f) =
        sym there' ∙ sym same ∙ e ∙ there in
      let one : f' ≡ f = ground arith in
      let was : free_blocks 0 v.pmm.buddies f ≡ 1 =
        IsFree-get_elem? v.pmm g.fs k f g.were_free at_k in
      absurd (omega (arith, was, rw one at taken))

  apart_after :
      (p q : ℕ)
      → 0xC0800 ≤ p
      → p < next + pages
      → 0xC0800 ≤ q
      → q < next + pages
      → translate g.out.current_as (p * 4096) ≡ translate g.out.current_as (q * 4096)
      → p ≡ q
  apart_after p q low high low' high' e = elim (origin p high) [
    | inl (old, same) ↦ elim (origin q high') [
      | inl (old', same') ↦ s.apart p q low old low' old' (sym same ∙ e ∙ same')
      | inr (k, f, at_q, at_k, there) ↦ absurd (old_ne-new p q k f low old same at_k there e)
    ]
    | inr (k, f, at_p, at_k, there) ↦ elim (origin q high') [
      | inl (old', same') ↦ absurd (old_ne-new q p k f low' old' same' at_k there (sym e))
      | inr (j, f', at_q, at_j, there') ↦
          let frames : some (base / 4096 + f) ≡ some (base / 4096 + f') = sym there ∙ e ∙ there' in
          let one : f' ≡ f = ground arith in
          let index = index_unique g.fs k j f g.distinct at_k (rw one at at_j) in omega arith
    ]
  ]

  Grows-IsIsolated : IsIsolated (next + pages) frames bucket base g.out
  Grows-IsIsolated = record {
    booted = g.booted;
    same_base = g.same_base ∙ s.same_base;
    own = own_after;
    found = λ p low high.
        walk-translate g.booted.table_at (p * 4096) g.out.current_as g.booted.table_aligned
          g.booted.wired (omega arith) (omega arith);
    apart = apart_after;
  }

-- From what `vm_init` leaves, over any calls of `vm_alloc_kpages` that return, each page that was
-- allocated leads to a frame that is not free any more, which the processor finds through the
-- directory, and no two of these pages lead to the same frame. Of the pages that were mapped at boot
-- nothing is said.
pub Grown-IsIsolated :
    (start : Vm) (frames bucket next : ℕ) (v : Vm)
    → IsBooted 0xC0800 frames bucket start
    → Grown start next v
    → IsIsolated next frames bucket start.pmm.buddy_base v
Grown-IsIsolated start frames bucket _ _ booted begun = record {
  booted = booted;
  same_base = refl;
  own = λ p low high. absurd (omega arith);
  found = λ p low high. absurd (omega arith);
  apart = λ p q low high. absurd (omega arith);
}
Grown-IsIsolated start frames bucket _ _ booted
      (grown rounds pages next v g before pos fits enough e) =
    let s = Grown-IsIsolated start frames bucket next v booted before in
    elim (vm_alloc_kpages-Grows rounds pages next frames bucket v s.booted pos fits enough) [
      | inl m ↦
          let same = ok-injective (sym m.returns ∙ e) in
          subst (λ (a : Granted). IsIsolated (next + pages) frames bucket start.pmm.buddy_base a.vm)
            same
            (Grows-IsIsolated pages next frames bucket start.pmm.buddy_base v s
              (vm_alloc_kpages rounds pages v) m fits)
      | inr short ↦ let clash : ok g ≡ panic = sym e ∙ short.panics in absurd (cc)
    ]
