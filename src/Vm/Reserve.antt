-- ===== src/Vm/Reserve.antt =====
-- `vm_reserve_pages` takes the first bucket that is large enough, or says that there is none.
use ma_os.Base.{
  ℕ, zero, suc, ◌≤◌, ◌<◌, ◌≡◌, refl, Option, none, some, List, [], ◌∷◌, ◌++◌, ◌⊎◌, inl, inr,
  Outcome, ok, arith, length, leb, Bool-cases,
}
use ma_os.Pmm.{e_nomem}
use ma_os.FreeList.{Heap}
use ma_os.FreeList.Chain.{Run, Chain}
use ma_os.Vm.{Vm, Reserved, take_pages, reserve_from, vm_reserve_pages}

-- Every bucket of a list is too small.
abbrev pub AllSmaller : Heap → ℕ → List ℕ → Type 0
AllSmaller h pages [] = Unit
AllSmaller h pages (a ∷ xs) = ((h a).size < pages) × AllSmaller h pages xs

-- Either all buckets are too small, or `x` is the first that is large enough.
abbrev pub FirstFit : ℕ → Vm → List ℕ → Outcome Reserved → Type 0
FirstFit pages v xs r =
    (AllSmaller v.heap pages xs × (r ≡ ok record { vm = v; err = e_nomem; pageno = 0 }))
    ⊎ ((ls : List ℕ) × (x : ℕ) × (rs : List ℕ) × (xs ≡ ls ++ x ∷ rs)
        × AllSmaller v.heap pages ls
        × (pages ≤ (v.heap x).size)
        × (r ≡ take_pages pages x v))

skip_small :
    (pages : ℕ) (v : Vm) (a : ℕ) (xs : List ℕ) (r : Outcome Reserved)
    → (v.heap a).size < pages
    → FirstFit pages v xs r
    → FirstFit pages v (a ∷ xs) r
skip_small pages v a xs r small (inl (all, e)) = inl ((small, all), e)
skip_small pages v a xs r small (inr (ls, x, rs, split, all, large, e)) =
    inr (a ∷ ls, x, rs, rw split refl, (small, all), large, e)

reserve_from-FirstFit :
    (rounds pages : ℕ) (back head : Option ℕ) (v : Vm) (xs : List ℕ)
    → Run v.heap back head xs none
    → length xs ≤ rounds
    → FirstFit pages v xs (reserve_from rounds pages head v)
unfolding reserve_from
reserve_from-FirstFit rounds pages back head v [] run enough = rw run (inl (tt, refl))
reserve_from-FirstFit zero pages back head v (a ∷ xs) run enough = absurd (omega arith)
reserve_from-FirstFit (suc rounds) pages back head v (a ∷ xs) (at_a, _, run) enough =
    elim (Bool-cases (leb pages (v.heap a).size)) [
      | inl e ↦ rw (at_a, e) (inr ([], a, xs, refl, tt, ground arith, refl))
      | inr e ↦
          rw (at_a, e)
            (skip_small pages v a xs (reserve_from rounds pages (v.heap a).next v) (ground arith)
              (reserve_from-FirstFit rounds pages (some a) (v.heap a).next v xs run (omega arith)))
    ]

-- With at least as many rounds as the list has buckets, the search ends: either every bucket is
-- too small, and E_NOMEM is returned with the state as it was, or pages are taken from the first
-- bucket that has enough.
pub vm_reserve_pages-FirstFit :
    (rounds pages : ℕ) (v : Vm) (xs : List ℕ)
    → Chain v.heap v.kernel_buckets xs
    → length xs ≤ rounds
    → FirstFit pages v xs (vm_reserve_pages rounds pages v)
unfolding vm_reserve_pages
vm_reserve_pages-FirstFit rounds pages v xs chain enough =
    reserve_from-FirstFit rounds pages none v.kernel_buckets v xs chain enough
