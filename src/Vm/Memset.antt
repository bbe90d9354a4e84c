-- ===== src/Vm/Memset.antt =====
-- kernel/memory/vm.c: which buckets the memset of `vm_alloc_kpages` leaves alone.
use ma_os.Base.{
  ℕ, zero, suc, ◌+◌, ◌/◌, ◌<◌, ◌≤◌, ◌≡◌, refl, ap, ◌⊎◌, ◌∙◌, sym, true, false, Option, some,
  Option-cases, Bool-cases, inl, inr, List, [], ◌∷◌, Outcome, arith, length, ◌==◌, ==_iff,
}
use ma_os.Pmm.{Pmm}
use ma_os.Pmm.Managed.{IsFree}
use ma_os.Paging.{AddressSpace}
use ma_os.Paging.Translate.{translate}
use ma_os.FreeList.{Heap}
use ma_os.FreeList.Chain.{Run}
use ma_os.Vm.{Vm, lies_on, set_bytes}
use ma_os.Vm.Pages.{holders}
use ma_os.Vm.Frames.{member, AllFree, LeadsTo, Maps}

pub AllFree-member :
    (p : Pmm) (fs : List ℕ) (f : ℕ) → AllFree p fs → member fs f ≡ true → IsFree p f
AllFree-member p [] f free e = absurd (ground (arith, e))
AllFree-member p (g ∷ fs) f (this, free) e = elim (Bool-cases (g == f)) [
  | inl same ↦ let one = (==_iff g f).0 same in rw (← one) this
  | inr other ↦ AllFree-member p fs f free (rw other at e)
]

-- An address whose frame is none of those that the pages lead to.
lies_on-none :
    (space : AddressSpace) (count first base addr : ℕ) (fs : List ℕ)
    → LeadsTo space first base fs
    → length fs ≡ count
    → ((f : ℕ) → member fs f ≡ true → ¬ (translate space addr ≡ some (base + f)))
    → lies_on space count first addr ≡ false
unfolding lies_on
lies_on-none space zero first base addr fs leads long apart = refl
lies_on-none space (suc count) first base addr [] leads long apart = absurd (omega (arith, long))
lies_on-none space (suc count) first base addr (f ∷ fs) (here, leads) long apart =
    let rest =
      lies_on-none space count (first + 1) base addr fs leads (omega (arith, long))
        (λ g e. apart g (ground (arith, e))) in
    elim (Option-cases (translate space addr)) [
      | inl gone ↦ rw (gone, rest) refl
      | inr (g, there) ↦
          let ne : (g == base + f) ≡ false = elim (Bool-cases (g == base + f)) [
            | inl same ↦ absurd (
                apart f (ground arith)
                  (there ∙ ap (λ (t : ℕ). some t) ((==_iff g (base + f)).0 same)))
            | inr other ↦ other
          ] in
          rw (there, here, ne, rest) refl
    ]

-- The bucket at `a` is on no page from number `first` on, `count` of them, and in no frame that is
-- free.
abbrev pub IsClear : Vm → ℕ → ℕ → ℕ → Type 0
IsClear v first count a =
    (k : ℕ)
    → k < 16
    → (((a + k) / 4096 < first) ⊎ (first + count ≤ (a + k) / 4096))
      × ((f : ℕ)
          → translate v.current_as (a + k) ≡ some (v.pmm.buddy_base / 4096 + f)
          → ¬ IsFree v.pmm f)

-- Such a bucket stays as it is.
pub set_bytes-IsClear :
    (count first frames a : ℕ) (v : Vm) (r : Outcome Vm)
    → (m : Maps count first frames v r) → IsClear v first count a
    → set_bytes m.out.current_as count first m.out.heap a ≡ m.out.heap a
unfolding set_bytes
set_bytes-IsClear count first frames a v r m clear =
    let off : (k : ℕ) → k < 16 → lies_on m.out.current_as count first (a + k) ≡ false = λ k l.
      let (away, taken) = clear k l in
      lies_on-none m.out.current_as count first (v.pmm.buddy_base / 4096) (a + k) m.fs m.leads
        m.one_each
        (λ f among e.
          taken f (sym (m.others (a + k) away) ∙ e)
            (AllFree-member v.pmm m.fs f m.were_free among)) in
    let start : a + 0 ≡ a = omega arith in
    let zeroth = rw start at (off 0 (omega arith)) in
    rw (zeroth, off 4 (omega arith), off 8 (omega arith), off 12 (omega arith)) refl

-- Two heaps with the same buckets on a list.
pub Run-same :
    (g h : Heap) (back p : Option ℕ) (xs : List ℕ) (q : Option ℕ)
    → ((a : ℕ) → member xs a ≡ true → g a ≡ h a)
    → Run h back p xs q
    → Run g back p xs q
Run-same g h back p [] q same run = run
Run-same g h back p (a ∷ xs) q same (e, e', run) =
    let here : g a ≡ h a = same a (ground arith) in
    rw here (e, e', Run-same g h (some a) (h a).next xs q (λ b i. same b (ground (arith, i))) run)

pub holders-same :
    (g h : Heap) (xs : List ℕ) (p : ℕ)
    → ((a : ℕ) → member xs a ≡ true → g a ≡ h a)
    → holders g xs p ≡ holders h xs p
holders-same g h [] p same = refl
holders-same g h (a ∷ xs) p same =
    let here : g a ≡ h a = same a (ground arith) in
    rw (here, holders-same g h xs p (λ b i. same b (ground (arith, i)))) refl
