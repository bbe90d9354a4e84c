-- ===== src/Paging/Touch.antt =====
-- kernel/kernel/isr.c, kernel/memory/vm.c: code that runs through a range of memory ends in the page
-- fault of the first page that is not mapped, whose handler panics.
use ma_os.Base.{
  ℕ, zero, suc, ◌+◌, ◌-◌, ◌*◌, ◌/◌, ◌^◌, ◌≤◌, ◌<◌, ◌≡◌, refl, ◌∙◌, none, some, Outcome, ok, panic,
  ◌>>◌, arith, ltb, ◌==◌, if◌then◌else◌, u32, Bool-cases, inl, inr,
}
use ma_os.Paging.{AddressSpace}
use ma_os.Paging.Translate.{translate}
use ma_os.Paging.Dma.{same_page}

-- An access to page number `page`.
unfoldable pub reach : AddressSpace → ℕ → Outcome (Unit {0})
reach space page = elim (translate space (u32 (page * 4096))) [ none ↦ panic | some frame ↦ ok tt ]

-- Accesses to `count` pages from number `page` on.
unfoldable pub touch : AddressSpace → ℕ → ℕ → Outcome (Unit {0})
touch space zero page = ok tt
touch space (suc count) page = do reach space page; touch space count (page + 1)

-- The number of pages that `size` bytes from `addr` on lie on.
abbrev pub pages_over : ℕ → ℕ → ℕ
pages_over addr size = if size == 0 then 0 else (addr + size - 1) / 4096 + 1 - addr / 4096

-- Accesses to the `size` bytes from `addr` on.
unfoldable pub touch_range : AddressSpace → ℕ → ℕ → Outcome (Unit {0})
touch_range space addr size = touch space (pages_over addr size) (addr / 4096)

-- Every byte of the range is on a page that is mapped.
abbrev pub IsMapped : AddressSpace → ℕ → ℕ → Type 0
IsMapped space addr size =
    (w : ℕ) → addr ≤ w → w < addr + size → (f : ℕ) × (translate space w ≡ some f)

reach-ok :
    (space : AddressSpace) (page f : ℕ)
    → translate space (u32 (page * 4096)) ≡ some f
    → reach space page ≡ ok tt
unfolding reach
reach-ok space page f e = rw (reach, e) refl

reach-panic :
    (space : AddressSpace) (page : ℕ)
    → translate space (u32 (page * 4096)) ≡ none
    → reach space page ≡ panic
unfolding reach
reach-panic space page e = rw (reach, e) refl

pub touch-ok :
    (space : AddressSpace) (count page : ℕ)
    → ((k : ℕ) → k < count → (f : ℕ) × (translate space (u32 ((page + k) * 4096)) ≡ some f))
    → touch space count page ≡ ok tt
unfolding touch
touch-ok space zero page all = refl
touch-ok space (suc count) page all =
    let start : page + 0 ≡ page = omega arith in
    let (f, here) = rw start at (all 0 (omega arith)) in
    let rest = touch-ok space count (page + 1) (λ k l.
      let sum : page + 1 + k ≡ page + suc k = omega arith in rw sum (all (suc k) (omega arith))) in
    rw (reach-ok space page f here, rest) refl

-- The last page alone is not mapped.
pub touch-panic :
    (space : AddressSpace) (count page : ℕ)
    → ((k : ℕ) → k < count → (f : ℕ) × (translate space (u32 ((page + k) * 4096)) ≡ some f))
    → translate space (u32 ((page + count) * 4096)) ≡ none
    → touch space (suc count) page ≡ panic
unfolding touch
touch-panic space zero page all gone =
    let start : page + 0 ≡ page = omega arith in rw (reach-panic space page (rw start at gone)) refl
touch-panic space (suc count) page all gone =
    let start : page + 0 ≡ page = omega arith in
    let (f, here) = rw start at (all 0 (omega arith)) in
    let last : page + suc count ≡ page + 1 + count = omega arith in
    let rest =
      touch-panic space count (page + 1)
        (λ k l.
          let sum : page + 1 + k ≡ page + suc k = omega arith in rw sum (all (suc k) (omega arith)))
        (rw last at gone) in
    rw (reach-ok space page f here) rest

-- Nothing faults on a range that is mapped.
pub touch_range-ok :
    (space : AddressSpace) (addr size : ℕ)
    → addr + size ≤ 2 ^ 32
    → IsMapped space addr size
    → touch_range space addr size ≡ ok tt
unfolding touch_range
touch_range-ok space addr size fits all = elim (Bool-cases (size == 0)) [
  | inl e ↦ rw e (touch-ok space 0 (addr / 4096) (λ k l. absurd (omega arith)))
  | inr e ↦
      let some_there : 0 < size = ground arith in
      rw e (
        touch-ok space ((addr + size - 1) / 4096 + 1 - addr / 4096) (addr / 4096) (λ k l.
          elim (Bool-cases (ltb ((addr / 4096 + k) * 4096) addr)) [
            | inl low ↦
                let (f, there) = all addr (omega arith) (omega arith) in
                (f, same_page space (u32 ((addr / 4096 + k) * 4096)) addr (ground arith) ∙ there)
            | inr high ↦
                let (f, there) = all ((addr / 4096 + k) * 4096) (ground arith) (ground arith) in
                let word : u32 ((addr / 4096 + k) * 4096) ≡ (addr / 4096 + k) * 4096 =
                  omega arith in
                (f, rw word there)
          ]))
]
