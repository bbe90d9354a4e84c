-- ===== src/Paging/Dma.antt =====
-- `vm_dma` maps a range of pages to a range of frames.
use ma_os.Base.{
  ℕ, zero, suc, ◌+◌, ◌-◌, ◌*◌, ◌/◌, ◌%◌, ◌^◌, ◌≤◌, ◌<◌, ◌≡◌, ◌≢◌, refl, ap, ◌∙◌, Option, none, some,
  ok, arith, ltb, leb, ◌&&◌, if◌then◌else◌, u32, ℕ_discrete,
}
use ma_os.Paging.{AddressSpace, dir_index, tab_index, dma_from, vm_dma}
use ma_os.Paging.Translate.{mapped, translate, TablesApart, tab_index_lem}
use ma_os.Paging.Map.{Retargeted, with_entry, entry_for, with_entry-Retargeted, vm_map_page-ok}

-- The `pages` pages from the one of `vaddr` on lead to the frames from that of `paddr` on, and all
-- other pages lead where they led.
abbrev pub MapsRange : AddressSpace → ℕ → ℕ → ℕ → AddressSpace → Type 0
MapsRange space paddr vaddr pages space' =
    (w : ℕ)
    → translate space' w ≡ (
        if leb (vaddr / 4096) (w / 4096) && ltb (w / 4096) (vaddr / 4096 + pages)
        then some (paddr / 4096 + (w / 4096 - vaddr / 4096))
        else translate space w)

-- The directory entries of the pages from number `i` on are present, and have tables.
abbrev pub IsBacked : AddressSpace → ℕ → ℕ → ℕ → Type 0
IsBacked space vaddr i pages =
    (k : ℕ)
    → k < pages
    → ((space.directory (dir_index (vaddr + (i + k) * 4096))).present ≡ 1)
      × (table : ℕ) × (space.tables (dir_index (vaddr + (i + k) * 4096)) ≡ some table)

-- Nothing but the entries of tables differs.
abbrev pub OnlyPages : AddressSpace → AddressSpace → Type 0
OnlyPages space space' = space' ≡ record space { page_tables = space'.page_tables }

OnlyPages-trans : (a b c : AddressSpace) → OnlyPages a b → OnlyPages b c → OnlyPages a c
OnlyPages-trans a b c e f =
    f ∙ ap (λ (t : AddressSpace). record t { page_tables = c.page_tables }) e

abbrev leads_to : AddressSpace → ℕ → ℕ → Option ℕ
leads_to space i j = elim (space.tables i) [
  | none ↦ none
  | some table ↦ mapped (space.page_tables table j)
]

pub same_page :
    (space : AddressSpace) (v w : ℕ) → v / 4096 ≡ w / 4096 → translate space v ≡ translate space w
unfolding translate dir_index
same_page space v w e =
    let dir : dir_index v ≡ dir_index w = omega arith in
    let tab : tab_index v ≡ tab_index w = omega (arith, tab_index_lem v, tab_index_lem w) in
    ap (λ (i : ℕ). leads_to space i (tab_index v)) dir
    ∙ ap (λ (j : ℕ). leads_to space (dir_index w) j) tab

later :
    (space : AddressSpace) (vaddr i pages : ℕ)
    → IsBacked space vaddr i (suc pages)
    → IsBacked space vaddr (i + 1) pages
later space vaddr i pages backed k l =
    let sum : i + suc k ≡ i + 1 + k = omega arith in rw sum at (backed (suc k) (omega arith))

-- The first page `v` of a range, in front of the others.
extend :
    (v f p rounds : ℕ) (now next before : Option ℕ)
    → now ≡ (if leb (v + 1) p && ltb p (v + 1 + rounds) then some (f + 1 + (p - (v + 1))) else next)
    → (p ≡ v → next ≡ some f)
    → (p ≢ v → next ≡ before)
    → now ≡ (if leb v p && ltb p (v + suc rounds) then some (f + (p - v)) else before)
extend v f p rounds now next before e first others = elim (ℕ_discrete p v) [
  | yes same ↦ ground (arith, first same)
  | no ne ↦ ground (arith, others ne)
]

-- One page of the range.
dma_step :
    (rounds i paddr vaddr table : ℕ) (space : AddressSpace)
    → TablesApart space
    → (space.directory (dir_index (vaddr + i * 4096))).present ≡ 1
    → space.tables (dir_index (vaddr + i * 4096)) ≡ some table
    → paddr % 4096 ≡ 0
    → paddr + i * 4096 < 2 ^ 32
    → vaddr + i * 4096 < 2 ^ 32
    → (next : AddressSpace) × (dma_from (suc rounds) i paddr vaddr space
        ≡ dma_from rounds (i + 1) paddr vaddr next)
      × OnlyPages space next
      × Retargeted space (vaddr + i * 4096) (some ((paddr + i * 4096) / 4096)) next
unfolding dma_from
dma_step rounds i paddr vaddr table space apart present at_dir aligned pfits vfits =
    let p : u32 (paddr + i * 4096) ≡ paddr + i * 4096 = omega arith in
    let v : u32 (vaddr + i * 4096) ≡ vaddr + i * 4096 = omega arith in
    let tab = tab_index (vaddr + i * 4096) in
    let entry = entry_for (paddr + i * 4096) (space.page_tables table tab) in
    (
      with_entry space table tab entry,
      rw
          (
            p,
            v,
            vm_map_page-ok space (paddr + i * 4096) (vaddr + i * 4096) table present at_dir
                (omega arith) pfits,
          )
          refl,
      refl,
      with_entry-Retargeted space (vaddr + i * 4096) table entry apart at_dir,
    )

pub dma_from-MapsRange :
    (rounds i paddr vaddr : ℕ) (space : AddressSpace)
    → TablesApart space
    → IsBacked space vaddr i rounds
    → paddr % 4096 ≡ 0
    → paddr + (i + rounds) * 4096 ≤ 2 ^ 32
    → vaddr + (i + rounds) * 4096 ≤ 2 ^ 32
    → (space' : AddressSpace) × (dma_from rounds i paddr vaddr space ≡ ok space')
      × MapsRange space (paddr + i * 4096) (vaddr + i * 4096) rounds space'
      × OnlyPages space space'
unfolding dma_from
dma_from-MapsRange zero i paddr vaddr space apart backed aligned pfits vfits =
    (space, refl, λ w. ground arith, refl)
dma_from-MapsRange (suc rounds) i paddr vaddr space apart backed aligned pfits vfits =
    let at_0 : i + 0 ≡ i = omega arith in
    let (present, table, at_dir) = backed 0 (omega arith) in
    let (next, step, only, (leads, others)) =
      dma_step rounds i paddr vaddr table space apart (rw at_0 at present) (rw at_0 at at_dir)
        aligned (omega arith) (omega arith) in
    let tables = ap (λ (t : AddressSpace). t.tables) only in
    let directory = ap (λ (t : AddressSpace). t.directory) only in
    let (space', rest, maps, only') =
      dma_from-MapsRange rounds (i + 1) paddr vaddr next (rw tables apart)
        (rw (tables, directory) (later space vaddr i rounds backed)) aligned (omega arith)
        (omega arith) in
    let v = (vaddr + i * 4096) / 4096 in
    let f = (paddr + i * 4096) / 4096 in
    let v' : (vaddr + (i + 1) * 4096) / 4096 ≡ v + 1 = omega arith in
    let f' : (paddr + (i + 1) * 4096) / 4096 ≡ f + 1 = omega arith in
    (
      space',
      step ∙ rest,
      λ w.
          extend v f (w / 4096) rounds (translate space' w) (translate next w) (translate space w)
            (rw (v', f') at (maps w)) (λ e. same_page next w (vaddr + i * 4096) e ∙ leads)
            (others w),
      OnlyPages-trans space next space' only only',
    )

-- `vm_dma` of a range that does not wrap, whose pages have tables of their own, maps as many whole
-- pages as `size` has, to the frames from `paddr` on, and changes no other page.
pub vm_dma-MapsRange :
    (space : AddressSpace) (paddr vaddr size : ℕ)
    → TablesApart space
    → IsBacked space vaddr 0 (size / 4096)
    → paddr % 4096 ≡ 0
    → paddr + size ≤ 2 ^ 32
    → vaddr + size ≤ 2 ^ 32
    → (space' : AddressSpace) × (vm_dma space paddr vaddr size ≡ ok space')
      × MapsRange space paddr vaddr (size / 4096) space'
unfolding vm_dma
vm_dma-MapsRange space paddr vaddr size apart backed aligned pfits vfits =
    let p : paddr + 0 * 4096 ≡ paddr = omega arith in
    let v : vaddr + 0 * 4096 ≡ vaddr = omega arith in
    let (space', done, maps, _) =
      dma_from-MapsRange (size / 4096) 0 paddr vaddr space apart backed aligned (omega arith)
        (omega arith) in
    (space', done, rw (p, v) at maps)
