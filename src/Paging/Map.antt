-- ===== src/Paging/Map.antt =====
-- `vm_map_page` and `vm_unmap_page` change the translation of one page.
use ma_os.Base.{
  ℕ, ◌*◌, ◌/◌, ◌%◌, ◌^◌, ◌<◌, ◌≡◌, ◌≢◌, refl, sym, ap, ◌∙◌, true, Option, none, some, ok, arith,
  ◌==◌, ==_iff, Option-cases, inl, inr, u32, ◌>>=◌, ℕ_discrete,
}
use mathlib.Core.Path.{subst}
use ma_os.Pmm.{page_align}
use ma_os.Pmm.Align.{page_align_lem}
use ma_os.Paging.{
  Pte, AddressSpace, dir_index, tab_index, update, set_entry, vm_map_page, Unmapped, vm_unmap_page,
}
use ma_os.Paging.Translate.{mapped, translate, TablesApart, update_self, update_ne, page_of_indices}

-- The page of `vaddr` leads to `frame`, and no other page changes.
abbrev pub Retargeted : AddressSpace → ℕ → Option ℕ → AddressSpace → Type 0
Retargeted space vaddr frame space' =
    (translate space' vaddr ≡ frame)
    × ((w : ℕ) → w / 4096 ≢ vaddr / 4096 → translate space' w ≡ translate space w)

abbrev pub with_entry : AddressSpace → ℕ → ℕ → Pte → AddressSpace
with_entry space table i entry = record space {
  page_tables = set_entry table i entry space.page_tables;
}

set_entry_self : (table i : ℕ) (e : Pte) (ts : ℕ → ℕ → Pte) → set_entry table i e ts table i ≡ e
unfolding set_entry
set_entry_self table i e ts =
    rw (update_self table (update i e (ts table)) ts) (update_self i e (ts table))

set_entry_other :
    (table i : ℕ) (e : Pte) (ts : ℕ → ℕ → Pte) (table' j : ℕ)
    → (table ≡ table' → i ≢ j)
    → set_entry table i e ts table' j ≡ ts table' j
unfolding set_entry
set_entry_other table i e ts table' j apart = elim (ℕ_discrete table table') [
  | yes same ↦
      ap (λ (f : ℕ → Pte). f j)
        (subst (λ (t : ℕ). update table (update i e (ts table)) ts t ≡ update i e (ts t)) same
          (update_self table (update i e (ts table)) ts))
      ∙ update_ne i e (ts table') j (apart same)
  | no ne ↦ ap (λ (f : ℕ → Pte). f j) (update_ne table (update i e (ts table)) ts table' ne)
]

translate-some :
    (space : AddressSpace) (w table : ℕ)
    → space.tables (dir_index w) ≡ some table
    → translate space w ≡ mapped (space.page_tables table (tab_index w))
unfolding translate
translate-some space w table e = rw (translate, e) refl

translate-none :
    (space : AddressSpace) (w : ℕ) → space.tables (dir_index w) ≡ none → translate space w ≡ none
unfolding translate
translate-none space w e = rw (translate, e) refl

pub with_entry-Retargeted :
    (space : AddressSpace) (vaddr table : ℕ) (e : Pte)
    → TablesApart space
    → space.tables (dir_index vaddr) ≡ some table
    → Retargeted space vaddr (mapped e) (with_entry space table (tab_index vaddr) e)
with_entry-Retargeted space vaddr table e apart at_dir =
    let space' = with_entry space table (tab_index vaddr) e in
    (
      translate-some space' vaddr table at_dir
          ∙ ap (λ (x : Pte). mapped x) (set_entry_self table (tab_index vaddr) e space.page_tables),
      λ w ne. elim (Option-cases (space.tables (dir_index w))) [
        | inl gone ↦ translate-none space' w gone ∙ sym (translate-none space w gone)
        | inr (t, at_w) ↦
            translate-some space' w t at_w
            ∙ ap (λ (x : Pte). mapped x)
                (set_entry_other table (tab_index vaddr) e space.page_tables t (tab_index w)
                  (λ same tabs. ne (
                    page_of_indices w vaddr
                      (apart (dir_index w) (dir_index vaddr) table (at_w ∙ ap some (sym same))
                        at_dir)
                      (sym tabs))))
            ∙ sym (translate-some space w t at_w)
      ],
    )

abbrev pub entry_for : ℕ → Pte → Pte
entry_for paddr old = record old { frame = paddr / 4096; present = 1; rw = 1 }

pub vm_map_page-ok :
    (space : AddressSpace) (paddr vaddr table : ℕ)
    → (space.directory (dir_index vaddr)).present ≡ 1
    → space.tables (dir_index vaddr) ≡ some table
    → paddr % 4096 ≡ 0
    → paddr < 2 ^ 32
    → vm_map_page space paddr vaddr
      ≡ ok (
          with_entry space table
            (tab_index vaddr)
            (entry_for paddr (space.page_tables table (tab_index vaddr))))
unfolding vm_map_page
vm_map_page-ok space paddr vaddr table present at_dir aligned fits =
    let down : page_align paddr ≡ paddr = omega (arith, page_align_lem paddr (omega arith)) in
    let checked : (paddr == page_align paddr) ≡ true =
      (==_iff paddr (page_align paddr)).1 (sym down) in
    rw (checked, present, at_dir) refl

-- `vm_map_page` of a frame's address, where the page's directory entry is present and has a table
-- of its own, makes the page lead to that frame and changes no other page.
pub vm_map_page-Retargeted :
    (space : AddressSpace) (paddr vaddr table : ℕ)
    → TablesApart space
    → (space.directory (dir_index vaddr)).present ≡ 1
    → space.tables (dir_index vaddr) ≡ some table
    → paddr % 4096 ≡ 0
    → paddr < 2 ^ 32
    → (space' : AddressSpace) × (vm_map_page space paddr vaddr ≡ ok space')
      × Retargeted space vaddr (some (paddr / 4096)) space'
vm_map_page-Retargeted space paddr vaddr table apart present at_dir aligned fits =
    let entry = entry_for paddr (space.page_tables table (tab_index vaddr)) in
    (
      with_entry space table (tab_index vaddr) entry,
      vm_map_page-ok space paddr vaddr table present at_dir aligned fits,
      with_entry-Retargeted space vaddr table entry apart at_dir,
    )

-- `vm_unmap_page` makes the page lead to no frame, changes no other page, and returns the address
-- of the frame that the page led to.
pub vm_unmap_page-Retargeted :
    (space : AddressSpace) (vaddr table frame : ℕ)
    → TablesApart space
    → space.tables (dir_index vaddr) ≡ some table
    → translate space vaddr ≡ some frame
    → frame < 2 ^ 20
    → (u : Unmapped) × (vm_unmap_page space vaddr ≡ ok u)
      × (u.paddr ≡ frame * 4096)
      × Retargeted space vaddr none u.space
unfolding vm_unmap_page
vm_unmap_page-Retargeted space vaddr table frame apart at_dir leads fits =
    let old = space.page_tables table (tab_index vaddr) in
    let entry = record old { present = 0; frame = 0 } in
    let was : mapped old ≡ some frame = sym (translate-some space vaddr table at_dir) ∙ leads in
    let same : old.frame ≡ frame = ground arith in
    (
      record {
        space = with_entry space table (tab_index vaddr) entry;
        paddr = u32 (old.frame * 4096);
      },
      rw at_dir refl,
      rw same (omega arith),
      with_entry-Retargeted space vaddr table entry apart at_dir,
    )

-- Unmapping a page that was just mapped returns the frame's address, and the page leads nowhere.
pub vm_map_page-vm_unmap_page :
    (space : AddressSpace) (paddr vaddr table : ℕ)
    → TablesApart space
    → (space.directory (dir_index vaddr)).present ≡ 1
    → space.tables (dir_index vaddr) ≡ some table
    → paddr % 4096 ≡ 0
    → paddr < 2 ^ 32
    → (u : Unmapped) × ((vm_map_page space paddr vaddr >>= λ s. vm_unmap_page s vaddr) ≡ ok u)
      × (u.paddr ≡ paddr)
      × Retargeted space vaddr none u.space
vm_map_page-vm_unmap_page space paddr vaddr table apart present at_dir aligned fits =
    let entry = entry_for paddr (space.page_tables table (tab_index vaddr)) in
    let space' = with_entry space table (tab_index vaddr) entry in
    let (leads, others) = with_entry-Retargeted space vaddr table entry apart at_dir in
    let (u, done, address, (gone, kept)) =
      vm_unmap_page-Retargeted space' vaddr table (paddr / 4096) apart at_dir leads (omega arith) in
    (
      u,
      rw (vm_map_page-ok space paddr vaddr table present at_dir aligned fits) done,
      omega (arith, address),
      (gone, λ w ne. kept w ne ∙ others w ne),
    )
