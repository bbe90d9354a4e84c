-- ===== src/Paging/Translate.antt =====
-- What mapping and unmapping a page does to the translation of addresses.
use ma_os.Base.{
  ℕ, ◌/◌, ◌%◌, ◌^◌, ◌≡◌, ◌≢◌, refl, Option, none, some, arith, ◌==◌, ==_iff, if◌then◌else◌,
  Bool-cases, inl, inr,
}
use ma_os.Base.Bits.{bit_and-low}
use ma_os.Paging.{Pte, AddressSpace, dir_index, tab_index, update}

pub tab_index_lem : (vaddr : ℕ) → tab_index vaddr ≡ vaddr / 4096 % 1024
unfolding tab_index
tab_index_lem vaddr = bit_and-low 10 (vaddr / 2 ^ 12)

-- The two indices of an address determine its page.
pub page_of_indices :
    (v w : ℕ) → dir_index v ≡ dir_index w → tab_index v ≡ tab_index w → v / 4096 ≡ w / 4096
unfolding dir_index
page_of_indices v w dir tab = omega (arith, dir, tab, tab_index_lem v, tab_index_lem w)

-- The frame that an entry maps, if it is present.
abbrev pub mapped : Pte → Option ℕ
mapped e = if e.present == 0 then none else some e.frame

-- The number of the frame in the entry that the kernel keeps for an address. It is reached through
-- `tables`, as in `vm_map_page`; the processor goes through the directory (`walk` in Vm/Walk).
unfoldable pub translate : AddressSpace → ℕ → Option ℕ
translate space w = elim (space.tables (dir_index w)) [
  | none ↦ none
  | some table ↦ mapped (space.page_tables table (tab_index w))
]

-- No two directory entries share a table.
abbrev pub TablesApart : AddressSpace → Type 0
TablesApart space =
    (i j table : ℕ) → space.tables i ≡ some table → space.tables j ≡ some table → i ≡ j

module _ {ℓ} {A : Type ℓ} where
  pub update_self : (i : ℕ) (a : A) (f : ℕ → A) → update i a f i ≡ a
  unfolding update
  update_self i a f = rw ((==_iff i i).1 refl) refl

  pub update_ne : (i : ℕ) (a : A) (f : ℕ → A) (j : ℕ) → i ≢ j → update i a f j ≡ f j
  unfolding update
  update_ne i a f j ne = elim (Bool-cases (i == j)) [
    | inl e ↦ absurd (ne ((==_iff i j).0 e))
    | inr e ↦ rw e refl
  ]
