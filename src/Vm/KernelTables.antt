-- ===== src/Vm/KernelTables.antt =====
-- kernel/memory/vm.c: the first loop of vm_init, over the kernel's page tables.
use ma_os.Base.{
  ℕ, zero, suc, ◌+◌, ◌*◌, ◌%◌, ◌≡◌, refl, sym, true, some, Outcome, ok, arith, ltb, leb, ◌==◌,
  ==_iff, ◌&&◌, if◌then◌else◌, u32, ℕ_discrete, ◌>>>◌,
}
use mathlib.Core.Path.{subst}
use ma_os.Pmm.{page_size, page_align, page_bits}
use ma_os.Pmm.Align.{page_align_lem}
use ma_os.Paging.{AddressSpace, Pde, update, virtual2phys, as_map_kernel_table}
use ma_os.Paging.Translate.{update_self, update_ne}
use ma_os.Vm.Start.{kernel_pde, map_kernel_tables}

-- The directory entry for table `j`.
abbrev pub kernel_entry : ℕ → ℕ → Pde
kernel_entry table_at j = record kernel_pde {
  page_table = virtual2phys (u32 (table_at + j * page_size)) >>> page_bits;
}

-- The directory entries from `i` on, `count` of them, point to the tables of their own numbers;
-- nothing else has changed.
pub record HasTables (table_at count i : ℕ) (space : AddressSpace) (r : Outcome AddressSpace)
    : Type 0 where
  pub out : AddressSpace
  pub returns : r ≡ ok out
  pub entries :
      (j : ℕ)
      → out.directory j
        ≡ (if leb i j && ltb j (i + count) then kernel_entry table_at j else space.directory j)
  pub tables :
      (j : ℕ) → out.tables j ≡ (if leb i j && ltb j (i + count) then some j else space.tables j)
  pub page_tables : out.page_tables ≡ space.page_tables
  pub at : out.directory_phys ≡ space.directory_phys

abbrev with_table : ℕ → ℕ → AddressSpace → AddressSpace
with_table table_at i space = record space {
  directory = update i (kernel_entry table_at i) space.directory;
  tables = update i (some i) space.tables;
}

aligned_sum : (table_at i : ℕ) → table_at % 4096 ≡ 0 → u32 (table_at + i * page_size) % 4096 ≡ 0
aligned_sum table_at i aligned = omega arith

as_map_kernel_table-ok :
    (table_at i : ℕ) (space : AddressSpace)
    → table_at % 4096 ≡ 0
    → as_map_kernel_table table_at space i kernel_pde ≡ ok (with_table table_at i space)
unfolding as_map_kernel_table
as_map_kernel_table-ok table_at i space aligned =
    let table = u32 (table_at + i * page_size) in
    let whole = aligned_sum table_at i aligned in
    let same : page_align table ≡ table =
      omega (arith, whole, page_align_lem table (omega arith)) in
    let checked : (table == page_align table) ≡ true =
      (==_iff table (page_align table)).1 (sym same) in
    rw checked refl

-- The entry `i` of a family `own`, in front of the others.
module _ {ℓ} {A : Type ℓ} where
  in_front :
      (i count j : ℕ) (own old : ℕ → A) (now : A)
      → now ≡ (if leb (i + 1) j && ltb j (i + 1 + count) then own j else update i (own i) old j)
      → now ≡ (if leb i j && ltb j (i + suc count) then own j else old j)
  in_front i count j own old now e = elim (ℕ_discrete i j) [
    | yes same ↦
        let here : update i (own i) old j ≡ own j =
          subst (λ (k : ℕ). update i (own i) old k ≡ own k) same (update_self i (own i) old) in
        ground (arith, rw here at e)
    | no ne ↦ ground (arith, rw (update_ne i (own i) old j ne) at e)
  ]

pub map_kernel_tables-HasTables :
    (table_at count i : ℕ) (space : AddressSpace)
    → table_at % 4096 ≡ 0
    → HasTables table_at count i space (map_kernel_tables table_at count i space)
unfolding map_kernel_tables
map_kernel_tables-HasTables table_at zero i space aligned = record {
  out = space;
  returns = refl;
  entries = λ j. ground arith;
  tables = λ j. ground arith;
  page_tables = refl;
  at = refl;
}
map_kernel_tables-HasTables table_at (suc count) i space aligned =
    let r =
      map_kernel_tables-HasTables table_at count (i + 1) (with_table table_at i space) aligned in
    record {
      out = r.out;
      returns = rw (as_map_kernel_table-ok table_at i space aligned) r.returns;
      entries = λ j.
          in_front i count j (λ (k : ℕ). kernel_entry table_at k) space.directory
            (r.out.directory j) (r.entries j);
      tables =
          λ j. in_front i count j (λ (k : ℕ). some k) space.tables (r.out.tables j) (r.tables j);
      page_tables = r.page_tables;
      at = r.at;
    }
