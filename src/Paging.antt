-- ===== src/Paging.antt =====
-- kernel/include/kernel/vm.h, kernel/memory/vm.c: page tables, and how pages are mapped. Entry `i`
-- of an array of 1024 is a function's value at `i`; every index is cut to ten bits.
-- `tables` has for each directory entry the index of its table in KERNEL_PAGE_TABLES.
pub mod Translate
pub mod Map
pub mod Dma
pub mod Touch
pub mod Debug
use ma_os.Base.{
  ℕ, zero, suc, ◌+◌, ◌*◌, ◌/◌, bit_and, Option, some, Outcome, ok, panic, ◌>>=◌, ◌>>◌, assert,
  access, ◌==◌, if◌then◌else◌, u32, sub32, ◌<<<◌, ◌>>>◌,
}
use ma_os.Pmm.{page_bits, page_size, page_align, kernel_offset}

pub record Pte : Type 0 where
  pub present : ℕ
  pub rw : ℕ
  pub user : ℕ
  pub pwt : ℕ
  pub pcd : ℕ
  pub accessed : ℕ
  pub dirty : ℕ
  pub pat : ℕ
  pub global : ℕ
  pub ignored : ℕ
  pub frame : ℕ

pub record Pde : Type 0 where
  pub present : ℕ
  pub rw : ℕ
  pub user : ℕ
  pub pwt : ℕ
  pub pcd : ℕ
  pub accessed : ℕ
  pub dirty : ℕ
  pub page_size : ℕ
  pub ignored : ℕ
  pub page_table : ℕ

-- `as_t`, with the tables that it points to.
pub record AddressSpace : Type 0 where
  pub directory : ℕ → Pde
  pub directory_phys : ℕ
  pub tables : ℕ → Option ℕ
  pub page_tables : ℕ → ℕ → Pte

unfoldable pub dir_index : ℕ → ℕ
dir_index vaddr = vaddr >>> 22

unfoldable pub tab_index : ℕ → ℕ
tab_index vaddr = bit_and (vaddr >>> 12) 0x3FF

unfoldable pub virtual2phys : ℕ → ℕ
virtual2phys ptr = sub32 ptr kernel_offset

unfoldable pub update {ℓ} : {A : Type ℓ} → ℕ → A → (ℕ → A) → ℕ → A
update i a f j = if i == j then a else f j

-- One entry of table `table`.
unfoldable pub set_entry : ℕ → ℕ → Pte → (ℕ → ℕ → Pte) → ℕ → ℕ → Pte
set_entry table i entry tables = update table (update i entry (tables table)) tables

-- `table_at` is the address of KERNEL_PAGE_TABLES, a table has 4 KiB.
unfoldable pub as_map_kernel_table : ℕ → AddressSpace → ℕ → Pde → Outcome AddressSpace
as_map_kernel_table table_at space index flags =
    let table = u32 (table_at + index * page_size) in
    do
      assert (table == page_align table)
      ok (record space {
        directory =
            update index (record flags { page_table = virtual2phys table >>> page_bits })
              space.directory;
        tables = update index (some index) space.tables;
      })

-- The directory entry of a page below the kernel is never allocated: the source panics either way.
unfoldable pub vm_map_page : AddressSpace → ℕ → ℕ → Outcome AddressSpace
vm_map_page space paddr vaddr = do
  assert (paddr == page_align paddr)
  let dir_idx = dir_index vaddr
  let tab_idx = tab_index vaddr
  if (space.directory dir_idx).present == 0 then panic else do
    table ← access (space.tables dir_idx)
    let entry = space.page_tables table tab_idx
    ok (record space {
      page_tables =
          set_entry table tab_idx
            (record entry { frame = paddr >>> page_bits; present = 1; rw = 1 }) space.page_tables;
    })

pub record Unmapped : Type 0 where
  pub space : AddressSpace
  pub paddr : ℕ

unfoldable pub vm_unmap_page : AddressSpace → ℕ → Outcome Unmapped
vm_unmap_page space vaddr = do
  table ← access (space.tables (dir_index vaddr))
  let tab_idx = tab_index vaddr
  let entry = space.page_tables table tab_idx
  ok record {
    space = record space {
      page_tables =
          set_entry table tab_idx (record entry { present = 0; frame = 0 }) space.page_tables;
    };
    paddr = u32 (entry.frame <<< page_bits);
  }

-- The loop of `vm_dma` at page `i`, with `rounds` pages left.
unfoldable pub dma_from : ℕ → ℕ → ℕ → ℕ → AddressSpace → Outcome AddressSpace
dma_from zero i paddr vaddr space = ok space
dma_from (suc rounds) i paddr vaddr space =
    vm_map_page space (u32 (paddr + i * page_size)) (u32 (vaddr + i * page_size))
    >>= dma_from rounds (i + 1) paddr vaddr

unfoldable pub vm_dma : AddressSpace → ℕ → ℕ → ℕ → Outcome AddressSpace
vm_dma space paddr vaddr size = dma_from (size / page_size) 0 paddr vaddr space
