-- ===== src/Vm/Walk.antt =====
-- kernel/include/kernel/vm.h: the directory as the processor reads it. The tables that the kernel
-- writes through `as->tables` are the ones that the directory names.
use ma_os.Base.{
  ℕ, ◌+◌, ◌*◌, ◌/◌, ◌%◌, ◌^◌, ◌≤◌, ◌<◌, ◌≡◌, refl, Option, none, some, true, arith, ltb, ◌==◌,
  if◌then◌else◌, u32, sub32,
}
use ma_os.Paging.{AddressSpace, dir_index, tab_index, virtual2phys}
use ma_os.Paging.Translate.{mapped, translate}
use ma_os.Vm.KernelTables.{kernel_entry}

-- Each of the last 256 directory entries is present and writable, and holds the frame of its table
-- in KERNEL_PAGE_TABLES, which stand at `table_at`; the kernel's own pointer leads to the same one.
abbrev pub HasDirectory : ℕ → AddressSpace → Type 0
HasDirectory table_at space =
    (i : ℕ)
    → 0x300 ≤ i
    → i < 0x400
    → (space.directory i ≡ kernel_entry table_at i) × (space.tables i ≡ some i)

-- Which of the tables at `table_at` stands in frame `frame`, where the kernel is mapped.
abbrev pub table_in : ℕ → ℕ → ℕ
table_in table_at frame = sub32 (u32 (frame * 4096 + 0xC0000000)) (u32 table_at) / 4096

-- The number of the frame that the processor finds for an address: it reads the entry of the
-- directory, then that of the table whose frame the entry holds. Nothing outside
-- KERNEL_PAGE_TABLES is a table.
abbrev pub walk : ℕ → AddressSpace → ℕ → Option ℕ
walk table_at space w =
    let e = space.directory (dir_index w) in
    if e.present == 0
    then none
    else if ltb (table_in table_at e.page_table) 1024
    then mapped (space.page_tables (table_in table_at e.page_table) (tab_index w))
    else none

table_in-kernel_entry :
    (table_at i : ℕ)
    → table_at % 4096 ≡ 0
    → i < 1024
    → table_in table_at (kernel_entry table_at i).page_table ≡ i
unfolding virtual2phys
table_in-kernel_entry table_at i aligned few = omega arith

-- On the kernel's addresses the processor finds what the kernel has entered.
pub walk-translate :
    (table_at w : ℕ) (space : AddressSpace)
    → table_at % 4096 ≡ 0
    → HasDirectory table_at space
    → 0xC0000000 ≤ w
    → w < 2 ^ 32
    → walk table_at space w ≡ translate space w
unfolding translate dir_index
walk-translate table_at w space aligned wired low high =
    let i = dir_index w in
    let (entry, own) = wired i (omega arith) (omega arith) in
    let there : table_in table_at (kernel_entry table_at i).page_table ≡ i =
      table_in-kernel_entry table_at i aligned (omega arith) in
    let inside : ltb i 1024 ≡ true = ground arith in
    let kept : translate space w ≡ mapped (space.page_tables i (tab_index w)) =
      rw (translate, own) refl in
    rw (kept, entry, there, inside) refl
