-- ===== src/Vm/Start.antt =====
-- kernel/memory/vm.c: vm_init. The processor's use of the new directory is not modelled.
use ma_os.Base.{ℕ, zero, suc, ◌+◌, ◌-◌, ◌/◌, none, some, Outcome, ok, ◌>>=◌, u32, sub32, ◌>>>◌}
use ma_os.Pmm
use ma_os.Pmm.{
  Pmm, Err, e_ok, e_nomem, e_device, page_bits, page_size, kernel_offset, kernel_boot_mapped,
}
use ma_os.FreeList.{store}
use ma_os.Paging.{AddressSpace, Pde, as_map_kernel_table, virtual2phys, vm_map_page}
use ma_os.Vm.{Vm}

-- `pde_t d = {.present = 1, .rw = 1}`.
abbrev pub kernel_pde : Pde
kernel_pde = record {
  present = 1;
  rw = 1;
  user = 0;
  pwt = 0;
  pcd = 0;
  accessed = 0;
  dirty = 0;
  page_size = 0;
  ignored = 0;
  page_table = 0;
}

-- The first loop of `vm_init`: `count` tables from entry `i` on.
unfoldable pub map_kernel_tables : ℕ → ℕ → ℕ → AddressSpace → Outcome AddressSpace
map_kernel_tables table_at zero i space = ok space
map_kernel_tables table_at (suc count) i space =
    as_map_kernel_table table_at space i kernel_pde >>= map_kernel_tables table_at count (i + 1)

-- The second: `count` pages from the address `va` on.
unfoldable pub map_boot_pages : ℕ → ℕ → AddressSpace → Outcome AddressSpace
map_boot_pages zero va space = ok space
map_boot_pages (suc count) va space =
    vm_map_page space (virtual2phys va) va >>= map_boot_pages count (u32 (va + page_size))

-- `before` is the state that the loader leaves, `directory_at` and `table_at` the addresses of
-- KERNEL_PAGE_DIRECTORY and KERNEL_PAGE_TABLES, `bucket_at` that of `vm_first_bucket`.
unfoldable pub init : ℕ → ℕ → ℕ → Vm → Outcome Vm
init directory_at table_at bucket_at before =
    let border = Pmm.get_border before.pmm in
    let managed_start = kernel_boot_mapped in
    let managed_end : ℕ = 0xFF000000 in
    do
      tables ←
          map_kernel_tables table_at 0x100 0x300
            (record before.current_as { directory_phys = virtual2phys directory_at })
      space ← map_boot_pages ((managed_start - kernel_offset) / page_size) kernel_offset tables
      ok record {
        heap =
            store bucket_at
              record {
                pageno = managed_start >>> page_bits;
                size = sub32 managed_start managed_end >>> page_bits;
                next = none;
                prev = none;
              }
              before.heap;
        kernel_buckets = some bucket_at;
        waiting_list = before.waiting_list;
        steal_next = border;
        steal_remaining = sub32 managed_start border;
        current_as = space;
        pmm = before.pmm;
      }
