-- ===== src/Vm/Boot.antt =====
-- kernel/memory/vm.c: vm_init, and what the memory manager is like after it.
use ma_os.Base.{
  ℕ, zero, suc, ◌+◌, ◌-◌, ◌*◌, ◌/◌, ◌%◌, ◌≤◌, ◌<◌, ◌≡◌, refl, ap, ◌∙◌, none, some, Option-cases,
  inl, inr, [], ◌∷◌, Outcome, ok, arith, ltb, leb, ◌&&◌, if◌then◌else◌, u32, sub32, ◌>>=◌,
}
use std.Path.{fun_ext}
use ma_os.Pmm.{get_border, page_size}
use ma_os.Pmm.Managed.{IsManaged}
use ma_os.Paging.{AddressSpace, dir_index, virtual2phys, vm_map_page, dma_from}
use ma_os.Paging.Translate.{translate, TablesApart}
use ma_os.Paging.Dma.{OnlyPages, IsBacked, dma_from-MapsRange}
use ma_os.FreeList.{Bucket, store}
use ma_os.FreeList.Chain.{store_self}
use ma_os.Vm.{Vm}
use ma_os.Vm.Lists.{IsLists}
use ma_os.Vm.Start.{map_boot_pages, map_kernel_tables, init}
use ma_os.Vm.Walk.{HasDirectory}
use ma_os.Vm.KernelTables.{HasTables, map_kernel_tables-HasTables}

-- The second loop is that of `vm_dma`, for the frames from 0 on.
map_boot_pages-dma_from :
    (count i : ℕ) (space : AddressSpace)
    → i + count < 0x40000
    → map_boot_pages count (0xC0000000 + i * 4096) space ≡ dma_from count i 0 0xC0000000 space
unfolding map_boot_pages dma_from virtual2phys
map_boot_pages-dma_from zero i space fits = refl
map_boot_pages-dma_from (suc count) i space fits =
    let phys : virtual2phys (0xC0000000 + i * 4096) ≡ u32 (0 + i * page_size) = omega arith in
    let here : u32 (0xC0000000 + i * page_size) ≡ 0xC0000000 + i * 4096 = omega arith in
    let next : u32 (0xC0000000 + i * 4096 + page_size) ≡ 0xC0000000 + (i + 1) * 4096 =
      omega arith in
    rw (phys, here, next)
      (ap
        (λ (f : AddressSpace → Outcome AddressSpace).
          vm_map_page space (u32 (0 + i * page_size)) (0xC0000000 + i * 4096) >>= f)
        (fun_ext (λ s. map_boot_pages-dma_from count (i + 1) s (omega arith))))

-- No entry of a table is present.
abbrev pub IsBlank : AddressSpace → Type 0
IsBlank space = (table i : ℕ) → (space.page_tables table i).present ≡ 0

blank-translate : (space : AddressSpace) (w : ℕ) → IsBlank space → translate space w ≡ none
unfolding translate
blank-translate space w blank = elim (Option-cases (space.tables (dir_index w))) [
  | inl gone ↦ rw (translate, gone) refl
  | inr (table, at_w) ↦ rw (translate, at_w, blank table _) refl
]

-- Each of the last 256 directory entries is present and has a table of its own.
abbrev pub HasKernelTables : AddressSpace → Type 0
HasKernelTables space =
    (i : ℕ) → 0x300 ≤ i → i < 0x400 → ((space.directory i).present ≡ 1) × (space.tables i ≡ some i)

-- The bucket is on pages that are mapped in front of the free ones, and in frames in front of the
-- managed ones.
abbrev pub IsInKernel : ℕ → Vm → Type 0
IsInKernel bucket v =
    (k : ℕ)
    → k < 16
    → ((bucket + k) / 4096 < 0xC0800)
      × (f : ℕ) × (translate v.current_as (bucket + k) ≡ some f)
      × (f < v.pmm.buddy_base / 4096)

-- The kernel's pages from number `next` on are in the one bucket, and the tables stand for them,
-- those that the directory names.
pub record IsBooted (next frames bucket : ℕ) (v : Vm) : Type 0 where
  pub high : 0xC0800 ≤ next
  pub lists : IsLists v (bucket ∷ []) []
  pub pageno : (v.heap bucket).pageno ≡ next
  pub size : (v.heap bucket).size ≡ 0x182000 - next
  pub tables : HasKernelTables v.current_as
  pub table_at : ℕ
  pub table_aligned : table_at % 4096 ≡ 0
  pub wired : HasDirectory table_at v.current_as
  pub apart : TablesApart v.current_as
  pub in_kernel : IsInKernel bucket v
  pub managed : IsManaged frames v.pmm
  pub aligned : v.pmm.buddy_base % 4096 ≡ 0

-- The pages from 0xC0000 on that were mapped when the kernel was loaded, and no others, lead to the
-- frames from 0 on.
abbrev pub LeadsLow : AddressSpace → Type 0
LeadsLow space =
    (w : ℕ)
    → translate space w ≡ (
        if leb 0xC0000 (w / 4096) && ltb (w / 4096) 0xC0800
        then some (w / 4096 - 0xC0000)
        else none)

pub record Boots (frames directory_at table_at bucket : ℕ) (before : Vm) (r : Outcome Vm)
    : Type 0 where
  pub out : Vm
  pub returns : r ≡ ok out
  pub booted : IsBooted 0xC0800 frames bucket out
  pub leads : LeadsLow out.current_as
  pub same_tables : booted.table_at ≡ table_at
  pub at : out.current_as.directory_phys ≡ virtual2phys directory_at
  pub same_frames : out.pmm ≡ before.pmm
  pub steals : out.steal_next ≡ get_border before.pmm
  pub stealable : out.steal_remaining ≡ sub32 0xC0800000 (get_border before.pmm)

-- The state that the loader leaves, where `table_at` and `directory_at` are the addresses of the
-- zeroed KERNEL_PAGE_TABLES and KERNEL_PAGE_DIRECTORY, and `bucket` that of `vm_first_bucket`.
module _ (directory_at table_at bucket frames : ℕ) (before : Vm)
    (no_tables : (i : ℕ) → before.current_as.tables i ≡ none) (blank : IsBlank before.current_as)
    (none_waiting : before.waiting_list ≡ none) (managed : IsManaged frames before.pmm)
    (frames_aligned : before.pmm.buddy_base % 4096 ≡ 0) (tables_aligned : table_at % 4096 ≡ 0)
    (behind : 0xC0000000 ≤ bucket)
    (before_frames : bucket + 16 ≤ 0xC0000000 + before.pmm.buddy_base)
    (low_frames : before.pmm.buddy_base ≤ 0x800000) where
  first_space : AddressSpace
  first_space = record before.current_as { directory_phys = virtual2phys directory_at }

  with_tables :
      HasTables table_at 0x100 0x300 first_space
        (map_kernel_tables table_at 0x100 0x300 first_space)
  with_tables = map_kernel_tables-HasTables table_at 0x100 0x300 first_space tables_aligned

  space-apart : TablesApart with_tables.out
  unfolding first_space
  space-apart i j table at_i at_j =
      ground (arith, with_tables.tables i, with_tables.tables j, no_tables i, no_tables j)

  space-HasKernelTables : HasKernelTables with_tables.out
  space-HasKernelTables i low high =
      (ground (arith, with_tables.entries i), ground (arith, with_tables.tables i))

  space-wired : HasDirectory table_at with_tables.out
  space-wired i low high =
      (ground (arith, with_tables.entries i), ground (arith, with_tables.tables i))

  space-IsBacked : IsBacked with_tables.out 0xC0000000 0 2048
  unfolding dir_index
  space-IsBacked k l =
      let dir = dir_index (0xC0000000 + (0 + k) * 4096) in
      let (present, at_dir) = space-HasKernelTables dir (omega arith) (omega arith) in
      (present, dir, at_dir)

  unmapped : (w : ℕ) → translate with_tables.out w ≡ none
  unfolding first_space
  unmapped w = blank-translate with_tables.out w (λ t i. rw with_tables.page_tables (blank t i))

  mapped_boot :
      (space : AddressSpace) × (map_boot_pages 2048 0xC0000000 with_tables.out ≡ ok space)
      × LeadsLow space
      × OnlyPages with_tables.out space
  mapped_boot =
      let (space, done, maps, only) =
        dma_from-MapsRange 2048 0 0 0xC0000000 with_tables.out space-apart space-IsBacked
          (omega arith) (omega arith) (omega arith) in
      (
        space,
        map_boot_pages-dma_from 2048 0 with_tables.out (omega arith) ∙ done,
        λ w. ground (arith, maps w, unmapped w),
        only,
      )

  -- `vm_init` returns with one bucket of free pages, those from 0xC0800 on, whose directory entries
  -- are present and hold the frames of their own tables; the 8 MiB at 0xC0000000 lead to the frames from 0 on and
  -- no other page leads anywhere; and the memory from the border of the managed frames to the end
  -- of the 8 MiB is left for buckets. The frames are as they were. The tables must be aligned, and
  -- zero before, as the first frame's address must be, and the bucket stands in the kernel, in front
  -- of the frames.
  pub init-Boots :
      Boots frames directory_at table_at bucket before (init directory_at table_at bucket before)
  unfolding init first_space
  init-Boots =
      let (space, done, low, only) = mapped_boot in
      let tables = ap (λ (t : AddressSpace). t.tables) only in
      let directory = ap (λ (t : AddressSpace). t.directory) only in
      let b : Bucket = record { pageno = 0xC0800; size = 0xC1800; next = none; prev = none } in
      let at_bucket : store bucket b before.heap bucket ≡ b = store_self bucket b before.heap in
      record {
        out = record {
          heap = store bucket b before.heap;
          kernel_buckets = some bucket;
          waiting_list = before.waiting_list;
          steal_next = get_border before.pmm;
          steal_remaining = sub32 0xC0800000 (get_border before.pmm);
          current_as = space;
          pmm = before.pmm;
        };
        returns = rw (with_tables.returns, done) refl;
        booted = record {
          high = omega arith;
          lists = record {
            free = rw at_bucket (refl, refl, refl);
            waiting = none_waiting;
            distinct = (tt, tt);
          };
          pageno = rw at_bucket refl;
          size = rw at_bucket refl;
          tables = rw (tables, directory) space-HasKernelTables;
          table_at = table_at;
          table_aligned = tables_aligned;
          wired = λ i from below. rw (tables, directory) (space-wired i from below);
          apart = rw tables space-apart;
          in_kernel = λ k l. (
            omega arith,
            (bucket + k) / 4096 - 0xC0000,
            ground (arith, low (bucket + k)),
            omega arith,
          );
          managed = managed;
          aligned = frames_aligned;
        };
        leads = low;
        same_tables = refl;
        at = ap (λ (t : AddressSpace). t.directory_phys) only ∙ with_tables.at;
        same_frames = refl;
        steals = refl;
        stealable = refl;
      }
