-- ===== src/Vm.antt =====
-- kernel/memory/vm.c: pages of the kernel's virtual memory. Its static variables, `current_as`
-- and the frames are the record `Vm`; a function returns the new record. What the pages hold is
-- not kept, but for the buckets that stand in their frames. The DEBUG lines print nothing.
pub mod Reclaim
pub mod Start
pub mod KernelTables
pub mod Walk
pub mod Boot
pub mod Grow
pub mod Isolation
pub mod Lists
pub mod Pages
pub mod Merge
pub mod Optimize
pub mod Return
pub mod OnePage
pub mod Frames
pub mod Memset
pub mod Alloc
pub mod Free
pub mod Reserve
pub mod Last
pub mod Debug
use ma_os.Base.{
  ℕ, zero, suc, ◌+◌, ◌-◌, ◌*◌, ◌/◌, ◌^◌, Bool, true, false, Option, none, some, Outcome, ok, panic,
  fault, unfinished, ◌>>=◌, ◌>>◌, access, assert, ◌==◌, ltb, leb, ◌&&◌, ◌||◌, if◌then◌else◌, u32,
  sub32, ◌<<<◌, ◌>>>◌,
}
use ma_os.Pmm
use ma_os.Pmm.{
  Pmm, Err, e_ok, e_nomem, e_device, page_bits, page_size, kernel_offset, kernel_boot_mapped,
}
use ma_os.FreeList.{
  Bucket, Heap, store, Links, Popped, ll_remove_item, ll_insert_before, ll_append_notempty,
  ll_push_item, ll_pop_item,
}
use ma_os.Paging.Translate.{translate}
use ma_os.Paging.{AddressSpace, Pde, as_map_kernel_table, virtual2phys, vm_map_page, vm_unmap_page}

pub record Vm : Type 0 where
  pub heap : Heap
  pub kernel_buckets : Option ℕ
  pub waiting_list : Option ℕ
  pub steal_next : ℕ
  pub steal_remaining : ℕ
  pub current_as : AddressSpace
  pub pmm : Pmm

-- A bucket that is removed from the kernel's list goes to the waiting list.
unfoldable pub retire : ℕ → Vm → Outcome Vm
retire item v =
    let removed = ll_remove_item v.kernel_buckets item v.heap in
    do
      pushed ← ll_push_item v.waiting_list item removed.heap
      ok (record v {
        heap = pushed.heap;
        kernel_buckets = removed.first;
        waiting_list = pushed.first;
      })

pub record Reserved : Type 0 where
  pub vm : Vm
  pub err : Err
  pub pageno : ℕ

-- The body of the loop of `vm_reserve_pages`, where the bucket `head` is large enough.
unfoldable pub take_pages : ℕ → ℕ → Vm → Outcome Reserved
take_pages pages head v =
    let bucket = v.heap head in
    if bucket.size == pages
    then (do
      v' ←
          retire head
            (record v { heap = store head (record bucket { pageno = 0; size = 0 }) v.heap })
      ok record { vm = v'; err = e_ok; pageno = bucket.pageno })
    else ok record {
      vm = record v {
        heap =
            store head
              (record bucket { pageno = u32 (bucket.pageno + pages); size = bucket.size - pages })
              v.heap;
      };
      err = e_ok;
      pageno = bucket.pageno;
    }

-- `while (head)`, for at most `rounds` rounds.
unfoldable pub reserve_from : ℕ → ℕ → Option ℕ → Vm → Outcome Reserved
reserve_from rounds pages none v = ok record { vm = v; err = e_nomem; pageno = 0 }
reserve_from zero pages (some head) v = unfinished
reserve_from (suc rounds) pages (some head) v =
    let rest = reserve_from rounds pages (v.heap head).next v in
    if leb pages (v.heap head).size then take_pages pages head v else rest

unfoldable pub vm_reserve_pages : ℕ → ℕ → Vm → Outcome Reserved
vm_reserve_pages rounds pages v = reserve_from rounds pages v.kernel_buckets v

abbrev pub succeeded : Err → Bool
succeeded e_ok = true
succeeded e_nomem = false
succeeded e_device = false

-- The loop of `vm_alloc_kpages`, which maps page `pageno` and the ones after it.
unfoldable pub map_pages : ℕ → ℕ → Vm → Outcome Vm
map_pages zero pageno v = ok v
map_pages (suc count) pageno v = do
  taken ← Pmm.alloc 1 v.pmm
  assert (succeeded taken.err)
  space ← vm_map_page v.current_as taken.addr (u32 (pageno * page_size))
  map_pages count (u32 (pageno + 1)) (record v { current_as = space; pmm = taken.pmm })

-- The new state, with a pointer that is returned.
pub record Granted : Type 0 where
  pub vm : Vm
  pub pointer : ℕ

abbrev pub same_frame : Option ℕ → Option ℕ → Bool
same_frame none g = false
same_frame (some f) none = false
same_frame (some f) (some g) = f == g

-- The frame of the address `addr` is that of one of `count` pages from number `first` on.
unfoldable pub lies_on : AddressSpace → ℕ → ℕ → ℕ → Bool
lies_on space zero first addr = false
lies_on space (suc count) first addr =
    same_frame (translate space addr) (translate space (first * 4096))
    || lies_on space count (first + 1) addr

-- `memset(ptr, 0b10101010, pages * PAGE_SIZE)`: what it does to the buckets. Each of the four dwords
-- of a bucket that is in the memory of the pages, by whatever address, is overwritten.
unfoldable pub set_bytes : AddressSpace → ℕ → ℕ → Heap → Heap
set_bytes space count first h a = record {
  pageno = if lies_on space count first a then 0xAAAAAAAA else (h a).pageno;
  size = if lies_on space count first (a + 4) then 0xAAAAAAAA else (h a).size;
  next = if lies_on space count first (a + 8) then some 0xAAAAAAAA else (h a).next;
  prev = if lies_on space count first (a + 12) then some 0xAAAAAAAA else (h a).prev;
}

unfoldable pub vm_alloc_kpages : ℕ → ℕ → Vm → Outcome Granted
vm_alloc_kpages rounds pages v = do
  reserved ← vm_reserve_pages rounds pages v
  assert (succeeded reserved.err)
  v' ← map_pages pages reserved.pageno reserved.vm
  ok record {
    vm = record v' { heap = set_bytes v'.current_as pages reserved.pageno v'.heap };
    pointer = u32 (reserved.pageno * page_size);
  }

abbrev pub zero_bucket : Bucket
zero_bucket = record { pageno = 0; size = 0; next = none; prev = none }

abbrev pub sizeof_bucket : ℕ
sizeof_bucket = 16

-- `vm_kernel_stealmem(sizeof(vm_free_bucket_t))`: the memory is cleared, so it is a zero bucket.
unfoldable pub steal_bucket : ℕ → Vm → Outcome Granted
steal_bucket rounds v = do
  v' ←
      if ltb v.steal_remaining sizeof_bucket
      then (do
        page ← vm_alloc_kpages rounds 1 v
        ok (record page.vm { steal_next = page.pointer; steal_remaining = page_size }))
      else ok v
  ok record {
    vm = record v' {
      heap = store v'.steal_next zero_bucket v'.heap;
      steal_next = u32 (v'.steal_next + sizeof_bucket);
      steal_remaining = v'.steal_remaining - sizeof_bucket;
    };
    pointer = v'.steal_next;
  }

unfoldable pub vm_item : ℕ → Vm → Outcome Granted
vm_item rounds v = elim v.waiting_list [
  | none ↦ steal_bucket rounds v
  | some waiting ↦ do
    popped ← ll_pop_item (some waiting) v.heap
    ok record {
      vm = record v { heap = popped.heap; waiting_list = popped.first };
      pointer = waiting;
    }
]
