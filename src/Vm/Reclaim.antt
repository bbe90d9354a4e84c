-- ===== src/Vm/Reclaim.antt =====
-- kernel/memory/vm.c: how pages come back, with vm_optimize, vm_return_pages and vm_free_kpages.
use ma_os.Base.{
  ℕ, zero, suc, ◌+◌, ◌*◌, Bool, true, false, Option, none, some, Outcome, ok, fault, unfinished,
  ◌>>=◌, ◌>>◌, access, assert, ◌==◌, leb, if◌then◌else◌, u32, ◌>>>◌,
}
use ma_os.Pmm
use ma_os.Pmm.{
  Pmm, Err, e_ok, e_nomem, e_device, page_bits, page_size, kernel_offset, kernel_boot_mapped,
}
use ma_os.FreeList.{Bucket, Heap, store, ll_insert_before, ll_append_notempty, ll_push_item}
use ma_os.Paging.{AddressSpace, vm_unmap_page}
use ma_os.Vm.{Vm, retire, vm_item}

-- The first `if` of `vm_optimize`, where `tmp` is the bucket in front.
unfoldable pub merge_front : ℕ → ℕ → Vm → Outcome Vm
merge_front item tmp v =
    let bucket = v.heap item in
    let front = v.heap tmp in
    retire tmp (record v {
      heap =
          store item
            (record bucket { pageno = front.pageno; size = u32 (bucket.size + front.size) }) v.heap;
    })

-- The second `if`, where `tmp` is the bucket behind.
unfoldable pub merge_behind : ℕ → ℕ → Vm → Outcome Vm
merge_behind item tmp v =
    let bucket = v.heap item in
    retire tmp (record v {
      heap = store item (record bucket { size = u32 (bucket.size + (v.heap tmp).size) }) v.heap;
    })

unfoldable pub merge_back : ℕ → Vm → Outcome Vm
merge_back item v = elim (v.heap item).next [ none ↦ fault | some tmp ↦ merge_behind item tmp v ]

-- `front` ends where `back` begins.
unfoldable pub adjacent : Bucket → Bucket → Bool
adjacent front back = u32 (front.pageno + front.size) == back.pageno

-- Both conditions are tested before any change.
unfoldable pub vm_optimize : ℕ → Vm → Outcome Vm
vm_optimize item v =
    let bucket = v.heap item in
    let can_merge_back : Bool = elim bucket.next [
      | none ↦ false
      | some tmp ↦ adjacent bucket (v.heap tmp)
    ] in
    do
      v' ← elim bucket.prev [
        | none ↦ ok v
        | some tmp ↦ if adjacent (v.heap tmp) bucket then merge_front item tmp v else ok v
      ]
      if can_merge_back then merge_back item v' else ok v'

-- `while (node && node->pageno <= pageno)`, for at most `rounds` rounds.
unfoldable pub find_behind : ℕ → ℕ → Option ℕ → Heap → Outcome (Option ℕ)
find_behind rounds pageno none h = ok none
find_behind zero pageno (some node) h = unfinished
find_behind (suc rounds) pageno (some node) h =
    let rest = find_behind rounds pageno (h node).next h in
    if leb (h node).pageno pageno then rest else ok (some node)

-- `vm_return_pages` after the search: `node` is the bucket behind the new one.
unfoldable pub link_item : ℕ → Option ℕ → Vm → Outcome Vm
link_item item (some node) v =
    let linked = ll_insert_before v.kernel_buckets item node v.heap in
    vm_optimize item (record v { heap = linked.heap; kernel_buckets = linked.first })
link_item item none v = do
  heap ← ll_append_notempty item none v.heap
  vm_optimize item (record v { heap = heap })

unfoldable pub return_item : ℕ → ℕ → ℕ → ℕ → Vm → Outcome Vm
return_item rounds pages pageno item v =
    let written = store item (record (v.heap item) { pageno = pageno; size = pages }) v.heap in
    elim v.kernel_buckets [
      | none ↦ (do
        pushed ← ll_push_item none item written
        ok (record v { heap = pushed.heap; kernel_buckets = pushed.first }))
      | some first ↦ (do
        node ← find_behind rounds pageno (some first) written
        link_item item node (record v { heap = written }))
    ]

unfoldable pub vm_return_pages : ℕ → ℕ → ℕ → Vm → Outcome Vm
vm_return_pages rounds pages pageno v = do
  item ← vm_item rounds v
  assert (if item.pointer == 0 then false else true)
  return_item rounds pages pageno item.pointer item.vm

-- The loop of `vm_free_kpages`, with `count` pages left: the last page first. The address of the
-- frame that was unmapped last is the second part, `none` before the first round.
pub record Freed : Type 0 where
  pub space : AddressSpace
  pub paddr : Option ℕ

unfoldable pub unmap_pages : ℕ → ℕ → AddressSpace → Option ℕ → Outcome Freed
unmap_pages zero addr space paddr = ok record { space = space; paddr = paddr }
unmap_pages (suc count) addr space paddr = do
  unmapped ← vm_unmap_page space (u32 (addr + count * page_size))
  unmap_pages count addr unmapped.space (some unmapped.paddr)

-- Without a page, `paddr` is read before it is written.
unfoldable pub vm_free_kpages : ℕ → ℕ → ℕ → Vm → Outcome Vm
vm_free_kpages rounds pages addr v = do
  freed ← unmap_pages pages addr v.current_as none
  v' ← vm_return_pages rounds pages (addr >>> page_bits) (record v { current_as = freed.space })
  paddr ← access freed.paddr
  pmm ← Pmm.free pages paddr v'.pmm
  ok (record v' { pmm = pmm })
