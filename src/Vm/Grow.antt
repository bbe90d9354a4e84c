-- ===== src/Vm/Grow.antt =====
-- `vm_alloc_kpages` on the memory manager that `vm_init` leaves, whose one bucket only shrinks.
use ma_os.Base.{
  ℕ, zero, suc, ◌+◌, ◌-◌, ◌*◌, ◌/◌, ◌^◌, ◌≤◌, ◌<◌, ◌≡◌, refl, sym, ap, ◌∙◌, some, ◌⊎◌, inl, inr,
  true, false, List, [], ◌∷◌, Outcome, ok, arith, length, leb, ◌==◌, if◌then◌else◌, u32,
}
use mathlib.Core.Path.{subst}
use ma_os.Pmm.{e_ok}
use ma_os.Pmm.Cover.{free_blocks}
use ma_os.Paging.{AddressSpace, dir_index}
use ma_os.Paging.Translate.{translate}
use ma_os.FreeList.{Bucket, store}
use ma_os.FreeList.Chain.{Distinct, store_self}
use ma_os.Vm.{
  Vm, Granted, take_pages, reserve_from, vm_reserve_pages, set_bytes, map_pages, vm_alloc_kpages,
}
use ma_os.Vm.Lists.{IsLists}
use ma_os.Vm.Boot.{IsBooted, HasKernelTables}
use ma_os.Vm.Memset.{IsClear, set_bytes-IsClear}
use ma_os.Vm.Frames.{PagesBacked, member, AllFree, LeadsTo, Maps, Exhausted, map_pages-Maps}
use ma_os.Vm.Alloc.{reserved_then, loop_IsLists, IsLists-same}

-- The first `pages` pages are gone from the bucket.
abbrev rest_of : ℕ → ℕ → ℕ → Vm → Vm
rest_of next pages bucket v = record v {
  heap =
      store bucket
        (record (v.heap bucket) { pageno = next + pages; size = (v.heap bucket).size - pages })
        v.heap;
}

vm_reserve_pages-booted :
    (rounds pages next frames bucket : ℕ) (v : Vm)
    → IsBooted next frames bucket v
    → next + pages ≤ 2 ^ 20
    → 1 ≤ rounds
    → vm_reserve_pages rounds pages v
      ≡ ok record { vm = rest_of next pages bucket v; err = e_ok; pageno = next }
unfolding vm_reserve_pages reserve_from take_pages store
vm_reserve_pages-booted zero pages next frames bucket v b fits enough = absurd (omega arith)
vm_reserve_pages-booted (suc rounds) pages next frames bucket v b fits enough =
    let large : leb pages (v.heap bucket).size ≡ true = ground (arith, b.size) in
    let more : ((v.heap bucket).size == pages) ≡ false = ground (arith, b.size) in
    let start : u32 ((v.heap bucket).pageno + pages) ≡ next + pages = omega (arith, b.pageno) in
    rw (b.lists.free.0, large, more, start, b.pageno) refl

PagesBacked-kernel :
    (space : AddressSpace) (pageno count : ℕ)
    → HasKernelTables space
    → 0xC0000 ≤ pageno
    → pageno + count ≤ 2 ^ 20
    → PagesBacked space pageno count
unfolding dir_index
PagesBacked-kernel space pageno zero tables low fits = tt
PagesBacked-kernel space pageno (suc count) tables low fits =
    let dir = dir_index (pageno * 4096) in
    let (present, at_dir) = tables dir (omega arith) (omega arith) in
    (
      present,
      (dir, at_dir),
      PagesBacked-kernel space (pageno + 1) count tables (omega arith) (omega arith),
    )

rest_of-IsLists :
    (next pages bucket : ℕ) (v : Vm)
    → IsLists v (bucket ∷ []) []
    → IsLists (rest_of next pages bucket v) (bucket ∷ []) []
rest_of-IsLists next pages bucket v lists =
    let b : Bucket = record (v.heap bucket) {
      pageno = next + pages;
      size = (v.heap bucket).size - pages;
    } in
    let (head, back, end) = lists.free in
    record {
      free = rw (store_self bucket b v.heap) (head, back, end);
      waiting = lists.waiting;
      distinct = lists.distinct;
    }

-- The pages from number `next` on lead to frames of their own that were free, one for each, and the
-- free pages begin behind them; no other page and no other frame has changed.
pub record Grows (pages next frames bucket : ℕ) (v : Vm) (r : Outcome Granted) : Type 0 where
  pub out : Vm
  pub returns : r ≡ ok record { vm = out; pointer = next * 4096 }
  pub booted : IsBooted (next + pages) frames bucket out
  pub same_base : out.pmm.buddy_base ≡ v.pmm.buddy_base
  pub fs : List ℕ
  pub one_each : length fs ≡ pages
  pub distinct : Distinct fs
  pub were_free : AllFree v.pmm fs
  pub blocks :
      (f : ℕ)
      → free_blocks 0 out.pmm.buddies f ≡ (if member fs f then 0 else free_blocks 0 v.pmm.buddies f)
  pub leads : LeadsTo out.current_as next (v.pmm.buddy_base / 4096) fs
  pub others :
      (w : ℕ)
      → (w / 4096 < next) ⊎ (next + pages ≤ w / 4096)
      → translate out.current_as w ≡ translate v.current_as w

-- The bucket is out of the way of the memset.
kernel-IsClear :
    (next pages frames bucket : ℕ) (v : Vm)
    → IsBooted next frames bucket v
    → IsClear (rest_of next pages bucket v) next pages bucket
kernel-IsClear next pages frames bucket v b k l =
    let (page, g, there, low) = b.in_kernel k l in
    (
      inl (omega (arith, page, b.high)),
      λ f e free.
          let same : some g ≡ some (v.pmm.buddy_base / 4096 + f) = sym there ∙ e in
          absurd (ground (arith, same, low)),
    )

after_map :
    (rounds pages next frames bucket : ℕ) (v : Vm)
    → IsBooted next frames bucket v
    → vm_reserve_pages rounds pages v
      ≡ ok record { vm = rest_of next pages bucket v; err = e_ok; pageno = next }
    → next < 2 ^ 20
    → (m : Maps pages next frames
        (rest_of next pages bucket v)
        (map_pages pages next (rest_of next pages bucket v)))
    → Grows pages next frames bucket v (vm_alloc_kpages rounds pages v)
after_map rounds pages next frames bucket v b reserved fits m =
    let b' : Bucket = record (v.heap bucket) {
      pageno = next + pages;
      size = (v.heap bucket).size - pages;
    } in
    let g = set_bytes m.out.current_as pages next m.out.heap in
    let same : g bucket ≡ m.out.heap bucket =
      set_bytes-IsClear pages next frames bucket (rest_of next pages bucket v) _ m
        (kernel-IsClear next pages frames bucket v b) in
    let same_on : (a : ℕ) → member (bucket ∷ []) a ≡ true → g a ≡ m.out.heap a = λ a i.
      let one : bucket ≡ a = ground (arith, i) in subst (λ (x : ℕ). g x ≡ m.out.heap x) one same in
    let heap = same ∙ ap (λ (u : Vm). u.heap bucket) m.rest ∙ store_self bucket b' v.heap in
    record {
      out = record m.out { heap = g };
      returns = reserved_then rounds pages v _ reserved refl fits ∙ rw m.returns refl;
      booted = record {
        high = omega (arith, b.high);
        lists = IsLists-same m.out g (bucket ∷ []) [] same_on (
            loop_IsLists (rest_of next pages bucket v) m.out (bucket ∷ []) [] m.rest
              (rest_of-IsLists next pages bucket v b.lists));
        pageno = rw heap refl;
        size = rw heap (omega (arith, b.size));
        tables = rw (m.tables, m.directory) b.tables;
        table_at = b.table_at;
        table_aligned = b.table_aligned;
        wired = λ i low high. rw (m.tables, m.directory) (b.wired i low high);
        apart = rw m.tables b.apart;
        in_kernel = λ k l.
            let (page, f, there, low) = b.in_kernel k l in
            let kept = m.others (bucket + k) (inl (omega (arith, page, b.high))) in
            (page, f, kept ∙ there, rw m.same_base low);
        managed = m.managed;
        aligned = rw m.same_base b.aligned;
      };
      same_base = m.same_base;
      fs = m.fs;
      one_each = m.one_each;
      distinct = m.distinct;
      were_free = m.were_free;
      blocks = m.blocks;
      leads = m.leads;
      others = m.others;
    }

-- On what `vm_init` leaves, and on what it leaves itself, `vm_alloc_kpages` returns the first pages
-- that are free, up to the end of the address space, or it panics, and then there are less free
-- frames than pages. The pages lead to frames of their own that were free, one for each, and no
-- other page or frame has changed.
pub vm_alloc_kpages-Grows :
    (rounds pages next frames bucket : ℕ) (v : Vm)
    → IsBooted next frames bucket v
    → 0 < pages
    → next + pages ≤ 2 ^ 20
    → 1 ≤ rounds
    → Grows pages next frames bucket v (vm_alloc_kpages rounds pages v)
      ⊎ Exhausted pages v (vm_alloc_kpages rounds pages v)
vm_alloc_kpages-Grows rounds pages next frames bucket v b pos fits enough =
    let reserved = vm_reserve_pages-booted rounds pages next frames bucket v b fits enough in
    let backed = PagesBacked-kernel v.current_as next pages b.tables (omega (arith, b.high)) fits in
    elim (map_pages-Maps pages next frames (rest_of next pages bucket v) b.managed b.apart backed
      b.aligned fits) [
        | inl maps ↦ inl (after_map rounds pages next frames bucket v b reserved (omega arith) maps)
        | inr short ↦ inr record {
          panics =
              reserved_then rounds pages v _ reserved refl (omega arith) ∙ rw short.panics refl;
          fs = short.fs;
          fewer = short.fewer;
          all = short.all;
        }
      ]
