-- ===== src/Vm/Alloc.antt =====
-- `vm_alloc_kpages`: the free pages, the page tables and the frames together.
use ma_os.Base.{
  ℕ, ◌+◌, ◌*◌, ◌/◌, ◌^◌, ◌≤◌, ◌<◌, ◌≡◌, refl, sym, ◌⊎◌, true, none, some, ◌++◌, List, Outcome, ok,
  panic, arith, length, if◌then◌else◌, u32, ◌>>=◌,
}
use mathlib.Core.Path.{subst}
use ma_os.Pmm.{e_ok}
use ma_os.Pmm.Cover.{free_blocks}
use ma_os.Pmm.Managed.{IsManaged, IsFree}
use ma_os.Paging.{dir_index}
use ma_os.Paging.Translate.{translate}
use ma_os.FreeList.{Heap}
use ma_os.FreeList.Chain.{Distinct}
use ma_os.Vm.{Vm, Granted, Reserved, vm_reserve_pages, set_bytes, map_pages, vm_alloc_kpages}
use ma_os.Vm.Lists.{IsLists}
use ma_os.Vm.Reserve.{AllSmaller}
use ma_os.Vm.Pages.{within, holders, member-append}
use ma_os.Vm.Memset.{Run-same}
use ma_os.Vm.Frames.{member, AllFree, LeadsTo}

-- Every page that a free bucket holds has an address, and a directory entry with a table.
abbrev pub Usable : Vm → List ℕ → Type 0
Usable v xs =
    (p : ℕ)
    → 0 < holders v.heap xs p
    → (p < 2 ^ 20)
      × ((v.current_as.directory (dir_index (p * 4096))).present ≡ 1)
      × (table : ℕ) × (v.current_as.tables (dir_index (p * 4096)) ≡ some table)

-- `pages` free pages from number `first` on are taken, and lead to frames that were free, one for
-- each; no other page and no other frame has changed.
pub record Allocates (pages frames : ℕ) (v : Vm) (xs : List ℕ) (r : Outcome Granted) : Type 0 where
  pub out : Vm
  pub first : ℕ
  pub returns : r ≡ ok record { vm = out; pointer = first * 4096 }
  pub free : List ℕ
  pub waiting : List ℕ
  pub lists : IsLists out free waiting
  pub taken : (p : ℕ) → holders v.heap xs p ≡ holders out.heap free p + within first pages p
  pub fs : List ℕ
  pub one_each : length fs ≡ pages
  pub distinct : Distinct fs
  pub were_free : AllFree v.pmm fs
  pub managed : IsManaged frames out.pmm
  pub blocks :
      (f : ℕ)
      → free_blocks 0 out.pmm.buddies f ≡ (if member fs f then 0 else free_blocks 0 v.pmm.buddies f)
  pub leads : LeadsTo out.current_as first (v.pmm.buddy_base / 4096) fs
  pub others :
      (w : ℕ)
      → (w / 4096 < first) ⊎ (first + pages ≤ w / 4096)
      → translate out.current_as w ≡ translate v.current_as w

-- There is no free bucket that is large enough, or there are less free frames than pages.
pub record Refuses (pages : ℕ) (v : Vm) (xs : List ℕ) (r : Outcome Granted) : Type 0 where
  pub panics : r ≡ panic
  pub reason :
      AllSmaller v.heap pages xs
      ⊎ ((fs : List ℕ) × (length fs < pages) × ((f : ℕ) → IsFree v.pmm f → member fs f ≡ true))

-- Once pages are reserved, what is left is the loop.
pub reserved_then :
    (rounds pages : ℕ) (v : Vm) (out : Reserved)
    → vm_reserve_pages rounds pages v ≡ ok out
    → out.err ≡ e_ok
    → out.pageno < 2 ^ 20
    → vm_alloc_kpages rounds pages v ≡ (
        map_pages pages out.pageno out.vm >>= λ v'. ok record {
          vm = record v' { heap = set_bytes v'.current_as pages out.pageno v'.heap };
          pointer = out.pageno * 4096;
        })
unfolding vm_alloc_kpages
reserved_then rounds pages v out e success fits =
    let pointer : u32 (out.pageno * 4096) ≡ out.pageno * 4096 = omega arith in
    rw (e, success, pointer) refl

pub loop_IsLists :
    (v v' : Vm) (xs ws : List ℕ)
    → v' ≡ record v { current_as = v'.current_as; pmm = v'.pmm }
    → IsLists v xs ws
    → IsLists v' xs ws
loop_IsLists v v' xs ws same lists =
    subst (λ (u : Vm). IsLists u xs ws) (sym same)
      record { free = lists.free; waiting = lists.waiting; distinct = lists.distinct }

-- No bucket of the lists is on a page that one of them holds, or in a frame that is free.
abbrev pub OnTaken : Vm → List ℕ → List ℕ → Type 0
OnTaken v xs ws =
    (a k : ℕ)
    → member (xs ++ ws) a ≡ true
    → k < 16
    → (holders v.heap xs ((a + k) / 4096) ≡ 0)
      × ((f : ℕ)
          → translate v.current_as (a + k) ≡ some (v.pmm.buddy_base / 4096 + f)
          → ¬ IsFree v.pmm f)

-- The lists after the memset.
pub IsLists-same :
    (v : Vm) (g : Heap) (xs ws : List ℕ)
    → ((a : ℕ) → member (xs ++ ws) a ≡ true → g a ≡ v.heap a)
    → IsLists v xs ws
    → IsLists (record v { heap = g }) xs ws
IsLists-same v g xs ws same lists = record {
  free =
      Run-same g v.heap none v.kernel_buckets xs none
        (λ a i. same a (ground (arith, i, member-append xs ws a))) lists.free;
  waiting =
      Run-same g v.heap none v.waiting_list ws none
        (λ a i. same a (ground (arith, i, member-append xs ws a))) lists.waiting;
  distinct = lists.distinct;
}
