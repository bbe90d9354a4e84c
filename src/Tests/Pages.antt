-- ===== src/Tests/Pages.antt =====
-- vm.c on a few buckets, and on an address space with one table.
use ma_os.Base.{ℕ, ◌≡◌, refl, Option, none, some, [], ◌∷◌, ok, panic, ◌>>=◌, arith, ◌*◌, ◌+◌}
use ma_os.FreeList.{Bucket, Heap, ll_pop_item, ll_remove_item, ll_insert_before}
use ma_os.FreeList.Chain.{Chain}
use ma_os.FreeList.Push.{pop-pop_panic}
use ma_os.FreeList.Remove.{ll_remove_item-Chain}
use ma_os.FreeList.Insert.{ll_insert_before-Chain}
use ma_os.Paging.{
  dir_index, AddressSpace, Pte, Pde, vm_map_page, vm_unmap_page, vm_dma, Unmapped, update,
}
use ma_os.Paging.Translate.{TablesApart}
use ma_os.Paging.Map.{Retargeted, vm_map_page-vm_unmap_page}
use ma_os.Paging.Dma.{MapsRange, vm_dma-MapsRange}

abbrev pub bucket : ℕ → ℕ → Option ℕ → Option ℕ → Bucket
bucket pageno size next prev = record { pageno = pageno; size = size; next = next; prev = prev }

-- Three buckets at 16, 32 and 48 in a list, and a free one at 64.
abbrev pub three : Heap
three = λ a.
    update 16 (bucket 100 2 (some 32) none)
      (update 32 (bucket 200 5 (some 48) (some 16))
        (update 48 (bucket 300 9 none (some 32)) (λ b. bucket 0 0 none none)))
      a

pub three-Chain : Chain three (some 16) (16 ∷ 32 ∷ 48 ∷ [])
unfolding update
three-Chain = (refl, refl, (refl, refl, (refl, refl, refl)))

pop-pop_panic_example : (ll_pop_item (some 16) three >>= λ p. ll_pop_item p.first p.heap) ≡ panic
pop-pop_panic_example = pop-pop_panic three (some 16) 16 32 (48 ∷ []) three-Chain (omega arith)

ll_remove_item-Chain_example :
    let l = ll_remove_item (some 16) 32 three in
    Chain l.heap l.first (16 ∷ 48 ∷ []) × ((l.heap 32).next ≡ none) × ((l.heap 32).prev ≡ none)
ll_remove_item-Chain_example =
    ll_remove_item-Chain three (some 16) (16 ∷ []) 32 (48 ∷ []) three-Chain
      ((omega arith, (omega arith, tt)), ((omega arith, tt), (tt, tt)))

-- Bucket 64 is put between 16 and 32.
ll_insert_before-Chain_example :
    let l = ll_insert_before (some 16) 64 32 three in Chain l.heap l.first (16 ∷ 64 ∷ 32 ∷ 48 ∷ [])
ll_insert_before-Chain_example =
    ll_insert_before-Chain three (some 16) 64 (16 ∷ []) 32 (48 ∷ []) three-Chain
      ((omega arith, (omega arith, tt)), ((omega arith, tt), (tt, tt)))
      (omega arith, (omega arith, (omega arith, tt)))

abbrev pub no_entry : Pte
no_entry = record {
  present = 0;
  rw = 0;
  user = 0;
  pwt = 0;
  pcd = 0;
  accessed = 0;
  dirty = 0;
  pat = 0;
  global = 0;
  ignored = 0;
  frame = 0;
}

abbrev one_table : Pde
one_table = record {
  present = 1;
  rw = 1;
  user = 0;
  pwt = 0;
  pcd = 0;
  accessed = 0;
  dirty = 0;
  page_size = 0;
  ignored = 0;
  page_table = 0;
}

-- Directory entry `i` has table `i`; every page leads to frame 7.
abbrev pub space : AddressSpace
space = record {
  directory = λ i. one_table;
  directory_phys = 0;
  tables = λ i. some i;
  page_tables = λ table i. record no_entry { present = 1; frame = 7 };
}

pub space-TablesApart : TablesApart space
space-TablesApart = λ i j table e e'. ground arith

vm_map_page-vm_unmap_page_example :
    (u : Unmapped) × ((vm_map_page space 0x123000 0xC0801ABC >>= λ s. vm_unmap_page s 0xC0801ABC)
      ≡ ok u)
    × (u.paddr ≡ 0x123000)
    × Retargeted space 0xC0801ABC none u.space
unfolding dir_index
vm_map_page-vm_unmap_page_example =
    vm_map_page-vm_unmap_page space 0x123000 0xC0801ABC 770 space-TablesApart refl refl refl
      (omega arith)

-- A size that is no multiple of 4096: two whole pages are mapped.
vm_dma-MapsRange_example :
    (space' : AddressSpace) × (vm_dma space 0x123000 0xFF000000 9000 ≡ ok space')
    × MapsRange space 0x123000 0xFF000000 2 space'
vm_dma-MapsRange_example =
    vm_dma-MapsRange space 0x123000 0xFF000000 9000 space-TablesApart
      (λ k h. (refl, dir_index (0xFF000000 + (0 + k) * 4096), refl)) refl (omega arith)
      (omega arith)
