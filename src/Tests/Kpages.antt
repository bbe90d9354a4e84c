-- ===== src/Tests/Kpages.antt =====
-- vm.c with its lists, its page tables and the frames of pmm.c together.
use ma_os.Base.{◌+◌, ◌*◌, ◌/◌, ◌^◌, refl, [], ◌∷◌, arith}
use ma_os.Pmm.{log2}
use ma_os.Pmm.Mark.{IsTaken}
use ma_os.Paging.{AddressSpace, dir_index, update}
use ma_os.Paging.Translate.{translate}
use ma_os.Vm.{Vm}
use ma_os.Vm.Lists.{IsLists}
use ma_os.Vm.Free.{PagesMapped, Frees, vm_free_kpages-Frees}
use ma_os.Vm.Reclaim.{vm_free_kpages}
use ma_os.Tests.Frames.{fresh, four_used, four_used-IsManaged, four_used-IsTaken, log2_four}
use ma_os.Tests.Pages.{no_entry, space, space-TablesApart}
use ma_os.Tests.Returns.{kernel, kernel-IsLists}

-- Three free buckets, with 16 pages in all, and 2048 free frames.
abbrev ready : Vm
ready = record kernel { pmm = fresh }

-- Every page leads to the first of four frames that are taken.
abbrev used_space : AddressSpace
used_space = record space { page_tables = λ table i. record no_entry { present = 1; frame = 257 } }

abbrev used : Vm
used = record kernel { current_as = used_space; pmm = four_used }

used-IsLists : IsLists used (16 ∷ 32 ∷ 48 ∷ []) []
used-IsLists = record {
  free = kernel-IsLists.free;
  waiting = kernel-IsLists.waiting;
  distinct = kernel-IsLists.distinct;
}

used-PagesMapped : PagesMapped used_space 102 4 (λ k. 257)
unfolding translate
used-PagesMapped k h = ((dir_index ((102 + k) * 4096), refl), refl, omega arith)

first_block : IsTaken four_used.buddies (log2 4) (0 / 2 ^ log2 4)
first_block = rw log2_four four_used-IsTaken

vm_free_kpages-Frees_example :
    Frees 4 102 2048
      (0 / 2 ^ log2 4)
      used
      (16 ∷ 32 ∷ 48 ∷ [])
      (vm_free_kpages 3 4 (102 * 4096) used)
unfolding update
vm_free_kpages-Frees_example =
    vm_free_kpages-Frees 3 4 102 2048 0 (λ k. 257) used (16 ∷ []) 32 (48 ∷ []) (omega arith)
      (omega arith) space-TablesApart used-PagesMapped used-IsLists
      (omega arith, (omega arith, (omega arith, tt))) (omega arith, tt) (omega arith) (omega arith)
      (omega arith) (omega arith) (omega arith, (omega arith, (omega arith, tt)))
      four_used-IsManaged (omega arith) (rw log2_four (omega arith)) (rw log2_four (omega arith))
      first_block
