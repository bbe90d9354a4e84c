-- ===== src/Tests/Returns.antt =====
-- The lists of the memory manager in vm.c: pages that are taken and returned.
use ma_os.Base.{◌≡◌, refl, none, some, [], ◌∷◌, panic, arith}
use ma_os.Paging.{update}
use ma_os.Vm.{Vm}
use ma_os.Vm.Lists.{IsLists}
use ma_os.Vm.Return.{Returns, vm_return_pages-Returns}
use ma_os.Vm.Merge.{Keeps}
use ma_os.Vm.Optimize.{vm_optimize-Keeps}
use ma_os.Vm.Reclaim.{vm_optimize, vm_return_pages}
use ma_os.Vm.Last.{vm_return_pages-panic}
use ma_os.Tests.Pages.{bucket, three, space, three-Chain}

abbrev pub kernel : Vm
kernel = record {
  heap = three;
  kernel_buckets = some 16;
  waiting_list = none;
  steal_next = 64;
  steal_remaining = 32;
  current_as = space;
  pmm = record { managed_first = 0; managed_last = 0; buddies = []; buddy_base = 0 };
}

pub kernel-IsLists : IsLists kernel (16 ∷ 32 ∷ 48 ∷ []) []
kernel-IsLists = record {
  free = three-Chain;
  waiting = refl;
  distinct = ((omega arith, (omega arith, tt)), ((omega arith, tt), (tt, tt)));
}

-- Three neighbouring buckets, of which the one in the middle is joined with both.
abbrev neighbours : Vm
neighbours = record kernel {
  heap = λ a.
      update 16 (bucket 100 2 (some 32) none)
        (update 32 (bucket 102 5 (some 48) (some 16))
          (update 48 (bucket 107 9 none (some 32)) (λ b. bucket 0 0 none none)))
        a;
}

neighbours-IsLists : IsLists neighbours (16 ∷ 32 ∷ 48 ∷ []) []
unfolding update
neighbours-IsLists = record {
  free = (refl, refl, (refl, refl, (refl, refl, refl)));
  waiting = refl;
  distinct = ((omega arith, (omega arith, tt)), ((omega arith, tt), (tt, tt)));
}

vm_optimize-Keeps_example : Keeps neighbours (16 ∷ 32 ∷ 48 ∷ []) (vm_optimize 32 neighbours)
unfolding update
vm_optimize-Keeps_example =
    vm_optimize-Keeps neighbours (16 ∷ []) 32 48 [] [] neighbours-IsLists
      (omega arith, (omega arith, (omega arith, tt)))

-- The gap between the first two buckets of `kernel`, up to the second one.
vm_return_pages-Returns_example :
    Returns 98 102 kernel (16 ∷ 32 ∷ 48 ∷ []) (vm_return_pages 3 98 102 kernel)
unfolding update
vm_return_pages-Returns_example =
    vm_return_pages-Returns 3 98 102 kernel (16 ∷ []) 32 (48 ∷ []) kernel-IsLists
      (omega arith, (omega arith, (omega arith, tt))) (omega arith, tt) (omega arith) (omega arith)
      (omega arith) (omega arith) (omega arith) (omega arith, (omega arith, (omega arith, tt)))

vm_return_pages-panic_example : vm_return_pages 3 1 400 kernel ≡ panic
unfolding update
vm_return_pages-panic_example =
    vm_return_pages-panic 3 1 400 kernel 16 (32 ∷ 48 ∷ []) three-Chain
      (omega arith, (omega arith, (omega arith, tt))) (omega arith) refl (omega arith) (omega arith)
      (omega arith, (omega arith, (omega arith, tt)))
