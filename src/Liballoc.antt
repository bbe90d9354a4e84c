-- ===== src/Liballoc.antt =====
-- libc/stdlib/stdlib.c and libc/cpp/new.cpp: what the kernel gives to libc/liballoc, which is another
-- project's library, and what C++ takes of it.
use ma_os.Base.{ℕ, Outcome}
use ma_os.Vm.{Vm, Granted, vm_alloc_kpages}
use ma_os.Vm.Reclaim.{vm_free_kpages}

abbrev pub liballoc_lock : ℕ
liballoc_lock = 0

abbrev pub liballoc_unlock : ℕ
liballoc_unlock = 0

unfoldable pub liballoc_alloc : ℕ → ℕ → Vm → Outcome Granted
liballoc_alloc rounds npages v = vm_alloc_kpages rounds npages v

-- It returns 0.
unfoldable pub liballoc_free : ℕ → ℕ → ℕ → Vm → Outcome Vm
liballoc_free rounds ptr npages v = vm_free_kpages rounds npages ptr v

-- The operators of C++, on the state `S` of the allocator.
module _ {S : Type 0} (malloc : ℕ → S → Outcome (ℕ × S)) where
  unfoldable pub operator_new : ℕ → S → Outcome (ℕ × S)
  operator_new size s = malloc size s

  unfoldable pub operator_new_array : ℕ → S → Outcome (ℕ × S)
  operator_new_array size s = malloc size s

module _ {S : Type 0} (free : ℕ → S → Outcome S) where
  unfoldable pub operator_delete : ℕ → S → Outcome S
  operator_delete p s = free p s

  unfoldable pub operator_delete_array : ℕ → S → Outcome S
  operator_delete_array p s = free p s
