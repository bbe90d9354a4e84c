-- ===== src/Vm/Debug.antt =====
-- kernel/memory/vm.c: the output of `vm_debug`, and the macro DEBUG of kernel/include/kernel/common.h.
use ma_os.Base.{
  ℕ, zero, suc, bit_and, Option, none, some, List, [], ◌∷◌, unfinished, ◌==◌, if◌then◌else◌, codes,
}
use ma_os.FreeList.{Heap}
use ma_os.Machine.{Io, ◌>>=◌, ◌>>◌, pure, lift}
use ma_os.Printf.Format.{Arg, int}
use ma_os.Console.{printf}
use ma_os.Vm.{Vm}

-- Nothing writes to it.
abbrev pub dbflags : ℕ
dbflags = 0

abbrev pub db_memory : ℕ
db_memory = 1

unfoldable pub debug : ℕ → List ℕ → List Arg → Io (Unit {0})
debug d format args =
    if bit_and dbflags d == 0 then pure tt else (do _ ← printf format args; pure tt)

-- The loop along the list, for at most `rounds` buckets.
unfoldable pub debug_from : ℕ → Heap → Option ℕ → Io (Unit {0})
debug_from rounds h none = pure tt
debug_from zero h (some node) = lift unfinished
debug_from (suc rounds) h (some node) = do
  debug db_memory (codes "* %08x (%08x)\n") (int (h node).pageno ∷ int (h node).size ∷ [])
  debug_from rounds h (h node).next

unfoldable pub vm_debug : ℕ → Vm → Io (Unit {0})
vm_debug rounds v = do
  debug db_memory (codes "VM DEBUG:\n") []
  debug_from rounds v.heap v.kernel_buckets
