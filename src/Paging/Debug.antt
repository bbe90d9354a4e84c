-- ===== src/Paging/Debug.antt =====
-- kernel/memory/vm.c: the output of `debug_as`.
use ma_os.Base.{ℕ, bit_and, [], ◌∷◌, codes}
use ma_os.Machine.{Io, ◌>>=◌, pure}
use ma_os.Paging.{AddressSpace, dir_index, tab_index}
use ma_os.Printf.Format.{int}
use ma_os.Console.{printf}

-- `directory_at` is the pointer `as->directory`.
unfoldable pub debug_as : AddressSpace → ℕ → ℕ → Io (Unit {0})
debug_as space directory_at addr = do
  let dir_idx = dir_index addr
  let de = space.directory dir_idx
  _ ←
      printf (codes "addr: %08x DIR: %d TAB: %d PAG: %d\n")
        (int addr ∷ int dir_idx ∷ int (tab_index addr) ∷ int (bit_and addr 0xFFF) ∷ [])
  _ ← printf (codes "Directory: %08x %08x\n") (int directory_at ∷ int space.directory_phys ∷ [])
  _ ←
      printf (codes "PDE: P: %d R/W: %d PS: %d Tab: %d\n")
        (int de.present ∷ int de.rw ∷ int de.page_size ∷ int de.page_table ∷ [])
  pure tt
