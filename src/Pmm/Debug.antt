-- ===== src/Pmm/Debug.antt =====
-- kernel/memory/pmm.c: the output of `pmm_debug`, a line for each level.
use ma_os.Base.{
  ℕ, zero, suc, ◌+◌, ◌-◌, Bool, none, some, [], ◌∷◌, Outcome, fault, get_elem?, if◌then◌else◌,
  codes, ◌<<<◌,
}
use ma_os.Machine.{Io, ◌>>=◌, ◌>>◌, pure, lift}
use ma_os.Bitset
use ma_os.Pmm.{Pmm, pmm_num_buddies}
use ma_os.Printf.Format.{int, str}
use ma_os.Console.{printf}

-- `bitset_read(&buddies[i], j)`.
unfoldable pub read_buddy : Pmm → ℕ → ℕ → Outcome Bool
read_buddy p i j = elim (get_elem? p.buddies i) [ none ↦ fault | some b ↦ Bitset.read b j ]

-- The inner loop: `count` blanks.
unfoldable pub print_spacing : ℕ → Io (Unit {0})
print_spacing zero = pure tt
print_spacing (suc count) = do _ ← printf (codes " ") []; print_spacing count

-- The middle loop: `count` blocks of level `i` from block `j` on.
unfoldable pub print_blocks : Pmm → ℕ → ℕ → ℕ → Io (Unit {0})
print_blocks p i zero j = pure tt
print_blocks p i (suc count) j = do
  bit ← lift (read_buddy p i j)
  _ ← printf (codes "%s") (str (if bit then codes "#" else codes ".") ∷ [])
  print_spacing ((1 <<< i) - 1)
  print_blocks p i count (j + 1)

-- The outer loop: `count` levels from `i` on.
unfoldable pub print_levels : Pmm → ℕ → ℕ → Io (Unit {0})
print_levels p zero i = pure tt
print_levels p (suc count) i = do
  _ ← printf (codes "%d: ") (int i ∷ [])
  print_blocks p i (1 <<< (6 - i)) 0
  _ ← printf (codes "\n") []
  print_levels p count (i + 1)

unfoldable pub pmm_debug : Pmm → Io (Unit {0})
pmm_debug p = print_levels p pmm_num_buddies 0
