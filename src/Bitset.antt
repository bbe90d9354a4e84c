-- ===== src/Bitset.antt =====
-- libc/bitset/bitset.c and libc/include/bitset.h: bit sets stored in 32-bit dwords.
-- A `bitset32_t` is its `data` pointer with the dwords that it points at; `len` is their number.
-- A function that updates the set returns the new one. An index whose slot is not below `len` is
-- an access out of bounds, and ends in `fault`.
pub mod Member
pub mod Find
use ma_os.Base.{
  ℕ, zero, suc, ◌+◌, ◌*◌, ◌/◌, ◌%◌, ◌^◌, bit_and, bit_or, Bool, true, false, not, Option, none,
  some, List, [], ◌∷◌, map, Outcome, ok, ◌>>=◌, access, get_elem?, length, ◌==◌, if◌then◌else◌, u32,
  not32, ◌<<<◌, ◌>>>◌,
}
use ma_os.Base.{set as set_elem}

pub record Bitset : Type 0 where
  pub address : ℕ
  pub dwords : List ℕ

-- The field `len`.
abbrev pub len : Bitset → ℕ
len b = length b.dwords

-- The macros BIT_MASK and BIT_SLOT.
abbrev pub bit_mask : ℕ → ℕ
bit_mask b = u32 (1 <<< (b % 32))

abbrev pub bit_slot : ℕ → ℕ
bit_slot b = b / 32

-- The inner loop of `bitset_find` at `j`, with `rounds` left.
unfoldable pub find_bit : ℕ → ℕ → ℕ → Option ℕ
find_bit zero j item = none
find_bit (suc rounds) j item =
    let rest = find_bit rounds (j + 1) (item >>> 1) in if bit_and item 1 == 0 then rest else some j

-- The outer loop, at the dword `i`.
unfoldable pub find_from : ℕ → List ℕ → Option ℕ
find_from i [] = none
find_from i (item ∷ items) =
    let rest = find_from (i + 1) items in
    if item == 0
    then rest
    else elim (find_bit 32 0 item) [ none ↦ rest | some j ↦ some (u32 (32 * i + j)) ]

-- `none` is the result `false`, and `some` the index that is stored in `*result`.
unfoldable pub find : Bitset → Option ℕ
unfolding find_from find_bit
find b = find_from 0 b.dwords

unfoldable pub read : Bitset → ℕ → Outcome Bool
read b idx = do
  item ← access (get_elem? b.dwords (bit_slot idx))
  ok (not (bit_and item (bit_mask idx) == 0))

unfoldable pub set : Bitset → ℕ → Outcome Bitset
set b idx = do
  item ← access (get_elem? b.dwords (bit_slot idx))
  ok (record b { dwords = set_elem b.dwords (bit_slot idx) (bit_or item (bit_mask idx)) })

unfoldable pub clear : Bitset → ℕ → Outcome Bitset
clear b idx = do
  item ← access (get_elem? b.dwords (bit_slot idx))
  ok (record b { dwords = set_elem b.dwords (bit_slot idx) (bit_and item (not32 (bit_mask idx))) })

unfoldable pub write : Bitset → ℕ → Bool → Outcome Bitset
unfolding set clear
write b idx state = if state then set b idx else clear b idx

unfoldable pub fill : Bitset → ℕ → Bitset
fill b value = record b { dwords = map (λ _. value) b.dwords }
