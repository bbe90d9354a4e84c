-- ===== src/Pmm.antt =====
-- kernel/memory/pmm.c: the allocator of physical frames, a buddy system without recombination.
-- Its static variables are the record `Pmm`; an operation returns the new record. `buddies[i]` has
-- one bit for each aligned block of 2 ^ i frames, and a set bit means that the block is free.
-- The DEBUG lines print nothing, since `dbflags` is 0, and are left out.
pub mod Log
pub mod Cover
pub mod Mark
pub mod Managed
pub mod Alloc
pub mod Free
pub mod Oversize
pub mod History
pub mod Align
pub mod Layout
pub mod Init
pub mod Debug
use ma_os.Base.{
  ℕ, zero, suc, ◌+◌, ◌-◌, ◌*◌, ◌/◌, ◌^◌, min, bit_and, Bool, true, false, Option, none, some, List,
  [], ◌∷◌, Outcome, ok, panic, fault, ◌>>=◌, ◌>>◌, access, assert, get_elem?, ltb, leb, ◌==◌,
  if◌then◌else◌, u32, sub32, not32, ◌<<<◌, ◌>>>◌,
}
use ma_os.Base.{set as set_elem}
use ma_os.Bitset
use ma_os.Bitset.{Bitset}

-- kernel/include/kernel/common.h: `err_t`, and the masks.
pub data Err : Type 0 where
  e_ok e_nomem e_device : Err

unfoldable pub mask : ℕ → ℕ
mask bits = (1 <<< bits) - 1

unfoldable pub align_bits_down : ℕ → ℕ → ℕ
unfolding mask
align_bits_down val bits = bit_and val (not32 (mask bits))

unfoldable pub align_bits_up : ℕ → ℕ → ℕ
unfolding mask
align_bits_up val bits = bit_and (u32 (val + mask bits)) (not32 (mask bits))

-- kernel/include/kernel/memory.h: pages.
abbrev pub page_bits : ℕ
page_bits = 12

abbrev pub page_size : ℕ
page_size = 1 <<< page_bits

unfoldable pub page_align : ℕ → ℕ
unfolding align_bits_up
page_align addr = align_bits_up addr page_bits

-- kernel/linker.ld: the addresses that do not depend on the size of the kernel.
abbrev pub kernel_offset : ℕ
kernel_offset = 0xC0000000

abbrev pub kernel_boot_mapped : ℕ
kernel_boot_mapped = 0xC0800000

abbrev pub pmm_num_buddies : ℕ
pmm_num_buddies = 7

pub record Pmm : Type 0 where
  pub managed_first : ℕ
  pub managed_last : ℕ
  pub buddies : List Bitset
  pub buddy_base : ℕ

unfoldable pub estimate_bytes_required : ℕ → ℕ
estimate_bytes_required avail = let n_frames = avail / page_size in n_frames / 4

unfoldable pub phys2virtual : ℕ → ℕ
phys2virtual addr = u32 (addr + kernel_offset)

unfoldable pub get_border : Pmm → ℕ
unfolding phys2virtual
get_border p = phys2virtual p.managed_first

-- The `count` dwords that memory holds from `address` on.
unfoldable pub dwords_at : (ℕ → ℕ) → ℕ → ℕ → List ℕ
dwords_at memory address zero = []
dwords_at memory address (suc count) = memory address ∷ dwords_at memory (u32 (address + 4)) count

-- `buddies[i]` and the ones after it, each laid behind the one before: `n_frames >> (5 + i)`
-- dwords. `rounds` levels follow `buddies[i]`.
unfoldable pub lay_out : (ℕ → ℕ) → ℕ → ℕ → ℕ → Bitset → List Bitset
lay_out memory n_frames zero i prev = prev ∷ []
lay_out memory n_frames (suc rounds) i prev =
    let address = u32 (prev.address + 4 * Bitset.len prev) in
    let next : Bitset = record {
      address = address;
      dwords = dwords_at memory address (n_frames >>> (5 + i));
    } in
    prev ∷ lay_out memory n_frames rounds (i + 1) next

-- All levels are filled with zeros but for the last, which is filled with ones.
unfoldable pub fill_levels : List Bitset → List Bitset
fill_levels [] = []
fill_levels (b ∷ []) = Bitset.fill b 0xFFFFFFFF ∷ []
fill_levels (b ∷ c ∷ bs) = Bitset.fill b 0 ∷ fill_levels (c ∷ bs)

-- `memory` is what the memory holds before, `kernel_end_phys` the linker's KERNEL_END_PHYS.
unfoldable pub init : (ℕ → ℕ) → ℕ → ℕ → Outcome Pmm
init memory kernel_end_phys upper_bound =
    let avail_first = kernel_end_phys in
    let avail = sub32 upper_bound avail_first in
    let required = estimate_bytes_required avail in
    let managed_first = page_align (u32 (avail_first + required)) in
    let managed = sub32 upper_bound managed_first in
    let n_frames = align_bits_down (managed / page_size) (pmm_num_buddies - 1 + 5) in
    let address = phys2virtual avail_first in
    let first : Bitset = record {
      address = address;
      dwords = dwords_at memory address (n_frames / 32);
    } in
    do
      assert (leb managed_first kernel_boot_mapped)
      ok record {
        managed_first = managed_first;
        managed_last = upper_bound;
        buddies = fill_levels (lay_out memory n_frames (pmm_num_buddies - 1) 1 first);
        buddy_base = managed_first;
      }

-- A call on `&buddies[level]`, which updates that bit set.
unfoldable pub at_level : List Bitset → ℕ → (Bitset → Outcome Bitset) → Outcome (List Bitset)
at_level buddies level update = do
  b ← access (get_elem? buddies level)
  b' ← update b
  ok (set_elem buddies level b')

-- With `level` 0 and more than one frame the source calls itself at level -1, where it shifts by
-- a negative number and reads `buddies[-1]`: a fault.
unfoldable pub mark_used : ℕ → ℕ → ℕ → List Bitset → Outcome (List Bitset)
mark_used zero n_frames idx buddies =
    if n_frames == 1
    then at_level buddies 0 (λ b. Bitset.clear b idx)
    else if n_frames == 0
    then at_level buddies 0 (λ b. Bitset.set b idx)
    else fault
mark_used (suc level) n_frames idx buddies =
    let capacity = 1 <<< level in
    let rest = if ltb capacity n_frames then n_frames - capacity else 0 in
    let halves =
      mark_used level (min n_frames capacity) (u32 (idx * 2)) buddies
      >>= mark_used level rest (u32 (idx * 2 + 1)) in
    if n_frames == 1 <<< suc level
    then at_level buddies (suc level) (λ b. Bitset.clear b idx)
    else if n_frames == 0
    then at_level buddies (suc level) (λ b. Bitset.set b idx)
    else halves

-- `while (n >>= 1) ans++`, for at most `rounds` rounds.
unfoldable pub log2_loop : ℕ → ℕ → ℕ → ℕ
log2_loop zero n ans = ans
log2_loop (suc rounds) n ans =
    let again = log2_loop rounds (n >>> 1) (ans + 1) in if n >>> 1 == 0 then ans else again

-- A `size_t` is zero after 32 shifts.
unfoldable pub log2 : ℕ → ℕ
log2 n = log2_loop 32 n 0

-- The new state, the error code, and what is stored in `*addr`.
pub record Allocation : Type 0 where
  pub pmm : Pmm
  pub err : Err
  pub addr : ℕ

-- The body of the search in `pmm_alloc_buddy`, where block `idx` of level `i` is free.
unfoldable pub take_block : ℕ → ℕ → ℕ → Pmm → Outcome Allocation
take_block i n_frames idx p = do
  cleared ← at_level p.buddies i (λ b. Bitset.clear b idx)
  marked ← mark_used i n_frames idx cleared
  ok record {
    pmm = record p { buddies = marked };
    err = e_ok;
    addr = u32 (p.buddy_base + u32 ((page_size <<< i) * idx));
  }

-- The loop of `pmm_alloc_buddy` at level `i`, with `rounds` levels left.
unfoldable pub alloc_from : ℕ → ℕ → ℕ → Pmm → Outcome Allocation
alloc_from zero i n_frames p = ok record { pmm = p; err = e_nomem; addr = 0 }
alloc_from (suc rounds) i n_frames p =
    let next = alloc_from rounds (i + 1) n_frames p in
    do
      b ← access (get_elem? p.buddies i)
      elim (Bitset.find b) [ none ↦ next | some idx ↦ take_block i n_frames idx p ]

unfoldable pub alloc_buddy : ℕ → Pmm → Outcome Allocation
alloc_buddy n_frames p =
    let min_level = log2 n_frames in alloc_from (pmm_num_buddies - min_level) min_level n_frames p

unfoldable pub alloc : ℕ → Pmm → Outcome Allocation
alloc n_frames p = alloc_buddy n_frames p

unfoldable pub free : ℕ → ℕ → Pmm → Outcome Pmm
free n_frames addr p = if ltb addr p.buddy_base then panic else do
  let frame_no = (addr - p.buddy_base) / page_size
  let level = log2 n_frames
  let idx = frame_no >>> level
  buddies ← at_level p.buddies level (λ b. Bitset.set b idx)
  ok (record p { buddies = buddies })
