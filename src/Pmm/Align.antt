-- ===== src/Pmm/Align.antt =====
-- The alignment macros of kernel/include/kernel/common.h as rounding.
use ma_os.Base.{ℕ, ◌+◌, ◌-◌, ◌*◌, ◌/◌, ◌^◌, ◌≤◌, ◌<◌, ◌≡◌, arith, u32, not32}
use ma_os.Base.Bits.{bit_and-high}
use native.Mathlib.Nat.{one-le-pow}
use ma_os.Pmm.{align_bits_down, page_align}

-- ALIGN_BITS_DOWN rounds down to a multiple of 2 ^ bits.
pub align_bits_down_lem :
    (val bits : ℕ) → bits ≤ 32 → val < 2 ^ 32 → align_bits_down val bits ≡ val / 2 ^ bits * 2 ^ bits
unfolding align_bits_down
align_bits_down_lem val bits le h =
    let same : not32 (1 * 2 ^ bits - 1) ≡ 2 ^ 32 - 2 ^ bits = omega (arith, one-le-pow bits 2) in
    rw same (bit_and-high 32 bits val le h)

-- PAGE_ALIGN rounds up to a multiple of the page size.
pub page_align_lem :
    (addr : ℕ) → addr + 4095 < 2 ^ 32 → page_align addr ≡ (addr + 4095) / 4096 * 4096
unfolding page_align
page_align_lem addr h =
    let small : u32 (addr + 4095) ≡ addr + 4095 = omega arith in
    rw small (bit_and-high 32 12 (addr + 4095) (omega arith) h)
