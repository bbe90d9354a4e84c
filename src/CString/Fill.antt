-- ===== src/CString/Fill.antt =====
-- `memset` fills a block of memory.
use ma_os.Base.{ℕ, zero, suc, ◌+◌, ◌≡◌, arith, ltb, leb, ◌&&◌, if◌then◌else◌, u8}
use ma_os.CString.{Memory, store, memset_from, memset}

-- `m'` has the byte `value` in the `n` bytes from `buf` on, and is `m` elsewhere.
abbrev pub Filled : ℕ → ℕ → ℕ → Memory → Memory → Type 0
Filled buf value n m m' = (x : ℕ) → m' x ≡ (if leb buf x && ltb x (buf + n) then u8 value else m x)

memset_from-Filled :
    (rounds i buf value : ℕ) (m : Memory)
    → Filled (buf + i) value rounds m (memset_from rounds i buf value m)
unfolding memset_from store
memset_from-Filled zero i buf value m x = ground arith
memset_from-Filled (suc rounds) i buf value m x =
    ground (arith, memset_from-Filled rounds (i + 1) buf value (store (buf + i) (u8 value) m) x)

pub memset-Filled : (buf value n : ℕ) (m : Memory) → Filled buf value n m (memset buf value n m)
unfolding memset
memset-Filled buf value n m x =
    let start : buf + 0 ≡ buf = omega arith in rw start at (memset_from-Filled n 0 buf value m x)
