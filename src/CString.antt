-- ===== src/CString.antt =====
-- libc/string/string.c and memcpy.asm: bytes in memory. A pointer is an address, and an array does
-- not reach round the end of memory, so that addresses do not wrap.
pub mod Copy
pub mod Fill
pub mod Duplicate
use ma_os.Base.{
  ℕ, zero, suc, ◌+◌, ◌-◌, ◌*◌, ◌/◌, ◌%◌, ◌^◌, bit_and, Outcome, ok, unfinished, ◌>>=◌, ltb, ◌==◌,
  if◌then◌else◌, u8, u32, ◌>>>◌,
}

abbrev pub Memory : Type 0
Memory = ℕ → ℕ

unfoldable pub store : ℕ → ℕ → Memory → Memory
store a byte m x = if a == x then byte else m x

-- `while (str[len]) len++`, for at most `rounds` rounds.
unfoldable pub strlen_from : ℕ → ℕ → ℕ → Memory → Outcome ℕ
strlen_from zero str len m = unfinished
strlen_from (suc rounds) str len m =
    let rest = strlen_from rounds str (u32 (len + 1)) m in
    if m (str + len) == 0 then ok len else rest

unfoldable pub strlen : ℕ → ℕ → Memory → Outcome ℕ
strlen rounds str m = strlen_from rounds str 0 m

unfoldable pub memset_from : ℕ → ℕ → ℕ → ℕ → Memory → Memory
memset_from zero i buf value m = m
memset_from (suc rounds) i buf value m =
    memset_from rounds (i + 1) buf value (store (buf + i) (u8 value) m)

unfoldable pub memset : ℕ → ℕ → ℕ → Memory → Memory
memset buf value n m = memset_from n 0 buf value m

-- `for (; n > 0; n--, d++, s++)`.
unfoldable pub copy_bytes : ℕ → ℕ → ℕ → Memory → Memory
copy_bytes zero d s m = m
copy_bytes (suc n) d s m = copy_bytes n (d + 1) (s + 1) (store d (m s) m)

-- The four bytes at `s` are read before any is written.
unfoldable pub copy_dword : ℕ → ℕ → Memory → Memory
copy_dword d s m =
    store (d + 3) (m (s + 3))
      (store (d + 2) (m (s + 2)) (store (d + 1) (m (s + 1)) (store d (m s) m)))

unfoldable pub copy_dwords : ℕ → ℕ → ℕ → Memory → Memory
copy_dwords zero d s m = m
copy_dwords (suc n) d s m = copy_dwords n (d + 4) (s + 4) (copy_dword d s m)

-- The counter is tested behind the loop, so that a size below 4 runs it 2 ^ 32 times.
unfoldable pub memcpy_aligned : ℕ → ℕ → ℕ → Memory → Memory
memcpy_aligned dest src size m =
    copy_dwords (if size >>> 2 == 0 then 2 ^ 32 else size >>> 2) dest src m

-- `for (size_t i = n_aligned; i < n; i++) d[i] = s[i]`.
unfoldable pub copy_rest : ℕ → ℕ → ℕ → ℕ → Memory → Memory
copy_rest zero i d s m = m
copy_rest (suc rounds) i d s m = copy_rest rounds (i + 1) d s (store (d + i) (m (s + i)) m)

unfoldable pub memcpy : ℕ → ℕ → ℕ → Memory → Memory
memcpy dest src n m =
    if ltb n 16
    then copy_bytes n dest src m
    else let n_aligned = bit_and n 0xFFFFFFFC in
      copy_rest (n - n_aligned) n_aligned dest src (memcpy_aligned dest src n_aligned m)

-- A pointer that is returned, and the memory.
pub record Placed : Type 0 where
  pub pointer : ℕ
  pub memory : Memory

-- The part of `strdup` behind the call of `strlen`. `malloc` is that of libc/liballoc.
unfoldable pub duplicate : (ℕ → Memory → Placed) → ℕ → Memory → ℕ → Placed
duplicate malloc s m len =
    let dest = malloc (u32 (len + 1)) m in
    if dest.pointer == 0 then record { pointer = 0; memory = dest.memory } else record {
      pointer = dest.pointer;
      memory = memcpy dest.pointer s (u32 (len + 1)) dest.memory;
    }

unfoldable pub strdup : (ℕ → Memory → Placed) → ℕ → ℕ → Memory → Outcome Placed
strdup malloc rounds s m = do len ← strlen rounds s m; ok (duplicate malloc s m len)
