-- ===== src/Pmm/Init.antt =====
-- `pmm_init`: the memory that it manages, where it keeps the buddies, and that every frame is free.
use ma_os.Base.{
  ℕ, ◌+◌, ◌-◌, ◌*◌, ◌/◌, ◌^◌, ◌≤◌, ◌<◌, ◌≡◌, refl, sym, ◌∙◌, true, Outcome, ok, arith, leb, ltb,
  if◌then◌else◌, u32, sub32,
}
use ma_os.Bitset.{Bitset}
use ma_os.Pmm.{
  Pmm, page_size, page_align, kernel_offset, phys2virtual, estimate_bytes_required, align_bits_down,
  dwords_at, lay_out, fill_levels, init,
}
use ma_os.Pmm.Align.{align_bits_down_lem, page_align_lem}
use ma_os.Pmm.Cover.{free_blocks}
use ma_os.Pmm.Managed.{IsManaged}
use ma_os.Pmm.Layout.{IsPacked, IsFilled, length-dwords_at, lay_out-IsFilled}

-- The first frame and the number of frames of the memory between the end of the kernel and
-- `upper`, where a quarter of a byte of every page is set aside for the buddies.
abbrev pub first_managed : ℕ → ℕ → ℕ
first_managed kernel_end upper = (kernel_end + (upper - kernel_end) / 4096 / 4 + 4095) / 4096 * 4096

abbrev pub frame_count : ℕ → ℕ → ℕ
frame_count kernel_end upper = (upper - first_managed kernel_end upper) / 4096 / 2048 * 2048

pub record Initialised (kernel_end upper : ℕ) (result : Outcome Pmm) : Type 0 where
  pub out : Pmm
  pub returns : result ≡ ok out
  pub border : out.managed_first ≡ first_managed kernel_end upper
  pub base : out.buddy_base ≡ first_managed kernel_end upper
  pub managed : IsManaged (frame_count kernel_end upper) out
  pub all_free :
      (f : ℕ)
      → free_blocks 0 out.buddies f ≡ (if ltb f (frame_count kernel_end upper) then 1 else 0)
  pub packed :
      IsPacked
        (kernel_end + kernel_offset)
        out.buddies
        (first_managed kernel_end upper + kernel_offset)

-- With the end of the managed memory behind its beginning, below the 8 MiB that are mapped at
-- boot, `pmm_init` makes the buddies of all whole groups of 2048 frames.
module _ (memory : ℕ → ℕ) (kernel_end upper : ℕ) (ordered : kernel_end ≤ upper)
    (word : upper < 2 ^ 32) (mapped : first_managed kernel_end upper ≤ 0x800000)
    (behind : first_managed kernel_end upper ≤ upper) where
  first-eq :
      page_align (u32 (kernel_end + estimate_bytes_required (sub32 upper kernel_end)))
      ≡ first_managed kernel_end upper
  unfolding estimate_bytes_required
  first-eq =
      let avail : sub32 upper kernel_end ≡ upper - kernel_end = omega arith in
      let sum : u32 (kernel_end + (upper - kernel_end) / 4096 / 4)
          ≡ kernel_end + (upper - kernel_end) / 4096 / 4 =
        omega arith in
      rw (avail, sum) (page_align_lem _ (omega arith))

  frames-eq :
      align_bits_down (sub32 upper (first_managed kernel_end upper) / page_size) 11
      ≡ frame_count kernel_end upper
  frames-eq =
      let managed : sub32 upper (first_managed kernel_end upper)
          ≡ upper - first_managed kernel_end upper =
        omega arith in
      rw managed (
        align_bits_down_lem ((upper - first_managed kernel_end upper) / 4096) 11 (omega arith)
          (omega arith))

  groups : ℕ
  groups = (upper - first_managed kernel_end upper) / 4096 / 2048

  stop : ℕ
  stop = first_managed kernel_end upper + kernel_offset

  first_level : Bitset
  first_level = record {
    address = phys2virtual kernel_end;
    dwords = dwords_at memory (phys2virtual kernel_end) (frame_count kernel_end upper / 32);
  }

  start-eq : phys2virtual kernel_end ≡ kernel_end + kernel_offset
  unfolding phys2virtual
  start-eq = omega arith

  filled :
      IsFilled 0
        (frame_count kernel_end upper)
        (kernel_end + kernel_offset)
        stop
        6
        (fill_levels (lay_out memory (frame_count kernel_end upper) 6 1 first_level))
  unfolding groups stop first_level
  filled = rw (sym start-eq) (
      lay_out-IsFilled memory groups (frame_count kernel_end upper) stop (omega arith) 6 0 1
        first_level (omega arith) (omega arith)
        (length-dwords_at memory (phys2virtual kernel_end) (frame_count kernel_end upper / 32)
          ∙ omega arith)
        (omega (arith, start-eq)))

  -- `pmm_init` returns with every frame of the whole groups of 2048 free in exactly one block, its
  -- levels well formed, and their storage packed between the end of the kernel and the first
  -- managed frame. The managed memory ends below 4 GiB, and begins within the 8 MiB that are
  -- mapped at boot.
  pub init-Initialised : Initialised kernel_end upper (init memory kernel_end upper)
  unfolding init stop
  init-Initialised =
      let fine : leb (first_managed kernel_end upper) 0xC0800000 ≡ true = ground arith in
      rw (first-eq, frames-eq, fine)
        record {
          out = record {
            managed_first = first_managed kernel_end upper;
            managed_last = upper;
            buddies = fill_levels (lay_out memory (frame_count kernel_end upper) 6 1 first_level);
            buddy_base = first_managed kernel_end upper;
          };
          returns = unfold first_level in refl;
          border = refl;
          base = refl;
          managed = record {
            count = filled.count;
            levels = filled.levels;
            single = λ f. ground (arith, filled.free f);
            addressable = omega arith;
          };
          all_free = filled.free;
          packed = filled.packed;
        }
