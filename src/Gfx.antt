-- ===== src/Gfx.antt =====
-- kernel/gfx/gfx.cpp, kernel/include/kernel/multiboot.h: the frame buffer. Of the multiboot
-- structure, the fields that the kernel reads. The DEBUG line prints nothing. A range of memory that
-- is set or copied must be mapped: a page of it that is not ends in a page fault, which panics.
pub mod Enable
use ma_os.Base.{
  ℕ, ◌*◌, ◌/◌, bit_and, Bool, true, false, Outcome, ok, ◌>>=◌, ◌>>◌, ◌==◌, if◌then◌else◌, u32,
  ◌<<<◌,
}
use ma_os.Paging.{AddressSpace, vm_dma}
use ma_os.Paging.Touch.{touch_range}
use ma_os.CString.{Memory, memset, memcpy}

abbrev pub mb_flag_framebuffer : ℕ
mb_flag_framebuffer = 1 <<< 12

pub record Multiboot : Type 0 where
  pub flags : ℕ
  pub mem_upper : ℕ
  pub framebuffer_addr : ℕ
  pub framebuffer_pitch : ℕ
  pub framebuffer_width : ℕ
  pub framebuffer_height : ℕ
  pub framebuffer_bpp : ℕ
  pub framebuffer_type : ℕ

-- The static variables, with the address space and the memory that they are used on.
pub record Gfx : Type 0 where
  pub enabled : Bool
  pub fb_size : ℕ
  pub space : AddressSpace
  pub memory : Memory

abbrev pub gfx_framebuffer : ℕ
gfx_framebuffer = 0xFF000000

unfoldable pub fb_size_of : Multiboot → ℕ
fb_size_of mb = u32 (u32 (mb.framebuffer_width * mb.framebuffer_height) * mb.framebuffer_bpp) / 8

-- The new state, and the result.
unfoldable pub gfx_init : Multiboot → Gfx → Outcome (Bool × Gfx)
gfx_init mb g =
    if bit_and mb.flags mb_flag_framebuffer == 0
    then ok (false, g)
    else if mb.framebuffer_type == 2
    then ok (false, g)
    else do
      space ← vm_dma g.space mb.framebuffer_addr gfx_framebuffer (fb_size_of mb)
      touch_range space gfx_framebuffer (fb_size_of mb)
      ok (
        true,
        record {
          enabled = true;
          fb_size = fb_size_of mb;
          space = space;
          memory = memset gfx_framebuffer 100 (fb_size_of mb) g.memory;
        },
      )

unfoldable pub gfx_apply : ℕ → Gfx → Outcome Gfx
gfx_apply buffer g = do
  touch_range g.space buffer g.fb_size
  touch_range g.space gfx_framebuffer g.fb_size
  ok (record g { memory = memcpy gfx_framebuffer buffer g.fb_size g.memory })
