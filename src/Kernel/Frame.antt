-- ===== src/Kernel/Frame.antt =====
-- kernel/kernel/kernel.cpp: the picture that the loop of `kernel_main` draws at one time.
pub mod Pixels
pub mod Apply
use ma_os.Base.{ℕ, zero, suc, ◌+◌, Outcome, ok, ◌>>=◌, u8, ◌>>>◌}
use ma_os.Float.{Floats}
use ma_os.Colors.{hsv2rgbfast}
use ma_os.CString.{Memory, store}
use ma_os.Gfx.{Multiboot, Gfx, gfx_apply}

-- `6.0f / M_2_PI`.
abbrev pub factor : (fl : Floats) → fl.Float
factor fl = fl.div (fl.literal 6 0) (fl.literal 6283185307179586 15)

-- `hue` in row `y`.
abbrev pub row_hue : (fl : Floats) → fl.Float → ℕ → fl.Float
row_hue fl time y =
    let scale = fl.div (fl.fsin time) (fl.literal 50 0) in
    fl.fmod (fl.add (fl.mul (factor fl) (fl.fsin (fl.mul scale (fl.of_uint y)))) time)
      (fl.literal 6 0)

unfoldable pub pixel_colour : (fl : Floats) → fl.Float → ℕ → ℕ → Outcome ℕ
pixel_colour fl time y x =
    hsv2rgbfast fl (fl.add (row_hue fl time y) (fl.mul (fl.of_uint x) (fl.literal 1 2)))

-- `*buf = v`, the low byte first.
unfoldable pub store_dword : ℕ → ℕ → Memory → Memory
store_dword a v m =
    store (a + 3) (u8 (v >>> 24))
      (store (a + 2) (u8 (v >>> 16)) (store (a + 1) (u8 (v >>> 8)) (store a (u8 v) m)))

-- The pointer behind what is drawn, and the memory.
pub record Drawn : Type 0 where
  pub buf : ℕ
  pub memory : Memory

-- The inner loop: `count` pixels of row `y` from `x` on.
unfoldable pub draw_row : (fl : Floats) → fl.Float → ℕ → ℕ → ℕ → ℕ → Memory → Outcome Drawn
draw_row fl time y zero x buf m = ok record { buf = buf; memory = m }
draw_row fl time y (suc count) x buf m = do
  col ← pixel_colour fl time y x
  draw_row fl time y count (x + 1) (buf + 4) (store_dword buf col m)

-- The outer loop: `count` rows from `y` on.
unfoldable pub draw_rows : (fl : Floats) → fl.Float → ℕ → ℕ → ℕ → ℕ → Memory → Outcome Drawn
draw_rows fl time width zero y buf m = ok record { buf = buf; memory = m }
draw_rows fl time width (suc count) y buf m = do
  row ← draw_row fl time y width 0 buf m
  draw_rows fl time width count (y + 1) row.buf row.memory

-- The picture at `time`, drawn to `buffer` and shown. Only `gfx_apply`, which reads the same bytes,
-- tests that `buffer` is mapped.
unfoldable pub draw_frame : (fl : Floats) → Multiboot → ℕ → fl.Float → Gfx → Outcome Gfx
draw_frame fl mb buffer time g = do
  d ← draw_rows fl time mb.framebuffer_width mb.framebuffer_height 0 buffer g.memory
  gfx_apply buffer (record g { memory = d.memory })
