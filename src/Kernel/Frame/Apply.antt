-- ===== src/Kernel/Frame/Apply.antt =====
-- A picture on the screen.
use ma_os.Base.{ℕ, suc, ◌+◌, ◌*◌, ◌^◌, ◌≤◌, ◌<◌, ◌≡◌, refl, ap, ◌∙◌, ok, arith}
use native.Mathlib.Nat.{mul_comm, suc-mul, mul-le-mul_right}
use ma_os.Float.{Floats}
use ma_os.CString.{Memory, memcpy}
use ma_os.CString.Copy.{Apart, Copied, memcpy-Copied}
use ma_os.Paging.Touch.{IsMapped, touch_range-ok}
use ma_os.Gfx.{Multiboot, Gfx, gfx_framebuffer, fb_size_of, gfx_apply}
use ma_os.Kernel.Frame.{pixel_colour, draw_frame}
use ma_os.Kernel.Frame.Pixels.{dword_at, draw_rows-Picture}

dword_at-Copied :
    (d s n p : ℕ) (m m' : Memory)
    → Copied d s n m m'
    → p + 4 ≤ n
    → dword_at m' (d + p) ≡ dword_at m (s + p)
dword_at-Copied d s n p m m' (copied, kept) h =
    let at : (i : ℕ) → i < 4 → m' (d + p + i) ≡ m (s + p + i) = λ i l.
      let to : d + p + i ≡ d + (p + i) = omega arith in
      let from : s + p + i ≡ s + (p + i) = omega arith in
      rw (to, from) (copied (p + i) (omega arith)) in
    let to : d + p + 0 ≡ d + p = omega arith in
    let from : s + p + 0 ≡ s + p = omega arith in
    let first : m' (d + p) ≡ m (s + p) = rw (to, from) at (at 0 (omega arith)) in
    omega (arith, first, at 1 (omega arith), at 2 (omega arith), at 3 (omega arith))

-- The size of a frame buffer of four bytes for each pixel.
four_bytes :
    (mb : Multiboot)
    → mb.framebuffer_bpp ≡ 32
    → mb.framebuffer_height * mb.framebuffer_width < 2 ^ 27
    → fb_size_of mb ≡ 4 * (mb.framebuffer_height * mb.framebuffer_width)
unfolding fb_size_of
four_bytes mb depth small =
    let area : mb.framebuffer_width * mb.framebuffer_height
        ≡ mb.framebuffer_height * mb.framebuffer_width =
      mul_comm mb.framebuffer_width mb.framebuffer_height in
    rw (depth, area) (omega arith)

in_picture : (width height j x : ℕ) → j < height → x < width → j * width + x + 1 ≤ height * width
in_picture width height j x h l =
    let rows : suc j * width ≤ height * width = mul-le-mul_right width h in
    omega (arith, rows, suc-mul j width)

-- On a frame buffer of 32 bits for each pixel, of which there are fewer than 2^27, and with a
-- buffer that does not overlap it, both of them mapped: where every pixel has a colour, one round of drawing returns,
-- and the four bytes for column `x` of row `j` on the screen are the colour of that pixel.
pub draw_frame-dword_at :
    (fl : Floats) (mb : Multiboot) (buffer : ℕ) (time : fl.Float) (g : Gfx) (colours : ℕ → ℕ → ℕ)
    → mb.framebuffer_bpp ≡ 32
    → mb.framebuffer_height * mb.framebuffer_width < 2 ^ 27
    → g.fb_size ≡ fb_size_of mb
    → Apart gfx_framebuffer buffer (fb_size_of mb)
    → gfx_framebuffer + fb_size_of mb ≤ 2 ^ 32
    → buffer + fb_size_of mb ≤ 2 ^ 32
    → IsMapped g.space gfx_framebuffer (fb_size_of mb)
    → IsMapped g.space buffer (fb_size_of mb)
    → ((j x : ℕ)
        → j < mb.framebuffer_height
        → x < mb.framebuffer_width
        → (pixel_colour fl time j x ≡ ok (colours j x)) × (colours j x < 2 ^ 32))
    → (g' : Gfx) × (draw_frame fl mb buffer time g ≡ ok g')
      × (g'.fb_size ≡ g.fb_size)
      × (g'.space ≡ g.space)
      × ((j x : ℕ)
          → j < mb.framebuffer_height
          → x < mb.framebuffer_width
          → dword_at g'.memory (gfx_framebuffer + 4 * (j * mb.framebuffer_width + x)) ≡ colours j x)
unfolding draw_frame gfx_apply
draw_frame-dword_at fl mb buffer time g colours depth small size apart top end target source all =
    let width = mb.framebuffer_width in
    let height = mb.framebuffer_height in
    let bytes = four_bytes mb depth small in
    let (d, drawn, picture) =
      draw_rows-Picture fl time colours width height 0 buffer g.memory
        (λ j x low high l. all j x (omega arith) l) in
    let reads = touch_range-ok g.space buffer (fb_size_of mb) end source in
    let writes = touch_range-ok g.space gfx_framebuffer (fb_size_of mb) top target in
    let copied =
      memcpy-Copied gfx_framebuffer buffer (fb_size_of mb) d.memory (omega (arith, bytes)) apart in
    (
      record g { memory = memcpy gfx_framebuffer buffer g.fb_size d.memory },
      rw (drawn, size, reads, writes) refl,
      refl,
      refl,
      λ j x h l.
          let inside = in_picture width height j x h l in
          let line : 0 + j ≡ j = omega arith in
          rw size (
            dword_at-Copied gfx_framebuffer buffer (fb_size_of mb) (4 * (j * width + x)) d.memory
              (memcpy gfx_framebuffer buffer (fb_size_of mb) d.memory) copied
              (omega (arith, bytes, inside)))
          ∙ picture.pixels j x h l
          ∙ ap (λ (t : ℕ). colours t x) line,
    )
