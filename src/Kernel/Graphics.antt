-- ===== src/Kernel/Graphics.antt =====
-- kernel/kernel/kernel.cpp: `kernel_main` from its first call into the drawing loop.
use ma_os.Base.{ℕ, ◌+◌, ◌*◌, ◌%◌, ◌^◌, ◌≤◌, ◌<◌, ◌≡◌, List, Outcome, ok}
use ma_os.Machine.{Machine}
use ma_os.Float.{Floats}
use ma_os.Console.Spoken.{Spoken}
use ma_os.CString.Copy.{Apart}
use ma_os.Timer.Sleep.{at_time}
use ma_os.Vm.{Vm}
use ma_os.Paging.Touch.{IsMapped}
use ma_os.Gfx.{Multiboot, Gfx, gfx_framebuffer, fb_size_of, gfx_init}
use ma_os.Gfx.Enable.{HasPixels, bytes_of, Enables}
use ma_os.Kernel.{Kernel, start_up, render, buffer_size}
use ma_os.Kernel.Memory.{Loaded}
use ma_os.Kernel.Ready.{IsReady}
use ma_os.Kernel.Render.{time_after, IsShown}
use ma_os.Kernel.TextMode.{IsAnnouncement}

-- A frame buffer of 32 bits for each pixel, of whole pages and at most 16 MiB, and a `malloc` that
-- on a kernel whose 8 MiB and frame buffer are mapped returns a buffer beside them that is mapped,
-- and leaves the size alone and the frame buffer mapped.
pub record CanShow (mb : Multiboot) (malloc : ℕ → Kernel → Outcome (ℕ × Kernel)) (buffer : ℕ)
    : Type 0 where
  pub pixels : HasPixels mb
  pub depth : mb.framebuffer_bpp ≡ 32
  pub small : mb.framebuffer_height * mb.framebuffer_width < 2 ^ 27
  pub aligned : mb.framebuffer_addr % 4096 ≡ 0
  pub frames : mb.framebuffer_addr + bytes_of mb ≤ 2 ^ 32
  pub pages : bytes_of mb ≤ 0x1000000
  pub whole : bytes_of mb % 4096 ≡ 0
  pub apart : Apart gfx_framebuffer buffer (fb_size_of mb)
  pub end : buffer + fb_size_of mb ≤ 2 ^ 32
  pub serves :
      (k : Kernel)
      → IsMapped k.vm.current_as 0xC0000000 0x800000
      → IsMapped k.vm.current_as gfx_framebuffer (bytes_of mb)
      → (k' : Kernel) × (malloc (buffer_size mb) k ≡ ok (buffer, k'))
        × (k'.gfx.fb_size ≡ k.gfx.fb_size)
        × IsMapped k'.vm.current_as gfx_framebuffer (bytes_of mb)
        × IsMapped k'.vm.current_as buffer (bytes_of mb)

-- What `gfx_init` is called with.
abbrev pub on_space : Kernel → Gfx
on_space k = record k.gfx { space = k.vm.current_as }

-- The kernel has started, has said what the loader has set up, has enabled the frame buffer, and has
-- come through the rounds up to the one that is named.
pub record Draws (fl : Floats) (l : Loaded) (mb : Multiboot) (k : Kernel) (m : Machine)
    (rest : List ℕ) (buffer passed : ℕ) (later : List (List ℕ)) (colours : ℕ → ℕ → ℕ)
    (r : Outcome (Kernel × Machine)) : Type 0 where
  pub start : IsReady l mb k m rest (start_up l mb k m)
  pub text : List ℕ
  pub announced : IsAnnouncement mb text
  pub machine : Machine
  pub said : Spoken text start.machine machine
  pub enables : Enables mb (on_space start.out) (gfx_init mb (on_space start.out))
  pub screen : Gfx
  pub time : ℕ
  pub passes :
      r
      ≡ render fl mb buffer later
          (time_after fl (fl.literal 10 0) passed)
          screen
          (at_time time machine)
  pub shown : IsShown mb colours screen
  pub waited : m.ns_since_boot + passed * (100 * 1000000) ≤ time
