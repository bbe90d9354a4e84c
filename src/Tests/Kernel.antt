-- ===== src/Tests/Kernel.antt =====
-- The start of the kernel, and its pictures.
use ma_os.Base.{
  ℕ, zero, suc, ◌+◌, ◌*◌, ◌<◌, ◌≤◌, ◌≡◌, ◌^◌, refl, true, false, List, [], ◌∷◌, ok, none, length,
  arith, Bool, Outcome, panic, fault, unfinished, ltb, ◌&&◌, ℕ_discrete,
}
use ma_os.Machine.{Machine}
use ma_os.Console.Output.{Served, serial_bytes}
use ma_os.Kernel.Render.{time_after, HasColours}
use ma_os.Kernel.Memory.{Loaded}
use ma_os.Kernel.Parts.{pit_line}
use ma_os.Tests.Console.{corner}
use ma_os.Float.{within}
use ma_os.Colors.{rgb, sector_colour, hsv2rgbfast}
use ma_os.Gfx.{Multiboot, Gfx}
use ma_os.Kernel.Frame.{pixel_colour}
use ma_os.Tests.Floats.{Fixed, fixed_floats, fixed}
use ma_os.Tests.Pages.{space}

-- Two pixels.
abbrev pub two_pixels : Multiboot
two_pixels = record {
  flags = 0x1000;
  mem_upper = 0;
  framebuffer_addr = 0xFD000000;
  framebuffer_pitch = 8;
  framebuffer_width = 2;
  framebuffer_height = 1;
  framebuffer_bpp = 32;
  framebuffer_type = 1;
}

abbrev pub screen : Gfx
screen = record { enabled = true; fb_size = 8; space = space; memory = λ a. 0 }

-- `count` times the answer `a`, in front of others.
abbrev pub repeat : ℕ → ℕ → List ℕ → List ℕ
repeat zero a rest = rest
repeat (suc count) a rest = a ∷ repeat count a rest

pub length-repeat :
    (count a : ℕ) (rest : List ℕ) → length (repeat count a rest) ≡ count + length rest
length-repeat zero a rest = omega arith
length-repeat (suc count) a rest = omega (arith, length-repeat count a rest)

-- The line is ready in every status.
pub repeat-Served : (count : ℕ) (rest : List ℕ) → Served count (repeat count 0x20 rest) rest
repeat-Served zero rest = refl
repeat-Served (suc count) rest = (refl, repeat-Served count rest)

abbrev pub loaded : Loaded
loaded = record {
  memory = λ a. 0;
  kernel_end = 0x120000;
  gdt_at = 0xC0110000;
  idt_at = 0xC0111000;
  isr = λ i. 0xC0101000 + 16 * i;
  directory_at = 0xC0112000;
  table_at = 0xC0113000;
  bucket_at = 0xC0114000;
}

-- No device answers the scan, and then the line is ready.
abbrev pub no_devices : List ℕ
no_devices = repeat 1344 0xFFFFFFFF []

abbrev pub line_ready : List ℕ
line_ready = repeat (length (serial_bytes pit_line)) 0x20 (0xEF ∷ no_devices)

abbrev pub booting : Machine
booting = record {
  answers = 0xFF ∷ 0x20 ∷ line_ready;
  trace = [];
  tty = corner;
  handlers = λ i. none;
  active_port = 0;
  ns_since_boot = 0;
}

-- A column of 1024 pixels, which is one page.
abbrev pub column : Multiboot
column = record two_pixels {
  mem_upper = 0x7C00;
  framebuffer_pitch = 4;
  framebuffer_width = 1;
  framebuffer_height = 1024;
}

abbrev is_colour : Outcome ℕ → Bool
is_colour (ok c) = ltb c (2 ^ 32)
is_colour panic = false
is_colour fault = false
is_colour unfinished = false

abbrev colour_of : Outcome ℕ → ℕ
colour_of (ok c) = c
colour_of panic = 0
colour_of fault = 0
colour_of unfinished = 0

is_colour_lem :
    (o : Outcome ℕ) → is_colour o ≡ true → (o ≡ ok (colour_of o)) × (colour_of o < 2 ^ 32)
is_colour_lem (ok c) e = (refl, ground (arith, e))
is_colour_lem panic e = absurd (ground (arith, e))
is_colour_lem fault e = absurd (ground (arith, e))
is_colour_lem unfinished e = absurd (ground (arith, e))

abbrev all_below : ℕ → (ℕ → Bool) → Bool
all_below zero p = true
all_below (suc n) p = p n && all_below n p

all_below-get : (n : ℕ) (p : ℕ → Bool) (k : ℕ) → all_below n p ≡ true → k < n → p k ≡ true
all_below-get zero p k e h = absurd (omega arith)
all_below-get (suc n) p k e h = elim (ℕ_discrete k n) [
  | yes last ↦ rw last (ground (arith, e))
  | no ne ↦ all_below-get n p k (ground (arith, e)) (omega arith)
]

-- The column at a time.
abbrev at_time : Fixed → ℕ → ℕ → ℕ
at_time time j x = colour_of (pixel_colour fixed_floats time j x)

column-HasColours :
    (time : Fixed)
    → all_below 1024 (λ j. is_colour (pixel_colour fixed_floats time j 0)) ≡ true
    → HasColours fixed_floats column time (at_time time)
column-HasColours time all j zero a b =
    is_colour_lem (pixel_colour fixed_floats time j 0)
      (all_below-get 1024 (λ j. is_colour (pixel_colour fixed_floats time j 0)) j all a)
column-HasColours time all j (suc x) a b = absurd (omega arith)

-- The pictures at the times 10 and 10.1.
abbrev pub pictures : ℕ → ℕ → ℕ → ℕ
pictures i = at_time (time_after fixed_floats (fixed false 10000) i)

pub pictures-HasColours :
    (i : ℕ)
    → i ≤ 1
    → HasColours fixed_floats column (time_after fixed_floats (fixed false 10000) i) (pictures i)
unfolding pixel_colour hsv2rgbfast sector_colour rgb within
pictures-HasColours zero h = column-HasColours (fixed false 10000) refl
pictures-HasColours (suc zero) h = column-HasColours (fixed false 10100) refl
pictures-HasColours (suc (suc i)) h = absurd (omega arith)
