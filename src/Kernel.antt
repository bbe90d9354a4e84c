-- ===== src/Kernel.antt =====
-- kernel/kernel/kernel.cpp: `kernel_main`. Interrupts that arrive outside `sleep` are left out.
pub mod Memory
pub mod MemoryStart
pub mod Frame
pub mod Parts
pub mod StartUp
pub mod Ready
pub mod Lines
pub mod TextMode
pub mod Main
pub mod Graphics
pub mod Render
use ma_os.Base.{
  ℕ, ◌+◌, ◌*◌, ◌/◌, Bool, true, false, List, [], ◌∷◌, Outcome, ok, unfinished, codes, u32,
}
use ma_os.Float.{Floats}
use ma_os.Tty
use ma_os.Tty.{black, white}
use ma_os.Machine.{Io, ◌>>=◌, ◌>>◌, pure, lift}
use ma_os.Tables.{Tables, descriptor_tables_init}
use ma_os.Serial.{com1, serial_init}
use ma_os.Vm.{Vm}
use ma_os.Timer.{timer_init, sleep}
use ma_os.Pci.{pci_init}
use ma_os.Printf.Format.{int}
use ma_os.Console.{on_tty, printf}
use ma_os.Gfx.{Multiboot, Gfx, gfx_init}
use ma_os.Kernel.Memory.{Loaded, memory_init}
use ma_os.Kernel.Frame.{draw_frame}

abbrev pub light_red : ℕ
light_red = 12

-- The static variables beside those of the machine. The address space is that of `vm` until
-- `gfx_init` takes it.
pub record Kernel : Type 0 where
  pub tables : Tables
  pub vm : Vm
  pub gfx : Gfx

-- Up to and with `pci_init`. The states of the parts in `k` are those that the loader leaves.
unfoldable pub start_up : Loaded → Multiboot → Kernel → Io Kernel
start_up l mb k = do
  on_tty (λ t. ok (Tty.init t))
  tables ← descriptor_tables_init l.gdt_at l.isr l.idt_at k.tables
  serial_init com1
  vm ← lift (memory_init l mb k.vm)
  timer_init
  pci_init
  pure (record k { tables = tables; vm = vm })

unfoldable pub announce : Multiboot → Io (Unit {0})
announce mb = do
  _ ← printf (codes "Hello, World!!\n") []
  _ ← printf (codes "Multiboot flags: %012b\n") (int mb.flags ∷ [])
  _ ← printf (codes "Screen: %dx%d %d bpp pitch: %d\n") (
      int mb.framebuffer_width
      ∷ int mb.framebuffer_height
      ∷ int mb.framebuffer_bpp
      ∷ int mb.framebuffer_pitch
      ∷ [])
  pure tt

-- `while (true)`: each round has the list of the wake-ups of its `sleep`.
unfoldable pub render : (fl : Floats) → Multiboot → ℕ → List (List ℕ) → fl.Float → Gfx → Io Kernel
render fl mb buffer [] time g = lift unfinished
render fl mb buffer (wakes ∷ rounds) time g = do
  g' ← lift (draw_frame fl mb buffer time g)
  sleep wakes 100
  render fl mb buffer rounds (fl.add time (fl.literal 1 1)) g'

unfoldable pub buffer_size : Multiboot → ℕ
buffer_size mb = u32 (u32 (mb.framebuffer_width * mb.framebuffer_height) * (mb.framebuffer_bpp / 8))

-- The branches behind `gfx_init`. `malloc` is that of libc/liballoc; its result is not tested.
unfoldable pub show :
    (fl : Floats)
    → (ℕ → Kernel → Outcome (ℕ × Kernel))
    → List (List ℕ)
    → Multiboot
    → Kernel
    → Bool
    → Io Kernel
show fl malloc rounds mb k true = do
  (buffer, k') ← lift (malloc (buffer_size mb) k)
  render fl mb buffer rounds (fl.literal 10 0) (record k'.gfx { space = k'.vm.current_as })
show fl malloc rounds mb k false = do
  on_tty (λ t. ok (Tty.setcolor (Tty.makecolor black light_red) t))
  _ ← printf (codes "Graphics not supported!\n") []
  on_tty (λ t. ok (Tty.setcolor white t))
  _ ← printf (codes "Done\n") []
  pure k

unfoldable pub kernel_main :
    (fl : Floats)
    → (ℕ → Kernel → Outcome (ℕ × Kernel))
    → List (List ℕ)
    → Loaded
    → Multiboot
    → Kernel
    → Io Kernel
kernel_main fl malloc rounds l mb k = do
  started ← start_up l mb k
  announce mb
  (enabled, gfx) ← lift (gfx_init mb (record started.gfx { space = started.vm.current_as }))
  show fl malloc rounds mb
      (record started { vm = record started.vm { current_as = gfx.space }; gfx = gfx }) enabled
