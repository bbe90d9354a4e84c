-- ===== src/Tests/Boot.antt =====
-- A machine with 32 MiB from the start on: its memory managers, its frame buffer and its text.
use ma_os.Base.{
  ℕ, zero, suc, ◌≡◌, ◌<◌, ◌+◌, ◌⊎◌, inl, inr, true, refl, none, false, List, [], ◌∷◌, ok, length,
  Outcome, arith,
}
use ma_os.Paging.{AddressSpace}
use ma_os.Pmm.Managed.{IsFree}
use ma_os.Vm.{Vm, Granted, vm_alloc_kpages}
use ma_os.Vm.Frames.{member, Exhausted}
use ma_os.Vm.Isolation.{begun, grown, IsIsolated, Grown-IsIsolated}
use ma_os.Vm.Grow.{Grows, vm_alloc_kpages-Grows}
use ma_os.Gfx.{Multiboot}
use ma_os.Kernel.Memory.{memory_init}
use ma_os.Kernel.MemoryStart.{managed_frames, StartsMemory, memory_init-StartsMemory}
use ma_os.Kernel.{Kernel, start_up, kernel_main}
use ma_os.Kernel.Parts.{pit_line}
use ma_os.Kernel.Ready.{CanStart, IsReady, start_up-IsReady}
use ma_os.Kernel.TextMode.{CanAnnounce}
use ma_os.Kernel.Main.{Reports, kernel_main-Reports}
use ma_os.Console.Output.{AllReady, serial_bytes}
use ma_os.Tests.Console.{corner-IsValid}
use ma_os.Tests.Devices.{no_tables}
use ma_os.Tests.Floats.{fixed_floats}
use ma_os.Gfx.Enable.{CanEnable, HasPixels, Enables, Breaks, gfx_init-Enables}
use ma_os.Gfx.{gfx_init, Gfx}
use ma_os.Tests.Kernel.{
  loaded, two_pixels, screen, repeat, length-repeat, repeat-Served, no_devices, line_ready, booting,
}
use ma_os.Tests.Pages.{no_entry, space, space-TablesApart}
use ma_os.Tests.Returns.{kernel}

abbrev small : Multiboot
small = record two_pixels { mem_upper = 0x7C00 }

-- All static variables are zero.
abbrev zero_space : AddressSpace
zero_space = record space { tables = λ i. none; page_tables = λ table i. no_entry }

abbrev zeroed : Vm
zeroed = record kernel {
  kernel_buckets = none;
  waiting_list = none;
  steal_next = 0;
  current_as = zero_space;
}

memory_init-StartsMemory_example : StartsMemory loaded small (memory_init loaded small zeroed)
memory_init-StartsMemory_example =
    memory_init-StartsMemory loaded small zeroed (omega arith) (omega arith) (omega arith)
      (λ i. refl) (λ table i. refl) refl (omega arith) (omega arith) (omega arith)

started : StartsMemory loaded small (memory_init loaded small zeroed)
started =
    memory_init-StartsMemory loaded small zeroed (omega arith) (omega arith) (omega arith)
      (λ i. refl) (λ table i. refl) refl (omega arith) (omega arith) (omega arith)

vm_alloc_kpages-Grows_example :
    Grows 3 0xC0800
      (managed_frames loaded small)
      loaded.bucket_at
      started.out
      (vm_alloc_kpages 1 3 started.out)
    ⊎ Exhausted 3 started.out (vm_alloc_kpages 1 3 started.out)
vm_alloc_kpages-Grows_example =
    vm_alloc_kpages-Grows 1 3 0xC0800 (managed_frames loaded small) loaded.bucket_at started.out
      started.booted (omega arith) (omega arith) (omega arith)

none_short : (fs : List ℕ) → length fs < 1 → ¬ (member fs 0 ≡ true)
none_short [] short e = ground arith
none_short (f ∷ fs) short e = omega arith

-- One page is allocated: frame 0 at least is free.
first_page : (g : Granted) × (vm_alloc_kpages 1 1 started.out ≡ ok g)
first_page =
    elim (vm_alloc_kpages-Grows 1 1 0xC0800 (managed_frames loaded small) loaded.bucket_at
      started.out started.booted (omega arith) (omega arith) (omega arith)) [
        | inl m ↦ (_, m.returns)
        | inr short ↦
            let free : IsFree started.out.pmm 0 = ground (arith, started.all_free 0) in
            absurd (none_short short.fs short.fewer (short.all 0 free))
      ]

Grown-IsIsolated_example :
    IsIsolated
      (0xC0800 + 1)
      (managed_frames loaded small)
      loaded.bucket_at
      started.out.pmm.buddy_base
      first_page.0.vm
Grown-IsIsolated_example =
    Grown-IsIsolated started.out (managed_frames loaded small) loaded.bucket_at (0xC0800 + 1)
      first_page.0.vm started.booted
      (grown 1 1 0xC0800 started.out first_page.0 begun (omega arith) (omega arith) (omega arith)
        first_page.1)

abbrev at_boot : Kernel
at_boot = record { tables = no_tables; vm = zeroed; gfx = screen }

zeroed-CanStart : CanStart loaded small zeroed
zeroed-CanStart = record {
  word = omega arith;
  enough = omega arith;
  mapped = omega arith;
  no_tables = λ i. refl;
  blank = λ table i. refl;
  none_waiting = refl;
  aligned = omega arith;
  behind = omega arith;
  inside = omega arith;
}

start_up-IsReady_example :
    IsReady loaded small at_boot booting no_devices (start_up loaded small at_boot booting)
start_up-IsReady_example =
    start_up-IsReady loaded small at_boot booting 0x20 line_ready no_devices zeroed-CanStart
      corner-IsValid refl refl (repeat-Served (length (serial_bytes pit_line)) (0xEF ∷ no_devices))
      (omega (arith, length-repeat 1344 0xFFFFFFFF []))

-- Without a frame buffer.
abbrev in_text : Multiboot
in_text = record small { flags = 0x4F }

in_text-CanStart : CanStart loaded in_text zeroed
in_text-CanStart = record {
  word = omega arith;
  enough = omega arith;
  mapped = omega arith;
  no_tables = λ i. refl;
  blank = λ table i. refl;
  none_waiting = refl;
  aligned = omega arith;
  behind = omega arith;
  inside = omega arith;
}

in_text-CanAnnounce : CanAnnounce in_text
in_text-CanAnnounce = record {
  flags = omega arith;
  width = omega arith;
  height = omega arith;
  bpp = omega arith;
  pitch = omega arith;
}

repeat-AllReady : (count : ℕ) → AllReady (repeat count 0xFFFFFFFF [])
repeat-AllReady zero = tt
repeat-AllReady (suc count) = (refl, repeat-AllReady count)

-- `malloc` is not called.
kernel_main-Reports_example :
    Reports loaded in_text at_boot booting no_devices
      (kernel_main fixed_floats (λ n k. ok (0xC1000000, k)) [] loaded in_text at_boot booting)
kernel_main-Reports_example =
    kernel_main-Reports fixed_floats (λ n k. ok (0xC1000000, k)) [] loaded in_text at_boot booting
      0x20 line_ready no_devices in_text-CanStart in_text-CanAnnounce
      (λ (set, _). omega (arith, set)) corner-IsValid refl refl
      (repeat-Served (length (serial_bytes pit_line)) (0xEF ∷ no_devices)) (repeat-AllReady 1344)
      (omega (arith, length-repeat 1344 0xFFFFFFFF []))

-- 640 columns and 400 rows, at 0xFD000000.
abbrev large : Multiboot
large = record two_pixels { framebuffer_width = 640; framebuffer_height = 400 }

abbrev off : Gfx
off = record screen { enabled = false; fb_size = 0; space = space }

off-CanEnable : CanEnable large off
off-CanEnable = record {
  tables = λ i low high. (refl, refl);
  apart = space-TablesApart;
  aligned = refl;
  bits = omega arith;
  pixels = omega arith;
  frames = omega arith;
  pages = omega arith;
}

gfx_init-Enables_example :
    (¬ HasPixels large × (gfx_init large off ≡ ok (false, off)))
    ⊎ Enables large off (gfx_init large off)
    ⊎ Breaks large off (gfx_init large off)
gfx_init-Enables_example = gfx_init-Enables large off off-CanEnable

-- Always the same buffer.
abbrev one_buffer : ℕ → Kernel → Outcome (ℕ × Kernel)
one_buffer n k = ok (0xC0700000, k)
