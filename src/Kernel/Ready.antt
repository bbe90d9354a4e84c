-- ===== src/Kernel/Ready.antt =====
-- kernel/kernel/kernel.cpp: the whole start, with the memory managers and the devices.
use ma_os.Base.{
  ℕ, ◌+◌, ◌%◌, ◌^◌, ◌≤◌, ◌<◌, ◌≡◌, refl, ◌∙◌, false, none, List, ◌∷◌, Outcome, ok, length, u8,
}
use ma_os.Tty.Screen.{IsValid}
use ma_os.Machine.{Machine}
use ma_os.Serial.{rx_data_ready}
use ma_os.Console.Output.{Served, serial_bytes}
use ma_os.Pmm.Init.{first_managed}
use ma_os.Vm.{Vm}
use ma_os.Vm.Boot.{IsBlank}
use ma_os.Gfx.{Multiboot}
use ma_os.Kernel.{Kernel, start_up}
use ma_os.Kernel.Memory.{Loaded}
use ma_os.Kernel.MemoryStart.{upper_end, StartsMemory, memory_init-StartsMemory}
use ma_os.Kernel.Parts.{pit_line}
use ma_os.Kernel.StartUp.{Started, start_up-Started}

-- What the loader promises of the memory: at least 16 MiB below 4 GiB, of which the managed part
-- begins in the first 8 MiB, page tables that are aligned and zero, and a first bucket that stands in
-- the kernel.
pub record CanStart (l : Loaded) (mb : Multiboot) (before : Vm) : Type 0 where
  pub word : upper_end mb < 2 ^ 32
  pub enough : 0x1000000 ≤ upper_end mb
  pub mapped : first_managed l.kernel_end (upper_end mb) ≤ 0x800000
  pub no_tables : (i : ℕ) → before.current_as.tables i ≡ none
  pub blank : IsBlank before.current_as
  pub none_waiting : before.waiting_list ≡ none
  pub aligned : l.table_at % 4096 ≡ 0
  pub behind : 0xC0000000 ≤ l.bucket_at
  pub inside : l.bucket_at + 16 ≤ 0xC0000000 + l.kernel_end

-- The kernel `k` has become `out` on the machine `machine`.
pub record IsReady (l : Loaded) (mb : Multiboot) (k : Kernel) (m : Machine) (rest : List ℕ)
    (r : Outcome (Kernel × Machine)) : Type 0 where
  pub out : Kernel
  pub machine : Machine
  pub returns : r ≡ ok (out, machine)
  pub memory : StartsMemory l mb (ok out.vm)
  pub devices : Started m rest machine
  pub same_gfx : out.gfx ≡ k.gfx

-- Where the loader keeps its promises and the devices answer, the start of the kernel returns. All
-- frames are free, the kernel's pages behind the first 8 MiB are free, the timer and the serial
-- port have their interrupts, and the lines of these two alone are unmasked.
pub start_up-IsReady :
    (l : Loaded) (mb : Multiboot) (k : Kernel) (m : Machine) (s : ℕ) (polls rest : List ℕ)
    → CanStart l mb k.vm
    → IsValid m.tty
    → m.answers ≡ 0xFF ∷ s ∷ polls
    → rx_data_ready (u8 s) ≡ false
    → Served (length (serial_bytes pit_line)) polls (0xEF ∷ rest)
    → 1024 ≤ length rest
    → IsReady l mb k m rest (start_up l mb k m)
start_up-IsReady l mb k m s polls rest can valid e idle served enough =
    let memory =
      memory_init-StartsMemory l mb k.vm can.word can.enough can.mapped can.no_tables can.blank
        can.none_waiting can.aligned can.behind can.inside in
    let (t, m', done, devices) =
      start_up-Started l mb k m s polls rest valid e idle served enough in
    record {
      out = record k { tables = t; vm = memory.out };
      machine = m';
      returns = done ∙ rw memory.returns refl;
      memory = rw⁻¹ memory.returns memory;
      devices = devices;
      same_gfx = refl;
    }
