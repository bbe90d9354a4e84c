-- ===== src/Kernel/Memory.antt =====
-- kernel/kernel/kernel.cpp: the start of the two memory managers.
use ma_os.Base.{ℕ, ◌+◌, ◌*◌, Outcome, ◌>>=◌, u32}
use ma_os.Pmm
use ma_os.Vm.{Vm}
use ma_os.Vm.Start
use ma_os.Gfx.{Multiboot}

-- What the linker and the loader fix: the dwords in memory, and the addresses of the kernel's end,
-- of the tables, of the stubs in isr.asm and of `vm_first_bucket`.
pub record Loaded : Type 0 where
  pub memory : ℕ → ℕ
  pub kernel_end : ℕ
  pub gdt_at : ℕ
  pub idt_at : ℕ
  pub isr : ℕ → ℕ
  pub directory_at : ℕ
  pub table_at : ℕ
  pub bucket_at : ℕ

unfoldable pub memory_init : Loaded → Multiboot → Vm → Outcome Vm
memory_init l mb v = do
  pmm ← Pmm.init l.memory l.kernel_end (u32 (u32 (mb.mem_upper * 1024) + 0x100000))
  Start.init l.directory_at l.table_at l.bucket_at (record v { pmm = pmm })
