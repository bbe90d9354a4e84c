-- ===== src/Tables.antt =====
-- kernel/kernel/tables.c, kernel/include/kernel/tables.h: the descriptor tables, and the interrupt
-- controllers. Entry `i` of a table is a function's value at `i`; every index is a constant inside
-- the table. What `gdt_flush` and `idt_flush` load into the processor is kept in `gdtr` and `idtr`.
pub mod Pic
pub mod Mask
pub mod Entries
use ma_os.Base.{
  ℕ, zero, suc, ◌+◌, ◌-◌, ◌*◌, bit_and, bit_or, Option, some, fault, u8, u16, ltb, leb,
  if◌then◌else◌, not32, ◌<<<◌, ◌>>>◌,
}
use ma_os.Paging.{update}
use ma_os.Machine.{Io, ◌>>=◌, ◌>>◌, pure, lift, outb, inb}

pub record Descriptor : Type 0 where
  pub limit : ℕ
  pub base : ℕ

pub record GdtEntry : Type 0 where
  pub limit_low : ℕ
  pub base_low : ℕ
  pub base_mid : ℕ
  pub access : ℕ
  pub flags_and_limit : ℕ
  pub base_high : ℕ

pub record IdtEntry : Type 0 where
  pub base_low : ℕ
  pub sel : ℕ
  pub always0 : ℕ
  pub flags : ℕ
  pub base_high : ℕ

pub record Tables : Type 0 where
  pub gdt : ℕ → GdtEntry
  pub idt : ℕ → IdtEntry
  pub gdtr : Option Descriptor
  pub idtr : Option Descriptor

-- What `gdt_set_entry` writes: it sets every field of the entry.
unfoldable pub gdt_entry : ℕ → ℕ → ℕ → ℕ → GdtEntry
gdt_entry base limit access flags = record {
  base_low = u16 (bit_and base 0xFFFF);
  base_mid = u8 (bit_and (base >>> 16) 0xFF);
  base_high = u8 (bit_and (base >>> 24) 0xFF);
  limit_low = u16 (bit_and limit 0xFFFF);
  flags_and_limit = u8 (bit_or (u8 (bit_and (limit >>> 16) 0x0F)) (bit_and flags 0xF0));
  access = access;
}

unfoldable pub gdt_set_entry : ℕ → ℕ → ℕ → ℕ → ℕ → Tables → Tables
gdt_set_entry num base limit access flags t = record t {
  gdt = update num (gdt_entry base limit access flags) t.gdt;
}

-- `gdt_at` is the address of `gdt`, whose five entries have eight bytes each.
unfoldable pub gdt_init : ℕ → Tables → Tables
gdt_init gdt_at t =
    let t = gdt_set_entry 0 0 0 0 0 t in
    let t = gdt_set_entry 1 0 0xFFFFFFFF 0x9A 0xCF t in
    let t = gdt_set_entry 2 0 0xFFFFFFFF 0x92 0xCF t in
    let t = gdt_set_entry 3 0 0xFFFFFFFF 0xFA 0xCF t in
    let t = gdt_set_entry 4 0 0xFFFFFFFF 0xF2 0xCF t in
    record t { gdtr = some record { limit = 5 * 8 - 1; base = gdt_at } }

unfoldable pub idt_entry : ℕ → ℕ → ℕ → IdtEntry
idt_entry func sel flags = record {
  base_low = u16 (bit_and func 0xFFFF);
  base_high = u16 (bit_and (func >>> 16) 0xFFFF);
  sel = sel;
  always0 = 0;
  flags = flags;
}

unfoldable pub idt_set_entry : ℕ → ℕ → ℕ → ℕ → Tables → Tables
idt_set_entry num func sel flags t = record t { idt = update num (idt_entry func sel flags) t.idt }

-- The calls `idt_set_entry(i, isr{i}, 0x08, 0x8E)` for `count` numbers from `i` on, where `isr` has
-- the addresses of the stubs.
unfoldable pub set_gates : (ℕ → ℕ) → ℕ → ℕ → Tables → Tables
set_gates isr zero i t = t
set_gates isr (suc count) i t = set_gates isr count (i + 1) (idt_set_entry i (isr i) 0x08 0x8E t)

abbrev pub empty_gate : IdtEntry
empty_gate = record { base_low = 0; sel = 0; always0 = 0; flags = 0; base_high = 0 }

-- The table is cleared, and its 256 entries have eight bytes each.
unfoldable pub fill_idt : (ℕ → ℕ) → ℕ → Tables → Tables
fill_idt isr idt_at t =
    let gates = set_gates isr 48 0 (record t { idt = λ i. empty_gate }) in
    record gates { idtr = some record { limit = 256 * 8 - 1; base = idt_at } }

-- The part of `idt_init` that programs the two interrupt controllers.
unfoldable pub remap_irqs : Io (Unit {0})
remap_irqs = do
  outb 0x20 0x11
  outb 0xA0 0x11
  outb 0x21 0x20
  outb 0xA1 0x28
  outb 0x21 0x04
  outb 0xA1 0x02
  outb 0x21 0x01
  outb 0xA1 0x01
  outb 0x21 0xFF
  outb 0xA1 0xFF

unfoldable pub idt_init : (ℕ → ℕ) → ℕ → Tables → Io Tables
idt_init isr idt_at t = do remap_irqs; pure (fill_idt isr idt_at t)

unfoldable pub irq_port : ℕ → ℕ
irq_port line = if ltb line 8 then 0x21 else 0xA1

unfoldable pub irq_line : ℕ → ℕ
irq_line line = if ltb line 8 then line else line - 8

-- To shift an `int` by 31 places or more is undefined.
unfoldable pub clear_digit : ℕ → ℕ → ℕ → Io (Unit {0})
clear_digit port line mask =
    if leb 31 line then lift fault else outb port (u8 (bit_and mask (not32 (1 <<< line))))

unfoldable pub irq_clear_mask : ℕ → Io (Unit {0})
irq_clear_mask line = do
  mask ← inb (irq_port line)
  clear_digit (irq_port line) (irq_line line) mask

unfoldable pub descriptor_tables_init : ℕ → (ℕ → ℕ) → ℕ → Tables → Io Tables
descriptor_tables_init gdt_at isr idt_at t = idt_init isr idt_at (gdt_init gdt_at t)
