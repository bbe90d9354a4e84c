-- ===== src/Isr/Dispatch.antt =====
-- kernel/kernel/isr.c: what an interrupt does. `cr2` is the address of a page fault, which the
-- processor keeps in its register CR2, and `space` is `current_as`.
use ma_os.Base.{
  ℕ, ◌+◌, ◌*◌, bit_and, Option, none, some, [], ◌∷◌, leb, ◌==◌, if◌then◌else◌, codes, u8, u32,
  sub32, access,
}
use ma_os.Pmm.{mask, page_size}
use ma_os.Paging.{Pde, Pte, AddressSpace, dir_index, tab_index}
use ma_os.Machine.{Handler, serial, timer, keyboard, Io, ◌>>=◌, ◌>>◌, pure, lift, outb}
use ma_os.Printf.Format.{int}
use ma_os.Serial.{serial_handler}
use ma_os.Timer.{timer_handler}
use ma_os.Keyboard.{keyboard_handler}
use ma_os.Console.{printf, kernel_panic}

pub record Registers : Type 0 where
  pub dummy1 : ℕ
  pub dummy2 : ℕ
  pub ds : ℕ
  pub edi : ℕ
  pub esi : ℕ
  pub ebp : ℕ
  pub esp : ℕ
  pub ebx : ℕ
  pub edx : ℕ
  pub ecx : ℕ
  pub eax : ℕ
  pub int_no : ℕ
  pub err_code : ℕ
  pub eip : ℕ

-- An entry that is passed to `printf` is its 32 bits.
unfoldable pub pde_word : Pde → ℕ
pde_word e =
    e.present
    + e.rw * 2
    + e.user * 4
    + e.pwt * 8
    + e.pcd * 16
    + e.accessed * 32
    + e.dirty * 64
    + e.page_size * 128
    + e.ignored * 256
    + e.page_table * 4096

unfoldable pub pte_word : Pte → ℕ
pte_word e =
    e.present
    + e.rw * 2
    + e.user * 4
    + e.pwt * 8
    + e.pcd * 16
    + e.accessed * 32
    + e.dirty * 64
    + e.pat * 128
    + e.global * 256
    + e.ignored * 512
    + e.frame * 4096

-- `if (dir_entry.present) { ... }`.
unfoldable pub print_table : AddressSpace → ℕ → Io (Unit {0})
print_table space addr = do
  let entry = space.directory (dir_index addr)
  let table_at = u32 (entry.page_table * page_size)
  _ ←
      printf (codes "Table is located at 0x%08x, Table entry at 0x%08x\n")
        (int table_at ∷ int (u32 (table_at + 4 * tab_index addr)) ∷ [])
  table ← lift (access (space.tables (dir_index addr)))
  let page = space.page_tables table (tab_index addr)
  _ ←
      printf (codes "Tab Entry: 0x%08x P:%d RW:%d Frame:%d\n")
        (int (pte_word page) ∷ int page.present ∷ int page.rw ∷ int page.frame ∷ [])
  pure tt

-- `if (current_as) { ... }`.
unfoldable pub print_space : Option AddressSpace → ℕ → Io (Unit {0})
print_space none addr = pure tt
print_space (some space) addr = do
  _ ←
      printf (codes "Directory is located at 0x%08x, Dir entry at 0x%08x\n")
        (int space.directory_phys ∷ int (u32 (space.directory_phys + 4 * dir_index addr)) ∷ [])
  let entry = space.directory (dir_index addr)
  _ ←
      printf (codes "Dir Entry: 0x%08x P:%d RW:%d Frame:%d\n")
        (int (pde_word entry) ∷ int entry.present ∷ int entry.rw ∷ int entry.page_table ∷ [])
  if entry.present == 0 then pure tt else print_table space addr

unfoldable pub isr_handle_page_fault : ℕ → Option AddressSpace → ℕ → ℕ → Io (Unit {0})
isr_handle_page_fault cr2 space err_code eip = do
  _ ←
      printf (codes "\nPAGE FAULT addr=0x%08x DIR=%d TAB=%d ADR=%d\n")
        (int cr2 ∷ int (dir_index cr2) ∷ int (tab_index cr2) ∷ int (bit_and cr2 (mask 12)) ∷ [])
  print_space space cr2
  kernel_panic (codes "isr.c") 37 (codes "Page Fault: addr=0x%08x code=0x%x eip=0x%08x\n")
      (int cr2 ∷ int err_code ∷ int eip ∷ [])

unfoldable pub isr_handle_exception : ℕ → Option AddressSpace → ℕ → ℕ → ℕ → Io (Unit {0})
isr_handle_exception cr2 space int_no err_code eip =
    if int_no == 14
    then isr_handle_page_fault cr2 space err_code eip
    else (do _ ← printf (codes "ISR EXCEPTION #%d\n") (int int_no ∷ []); pure tt)

-- A call through the pointer that is registered.
unfoldable pub call : Handler → ℕ → Io (Unit {0})
call serial int_no = serial_handler int_no
call timer int_no = timer_handler int_no
call keyboard int_no = keyboard_handler int_no

unfoldable pub call_registered : Option Handler → ℕ → Io (Unit {0})
call_registered (some handler) int_no = call handler int_no
call_registered none int_no = do _ ← printf (codes "IRQ%d\n") (int (sub32 int_no 32) ∷ []); pure tt

-- The end of the interrupt, as the controllers are told.
unfoldable pub end_of_interrupt : ℕ → Io (Unit {0})
end_of_interrupt int_no =
    if leb 40 int_no then (do outb 0xA0 0x20; outb 0x20 0x20) else outb 0x20 0x20

unfoldable pub isr_handle_irq : ℕ → Io (Unit {0})
isr_handle_irq int_no = do
  end_of_interrupt int_no
  λ m. call_registered (m.handlers int_no) int_no m

unfoldable pub isr_handler : ℕ → Option AddressSpace → Registers → Io (Unit {0})
isr_handler cr2 space regs =
    if leb regs.int_no 31
    then isr_handle_exception cr2 space (u8 regs.int_no) regs.err_code regs.eip
    else isr_handle_irq (u8 regs.int_no)
