-- ===== src/Tests/Devices.antt =====
-- The interrupts and the devices, on a machine whose devices give some answers.
use ma_os.Base.{
  ℕ, ◌+◌, ◌*◌, ◌<◌, ◌≡◌, refl, none, some, List, [], ◌∷◌, ok, arith, ◌==◌, if◌then◌else◌, codes,
}
use ma_os.Machine.{Machine, timer, ◌>>◌}
use ma_os.Tests.Console.{corner, corner-IsValid}
use ma_os.Tables.{Tables, GdtEntry, IdtEntry, idt_init, irq_clear_mask}
use ma_os.Tables.Pic.{Pic, Pics, offset_next, configured, replay, idt_init-configured}
use ma_os.Tables.Mask.{masked_line, irq_clear_mask-masked_line}
use ma_os.Isr.{irq_register_handler}
use ma_os.Isr.Dispatch.{Registers, isr_handler}
use ma_os.Isr.Delivery.{acknowledged, registered, handled, irq_register_handler-isr_handler}
use ma_os.Serial.Wait.{outputs}
use ma_os.Console.{puts}
use ma_os.Console.Output.{Shows, puts-Shows}
use ma_os.Timer.{sleep}
use ma_os.Timer.Sleep.{Sleeps, sleep-Sleeps}

abbrev machine : List ℕ → Machine
machine answers = record {
  answers = answers;
  trace = [];
  tty = corner;
  handlers = λ i. none;
  active_port = 0x3F8;
  ns_since_boot = 1000;
}

abbrev regs : Registers
regs = record {
  dummy1 = 0;
  dummy2 = 0;
  ds = 0;
  edi = 0;
  esi = 0;
  ebp = 0;
  esp = 0;
  ebx = 0;
  edx = 0;
  ecx = 0;
  eax = 0;
  int_no = 44;
  err_code = 0;
  eip = 0;
}

irq_register_handler-isr_handler_example :
    (irq_register_handler 44 timer >> isr_handler 0 none regs) (machine [])
    ≡ handled (some timer) 44 (acknowledged 44 (registered 44 timer (machine [])))
irq_register_handler-isr_handler_example =
    irq_register_handler-isr_handler 44 44 0 none regs timer (machine []) (omega arith)
      (omega arith) refl

abbrev no_gate : IdtEntry
no_gate = record { base_low = 0; sel = 0; always0 = 0; flags = 0; base_high = 0 }

abbrev no_segment : GdtEntry
no_segment = record {
  limit_low = 0;
  base_low = 0;
  base_mid = 0;
  access = 0;
  flags_and_limit = 0;
  base_high = 0;
}

abbrev pub no_tables : Tables
no_tables = record { gdt = λ i. no_segment; idt = λ i. no_gate; gdtr = none; idtr = none }

abbrev off : Pic
off = record { stage = offset_next; vector_offset = 0; cascade = 0; mode = 0; masked = 0 }

idt_init-configured_example :
    (t' : Tables) × (m' : Machine) × (idt_init
        (λ i. 0x100000 + i * 16)
        0x2000
        no_tables
        (machine [])
      ≡ ok (t', m'))
    × (replay (off, off) (outputs m'.trace) ≡ (configured 32 4, configured 40 2))
idt_init-configured_example =
    idt_init-configured (off, off) (λ i. 0x100000 + i * 16) 0x2000 no_tables (machine [])

abbrev both_operating : Pics
both_operating = (configured 32 4, configured 40 2)

irq_clear_mask-masked_line_example :
    (m' : Machine) × (irq_clear_mask 12 (machine (0xFF ∷ [])) ≡ ok (tt, m'))
    × ((k : ℕ)
        → k < 16
        → masked_line (replay both_operating (outputs m'.trace)) k
          ≡ (if k == 12 then 0 else masked_line both_operating k))
irq_clear_mask-masked_line_example =
    irq_clear_mask-masked_line both_operating 12 0xFF [] (machine (0xFF ∷ [])) (omega arith)
      (omega arith) refl refl refl refl

abbrev ready : Machine
ready = machine (0x20 ∷ 0x20 ∷ 0x20 ∷ 0x20 ∷ [])

puts-Shows_example : Shows (codes "a\n") ready (puts (codes "a\n") ready)
puts-Shows_example =
    puts-Shows (codes "a\n") ready corner-IsValid (refl, (refl, (refl, (refl, tt)))) (omega arith)

-- A tick is about 55 ms: two of them are needed for 60 ms.
sleep-Sleeps_example :
    Sleeps 60001000 (1 ∷ 0 ∷ 1 ∷ []) (machine []) (sleep (1 ∷ 0 ∷ 1 ∷ []) 60 (machine []))
sleep-Sleeps_example = sleep-Sleeps (1 ∷ 0 ∷ 1 ∷ []) 60 (machine []) (omega arith) (omega arith)
