-- ===== src/Isr/Delivery.antt =====
-- Which handler gets an interrupt, and when the controllers are told that it is over.
use ma_os.Base.{
  ℕ, ◌+◌, ◌-◌, ◌%◌, ◌^◌, ◌≤◌, ◌<◌, ◌≡◌, refl, ◌∙◌, false, Option, none, some, [], ◌∷◌, ok, arith,
  leb, ◌==◌, if◌then◌else◌, codes, u8, sub32, Bool-cases, inl, inr,
}
use ma_os.Paging.{AddressSpace, update}
use ma_os.Machine.{
  Machine, Handler, serial, timer, keyboard, Io, out8, log, outb, inb, pure, ◌>>=◌, ◌>>◌, then_ok,
}
use ma_os.Printf.Format.{int}
use ma_os.Serial.{serial_putchar, serial_handler}
use ma_os.Timer.{timer_handler}
use ma_os.Keyboard.{keyboard_handler}
use ma_os.Console.{printf}
use ma_os.Isr.{irq_register_handler}
use ma_os.Isr.Dispatch.{
  Registers, call, call_registered, end_of_interrupt, isr_handle_irq, isr_handler,
}

-- The second controller, which has the interrupts from 40 on, is told first.
abbrev pub acknowledged : ℕ → Machine → Machine
acknowledged k m =
    if leb 40 k then log (out8 0x20 0x20) (log (out8 0xA0 0x20) m) else log (out8 0x20 0x20) m

end_of_interrupt_lem : (k : ℕ) (m : Machine) → end_of_interrupt k m ≡ ok (tt, acknowledged k m)
unfolding end_of_interrupt outb
end_of_interrupt_lem k m = elim (Bool-cases (leb 40 k)) [
  | inl slave ↦ rw slave refl
  | inr master ↦ rw master refl
]

abbrev pub registered : ℕ → Handler → Machine → Machine
registered n h m = record m { handlers = update n (some h) m.handlers }

handlers-acknowledged : (k : ℕ) (m : Machine) → (acknowledged k m).handlers ≡ m.handlers
handlers-acknowledged k m = elim (Bool-cases (leb 40 k)) [
  | inl slave ↦ rw slave refl
  | inr master ↦ rw master refl
]

dispatched :
    (k : ℕ) (m : Machine) → isr_handle_irq k m ≡ call_registered (m.handlers k) k (acknowledged k m)
unfolding isr_handle_irq
dispatched k m =
    then_ok (end_of_interrupt k) (λ _ m'. call_registered (m'.handlers k) k m') m
      (end_of_interrupt_lem k m)
    ∙ rw (handlers-acknowledged k m) refl

-- What the program that an interrupt reaches does: the clock goes on by one tick, a byte from the
-- serial port is written back to it, a byte from the keyboard is printed; without a handler, the
-- line is printed.
abbrev pub handled : Option Handler → ℕ → Io (Unit {0})
handled (some timer) k =
    λ m. ok (tt, record m { ns_since_boot = (m.ns_since_boot + 54924563) % 2 ^ 64 })
handled (some serial) k = do c ← λ m. inb m.active_port m; serial_putchar c
handled (some keyboard) k = do byte ← inb 0x60; _ ← printf (codes "0x%x\n") (int byte ∷ []); pure tt
handled none k = do _ ← printf (codes "IRQ%d\n") (int (k - 32) ∷ []); pure tt

call_registered-handled :
    (o : Option Handler) (k : ℕ) (m : Machine)
    → 32 ≤ k
    → k < 256
    → call_registered o k m ≡ handled o k m
unfolding call_registered call timer_handler serial_handler keyboard_handler
call_registered-handled (some timer) k m low high = refl
call_registered-handled (some serial) k m low high = refl
call_registered-handled (some keyboard) k m low high = refl
call_registered-handled none k m low high =
    let line : sub32 k 32 ≡ k - 32 = omega arith in rw line refl

-- After `irq_register_handler` for interrupt `n`, an interrupt `k` from 32 to 255 is acknowledged,
-- and then handled: by the handler that was registered if it is `n`, otherwise as before. The timer's
-- handler adds one tick to the clock, the serial port's writes the byte back that it reads, and the
-- keyboard's prints the byte that it reads; an interrupt without a handler prints its line.
pub irq_register_handler-isr_handler :
    (n k cr2 : ℕ) (space : Option AddressSpace) (regs : Registers) (h : Handler) (m : Machine)
    → 32 ≤ k
    → k < 256
    → regs.int_no ≡ k
    → (irq_register_handler n h >> isr_handler cr2 space regs) m
      ≡ handled (if n == k then some h else m.handlers k) k (acknowledged k (registered n h m))
unfolding irq_register_handler isr_handler update
irq_register_handler-isr_handler n k cr2 space regs h m low high number =
    let irq : leb k 31 ≡ false = ground arith in
    let byte : u8 k ≡ k = omega arith in
    let there = registered n h m in
    rw (number, irq, byte)
      (dispatched k there
        ∙ call_registered-handled (there.handlers k) k (acknowledged k there) low high)
