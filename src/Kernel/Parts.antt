-- ===== src/Kernel/Parts.antt =====
-- What the start of each part of the kernel leaves behind.
use ma_os.Base.{
  ℕ, ◌≡◌, refl, ap, ◌∙◌, false, some, List, [], ◌∷◌, ok, arith, length, u8, u32, codes, map, ◌>>>◌,
}
use ma_os.Tty
use ma_os.Tty.{Tty}
use ma_os.Tty.Screen.{IsValid}
use ma_os.Machine.{Machine, serial, timer, out8, in8, ◌>>=◌, outb, inb, drain, drain_from}
use ma_os.Paging.{update}
use ma_os.Serial.{com1, rx_data_ready, set_active_port, serial_program, serial_init}
use ma_os.Serial.Wait.{outputs}
use ma_os.Isr.{irq, irq_register_handler}
use ma_os.Tables.{
  Tables, descriptor_tables_init, idt_init, remap_irqs, irq_clear_mask, clear_digit, irq_port,
  irq_line,
}
use ma_os.Tables.Pic.{Pics, replay, write, configured}
use ma_os.Printf.Format.{
  int, vprintf, run_piece, run_conversion, next_piece, text_of, behind_text, parse_directive,
  parse_uint, accept, convert, convert_int, convert_hex, high_half,
}
use ma_os.Printf.{print_int, print_unsigned, fill_buffer, padding, backwards}
use ma_os.Timer.{reload_value, ns_per_tick, timer_init}
use ma_os.Console.{printf}
use ma_os.Console.Output.{Served, serial_bytes, sent, puts-Prints}
use ma_os.Kernel.{Kernel}
use ma_os.Kernel.Memory.{Loaded}

-- One line of the first controller is unmasked, which is all that the coming part does to the two.
abbrev pub Changes : ℕ → Machine → Machine → Type 0
Changes mask m m' =
    (start : Pics)
    → replay start (outputs m'.trace) ≡ write 0x21 mask (replay start (outputs m.trace))

-- The machine behind `serial_init`, where the mask reads as 0xFF and the line has no data.
abbrev pub serial_started : ℕ → List ℕ → Machine → Machine
serial_started s rest m = record m {
  answers = rest;
  handlers = update (irq 4) (some serial) m.handlers;
  active_port = com1;
  trace =
      in8 0x3FD (u8 s)
      ∷ out8 0x21 0xEF
      ∷ in8 0x21 0xFF
      ∷ out8 0x3F9 0x01
      ∷ out8 0x3FC 0x0F
      ∷ out8 0x3FC 0x0B
      ∷ out8 0x3FA 0xC7
      ∷ out8 0x3FB 0x03
      ∷ out8 0x3F9 0x00
      ∷ out8 0x3F8 0x03
      ∷ out8 0x3FB 0x80
      ∷ out8 0x3F9 0x00
      ∷ m.trace;
}

pub serial_init_lem :
    (m : Machine) (s b : ℕ) (rest : List ℕ)
    → m.answers ≡ 0xFF ∷ s ∷ b ∷ rest
    → rx_data_ready (u8 s) ≡ false
    → serial_init com1 m ≡ ok (tt, serial_started s (b ∷ rest) m)
unfolding serial_init irq_register_handler set_active_port serial_program irq_clear_mask clear_digit
    irq_port irq_line outb inb drain drain_from
serial_init_lem m s b rest e idle = rw (e, idle) refl

abbrev pit_format : List ℕ
pit_format = codes "[PIT] Reload value: %04x Delta %08lx\n"

-- The line that `timer_init` prints. The delta has a digit more than it should: its high half is
-- printed in front of the low half, which has all eight places.
abbrev pub pit_line : List ℕ
pit_line = codes "[PIT] Reload value: FFFF Delta 003461513\n"

vprintf-pit_format :
    vprintf
      (length pit_format)
      pit_format
      (int reload_value ∷ int (u32 ns_per_tick) ∷ int (ns_per_tick >>> 32) ∷ [])
    ≡ ok record { bytes = pit_line; written = 28 }
unfolding vprintf run_piece run_conversion next_piece text_of behind_text parse_directive parse_uint
    accept convert convert_int convert_hex high_half print_int print_unsigned fill_buffer padding
    backwards
vprintf-pit_format = refl

replay-sent :
    (start : Pics) (bytes : List ℕ) (earlier : List (ℕ × ℕ))
    → replay start (sent com1 bytes earlier) ≡ replay start earlier
replay-sent start [] earlier = refl
replay-sent start (b ∷ bytes) earlier = replay-sent start bytes ((com1, b) ∷ earlier)

-- What `timer_init` leaves, where the line takes each byte and then the mask reads as 0xEF.
pub record TimerStarted (m : Machine) (rest : List ℕ) (m' : Machine) : Type 0 where
  pub returns : timer_init m ≡ ok (tt, m')
  pub answers : m'.answers ≡ rest
  pub handlers : (k : ℕ) → m'.handlers k ≡ update (irq 0) (some timer) m.handlers k
  pub port : m'.active_port ≡ com1
  pub valid : IsValid m'.tty
  pub clock : m'.ns_since_boot ≡ m.ns_since_boot
  pub pics : Changes 0xEE m m'

pub timer_init-TimerStarted :
    (m : Machine) (rest : List ℕ)
    → IsValid m.tty
    → m.active_port ≡ com1
    → Served (length (serial_bytes pit_line)) m.answers (0xEF ∷ rest)
    → (m' : Machine) × TimerStarted m rest m'
unfolding timer_init irq_register_handler printf irq_clear_mask clear_digit irq_port irq_line outb
    inb
timer_init-TimerStarted m rest valid port served =
    let m1 = record m { handlers = update (irq 0) (some timer) m.handlers } in
    let prints = puts-Prints pit_line m1 (0xEF ∷ rest) valid served in
    let printed : outputs prints.trace ≡ sent com1 (serial_bytes pit_line) (outputs m.trace) =
      prints.outs ∙ ap (λ (p : ℕ). sent p (serial_bytes pit_line) (outputs m.trace)) port in
    let kept : (start : Pics)
        → replay start (outputs prints.trace) ≡ replay start (outputs m.trace) =
      λ start.
        ap (λ (t : List (ℕ × ℕ)). replay start t) printed
        ∙ replay-sent start (serial_bytes pit_line) (outputs m.trace) in
    let m' = record m1 {
      answers = rest;
      tty = prints.out;
      trace =
          out8 0x21 0xEE
          ∷ in8 0x21 0xEF
          ∷ out8 0x40 0xFF
          ∷ out8 0x40 0xFF
          ∷ out8 0x43 0b00110100
          ∷ prints.trace;
    } in
    (
      m',
      record {
        returns = rw (vprintf-pit_format, prints.returns, ◌>>=◌) refl;
        answers = refl;
        handlers = λ k. refl;
        port = port;
        valid = prints.valid;
        clock = refl;
        pics = λ start. ap (write 0x21 0xEE) (kept start);
      },
    )

length-map : (f : ℕ → ℕ) (xs : List ℕ) → length (map f xs) ≡ length xs
length-map f [] = refl
length-map f (x ∷ xs) = omega (arith, length-map f xs)

-- The tables are set before the first output. The controllers are left with all lines masked.
pub record TablesStarted (l : Loaded) (k : Kernel) (m : Machine) (t : Tables) (m' : Machine)
    : Type 0 where
  pub returns : descriptor_tables_init l.gdt_at l.isr l.idt_at k.tables m ≡ ok (t, m')
  pub answers : m'.answers ≡ m.answers
  pub handlers : (i : ℕ) → m'.handlers i ≡ m.handlers i
  pub tty : m'.tty ≡ m.tty
  pub clock : m'.ns_since_boot ≡ m.ns_since_boot
  pub pics : (start : Pics) → replay start (outputs m'.trace) ≡ (configured 32 4, configured 40 2)

pub descriptor_tables_init-TablesStarted :
    (l : Loaded) (k : Kernel) (m : Machine)
    → (t : Tables) × (m' : Machine) × TablesStarted l k m t m'
unfolding descriptor_tables_init idt_init remap_irqs outb
descriptor_tables_init-TablesStarted l k m = (
  _,
  _,
  record {
    returns = refl;
    answers = refl;
    handlers = λ i. refl;
    tty = refl;
    clock = refl;
    pics = λ start. refl;
  },
)

-- The screen may hold anything when it is cleared.
pub init-IsValid : (t : Tty) → IsValid t → IsValid (Tty.init t)
unfolding Tty.init Tty.clear
init-IsValid t v = record {
  row = v.row;
  column = v.column;
  size = length-map (λ _. 0) t.buf ∙ v.size;
}
