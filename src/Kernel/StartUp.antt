-- ===== src/Kernel/StartUp.antt =====
-- What the start of the kernel leaves behind.
use ma_os.Base.{
  ℕ, ◌+◌, ◌≤◌, ◌≡◌, ◌≢◌, refl, sym, ap, ◌∙◌, false, some, List, [], ◌∷◌, Outcome, ok, panic, fault,
  unfinished, arith, length, u8, ◌==◌,
}
use mathlib.Core.Path.{subst}
use ma_os.Tty
use ma_os.Tty.{Tty}
use ma_os.Tty.Screen.{IsValid}
use ma_os.Machine.{Machine, Io, serial, timer, ◌>>=◌, ◌>>◌, then_ok, pure, lift}
use ma_os.Paging.{update}
use ma_os.Serial.{com1, rx_data_ready, serial_init}
use ma_os.Serial.Wait.{outputs}
use ma_os.Isr.{irq}
use ma_os.Tables.{Tables, descriptor_tables_init}
use ma_os.Tables.Pic.{Pics, replay, write, configured}
use ma_os.Timer.{timer_init}
use ma_os.Pci.{pci_init}
use ma_os.Pci.Scan.{Quiet, pci_init-Reads}
use ma_os.Console.{on_tty}
use ma_os.Console.Output.{AllReady, Served, serial_bytes, on_tty_lem}
use ma_os.Vm.{Vm}
use ma_os.Gfx.{Multiboot}
use ma_os.Kernel.{Kernel, start_up}
use ma_os.Kernel.Memory.{Loaded, memory_init}
use ma_os.Kernel.Parts.{
  serial_started, serial_init_lem, pit_line, TimerStarted, timer_init-TimerStarted, TablesStarted,
  descriptor_tables_init-TablesStarted, init-IsValid,
}

-- The interrupt controllers when all parts are started: the lines 0 and 4 are unmasked.
abbrev pub two_lines : Pics
two_lines = (record (configured 32 4) { masked = 0xEE }, configured 40 2)

-- The last calls of the start, behind the two memory managers.
abbrev later : Kernel → Tables → Vm → Io Kernel
later k t vm = do timer_init; pci_init; pure (record k { tables = t; vm = vm })

memory_last :
    (r : Outcome Vm) (k : Kernel) (t : Tables) (m3 m4 m5 : Machine)
    → timer_init m3 ≡ ok (tt, m4)
    → pci_init m4 ≡ ok (tt, m5)
    → (lift r >>= later k t) m3 ≡ (lift r >>= λ vm. pure (record k { tables = t; vm = vm })) m5
memory_last (ok vm) k t m3 m4 m5 e e' =
    let started : Io Kernel = pure (record k { tables = t; vm = vm }) in
    then_ok timer_init (λ _. pci_init >> started) m3 e ∙ then_ok pci_init (λ _. started) m4 e'
memory_last panic k t m3 m4 m5 e e' = refl
memory_last fault k t m3 m4 m5 e e' = refl
memory_last unfinished k t m3 m4 m5 e e' = refl

-- The machine after the start, with the one before it, and the answers for `pci_init` and what is
-- behind.
pub record Started (m : Machine) (rest : List ℕ) (m' : Machine) : Type 0 where
  pub timer_line : m'.handlers (irq 0) ≡ some timer
  pub serial_line : m'.handlers (irq 4) ≡ some serial
  pub others : (i : ℕ) → i ≢ irq 0 → i ≢ irq 4 → m'.handlers i ≡ m.handlers i
  pub port : m'.active_port ≡ com1
  pub clock : m'.ns_since_boot ≡ m.ns_since_boot
  pub screen : IsValid m'.tty
  pub ready : AllReady rest → AllReady m'.answers
  pub left : length rest ≤ 1024 + length m'.answers
  pub pics : (start : Pics) → replay start (outputs m'.trace) ≡ two_lines

started :
    (l : Loaded) (k : Kernel) (m m2 m4 m5 : Machine) (cleared : Tty) (s : ℕ) (polls rest : List ℕ)
    (t : Tables)
    → TablesStarted l k (record m { tty = cleared }) t m2
    → TimerStarted (serial_started s polls m2) rest m4
    → Quiet m4 m5
    → length m4.answers ≤ 1024 + length m5.answers
    → Started m rest m5
unfolding update
started l k m m2 m4 m5 cleared s polls rest t tables up quiet left = record {
  timer_line = quiet.handlers (irq 0) ∙ up.handlers (irq 0);
  serial_line = quiet.handlers (irq 4) ∙ up.handlers (irq 4);
  others = λ i ne ne'.
      let no_timer : (irq 0 == i) ≡ false = ground arith in
      let no_serial : (irq 4 == i) ≡ false = ground arith in
      quiet.handlers i ∙ up.handlers i ∙ rw (no_timer, no_serial) (tables.handlers i);
  port = quiet.port ∙ up.port;
  clock = quiet.clock ∙ up.clock ∙ tables.clock;
  screen = subst (λ (t : Tty). IsValid t) (sym quiet.tty) up.valid;
  ready = λ all. quiet.ready (rw up.answers all);
  left = rw up.answers at left;
  pics = λ start.
      quiet.pics start
      ∙ up.pics start
      ∙ ap (λ (p : Pics). write 0x21 0xEE (write 0x21 0xEF p)) (tables.pics start);
}

-- `start_up` ends as `memory_init` ends, with its tables and in one machine. There the timer
-- and the serial port have the interrupts 32 and 36, no other handler has changed, output goes to
-- COM1, and of the lines of both interrupt controllers exactly 0 and 4 are unmasked, in whatever
-- state the controllers were before. The devices answer as follows: the masks read as they were
-- written, the serial port has no data and takes each byte at once, and `pci_init` gets an answer
-- to each of at most 1024 reads.
pub start_up-Started :
    (l : Loaded) (mb : Multiboot) (k : Kernel) (m : Machine) (s : ℕ) (polls rest : List ℕ)
    → IsValid m.tty
    → m.answers ≡ 0xFF ∷ s ∷ polls
    → rx_data_ready (u8 s) ≡ false
    → Served (length (serial_bytes pit_line)) polls (0xEF ∷ rest)
    → 1024 ≤ length rest
    → (t : Tables) × (m' : Machine) × (start_up l mb k m
        ≡ (lift (memory_init l mb k.vm) >>= λ vm. pure (record k { tables = t; vm = vm })) m')
      × Started m rest m'
unfolding start_up
start_up-Started l mb k m s [] rest valid e idle served enough = absurd served
start_up-Started l mb k m s (b ∷ polls) rest valid e idle served enough =
    let m1 = record m { tty = Tty.init m.tty } in
    let cleared = on_tty_lem (λ t. ok (Tty.init t)) m (Tty.init m.tty) refl in
    let (t, m2, tables) = descriptor_tables_init-TablesStarted l k m1 in
    let m3 = serial_started s (b ∷ polls) m2 in
    let serial_up = serial_init_lem m2 s b polls (tables.answers ∙ e) idle in
    let shown : IsValid m2.tty =
      subst (λ (t : Tty). IsValid t) (sym tables.tty) (init-IsValid m.tty valid) in
    let (m4, up) = timer_init-TimerStarted m3 rest shown refl served in
    let many : 1024 ≤ length m4.answers = rw up.answers enough in
    let (u, m5, scanned, left, quiet) = pci_init-Reads m4 many in
    (
      t,
      m5,
      then_ok (on_tty (λ t. ok (Tty.init t))) _ m cleared
          ∙ then_ok (descriptor_tables_init l.gdt_at l.isr l.idt_at k.tables) _ m1 tables.returns
          ∙ then_ok (serial_init com1) _ m2 serial_up
          ∙ memory_last (memory_init l mb k.vm) k t m3 m4 m5 up.returns scanned,
      started l k m m2 m4 m5 (Tty.init m.tty) s (b ∷ polls) rest t tables up quiet left,
    )
