-- ===== src/Kernel/Main.antt =====
-- kernel/kernel/kernel.cpp: `kernel_main` from its first call to its last line, in text mode.
use ma_os.Base.{ℕ, ◌≤◌, ◌≡◌, refl, false, List, ◌∷◌, ◌++◌, Outcome, ok, arith, length, u8}
use ma_os.Tty.Screen.{IsValid}
use ma_os.Machine.{Machine, ◌>>=◌}
use ma_os.Float.{Floats}
use ma_os.Serial.{rx_data_ready}
use ma_os.Console.Output.{AllReady, Served, serial_bytes}
use ma_os.Console.Spoken.{Spoken, Spoken-trans}
use ma_os.Gfx.{Multiboot}
use ma_os.Gfx.Enable.{HasPixels, gfx_init-off}
use ma_os.Kernel.{Kernel, start_up, kernel_main}
use ma_os.Kernel.Memory.{Loaded}
use ma_os.Kernel.Parts.{pit_line}
use ma_os.Kernel.Ready.{CanStart, IsReady, start_up-IsReady}
use ma_os.Kernel.Lines.{not_supported, done}
use ma_os.Kernel.TextMode.{CanAnnounce, IsAnnouncement, announce-Spoken, show-Spoken}

-- The kernel has started, has said what the loader has set up and that there is no graphics.
pub record Reports (l : Loaded) (mb : Multiboot) (k : Kernel) (m : Machine) (rest : List ℕ)
    (r : Outcome (Kernel × Machine)) : Type 0 where
  pub start : IsReady l mb k m rest (start_up l mb k m)
  pub out : Kernel
  pub machine : Machine
  pub returns : r ≡ ok (out, machine)
  pub same_vm : out.vm ≡ start.out.vm
  pub same_tables : out.tables ≡ start.out.tables
  pub text : List ℕ
  pub announced : IsAnnouncement mb text
  pub said : Spoken (text ++ (not_supported ++ done)) start.machine machine

after_start :
    (fl : Floats) (malloc : ℕ → Kernel → Outcome (ℕ × Kernel)) (rounds : List (List ℕ)) (l : Loaded)
    (mb : Multiboot) (k : Kernel) (m : Machine) (rest : List ℕ)
    → (ready : IsReady l mb k m rest (start_up l mb k m)) → CanAnnounce mb
    → ¬ HasPixels mb
    → AllReady ready.machine.answers
    → 320 ≤ length ready.machine.answers
    → Reports l mb k m rest (kernel_main fl malloc rounds l mb k m)
unfolding kernel_main
after_start fl malloc rounds l mb k m rest ready can no_pixels answers enough =
    let started = ready.out in
    let g = record started.gfx { space = started.vm.current_as } in
    let k' = record started { gfx = g } in
    let (text, m1, done1, announced, said1, left1) =
      announce-Spoken mb ready.machine can ready.devices.screen answers (omega arith) in
    let (m2, done2, said2) =
      show-Spoken fl malloc rounds mb k' m1 said1.valid said1.ready (omega (arith, left1)) in
    record {
      start = ready;
      out = k';
      machine = m2;
      returns = rw (ready.returns, done1, gfx_init-off mb g no_pixels, ◌>>=◌) done2;
      same_vm = refl;
      same_tables = refl;
      text = text;
      announced = announced;
      said = Spoken-trans text (not_supported ++ done) ready.machine m1 m2 said1 said2;
    }

-- Where the loader keeps its promises and has set up no frame buffer of pixels, `kernel_main`
-- returns. Behind what the start writes, it has written to the serial port, in order, the greeting, the flags in
-- binary, the sizes of the screen in decimal, and that graphics are not supported. The flags have
-- at most 15 bits, the sizes are no negative numbers, and the devices answer as for the start, with
-- answers in which the serial line is ready for all that is printed.
pub kernel_main-Reports :
    (fl : Floats) (malloc : ℕ → Kernel → Outcome (ℕ × Kernel)) (rounds : List (List ℕ)) (l : Loaded)
    (mb : Multiboot) (k : Kernel) (m : Machine) (s : ℕ) (polls rest : List ℕ)
    → CanStart l mb k.vm
    → CanAnnounce mb
    → ¬ HasPixels mb
    → IsValid m.tty
    → m.answers ≡ 0xFF ∷ s ∷ polls
    → rx_data_ready (u8 s) ≡ false
    → Served (length (serial_bytes pit_line)) polls (0xEF ∷ rest)
    → AllReady rest
    → 1344 ≤ length rest
    → Reports l mb k m rest (kernel_main fl malloc rounds l mb k m)
kernel_main-Reports fl malloc rounds l mb k m s polls rest start can no_pixels valid e idle served
      all enough =
    let ready = start_up-IsReady l mb k m s polls rest start valid e idle served (omega arith) in
    after_start fl malloc rounds l mb k m rest ready can no_pixels (ready.devices.ready all)
      (omega (arith, ready.devices.left))
