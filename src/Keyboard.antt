-- ===== src/Keyboard.antt =====
-- kernel/io/keyboard.c: the controller of the keyboard.
use ma_os.Base.{ℕ, bit_and, bit_or, Bool, [], ◌∷◌, assert, ◌==◌, not, codes}
use ma_os.Machine.{keyboard, Io, ◌>>=◌, ◌>>◌, pure, lift, outb, inb, poll, drain}
use ma_os.Isr.{irq, irq_register_handler}
use ma_os.Tables.{irq_clear_mask}
use ma_os.Printf.Format.{int}
use ma_os.Console.{printf}

abbrev pub port_status : ℕ
port_status = 0x64

abbrev pub port_command : ℕ
port_command = 0x64

abbrev pub port_data : ℕ
port_data = 0x60

abbrev pub input_full : ℕ → Bool
input_full status = not (bit_and status 0b10 == 0)

abbrev pub output_full : ℕ → Bool
output_full status = not (bit_and status 0b1 == 0)

unfoldable pub flush_input_buffer : Io (Unit {0})
flush_input_buffer = poll port_status (λ status. input_full status)

unfoldable pub flush_output_buffer : Io (Unit {0})
flush_output_buffer = drain port_status port_data (λ status. output_full status)

unfoldable pub send_command : ℕ → Io (Unit {0})
send_command cmd = do outb port_command cmd; flush_input_buffer

unfoldable pub send_data : ℕ → Io (Unit {0})
send_data byte = do outb port_data byte; flush_input_buffer

unfoldable pub expect_data : Io ℕ
expect_data = do poll port_status (λ status. not (output_full status)); inb port_data

unfoldable pub keyboard_handler : ℕ → Io (Unit {0})
keyboard_handler int_no = do
  byte ← inb port_data
  _ ← printf (codes "0x%x\n") (int byte ∷ [])
  pure tt

-- Reading the configuration byte, and storing what `change` makes of it.
unfoldable pub update_config : (ℕ → ℕ) → Io (Unit {0})
update_config change = do
  send_command 0x20
  conf ← expect_data
  send_command 0x60
  send_data (change conf)

-- A test that the controller makes, and the answer that it has to give.
unfoldable pub controller_test : ℕ → ℕ → Io (Unit {0})
controller_test cmd expected = do
  send_command cmd
  tmp ← expect_data
  lift (assert (tmp == expected))

unfoldable pub keyboard_init : Io (Unit {0})
keyboard_init = do
  irq_register_handler (irq 1) keyboard
  irq_clear_mask 1
  send_command 0xAD
  send_command 0xA7
  flush_output_buffer
  update_config (λ conf. bit_and conf 0b10111100)
  controller_test 0xAA 0x55
  controller_test 0xAB 0x00
  send_command 0xAE
  update_config (λ conf. bit_or conf 0b00000001)
