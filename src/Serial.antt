-- ===== src/Serial.antt =====
-- kernel/io/serial.c: the serial port.
pub mod Wait
use ma_os.Base.{ℕ, ◌+◌, bit_and, Bool, ok, ◌==◌, not, if◌then◌else◌, u8, u16}
use ma_os.Machine.{serial, Io, ◌>>=◌, ◌>>◌, outb, inb, poll, drain}
use ma_os.Isr.{irq, irq_register_handler}
use ma_os.Tables.{irq_clear_mask}

abbrev pub com1 : ℕ
com1 = 0x3F8

abbrev pub rx_data_ready : ℕ → Bool
rx_data_ready status = not (bit_and status 0x01 == 0)

-- The test of the loop in `serial_putchar`: `serial_tx_empty() == 0`.
abbrev pub tx_busy : ℕ → Bool
tx_busy status = bit_and status 0x20 == 0

unfoldable pub set_active_port : ℕ → Io (Unit {0})
set_active_port port m = ok (tt, record m { active_port = port })

-- Wait, and write one byte.
unfoldable pub put_byte : ℕ → Io (Unit {0})
put_byte a = do poll (com1 + 5) (λ status. tx_busy status); λ m. outb m.active_port (u8 a) m

unfoldable pub serial_putchar : ℕ → Io (Unit {0})
serial_putchar a = if a == b'\n' then (do put_byte b'\r'; put_byte a) else put_byte a

unfoldable pub serial_handler : ℕ → Io (Unit {0})
serial_handler int_no = do c ← λ m. inb m.active_port m; serial_putchar c

-- The programming of the port, up to the normal operation mode.
unfoldable pub serial_program : ℕ → Io (Unit {0})
serial_program port = do
  outb (u16 (port + 1)) 0x00
  outb (u16 (port + 3)) 0x80
  outb (u16 (port + 0)) 0x03
  outb (u16 (port + 1)) 0x00
  outb (u16 (port + 3)) 0x03
  outb (u16 (port + 2)) 0xC7
  outb (u16 (port + 4)) 0x0B

-- It always returns E_OK.
unfoldable pub serial_init : ℕ → Io (Unit {0})
serial_init port = do
  irq_register_handler (irq 4) serial
  set_active_port 0
  serial_program port
  set_active_port port
  outb (u16 (port + 4)) 0x0F
  outb (u16 (port + 1)) 0x01
  irq_clear_mask 4
  drain (com1 + 5) port (λ status. rx_data_ready status)
