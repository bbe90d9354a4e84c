-- ===== src/Pci.antt =====
-- kernel/io/pci.c: the configuration space of PCI devices. The DEBUG line of `pci_init` prints
-- nothing.
pub mod Address
pub mod Scan
use ma_os.Base.{ℕ, zero, suc, ◌+◌, ◌*◌, bit_and, bit_or, ◌==◌, if◌then◌else◌, u8, u16, ◌<<<◌, ◌>>>◌}
use ma_os.Machine.{Io, ◌>>=◌, ◌>>◌, pure, outl, inl}

unfoldable pub config_address : ℕ → ℕ → ℕ → ℕ → ℕ
config_address bus slot func offset =
    bit_or (bit_or (bit_or (bit_or (bus <<< 16) (slot <<< 11)) (func <<< 8)) (bit_and offset 0xFC))
      0x80000000

unfoldable pub pci_config_read_long : ℕ → ℕ → ℕ → ℕ → Io ℕ
pci_config_read_long bus slot func offset = do
  outl 0xCF8 (config_address bus slot func offset)
  inl 0xCFC

unfoldable pub pci_config_read_word : ℕ → ℕ → ℕ → ℕ → Io ℕ
pci_config_read_word bus slot func offset = do
  val ← pci_config_read_long bus slot func offset
  pure (u16 (bit_and (val >>> (bit_and offset 0b10 * 8)) 0xFFFF))

unfoldable pub pci_config_read_byte : ℕ → ℕ → ℕ → ℕ → Io ℕ
pci_config_read_byte bus slot func offset = do
  val ← pci_config_read_long bus slot func offset
  pure (u8 (bit_and (val >>> (bit_and offset 0b11 * 8)) 0xFF))

-- The body of the loop of `pci_init` for one slot.
unfoldable pub probe : ℕ → Io (Unit {0})
probe i = do
  vendor ← pci_config_read_word 0 (u8 i) 0 0
  if vendor == 0xFFFF then pure tt else (do
    device ← pci_config_read_word 0 (u8 i) 0 2
    class_code ← pci_config_read_byte 0 (u8 i) 0 11
    subclass ← pci_config_read_byte 0 (u8 i) 0 10
    pure tt)

-- `count` slots from `i` on.
unfoldable pub probe_slots : ℕ → ℕ → Io (Unit {0})
probe_slots zero i = pure tt
probe_slots (suc count) i = do probe i; probe_slots count (i + 1)

unfoldable pub pci_init : Io (Unit {0})
pci_init = probe_slots 256 0
