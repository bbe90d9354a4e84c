-- ===== src/Pci/Address.antt =====
-- The address of a register of a PCI device, and the part of it that is read.
use ma_os.Base.{
  ℕ, ◌+◌, ◌*◌, ◌/◌, ◌%◌, ◌^◌, ◌<◌, ◌≡◌, refl, ◌∙◌, List, ◌∷◌, ok, arith, bit_and, bit_or, u32,
}
use ma_os.Base.Bits.{bit, bit_and-high, bit_and-low, bit_and-two_pow, bit_or-disjoint, bit_or_comm}
use ma_os.Machine.{Machine, out32, in32, outl, inl}
use ma_os.Pci.{config_address, pci_config_read_long, pci_config_read_word, pci_config_read_byte}

-- The fields of an address: the enable bit, the bus, the slot, the function and the register, which
-- is a multiple of four.
abbrev pub fields : ℕ → ℕ → ℕ → ℕ → ℕ
fields bus slot func offset =
    0x80000000 + bus * 0x10000 + slot * 0x800 + func * 0x100 + offset / 4 * 4

config_address-fields :
    (bus slot func offset : ℕ)
    → bus < 256
    → slot < 32
    → func < 8
    → offset < 256
    → config_address bus slot func offset ≡ fields bus slot func offset
unfolding config_address
config_address-fields bus slot func offset b s f o =
    let reg : bit_and offset 0xFC ≡ offset / 4 * 4 = bit_and-high 8 2 offset (omega arith) o in
    let a1 : bus * 65536 + slot * 2048 ≡ (bus * 32 + slot) * 2 ^ 11 = omega arith in
    let a2 : (bus * 32 + slot) * 2 ^ 11 + func * 256 ≡ ((bus * 32 + slot) * 8 + func) * 2 ^ 8 =
      omega arith in
    let below = ((bus * 32 + slot) * 8 + func) * 2 ^ 8 + offset / 4 * 4 in
    let j1 : bit_or (bus * 65536) (slot * 2048) ≡ bus * 65536 + slot * 2048 =
      bit_or-disjoint 16 bus (slot * 2048) (omega arith) in
    let j2 : bit_or ((bus * 32 + slot) * 2 ^ 11) (func * 256)
        ≡ (bus * 32 + slot) * 2 ^ 11 + func * 256 =
      bit_or-disjoint 11 (bus * 32 + slot) (func * 256) (omega arith) in
    let j3 : bit_or (((bus * 32 + slot) * 8 + func) * 2 ^ 8) (offset / 4 * 4) ≡ below =
      bit_or-disjoint 8 ((bus * 32 + slot) * 8 + func) (offset / 4 * 4) (omega arith) in
    let j4 : bit_or below 0x80000000 ≡ 0x80000000 + below =
      bit_or_comm below 0x80000000 ∙ bit_or-disjoint 31 1 below (omega arith) in
    rw (reg, j1, a1, j2, a2, j3, j4) (omega arith)

-- The machine after a read at an address, which was answered with `a`.
abbrev pub answered : ℕ → ℕ → List ℕ → Machine → Machine
answered address a rest m = record m {
  answers = rest;
  trace = in32 0xCFC a ∷ out32 0xCF8 address ∷ m.trace;
}

-- For a device that exists, each of the three functions writes the address of the register to port
-- 0xCF8 and reads port 0xCFC. They return the answer, its half that `offset` lies in, or its byte
-- at `offset`.
pub pci_config_read_lem :
    (bus slot func offset a : ℕ) (rest : List ℕ) (m : Machine)
    → bus < 256
    → slot < 32
    → func < 8
    → offset < 256
    → a < 2 ^ 32
    → m.answers ≡ a ∷ rest
    → let m' = answered (fields bus slot func offset) a rest m in
      (pci_config_read_long bus slot func offset m ≡ ok (a, m'))
      × (pci_config_read_word bus slot func offset m
          ≡ ok (a / 2 ^ (offset / 2 % 2 * 16) % 2 ^ 16, m'))
      × (pci_config_read_byte bus slot func offset m ≡ ok (a / 2 ^ (offset % 4 * 8) % 2 ^ 8, m'))
unfolding pci_config_read_long pci_config_read_word pci_config_read_byte outl inl bit
pci_config_read_lem bus slot func offset a rest m b s f o fits answers =
    let address = config_address-fields bus slot func offset b s f o in
    let dword : u32 a ≡ a = omega arith in
    let word_shift : bit_and offset 2 * 8 ≡ offset / 2 % 2 * 16 =
      omega (arith, bit_and-two_pow offset 1) in
    let byte_shift : bit_and offset 3 ≡ offset % 4 = bit_and-low 2 offset in
    let half = a / 2 ^ (offset / 2 % 2 * 16) in
    let byte = a / 2 ^ (offset % 4 * 8) in
    let low_half : bit_and half 0xFFFF % 2 ^ 16 ≡ half % 2 ^ 16 =
      omega (arith, bit_and-low 16 half) in
    let low_byte : bit_and byte 0xFF % 2 ^ 8 ≡ byte % 2 ^ 8 = omega (arith, bit_and-low 8 byte) in
    (
      rw (answers, address, dword) refl,
      rw (answers, address, dword, word_shift, low_half) refl,
      rw (answers, address, dword, byte_shift, low_byte) refl,
    )
