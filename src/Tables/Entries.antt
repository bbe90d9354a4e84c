-- ===== src/Tables/Entries.antt =====
-- What the processor reads from the entries of the descriptor tables.
use ma_os.Base.{
  ℕ, zero, suc, ◌+◌, ◌*◌, ◌/◌, ◌%◌, ◌^◌, ◌≤◌, ◌<◌, ◌≡◌, refl, ◌∙◌, arith, bit_and, bit_or, u8, leb,
  ltb, ◌&&◌, if◌then◌else◌, ℕ_discrete,
}
use ma_os.Base.Bits.{bit_and-high, bit_and-low, bit_or-disjoint, bit_or_comm}
use ma_os.Paging.{update}
use ma_os.Tables.{
  GdtEntry, IdtEntry, Tables, gdt_entry, idt_entry, empty_gate, idt_set_entry, set_gates, fill_idt,
}

-- The fields of a segment, put together.
abbrev pub segment_base : GdtEntry → ℕ
segment_base e = e.base_high * 2 ^ 24 + e.base_mid * 2 ^ 16 + e.base_low

abbrev pub segment_limit : GdtEntry → ℕ
segment_limit e = e.flags_and_limit % 16 * 2 ^ 16 + e.limit_low

low_then_high :
    (limit flags : ℕ)
    → flags < 2 ^ 8
    → u8 (bit_or (u8 (bit_and (limit / 2 ^ 16) 0x0F)) (bit_and flags 0xF0))
      ≡ flags / 16 * 16 + limit / 2 ^ 16 % 16
low_then_high limit flags fits =
    let low = limit / 2 ^ 16 % 16 in
    let low_part : bit_and (limit / 2 ^ 16) 0x0F ≡ low = bit_and-low 4 (limit / 2 ^ 16) in
    let high_part : bit_and flags 0xF0 ≡ flags / 16 * 16 =
      bit_and-high 8 4 flags (omega arith) fits in
    let byte : u8 low ≡ low = omega arith in
    let joined : bit_or low (flags / 16 * 16) ≡ flags / 16 * 16 + low =
      bit_or_comm low (flags / 16 * 16) ∙ bit_or-disjoint 4 (flags / 16) low (omega arith) in
    rw (low_part, high_part, byte, joined) (omega arith)

-- A segment that is written reads back: the whole base, the low 20 digits of the limit, the high
-- half of the flags and the access byte.
pub gdt_entry-fields :
    (base limit access flags : ℕ)
    → base < 2 ^ 32
    → flags < 2 ^ 8
    → let e = gdt_entry base limit access flags in
      (segment_base e ≡ base)
      × (segment_limit e ≡ limit % 2 ^ 20)
      × (e.flags_and_limit / 16 ≡ flags / 16)
      × (e.access ≡ access)
unfolding gdt_entry
gdt_entry-fields base limit access flags fits small =
    let b0 : bit_and base 0xFFFF ≡ base % 2 ^ 16 = bit_and-low 16 base in
    let b1 : bit_and (base / 2 ^ 16) 0xFF ≡ base / 2 ^ 16 % 2 ^ 8 = bit_and-low 8 (base / 2 ^ 16) in
    let b2 : bit_and (base / 2 ^ 24) 0xFF ≡ base / 2 ^ 24 % 2 ^ 8 = bit_and-low 8 (base / 2 ^ 24) in
    let l0 : bit_and limit 0xFFFF ≡ limit % 2 ^ 16 = bit_and-low 16 limit in
    let both = low_then_high limit flags small in
    (rw (b0, b1, b2) (omega arith), rw (l0, both) (omega arith), rw both (omega arith), refl)

-- The function that a gate leads to.
abbrev pub gate_target : IdtEntry → ℕ
gate_target e = e.base_high * 2 ^ 16 + e.base_low

-- The gate of interrupt `k`: the first 48 lead to their stubs, the others are not present.
abbrev pub IsGate : (ℕ → ℕ) → ℕ → IdtEntry → Type 0
IsGate isr k e =
    (k < 48 → (gate_target e ≡ isr k) × (e.sel ≡ 0x08) × (e.flags ≡ 0x8E)) × (48 ≤ k → e.flags ≡ 0)

gate_target-idt_entry :
    (func sel flags : ℕ) → func < 2 ^ 32 → gate_target (idt_entry func sel flags) ≡ func
unfolding idt_entry
gate_target-idt_entry func sel flags fits =
    let low : bit_and func 0xFFFF ≡ func % 2 ^ 16 = bit_and-low 16 func in
    let high : bit_and (func / 2 ^ 16) 0xFFFF ≡ func / 2 ^ 16 % 2 ^ 16 =
      bit_and-low 16 (func / 2 ^ 16) in
    rw (low, high) (omega arith)

set_gates-idt :
    (isr : ℕ → ℕ) (count i : ℕ) (t : Tables) (k : ℕ)
    → (set_gates isr count i t).idt k
      ≡ (if leb i k && ltb k (i + count) then idt_entry (isr k) 0x08 0x8E else t.idt k)
unfolding set_gates idt_set_entry update
set_gates-idt isr zero i t k = ground arith
set_gates-idt isr (suc count) i t k =
    set_gates-idt isr count (i + 1) (idt_set_entry i (isr i) 0x08 0x8E t) k
    ∙ elim (ℕ_discrete i k) [ yes same ↦ rw same (ground arith) | no ne ↦ ground arith ]

-- `idt_init` clears the table and sets the gates of the 48 stubs.
pub fill_idt-IsGate :
    (isr : ℕ → ℕ) (idt_at : ℕ) (t : Tables) (k : ℕ)
    → isr k < 2 ^ 32
    → IsGate isr k ((fill_idt isr idt_at t).idt k)
unfolding fill_idt idt_entry
fill_idt-IsGate isr idt_at t k fits =
    let empty = record t { idt = λ i. empty_gate } in
    let gate = set_gates-idt isr 48 0 empty k in
    (
      λ h.
          let present : (set_gates isr 48 0 empty).idt k ≡ idt_entry (isr k) 0x08 0x8E =
            ground (arith, gate) in
          rw present (gate_target-idt_entry (isr k) 0x08 0x8E fits, refl, refl),
      λ h.
          let absent : (set_gates isr 48 0 empty).idt k ≡ empty_gate = ground (arith, gate) in
          rw absent refl,
    )
