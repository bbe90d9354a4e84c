-- ===== src/Tables/Mask.antt =====
-- `irq_clear_mask` enables one line of the interrupt controllers.
use ma_os.Base.{
  ℕ, zero, suc, ◌+◌, ◌-◌, ◌*◌, ◌^◌, ◌≤◌, ◌<◌, ◌≡◌, refl, ap, false, List, ◌∷◌, ok, arith, bit_and,
  ◌==◌, if◌then◌else◌, u8, not32, ◌<<<◌, ltb, leb, lt→ltb, ge→ltb, Bool-cases, inl, inr, ltb→lt,
  ltb→ge, dec_lt,
}
use native.Mathlib.Nat.{one-le-pow, pow-suc}
use ma_os.Base.Bits.{bit, bit-lt, bit-bit_and, bit-complement, bit-two_pow, bit_and-le}
use ma_os.Machine.{Machine, out8, in8, outb, inb}
use ma_os.Serial.Wait.{outputs}
use ma_os.Tables.{irq_port, irq_line, clear_digit, irq_clear_mask}
use ma_os.Tables.Pic.{Pics, operating, write, replay}

two_pow-lt : (n l : ℕ) → l < n → 2 ^ l < 2 ^ n
two_pow-lt zero l h = absurd (omega arith)
two_pow-lt (suc n) zero h = omega (arith, pow-suc 2 n, one-le-pow n 2)
two_pow-lt (suc n) (suc l) h = omega (arith, pow-suc 2 n, pow-suc 2 l, two_pow-lt n l (omega arith))

cleared :
    (a l k : ℕ)
    → a < 256
    → l < 8
    → k < 8
    → bit (u8 (bit_and a (not32 (1 <<< l)))) k ≡ (if k == l then 0 else bit a k)
cleared a l k fits low small =
    let one : 1 * 2 ^ l ≡ 2 ^ l = omega arith in
    let same : u8 (bit_and a (not32 (2 ^ l))) ≡ bit_and a (not32 (2 ^ l)) =
      omega (arith, bit_and-le a (not32 (2 ^ l))) in
    rw
      (
        one,
        same,
        bit-bit_and a (not32 (2 ^ l)) k,
        bit-complement 32 (2 ^ l) k (two_pow-lt 32 l (omega arith)) (omega arith),
        bit-two_pow l k,
      )
      (ground (arith, bit-lt a k))

-- Digit `k` of the two masks, the second behind the first: 1 if interrupt line `k` is masked.
abbrev pub masked_line : Pics → ℕ → ℕ
masked_line p k = if ltb k 8 then bit p.0.masked k else bit p.1.masked (k - 8)

-- The mask of the controller that a line belongs to.
abbrev pub mask_of : ℕ → Pics → ℕ
mask_of line p = if ltb line 8 then p.0.masked else p.1.masked

abbrev new_mask : ℕ → ℕ → ℕ
new_mask l a = u8 (bit_and a (not32 (1 <<< l)))

low_line :
    (p : Pics) (line a k : ℕ)
    → p.0.stage ≡ operating
    → p.0.masked ≡ a
    → a < 256
    → line < 8
    → masked_line (write 0x21 (new_mask line a) p) k ≡ (if k == line then 0 else masked_line p k)
low_line p line a k stage mask fits low = elim (dec_lt k 8) [
  | yes h ↦ rw (stage, lt→ltb k 8 h, mask) (cleared a line k fits low h)
  | no h ↦
      let other : (k == line) ≡ false = ground arith in
      rw (stage, ge→ltb k 8 (omega arith), other) refl
]

high_line :
    (p : Pics) (line a k : ℕ)
    → p.1.stage ≡ operating
    → p.1.masked ≡ a
    → a < 256
    → line < 8
    → k < 16
    → masked_line (write 0xA1 (new_mask line a) p) k
      ≡ (if k == 8 + line then 0 else masked_line p k)
high_line p line a k stage mask fits low small = elim (dec_lt k 8) [
  | yes h ↦
      let other : (k == 8 + line) ≡ false = ground arith in rw (stage, lt→ltb k 8 h, other) refl
  | no h ↦
      let same : (k == 8 + line) ≡ (k - 8 == line) = ground arith in
      rw (stage, ge→ltb k 8 (omega arith), same, mask)
        (cleared a line (k - 8) fits low (omega arith))
]

irq_clear_mask_lem :
    (line a : ℕ) (rest : List ℕ) (m : Machine)
    → m.answers ≡ a ∷ rest
    → irq_line line < 8
    → irq_clear_mask line m
      ≡ ok (
        tt,
        record m {
          answers = rest;
          trace =
              out8 (irq_port line) (new_mask (irq_line line) (u8 a))
              ∷ in8 (irq_port line) (u8 a)
              ∷ m.trace;
        },
      )
unfolding irq_clear_mask clear_digit outb inb
irq_clear_mask_lem line a rest m answers low =
    let shift : leb 31 (irq_line line) ≡ false = ground arith in rw (answers, shift) refl

-- With both controllers in operation, and the mask as the answer to the read, `irq_clear_mask`
-- unmasks its line and leaves the other fifteen as they are.
pub irq_clear_mask-masked_line :
    (start : Pics) (line a : ℕ) (rest : List ℕ) (m : Machine)
    → line < 16
    → a < 256
    → m.answers ≡ a ∷ rest
    → (replay start (outputs m.trace)).0.stage ≡ operating
    → (replay start (outputs m.trace)).1.stage ≡ operating
    → mask_of line (replay start (outputs m.trace)) ≡ a
    → (m' : Machine) × (irq_clear_mask line m ≡ ok (tt, m'))
      × ((k : ℕ)
          → k < 16
          → masked_line (replay start (outputs m'.trace)) k
            ≡ (if k == line then 0 else masked_line (replay start (outputs m.trace)) k))
unfolding irq_port irq_line
irq_clear_mask-masked_line start line a rest m small fits answers first second mask =
    let p = replay start (outputs m.trace) in
    let byte : u8 a ≡ a = omega arith in
    elim (Bool-cases (ltb line 8)) [
      | inl low ↦
          let l : line < 8 = ltb→lt line 8 low in
          let mask' : p.0.masked ≡ a = rw low at mask in
          (
            _,
            irq_clear_mask_lem line a rest m answers (rw low l),
            λ k h. rw (low, byte) (low_line p line a k first mask' fits l),
          )
      | inr high ↦
          let l : 8 ≤ line = ltb→ge line 8 high in
          let mask' : p.1.masked ≡ a = rw high at mask in
          let split : line ≡ 8 + (line - 8) = omega arith in
          (
            _,
            irq_clear_mask_lem line a rest m answers (rw high (omega arith)),
            λ k h.
                let moved : (k == line) ≡ (k == 8 + (line - 8)) = ap (λ (t : ℕ). k == t) split in
                rw (high, byte, moved)
                  (high_line p (line - 8) a k second mask' fits (omega arith) h),
          )
    ]
