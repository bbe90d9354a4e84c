-- ===== src/Angle/Quadrant.antt =====
-- `atan2` puts the angle of the first quadrant into the one of its arguments.
use ma_os.Base.{
  ℕ, ◌+◌, ◌^◌, ◌<◌, ◌≡◌, refl, ap, ◌∙◌, Bool, true, false, arith, bit_and, bit_or, leb,
  if◌then◌else◌, Bool-cases, inl, inr,
}
use ma_os.Base.Bits.{bit, bit_and_comm, bit_and-two_pow, bit_or-disjoint}
use ma_os.Float.{Floats}
use ma_os.Angle.{sign_mask, quadrant, atan_first, atan2}

-- The number of quarter turns that the angle is counted from, for a point that is on the left or
-- not and below or not.
abbrev pub quarters : Bool → Bool → ℕ
quarters false false = 0
quarters false true = 4
quarters true false = 2
quarters true true = 2

-- Whether the angle is counted backwards.
abbrev pub counts_back : Bool → Bool → Bool
counts_back false below = below
counts_back true false = true
counts_back true true = false

abbrev pub sign_of : (fl : Floats) → fl.Float → Bool
sign_of fl x = leb (2 ^ 31) (fl.as_int x)

-- The sign is the highest of the 32 bits, and a number without it is not below zero.
pub record HasSignBit (fl : Floats) (a : fl.Float) : Type 0 where
  pub clear : fl.as_int a < 2 ^ 31
  pub same : fl.as_float (fl.as_int a) ≡ a
  pub negated : fl.as_float (2 ^ 31 + fl.as_int a) ≡ fl.neg a

masked_sign : (n : ℕ) → n < 2 ^ 32 → bit_and sign_mask n ≡ (if leb (2 ^ 31) n then 2 ^ 31 else 0)
unfolding bit
masked_sign n h = ground (arith, bit_and_comm sign_mask n, bit_and-two_pow n 31)

abbrev turned : (fl : Floats) → fl.Float → Bool → fl.Float
turned fl a true = fl.neg a
turned fl a false = a

-- The sign bit in front of a number without one.
with_sign :
    (fl : Floats) (a : fl.Float) (below : Bool)
    → HasSignBit fl a
    → fl.as_float (bit_or (if below then 2 ^ 31 else 0) (fl.as_int a)) ≡ turned fl a below
with_sign fl a true s = ap fl.as_float (bit_or-disjoint 31 1 (fl.as_int a) s.clear) ∙ s.negated
with_sign fl a false s =
    let none_added : bit_or 0 (fl.as_int a) ≡ fl.as_int a =
      omega (arith, bit_or-disjoint 31 0 (fl.as_int a) s.clear) in
    rw none_added s.same

module _ (fl : Floats) (y x : fl.Float) (word : fl.as_int x < 2 ^ 32) (word' : fl.as_int y < 2 ^ 32)
    (signed : HasSignBit fl (atan_first fl y x)) where
  -- `atan2` is the angle of the first quadrant, counted forwards from the right for a point above
  -- on the right, backwards from the left for one above on the left, forwards from the left for one
  -- below on the left, and backwards from the full circle for one below on the right. The numbers
  -- have 32 bits, of which the highest is the sign.
  pub atan2_lem :
      atan2 fl y x
      ≡ fl.mul
          (fl.add
            (fl.of_uint (quarters (sign_of fl x) (sign_of fl y)))
            (turned fl (atan_first fl y x) (counts_back (sign_of fl x) (sign_of fl y))))
          (fl.literal 1570796326794897 15)
  unfolding atan2 quadrant
  atan2_lem =
      let ux = masked_sign (fl.as_int x) word in
      let uy = masked_sign (fl.as_int y) word' in
      let plus = with_sign fl (atan_first fl y x) false signed in
      let minus = with_sign fl (atan_first fl y x) true signed in
      elim (Bool-cases (sign_of fl x)) [
        | inl left ↦ elim (Bool-cases (sign_of fl y)) [
          | inl below ↦ rw (atan2, ux, uy, left, below, plus) refl
          | inr above ↦ rw (atan2, ux, uy, left, above, minus) refl
        ]
        | inr right ↦ elim (Bool-cases (sign_of fl y)) [
          | inl below ↦ rw (atan2, ux, uy, right, below, minus) refl
          | inr above ↦ rw (atan2, ux, uy, right, above, plus) refl
        ]
      ]
