-- ===== src/Tests/Floats.antt =====
-- Colours and fractions over numbers of three decimals, which the program's floats may be.
use ma_os.Base.{
  ℕ, zero, suc, Bool-cases, inl, inr, ap, ◌∙◌, ◌+◌, ◌-◌, ◌*◌, ◌/◌, ◌%◌, ◌^◌, ◌<◌, ◌≡◌, refl, Bool,
  true, false, not, ◌&&◌, ◌||◌, none, some, List, [], ◌∷◌, ok, ltb, if◌then◌else◌, arith, codes,
  length, ◌++◌,
}
use native.Mathlib.Nat.{div-add-mod', mod-lt, pow-suc, pow-zero, pow-le-pow_right, mul-le-mul_left}
use ma_os.Remainder.{fmod}
use ma_os.Remainder.Exact.{IsPartialRemainder, IsRemainder, fmod-IsRemainder}
use ma_os.Float.{Floats, within}
use ma_os.Angle.{atan_first, atan2}
use ma_os.Angle.Quadrant.{HasSignBit, atan2_lem}
use ma_os.Colors.{hsv2rgbfast}
use ma_os.Colors.Hue.{Saturated, hsv2rgbfast-Saturated}
use ma_os.Printf.{padding, backwards, fill_buffer, print_int, print_unsigned}
use ma_os.Printf.Digits.{AreDigits, value}
use ma_os.Printf.Double.{print_double, decimals}
use ma_os.Printf.Double.Decimal.{Scales, shifted, read_on, print_double-Scales}

-- A sign and thousandths.
pub record Fixed : Type 0 where
  pub below : Bool
  pub thousandths : ℕ

abbrev pub fixed : Bool → ℕ → Fixed
fixed below thousandths = record { below = below; thousandths = thousandths }

abbrev pub opposite : Fixed → Fixed
opposite x = fixed (not x.below) x.thousandths

abbrev pub sum : Fixed → Fixed → Fixed
sum x y =
    if (x.below && y.below) || (not x.below && not y.below)
    then fixed x.below (x.thousandths + y.thousandths)
    else if ltb x.thousandths y.thousandths
    then fixed y.below (y.thousandths - x.thousandths)
    else fixed x.below (x.thousandths - y.thousandths)

abbrev pub signed : Fixed → Fixed → ℕ → Fixed
signed x y n = fixed ((x.below && not y.below) || (not x.below && y.below)) n

abbrev pub less_fixed : Fixed → Fixed → Bool
less_fixed x y = let d = sum x (opposite y) in d.below && ltb 0 d.thousandths

-- The sine of a small angle is about the angle.
abbrev pub fixed_floats : Floats
fixed_floats = record {
  Float = Fixed;
  literal = λ n k. fixed false (n * 1000 / 10 ^ k);
  of_uint = λ n. fixed false (n * 1000);
  add = sum;
  sub = λ x y. sum x (opposite y);
  mul = λ x y. signed x y (x.thousandths * y.thousandths / 1000);
  div = λ x y. signed x y (x.thousandths * 1000 / y.thousandths);
  neg = opposite;
  less = less_fixed;
  truncate = λ x. if x.below && ltb 999 x.thousandths then none else some (x.thousandths / 1000);
  fabs = λ x. fixed false x.thousandths;
  fmod = λ x y. fixed x.below (x.thousandths % y.thousandths);
  fsin = λ x. x;
  as_int = λ x. if x.below then 2 ^ 31 + x.thousandths else x.thousandths;
  as_float = λ n. if ltb n (2 ^ 31) then fixed false n else fixed true (n - 2 ^ 31);
}

-- The hue 2.5, between green and cyan.
hsv2rgbfast-Saturated_example :
    (c : ℕ) × (hsv2rgbfast fixed_floats (fixed false 2500) ≡ ok c) × Saturated 2 127 c
hsv2rgbfast-Saturated_example =
    hsv2rgbfast-Saturated fixed_floats (fixed false 2500) 2 127 refl (omega arith) refl
      (omega arith)

-- `m` thousandths behind the point moved on by `i` places.
abbrev moved : ℕ → ℕ → ℕ
moved m i = m * 10 ^ i / 1000

shifted-fixed : (m i : ℕ) → shifted fixed_floats (fixed false m) i ≡ fixed false (m * 10 ^ i)
shifted-fixed m zero = ap (fixed false) (omega (arith, pow-zero 10))
shifted-fixed m (suc i) =
    let by_ten : m * 10000 / 1000 ≡ m * 10 = omega arith in
    ap (λ (n : ℕ). shifted fixed_floats (fixed false n) i) by_ten
    ∙ shifted-fixed (m * 10) i
    ∙ ap (fixed false) (omega (arith, pow-suc 10 i, ap (λ (n : ℕ). m * n) (pow-suc 10 i)))

fixed-Scales :
    (m digits : ℕ) → moved m digits < 2 ^ 31 → Scales fixed_floats (fixed false m) (moved m) digits
fixed-Scales m digits small = record {
  whole = λ i h. ap fixed_floats.truncate (shifted-fixed m i);
  small = λ i h.
      let grows = mul-le-mul_left m (pow-le-pow_right {n = 10} (omega arith) h) in
      omega (arith, grows);
  digit = λ i h. omega (arith, pow-suc 10 i, ap (λ (n : ℕ). m * n) (pow-suc 10 i));
}

-- `printf("%6.2f", 3.141)`.
print_double-Scales_example :
    (front : List ℕ) × (back : List ℕ) × AreDigits 10 front
    × AreDigits 10 back
    × (value 10 front ≡ 3)
    × (length back ≡ 2)
    × (read_on (value 10 front) back ≡ 314)
    × (print_double fixed_floats (fixed false 3141) 6 2 b' '
        ≡ ok ((padding (3 - length front) b' ' ++ backwards front []) ++ b'.' ∷ back))
print_double-Scales_example =
    print_double-Scales fixed_floats (fixed false 3141) 6 2 b' ' (moved 3141)
      (fixed-Scales 3141 2 (omega arith))

-- `printf("%7.2f", -3.149)`: the decimals are cut off.
minus_3_149 : print_double fixed_floats (fixed true 3149) 7 2 b' ' ≡ ok (codes "-  3.14")
unfolding print_double decimals print_int print_unsigned fill_buffer padding backwards within
minus_3_149 = refl

-- A number of thousandths, from which at most 1000 times the other is subtracted in one step.
abbrev reduce : ℕ → ℕ → ℕ × Bool
reduce x y = if ltb (1000 * y) x then (x - 1000 * y, true) else (x % y, false)

reduce_multiple : (x y : ℕ) → (q : ℕ) × (x ≡ q * y + (reduce x y).0)
reduce_multiple x y = elim (Bool-cases (ltb (1000 * y) x)) [
  | inl e ↦ (1000, rw e (ground (arith, e)))
  | inr e ↦ (x / y, rw e (omega (arith, div-add-mod' x y)))
]

reduce_below : (x y : ℕ) → 0 < y → (reduce x y).1 ≡ false → (reduce x y).0 < y
reduce_below x y pos e = elim (Bool-cases (ltb (1000 * y) x)) [
  | inl more ↦ absurd (ground (arith, rw more at e))
  | inr last ↦ rw last (mod-lt x pos)
]

reduce-IsPartialRemainder : IsPartialRemainder (λ (x : ℕ). x) (λ x. false) reduce
reduce-IsPartialRemainder = record {
  multiple = reduce_multiple;
  same_sign = λ x y. refl;
  complete = reduce_below;
  reduced = λ x y pos e. ground arith;
}

fmod-IsRemainder_example :
    IsRemainder (λ (x : ℕ). x) (λ x. false) 6283185 6000 (fmod reduce 6283186 6283185 6000)
fmod-IsRemainder_example =
    fmod-IsRemainder (λ (x : ℕ). x) (λ x. false) reduce reduce-IsPartialRemainder 6283186 6283185
      6000 (omega arith) (omega arith)

-- The point (-3, 4).
point-HasSignBit :
    HasSignBit fixed_floats (atan_first fixed_floats (fixed false 4000) (fixed true 3000))
unfolding atan_first
point-HasSignBit = record { clear = omega arith; same = refl; negated = refl }

atan2_lem_example :
    atan2 fixed_floats (fixed false 4000) (fixed true 3000)
    ≡ fixed_floats.mul
        (fixed_floats.add
          (fixed_floats.of_uint 2)
          (opposite (atan_first fixed_floats (fixed false 4000) (fixed true 3000))))
        (fixed_floats.literal 1570796326794897 15)
atan2_lem_example =
    atan2_lem fixed_floats (fixed false 4000) (fixed true 3000) (omega arith) (omega arith)
      point-HasSignBit
