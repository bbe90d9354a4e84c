-- ===== src/Printf/Double/Decimal.antt =====
-- What `print_double` prints of a number that it can scale.
use ma_os.Base.{
  ℕ, zero, suc, ◌+◌, ◌-◌, ◌*◌, ◌/◌, ◌^◌, ◌≤◌, ◌<◌, ◌≡◌, refl, ap, ◌∙◌, some, List, [], ◌∷◌, ◌++◌,
  ok, fault, arith, length,
}
use ma_os.Float.{Floats, to_uint_lem, to_uint-fault}
use ma_os.Printf.{padding, backwards, print_unsigned, print_int}
use ma_os.Printf.Digits.{AreDigits, digit_value, value, hexchar, fill_buffer-value}
use ma_os.Printf.Double.{decimals, magnitude, sign, places, room, print_double}

-- `num_shifted` after `i` rounds of the loop.
abbrev pub shifted : (fl : Floats) → fl.Float → ℕ → fl.Float
shifted fl x zero = x
shifted fl x (suc i) = shifted fl (fl.mul x (fl.literal 10 0)) i

-- `t i` is the number in front of the point after `i` rounds, up to `digits`, and always an `int`.
-- Each follows the one before it by a further digit: no product is rounded up to a whole number.
pub record Scales (fl : Floats) (x : fl.Float) (t : ℕ → ℕ) (digits : ℕ) : Type 0 where
  pub whole : (i : ℕ) → i ≤ digits → fl.truncate (shifted fl x i) ≡ some (t i)
  pub small : (i : ℕ) → i ≤ digits → t i < 2 ^ 31
  pub digit : (i : ℕ) → i < digits → t (suc i) / 10 ≡ t i

Scales-shifted :
    (fl : Floats) (x : fl.Float) (t : ℕ → ℕ) (digits : ℕ)
    → Scales fl x t (suc digits)
    → Scales fl (fl.mul x (fl.literal 10 0)) (λ i. t (suc i)) digits
Scales-shifted fl x t digits scales = record {
  whole = λ i h. scales.whole (suc i) (omega arith);
  small = λ i h. scales.small (suc i) (omega arith);
  digit = λ i h. scales.digit (suc i) (omega arith);
}

-- The number that the digits stand for, behind those of `n`.
abbrev pub read_on : ℕ → List ℕ → ℕ
read_on n [] = n
read_on n (c ∷ cs) = read_on (n * 10 + digit_value c) cs

decimals-read_on :
    (fl : Floats) (x : fl.Float) (t : ℕ → ℕ) (digits : ℕ)
    → Scales fl x t digits
    → (cs : List ℕ) × (decimals fl digits x ≡ ok cs)
      × (length cs ≡ digits)
      × (read_on (t 0) cs ≡ t digits)
      × AreDigits 10 cs
unfolding decimals
decimals-read_on fl x t zero scales = ([], refl, refl, refl, tt)
decimals-read_on fl x t (suc digits) scales =
    let y = fl.mul x (fl.literal 10 0) in
    let whole =
      to_uint_lem fl 31 y (t 1) (scales.whole 1 (omega arith)) (scales.small 1 (omega arith)) in
    let (c, found, same, char) = hexchar (t 1) 10 (omega arith) (omega arith) in
    let (cs, printed, long, reads, chars) =
      decimals-read_on fl y (λ i. t (suc i)) digits (Scales-shifted fl x t digits scales) in
    let next : t 0 * 10 + digit_value c ≡ t 1 = omega (arith, same, scales.digit 0 (omega arith)) in
    (
      c ∷ cs,
      rw (whole, found, printed) refl,
      omega (arith, long),
      ap (λ (n : ℕ). read_on n cs) next ∙ reads,
      (char, chars),
    )

-- Where the size of a number can be scaled to the places after the point, which are the precision
-- but at most 10, `print_double` prints the sign, blanks or zeros up to the width, the digits of
-- the integer part, a point, and as many digits as there are places. The integer part and these
-- digits, read as one number, are the scaled size without what is behind its point: the decimals
-- are cut off, not rounded. All of them are the characters `0` to `9`.
pub print_double-Scales :
    (fl : Floats) (num : fl.Float) (width precision pad_char : ℕ) (t : ℕ → ℕ)
    → Scales fl (magnitude fl num) t (places precision)
    → (front : List ℕ) × (back : List ℕ) × AreDigits 10 front
      × AreDigits 10 back
      × (value 10 front ≡ t 0)
      × (length back ≡ places precision)
      × (read_on (value 10 front) back ≡ t (places precision))
      × (print_double fl num width precision pad_char
          ≡ ok (
              sign fl num
              ++ (padding (room fl num width precision - length front) pad_char
                  ++ backwards front [])
              ++ b'.' ∷ back))
unfolding print_double print_int print_unsigned
print_double-Scales fl num width precision pad_char t scales =
    let small = scales.small 0 (omega arith) in
    let whole = to_uint_lem fl 31 (magnitude fl num) (t 0) (scales.whole 0 (omega arith)) small in
    let (front, filled, same, digits, _) =
      fill_buffer-value 14 (t 0) 10 (omega arith) (omega arith) (omega arith) in
    let (back, printed, long, reads, chars) =
      decimals-read_on fl (magnitude fl num) t (places precision) scales in
    (
      front,
      back,
      digits,
      chars,
      same,
      long,
      ap (λ (n : ℕ). read_on n back) same ∙ reads,
      rw (whole, filled, printed) refl,
    )

decimals-fault :
    (fl : Floats) (x : fl.Float) (t : ℕ → ℕ) (i n digits : ℕ)
    → Scales fl x t i
    → i < digits
    → fl.truncate (shifted fl x (suc i)) ≡ some n
    → 2 ^ 31 ≤ n
    → decimals fl digits x ≡ fault
unfolding decimals
decimals-fault fl x t i n zero scales h e large = absurd (omega arith)
decimals-fault fl x t zero n (suc digits) scales h e large =
    rw (to_uint-fault fl 31 (fl.mul x (fl.literal 10 0)) n e large) refl
decimals-fault fl x t (suc i) n (suc digits) scales h e large =
    let y = fl.mul x (fl.literal 10 0) in
    let whole =
      to_uint_lem fl 31 y (t 1) (scales.whole 1 (omega arith)) (scales.small 1 (omega arith)) in
    let (c, found, same, char) = hexchar (t 1) 10 (omega arith) (omega arith) in
    let later =
      decimals-fault fl y (λ i. t (suc i)) i n digits (Scales-shifted fl x t i scales) (omega arith)
        e large in
    rw (whole, found, later) refl

-- Where the scaled size reaches 2^31 at one of the digits behind the point, `print_double` has
-- undefined behaviour: the conversion to an `int` overflows.
pub print_double-fault :
    (fl : Floats) (num : fl.Float) (width precision pad_char : ℕ) (t : ℕ → ℕ) (i n : ℕ)
    → Scales fl (magnitude fl num) t i
    → i < places precision
    → fl.truncate (shifted fl (magnitude fl num) (suc i)) ≡ some n
    → 2 ^ 31 ≤ n
    → print_double fl num width precision pad_char ≡ fault
unfolding print_double print_int print_unsigned
print_double-fault fl num width precision pad_char t i n scales h e large =
    let small = scales.small 0 (omega arith) in
    let whole = to_uint_lem fl 31 (magnitude fl num) (t 0) (scales.whole 0 (omega arith)) small in
    let (front, filled, same, digits, _) =
      fill_buffer-value 14 (t 0) 10 (omega arith) (omega arith) (omega arith) in
    let later = decimals-fault fl (magnitude fl num) t i n (places precision) scales h e large in
    rw (whole, filled, later) refl
