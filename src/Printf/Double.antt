-- ===== src/Printf/Double.antt =====
-- libc/stdio/printf.c: `print_double`.
pub mod Decimal
use ma_os.Base.{
  ℕ, zero, suc, ◌-◌, ◌%◌, Bool, false, List, [], ◌∷◌, ◌++◌, Outcome, ok, ◌>>=◌, access, get_elem?,
  ltb, if◌then◌else◌,
}
use ma_os.Float.{Floats, to_uint}
use ma_os.Printf.{hexchars, print_int}

-- The loop over the decimals, with `rounds` of them left.
unfoldable pub decimals : (fl : Floats) → ℕ → fl.Float → Outcome (List ℕ)
decimals fl zero num_shifted = ok []
decimals fl (suc rounds) num_shifted =
    let shifted = fl.mul num_shifted (fl.literal 10 0) in
    let rest = decimals fl rounds shifted in
    do
      num_int ← to_uint fl 31 shifted
      c ← access (get_elem? hexchars (num_int % 10))
      cs ← rest
      ok (c ∷ cs)

abbrev pub is_negative : (fl : Floats) → fl.Float → Bool
is_negative fl num = fl.less num (fl.literal 0 0)

abbrev pub magnitude : (fl : Floats) → fl.Float → fl.Float
magnitude fl num = if is_negative fl num then fl.neg num else num

abbrev pub sign : (fl : Floats) → fl.Float → List ℕ
sign fl num = if is_negative fl num then b'-' ∷ [] else []

-- The precision that is used.
abbrev pub places : ℕ → ℕ
places precision = if ltb 10 precision then 10 else precision

-- The width that the integer part is printed to.
abbrev pub room : (fl : Floats) → fl.Float → ℕ → ℕ → ℕ
room fl num width precision =
    (if is_negative fl num then width - 1 else width) - places precision - 1

-- A number whose integer part, or whose integer part at a later digit, is no `int` has undefined
-- behaviour, and so has one that is not a number.
unfoldable pub print_double : (fl : Floats) → fl.Float → ℕ → ℕ → ℕ → Outcome (List ℕ)
print_double fl num width precision pad_char = do
  whole ← to_uint fl 31 (magnitude fl num)
  front ← print_int whole 10 false (room fl num width precision) pad_char
  back ← decimals fl (places precision) (magnitude fl num)
  ok (sign fl num ++ front ++ b'.' ∷ back)
