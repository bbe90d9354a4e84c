-- ===== src/Printf.antt =====
-- libc/stdio/printf.c: how `print_int` turns a number into characters. What is printed is the
-- list of the bytes that `putchar` is given, when none of these calls fails. An `int` is its 32
-- bits; a width below zero prints as the width 0 does.
pub mod Digits
pub mod Numeral
pub mod Format
pub mod Rounds
pub mod Unknown
pub mod Items
pub mod Render
pub mod Double
use ma_os.Base.{
  ℕ, zero, suc, ◌+◌, ◌-◌, ◌*◌, ◌/◌, ◌%◌, ◌^◌, Bool, true, false, Option, none, some, List, [], ◌∷◌,
  ◌++◌, Outcome, ok, panic, fault, ◌>>=◌, access, get_elem?, length, ltb, leb, ◌==◌, ◌&&◌,
  if◌then◌else◌,
}

abbrev pub hexchars : List ℕ
hexchars = 48 ∷ 49 ∷ 50 ∷ 51 ∷ 52 ∷ 53 ∷ 54 ∷ 55 ∷ 56 ∷ 57 ∷ 65 ∷ 66 ∷ 67 ∷ 68 ∷ 69 ∷ 70 ∷ []

-- The loop that fills `buffer`, with `rounds` of its 15 places left: the least digit first. If it
-- ends without a break, then `i` is 15, and the last loop of `print_int` begins by reading
-- `buffer[15]`, which is out of bounds.
unfoldable pub fill_buffer : ℕ → ℕ → ℕ → Outcome (List ℕ)
fill_buffer zero unum base = fault
fill_buffer (suc rounds) unum base =
    let rest = fill_buffer rounds (unum / base) base in
    do
      c ← access (get_elem? hexchars (unum % base))
      if ltb unum base then ok (c ∷ []) else (do cs ← rest; ok (c ∷ cs))

unfoldable pub padding : ℕ → ℕ → List ℕ
padding zero pad_char = []
padding (suc count) pad_char = pad_char ∷ padding count pad_char

-- `for (int j = i; j >= 0; j--)`, in front of what is printed later.
unfoldable pub backwards : List ℕ → List ℕ → List ℕ
backwards [] later = later
backwards (c ∷ cs) later = backwards cs (c ∷ later)

unfoldable pub print_unsigned : ℕ → ℕ → ℕ → ℕ → Outcome (List ℕ)
print_unsigned unum base width pad_char = do
  buffer ← fill_buffer 15 unum base
  ok (padding (width - length buffer) pad_char ++ backwards buffer [])

-- The negation of the least `int` overflows.
unfoldable pub print_int : ℕ → ℕ → Bool → ℕ → ℕ → Outcome (List ℕ)
print_int num base sig width pad_char =
    if sig && leb (2 ^ 31) num
    then (if num == 2 ^ 31 then fault else (do
      printed ← print_unsigned (2 ^ 32 - num) base (width - 1) pad_char
      ok (45 ∷ printed)))
    else print_unsigned num base width pad_char
