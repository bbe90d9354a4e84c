-- ===== src/Printf/Format.antt =====
-- libc/stdio/printf.c: `vprintf`. A string is its bytes before the terminating zero. What is
-- printed is the list of the bytes that `putchar` is given, when none of these calls fails.
use ma_os.Base.{
  ℕ, zero, suc, ◌+◌, ◌-◌, ◌*◌, ◌^◌, Bool, true, false, Option, none, some, List, [], ◌∷◌, ◌++◌,
  Outcome, ok, fault, unfinished, ◌>>=◌, length, leb, ◌==◌, ◌&&◌, not, if◌then◌else◌, codes,
}
use ma_os.Printf.{padding, print_int}

-- An argument of the variable part. A `double` is known by what `print_double` does with it, for
-- each width, precision and padding character.
pub data Arg : Type 0 where
  int : ℕ → Arg
  str : List ℕ → Arg
  double : (ℕ → ℕ → ℕ → Outcome (List ℕ)) → Arg

-- The number, and the format behind it. An `int` that overflows is undefined behaviour.
unfoldable pub parse_uint : List ℕ → ℕ → Outcome (ℕ × List ℕ)
parse_uint [] n = ok (n, [])
parse_uint (x ∷ xs) n =
    if leb b'0' x && leb x b'9'
    then (if leb (2 ^ 31) (n * 10 + (x - b'0')) then fault else parse_uint xs (n * 10 + (x - b'0')))
    else ok (n, x ∷ xs)

-- `if (*format == c) { format++; ... }`: whether the character is there, and the format behind it.
unfoldable pub accept : ℕ → List ℕ → Bool × List ℕ
accept c [] = (false, [])
accept c (x ∷ xs) = if x == c then (true, xs) else (false, x ∷ xs)

pub record Directive : Type 0 where
  pub sig : Bool
  pub large : Bool
  pub pad_char : ℕ
  pub width : ℕ
  pub precision : ℕ
  pub specifier : ℕ
  pub behind : List ℕ

abbrev pub first_or_zero : List ℕ → ℕ
first_or_zero [] = 0
first_or_zero (x ∷ xs) = x

abbrev pub all_but_first : List ℕ → List ℕ
all_but_first [] = []
all_but_first (x ∷ xs) = xs

-- What stands between a `%` and its specifier.
unfoldable pub parse_directive : List ℕ → Outcome Directive
parse_directive format = do
  let zeros = accept b'0' format
  (width, behind_width) ← parse_uint zeros.1 0
  let point = accept b'.' behind_width
  (precision, behind_precision) ← if point.0 then parse_uint point.1 0 else ok (6, behind_width)
  let unsigned = accept b'u' behind_precision
  let long = accept b'l' unsigned.1
  ok record {
    sig = not unsigned.0;
    large = long.0;
    pad_char = if zeros.0 then b'0' else b' ';
    width = width;
    precision = precision;
    specifier = first_or_zero long.1;
    behind = all_but_first long.1;
  }

-- The bytes up to the next `%`, and the format from there on.
unfoldable pub text_of : List ℕ → List ℕ
text_of [] = []
text_of (x ∷ xs) = if x == b'%' then [] else x ∷ text_of xs

unfoldable pub behind_text : List ℕ → List ℕ
behind_text [] = []
behind_text (x ∷ xs) = if x == b'%' then x ∷ xs else behind_text xs

-- The test at the head of the loop: text, of which the first byte may be any, or a directive.
pub data Piece : Type 0 where
  literal : List ℕ → List ℕ → Piece
  conversion : List ℕ → Piece

unfoldable pub next_piece : ℕ → List ℕ → Piece
next_piece c format =
    if c == b'%'
    then (if first_or_zero format == b'%'
        then literal (b'%' ∷ text_of (all_but_first format)) (behind_text (all_but_first format))
        else conversion format)
    else literal (c ∷ text_of format) (behind_text format)

-- What a conversion prints, how much of it is added to `written`, and the arguments that are left.
pub record Converted : Type 0 where
  pub bytes : List ℕ
  pub written : ℕ
  pub args : List Arg

unfoldable pub convert_int : List Arg → (ℕ → Outcome (List ℕ)) → Outcome Converted
convert_int (int num ∷ args) print = do
  bytes ← print num
  ok record { bytes = bytes; written = 0; args = args }
convert_int args print = fault

unfoldable pub convert_str : Directive → List Arg → Outcome Converted
convert_str d (str s ∷ args) =
    ok record {
      bytes = padding (d.width - length s) d.pad_char ++ s;
      written = length s;
      args = args;
    }
convert_str d args = fault

-- With `l` there is a second argument, the high half, which is printed first.
unfoldable pub high_half : Directive → List Arg → Outcome Converted
high_half d args =
    if d.large
    then convert_int args (λ n. print_int n 16 false (d.width - 8) d.pad_char)
    else ok record { bytes = []; written = 0; args = args }

unfoldable pub convert_hex : Directive → List Arg → Outcome Converted
convert_hex d (int num ∷ args) = do
  front ← high_half d args
  back ← print_int num 16 false d.width d.pad_char
  ok record { bytes = front.bytes ++ back; written = 0; args = front.args }
convert_hex d args = fault

unfoldable pub convert_double : Directive → List Arg → Outcome Converted
convert_double d (double print ∷ args) = do
  bytes ← print d.width d.precision d.pad_char
  ok record { bytes = bytes; written = 0; args = args }
convert_double d args = fault

-- The cases of the `switch`; `none` is its default.
unfoldable pub convert : Directive → List Arg → Option (Outcome Converted)
convert d args =
    if d.specifier == b's'
    then some (convert_str d args)
    else if d.specifier == b'd'
    then some (convert_int args (λ n. print_int n 10 d.sig d.width d.pad_char))
    else if d.specifier == b'x'
    then some (convert_hex d args)
    else if d.specifier == b'b'
    then some (convert_int args (λ n. print_int n 2 false d.width d.pad_char))
    else if d.specifier == b'f'
    then some (convert_double d args)
    else none

abbrev pub unknown_specifier : List ℕ
unknown_specifier = codes "printf: unknown format specifier %c"

-- What has been printed, and the value of `written`.
pub record Printed : Type 0 where
  pub bytes : List ℕ
  pub written : ℕ

abbrev pub before : List ℕ → ℕ → Printed → Printed
before bytes written p = record { bytes = bytes ++ p.bytes; written = written + p.written }

-- The `switch` of a directive and the loop behind it, which is `again`. The default case calls
-- `printf`, and so `vprintf`.
unfoldable pub run_conversion :
    (List ℕ → List Arg → Outcome Printed)
    → Directive
    → List Arg
    → Option (Outcome Converted)
    → Outcome Printed
run_conversion again d args none = do
  complaint ← again unknown_specifier []
  rest ← again d.behind args
  ok (before complaint.bytes 0 rest)
run_conversion again d args (some result) = do
  converted ← result
  rest ← again d.behind converted.args
  ok (before converted.bytes converted.written rest)

unfoldable pub run_piece :
    (List ℕ → List Arg → Outcome Printed) → List Arg → Piece → Outcome Printed
unfolding run_conversion
run_piece again args (literal text behind) = do
  rest ← again behind args
  ok (before text (length text) rest)
run_piece again args (conversion format) = do
  d ← parse_directive format
  run_conversion again d args (convert d args)

-- The loop, for at most `rounds` rounds and calls of itself.
unfoldable pub vprintf : ℕ → List ℕ → List Arg → Outcome Printed
unfolding run_piece
vprintf rounds [] args = ok record { bytes = []; written = 0 }
vprintf zero (c ∷ format) args = unfinished
vprintf (suc rounds) (c ∷ format) args = run_piece (vprintf rounds) args (next_piece c format)
