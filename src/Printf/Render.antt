-- ===== src/Printf/Render.antt =====
-- What `vprintf` prints for a format that is made of text and of conversions without a flag.
use ma_os.Base.{
  ℕ, zero, suc, ◌-◌, ◌≤◌, ◌≡◌, ◌≢◌, refl, sym, ◌∙◌, true, false, List, [], ◌∷◌, ◌++◌, Outcome, ok,
  fault, panic, unfinished, ◌>>=◌, arith, length, ◌==◌,
}
use ma_os.Printf.{padding, print_int}
use ma_os.Printf.Rounds.{literal_round, conversion_round}
use ma_os.Printf.Format.{
  Arg, int, str, Directive, before, literal, parse_directive, parse_uint, accept, next_piece,
  text_of, behind_text, convert, convert_int, convert_str, convert_hex, high_half, vprintf,
}
use ma_os.Printf.Items.{
  Item, char, percent, string, decimal, hex8, source, arguments, render, ArePlain, lead, after,
  Leads, longer, items-Leads,
}

char_piece :
    (c : ℕ) (format : List ℕ)
    → c ≢ b'%'
    → next_piece c format ≡ literal (c ∷ text_of format) (behind_text format)
unfolding next_piece
char_piece c format ne = let other : (c == b'%') ≡ false = ground arith in rw other refl

percent_piece :
    (format : List ℕ)
    → next_piece b'%' (b'%' ∷ format) ≡ literal (b'%' ∷ text_of format) (behind_text format)
unfolding next_piece
percent_piece format = refl

-- A directive without a flag but the padding.
abbrev directive : ℕ → ℕ → ℕ → List ℕ → Directive
directive width pad_char specifier behind = record {
  sig = true;
  large = false;
  pad_char = pad_char;
  width = width;
  precision = 6;
  specifier = specifier;
  behind = behind;
}

assoc :
    {A B C : Type 0} (m : Outcome A) (f : A → Outcome B) (g : B → Outcome C)
    → ((m >>= f) >>= g) ≡ (m >>= λ a. f a >>= g)
assoc (ok a) f g = refl
assoc panic f g = refl
assoc fault f g = refl
assoc unfinished f g = refl

-- The argument of a conversion, by its specifier, and what is printed of it.
module _ (rounds : ℕ) (args : List Arg) (behind : List ℕ) where
  string_round :
      (s : List ℕ)
      → vprintf (suc rounds) (b'%' ∷ b's' ∷ behind) (str s ∷ args)
        ≡ (vprintf rounds behind args >>= λ rest. ok (before s (length s) rest))
  unfolding next_piece parse_directive parse_uint accept convert convert_str padding
  string_round s =
      let no_padding : 0 - length s ≡ 0 = omega arith in
      conversion_round rounds b'%' (b's' ∷ behind) (str s ∷ args) (b's' ∷ behind)
        (directive 0 b' ' b's' behind) refl refl
        (ok record { bytes = s; written = length s; args = args }) (rw no_padding refl)

  decimal_round :
      (n : ℕ)
      → vprintf (suc rounds) (b'%' ∷ b'd' ∷ behind) (int n ∷ args) ≡ (
          print_int n 10 true 0 b' ' >>= λ digits.
          vprintf rounds behind args >>= λ rest. ok (before digits 0 rest))
  unfolding next_piece parse_directive parse_uint accept convert convert_int
  decimal_round n =
      conversion_round rounds b'%' (b'd' ∷ behind) (int n ∷ args) (b'd' ∷ behind)
        (directive 0 b' ' b'd' behind) refl refl
        (print_int n 10 true 0 b' ' >>= λ digits.
          ok record { bytes = digits; written = 0; args = args })
        refl
      ∙ assoc (print_int n 10 true 0 b' ') _ _

  hex_round :
      (n : ℕ)
      → vprintf (suc rounds) (b'%' ∷ b'0' ∷ b'8' ∷ b'x' ∷ behind) (int n ∷ args) ≡ (
          print_int n 16 false 8 b'0' >>= λ digits.
          vprintf rounds behind args >>= λ rest. ok (before digits 0 rest))
  unfolding next_piece parse_directive parse_uint accept convert convert_hex high_half
  hex_round n =
      conversion_round rounds b'%' (b'0' ∷ b'8' ∷ b'x' ∷ behind) (int n ∷ args)
        (b'0' ∷ b'8' ∷ b'x' ∷ behind) (directive 8 b'0' b'x' behind) refl refl
        (print_int n 16 false 8 b'0' >>= λ digits.
          ok record { bytes = digits; written = 0; args = args })
        refl
      ∙ assoc (print_int n 16 false 8 b'0') _ _

-- A piece of text in front of the items, and the items' own text behind it.
text_round :
    (rounds c : ℕ) (format text : List ℕ) (items : List Item)
    → Leads items
    → next_piece c format ≡ literal (text ++ text_of (source items)) (behind_text (source items))
    → vprintf rounds (source (after items)) (arguments (after items)) ≡ render (after items)
    → vprintf (suc rounds) (c ∷ format) (arguments items) ≡ (
        render (after items) >>= λ rest.
        ok (before (text ++ lead items) (length (text ++ lead items)) rest))
text_round rounds c format text items l piece ih =
    literal_round rounds c format (arguments items) (text ++ text_of (source items))
      (behind_text (source items)) piece
    ∙ rw (l.text, l.behind, ← l.args, ih) refl

-- With as many rounds as there are items, `vprintf` prints the items in order, each conversion with
-- its own argument, and counts all but the numbers; it faults where a number cannot be printed.
pub vprintf-render :
    (rounds : ℕ) (items : List Item)
    → ArePlain items
    → length items ≤ rounds
    → vprintf rounds (source items) (arguments items) ≡ render items
unfolding vprintf
vprintf-render rounds [] plain enough = refl
vprintf-render zero (item ∷ items) plain enough = absurd (omega arith)
vprintf-render (suc rounds) (char c ∷ items) (ne, plain) enough =
    let l = items-Leads items plain in
    let ih = vprintf-render rounds (after items) l.plain (omega (arith, l.fewer)) in
    text_round rounds c (source items) (c ∷ []) items l (char_piece c (source items) ne) ih
    ∙ sym (rw l.rendered (longer c (lead items) (render (after items))))
vprintf-render (suc rounds) (percent ∷ items) plain enough =
    let l = items-Leads items plain in
    let ih = vprintf-render rounds (after items) l.plain (omega (arith, l.fewer)) in
    text_round rounds b'%' (b'%' ∷ source items) (b'%' ∷ []) items l (percent_piece (source items))
      ih
    ∙ sym (rw l.rendered (longer b'%' (lead items) (render (after items))))
vprintf-render (suc rounds) (string s ∷ items) plain enough =
    string_round rounds (arguments items) (source items) s
    ∙ rw (vprintf-render rounds items plain (omega arith)) refl
vprintf-render (suc rounds) (decimal n ∷ items) plain enough =
    decimal_round rounds (arguments items) (source items) n
    ∙ rw (vprintf-render rounds items plain (omega arith)) refl
vprintf-render (suc rounds) (hex8 n ∷ items) plain enough =
    hex_round rounds (arguments items) (source items) n
    ∙ rw (vprintf-render rounds items plain (omega arith)) refl
