-- ===== src/Printf/Items.antt =====
-- Formats that are made of text and of conversions without a flag, with their arguments, and what
-- is to be printed of them.
use ma_os.Base.{
  ℕ, suc, ◌+◌, ◌≤◌, ◌≡◌, ◌≢◌, refl, ap, true, false, List, [], ◌∷◌, Outcome, ok, fault, panic,
  unfinished, ◌>>=◌, arith, length, ◌==◌,
}
use native.Mathlib.Nat.{zero-add}
use ma_os.Printf.{print_int}
use ma_os.Printf.Format.{Arg, int, str, Printed, before, text_of, behind_text}

-- A byte of text, `%%`, `%s`, `%d` and `%08x`, with their arguments.
pub data Item : Type 0 where
  char : ℕ → Item
  percent : Item
  string : List ℕ → Item
  decimal : ℕ → Item
  hex8 : ℕ → Item

abbrev pub source : List Item → List ℕ
source [] = []
source (char c ∷ items) = c ∷ source items
source (percent ∷ items) = b'%' ∷ b'%' ∷ source items
source (string s ∷ items) = b'%' ∷ b's' ∷ source items
source (decimal n ∷ items) = b'%' ∷ b'd' ∷ source items
source (hex8 n ∷ items) = b'%' ∷ b'0' ∷ b'8' ∷ b'x' ∷ source items

abbrev pub arguments : List Item → List Arg
arguments [] = []
arguments (char c ∷ items) = arguments items
arguments (percent ∷ items) = arguments items
arguments (string s ∷ items) = str s ∷ arguments items
arguments (decimal n ∷ items) = int n ∷ arguments items
arguments (hex8 n ∷ items) = int n ∷ arguments items

-- The bytes to print, and the number that is returned: numbers do not count.
abbrev pub render : List Item → Outcome Printed
render [] = ok record { bytes = []; written = 0 }
render (char c ∷ items) = do rest ← render items; ok (before (c ∷ []) 1 rest)
render (percent ∷ items) = do rest ← render items; ok (before (b'%' ∷ []) 1 rest)
render (string s ∷ items) = do rest ← render items; ok (before s (length s) rest)
render (decimal n ∷ items) = do
  digits ← print_int n 10 true 0 b' '
  rest ← render items
  ok (before digits 0 rest)
render (hex8 n ∷ items) = do
  digits ← print_int n 16 false 8 b'0'
  rest ← render items
  ok (before digits 0 rest)

-- A byte of text is no `%`.
abbrev pub ArePlain : List Item → Type 0
ArePlain [] = Unit
ArePlain (char c ∷ items) = (c ≢ b'%') × ArePlain items
ArePlain (_ ∷ items) = ArePlain items

abbrev pub lead : List Item → List ℕ
lead (char c ∷ items) = c ∷ lead items
lead [] = []
lead (_ ∷ items) = []

abbrev pub after : List Item → List Item
after (char c ∷ items) = after items
after [] = []
after (item ∷ items) = item ∷ items

-- The text at the head of the items is taken in one piece.
pub record Leads (items : List Item) : Type 0 where
  pub text : text_of (source items) ≡ lead items
  pub behind : behind_text (source items) ≡ source (after items)
  pub args : arguments (after items) ≡ arguments items
  pub plain : ArePlain (after items)
  pub fewer : length (after items) ≤ length items
  pub rendered :
      render items
      ≡ (render (after items) >>= λ rest. ok (before (lead items) (length (lead items)) rest))

unchanged : (m : Outcome Printed) → m ≡ (m >>= λ rest. ok (before [] 0 rest))
unchanged (ok p) = rw zero-add refl
unchanged panic = refl
unchanged fault = refl
unchanged unfinished = refl

pub longer :
    (c : ℕ) (text : List ℕ) (m : Outcome Printed)
    → ((m >>= λ rest. ok (before text (length text) rest)) >>= λ rest. ok (before (c ∷ []) 1 rest))
      ≡ (m >>= λ rest. ok (before (c ∷ text) (suc (length text)) rest))
longer c text (ok p) =
    let sum : 1 + (length text + p.written) ≡ suc (length text) + p.written = omega arith in
    rw sum refl
longer c text panic = refl
longer c text fault = refl
longer c text unfinished = refl

pub items-Leads : (items : List Item) → ArePlain items → Leads items
unfolding text_of behind_text
items-Leads [] plain = record {
  text = refl;
  behind = refl;
  args = refl;
  plain = plain;
  fewer = omega arith;
  rendered = unchanged (render []);
}
items-Leads (char c ∷ items) (ne, plain) =
    let ih = items-Leads items plain in
    let other : (c == b'%') ≡ false = ground arith in
    record {
      text = rw other (ap (λ (t : List ℕ). c ∷ t) ih.text);
      behind = rw other ih.behind;
      args = ih.args;
      plain = ih.plain;
      fewer = omega (arith, ih.fewer);
      rendered = rw ih.rendered (longer c (lead items) (render (after items)));
    }
items-Leads (percent ∷ items) plain = record {
  text = refl;
  behind = refl;
  args = refl;
  plain = plain;
  fewer = omega arith;
  rendered = unchanged (render (percent ∷ items));
}
items-Leads (string s ∷ items) plain = record {
  text = refl;
  behind = refl;
  args = refl;
  plain = plain;
  fewer = omega arith;
  rendered = unchanged (render (string s ∷ items));
}
items-Leads (decimal n ∷ items) plain = record {
  text = refl;
  behind = refl;
  args = refl;
  plain = plain;
  fewer = omega arith;
  rendered = unchanged (render (decimal n ∷ items));
}
items-Leads (hex8 n ∷ items) plain = record {
  text = refl;
  behind = refl;
  args = refl;
  plain = plain;
  fewer = omega arith;
  rendered = unchanged (render (hex8 n ∷ items));
}
