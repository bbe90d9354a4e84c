-- ===== src/Tty/Write.antt =====
-- The loops over `tty_putchar`, and the packing of cells and colours.
use ma_os.Base.{
  ℕ, ◌+◌, ◌*◌, ◌/◌, ◌%◌, ◌^◌, ◌<◌, ◌≡◌, ◌≢◌, refl, ap, ◌∙◌, false, List, [], ◌∷◌, ◌++◌, Outcome, ok,
  ◌>>=◌, arith, ◌==◌, u16, bit_or,
}
use mathlib.Core.Path.{fun_ext}
use ma_os.Base.Bits.{bit_or-disjoint, bit_or_comm}
use ma_os.Tty.{Tty, entry, makecolor, putchar, writebuf, writestr}
use ma_os.Tty.Screen.{IsValid}
use ma_os.Tty.Putchar.{putchar-Displays}

-- A run that ends normally, with the cursor on the screen and the colour as it was.
pub record Runs (t : Tty) (result : Outcome Tty) : Type 0 where
  pub out : Tty
  pub returns : result ≡ ok out
  pub valid : IsValid out
  pub color : out.color ≡ t.color

pub putchar-Runs : (c : ℕ) (t : Tty) → IsValid t → Runs t (putchar c t)
putchar-Runs c t v =
    let shown = putchar-Displays c t v in
    record {
      out = shown.out;
      returns = shown.returns;
      valid = record {
        row = ground (arith, shown.cursor, v.row);
        column = ground (arith, shown.cursor, v.column);
        size = shown.size ∙ v.size;
      };
      color = shown.color;
    }

-- Whatever the bytes are, `tty_writebuf` returns, writes no cell outside the screen, and keeps
-- the cursor on it and the colour as it was.
pub writebuf-Runs : (cs : List ℕ) (t : Tty) → IsValid t → Runs t (writebuf cs t)
unfolding writebuf
writebuf-Runs [] t v = record { out = t; returns = refl; valid = v; color = refl }
writebuf-Runs (c ∷ cs) t v =
    let first = putchar-Runs c t v in
    let rest = writebuf-Runs cs first.out first.valid in
    record {
      out = rest.out;
      returns = rw first.returns rest.returns;
      valid = rest.valid;
      color = rest.color ∙ first.color;
    }

abbrev pub HasNoZero : List ℕ → Type 0
HasNoZero [] = Unit {0}
HasNoZero (c ∷ cs) = (c ≢ 0) × HasNoZero cs

-- `tty_writestr` of a string writes the bytes before its terminating zero, and nothing after.
writestr-writebuf :
    (cs rest : List ℕ) (t : Tty) → HasNoZero cs → writestr (cs ++ 0 ∷ rest) t ≡ writebuf cs t
unfolding writestr writebuf
writestr-writebuf [] rest t h = refl
writestr-writebuf (c ∷ cs) rest t h =
    let some_char : (c == 0) ≡ false = ground arith in
    rw some_char (
      ap (λ (k : Tty → Outcome Tty). putchar c t >>= k)
        (fun_ext (λ s. writestr-writebuf cs rest s h.1)))

-- A cell holds its character in the low byte and its colour in the high byte.
entry-fields :
    (c color : ℕ)
    → c < 256
    → color < 256
    → (entry c color % 256 ≡ c) × (entry c color / 256 ≡ color) × (entry c color < 2 ^ 16)
unfolding entry
entry-fields c color hc hcolor =
    let narrow : u16 c ≡ c = omega arith in
    let narrow' : u16 color ≡ color = omega arith in
    let joined : bit_or c (color * 2 ^ 8) ≡ color * 2 ^ 8 + c =
      bit_or_comm c (color * 2 ^ 8) ∙ bit_or-disjoint 8 color c hc in
    rw (narrow, narrow', joined) (omega arith)

-- A colour byte holds the foreground in the low and the background in the high half.
makecolor-fields :
    (fg bg : ℕ) → fg < 16 → bg < 16 → (makecolor fg bg % 16 ≡ fg) × (makecolor fg bg / 16 ≡ bg)
unfolding makecolor
makecolor-fields fg bg hf hb =
    let joined : bit_or fg (bg * 2 ^ 4) ≡ bg * 2 ^ 4 + fg =
      bit_or_comm fg (bg * 2 ^ 4) ∙ bit_or-disjoint 4 bg fg hf in
    rw joined (omega arith)
