-- ===== src/Tty/Screen.antt =====
-- What the screen shows, and what writing one cell or clearing one line does to it.
use ma_os.Base.{
  ℕ, zero, suc, ◌+◌, ◌*◌, ◌<◌, ◌≡◌, refl, ◌∙◌, ◌&&◌, Bool, Option, some, Outcome, ok, arith,
  get_elem?, set, length, length-set, get_elem?-lt, get_elem?-set_self, get_elem?-set_ne, ◌==◌, leb,
  if◌then◌else◌, u32, ℕ_discrete,
}
use ma_os.Tty.{Tty, width, height, entry, putcharat, clear_line, newline}

-- The cursor is on the screen.
pub record IsValid (t : Tty) : Type 0 where
  pub row : t.row < height
  pub column : t.column < width
  pub size : length t.buf ≡ width * height

-- The cell in a column and a row.
abbrev pub cell : Tty → ℕ → ℕ → Option ℕ
cell t x y = get_elem? t.buf (y * width + x)

-- A result that shows `shows x y` in every cell and has its cursor at the given place.
pub record Displays (t : Tty) (column row : ℕ) (shows : ℕ → ℕ → Option ℕ) (result : Outcome Tty)
    : Type 0 where
  pub out : Tty
  pub returns : result ≡ ok out
  pub cursor : (out.column ≡ column) × (out.row ≡ row)
  pub color : out.color ≡ t.color
  pub size : length out.buf ≡ length t.buf
  pub cells : (x y : ℕ) → x < width → y < height → cell out x y ≡ shows x y

-- Whether a cell is the one in column `a` of row `b`.
abbrev pub at : ℕ → ℕ → ℕ → ℕ → Bool
at a b x y = x == a && y == b

pub putcharat-Displays :
    (c color a b : ℕ) (t : Tty)
    → length t.buf ≡ width * height
    → a < width
    → b < height
    → Displays t t.column t.row
        (λ x y. if at a b x y then some (entry c color) else cell t x y)
        (putcharat c color a b t)
unfolding putcharat
putcharat-Displays c color a b t size inx iny =
    let index : u32 (b * 80 + a) ≡ b * 80 + a = omega arith in
    let (old, g) = get_elem?-lt t.buf (b * 80 + a) (omega arith) in
    record {
      out = record t { buf = set t.buf (b * 80 + a) (entry c color) };
      returns = rw (index, g);
      cursor = (refl, refl);
      color = refl;
      size = length-set t.buf (b * 80 + a) (entry c color);
      cells = λ x y lx ly. elim (ℕ_discrete (b * 80 + a) (y * 80 + x)) [
        | yes e ↦ ground (arith, get_elem?-set_self t.buf (b * 80 + a) (entry c color))
        | no ne ↦
            ground (arith, get_elem?-set_ne t.buf (b * 80 + a) (y * 80 + x) (entry c color) ne)
      ];
    }

-- Whether a cell is in row `b`, in one of the columns from `i` on.
abbrev in_line : ℕ → ℕ → ℕ → ℕ → Bool
in_line i b x y = leb i x && y == b

clear_line-Displays :
    (rounds i : ℕ) (t : Tty)
    → length t.buf ≡ width * height
    → i + rounds ≡ width
    → t.row < height
    → Displays t t.column t.row
        (λ x y. if in_line i t.row x y then some (entry b' ' 0) else cell t x y)
        (clear_line rounds i t)
unfolding clear_line
clear_line-Displays zero i t size e iny = record {
  out = t;
  returns = refl;
  cursor = (refl, refl);
  color = refl;
  size = refl;
  cells = λ x y lx ly. ground arith;
}
clear_line-Displays (suc rounds) i t size e iny =
    let first = putcharat-Displays b' ' 0 i t.row t size (omega arith) iny in
    let rest =
      clear_line-Displays rounds (i + 1) first.out (first.size ∙ size) (omega arith)
        (omega (arith, first.cursor)) in
    record {
      out = rest.out;
      returns = rw first.returns rest.returns;
      cursor = omega (arith, rest.cursor, first.cursor);
      color = rest.color ∙ first.color;
      size = rest.size ∙ first.size;
      cells =
          λ x y lx ly. ground (arith, rest.cells x y lx ly, first.cells x y lx ly, first.cursor.1);
    }

-- The row under `row`, which after the last is the first.
abbrev pub next_row : ℕ → ℕ
next_row row = if row + 1 == height then 0 else row + 1

-- `newline` moves to the next row and blanks it.
pub newline-Displays :
    (t : Tty)
    → length t.buf ≡ width * height
    → t.row < height
    → Displays t t.column
        (next_row t.row)
        (λ x y. if y == next_row t.row then some (entry b' ' 0) else cell t x y)
        (newline t)
unfolding newline
newline-Displays t size iny =
    let small : u32 (t.row + 1) ≡ t.row + 1 = omega arith in
    let line =
      clear_line-Displays 80 0 (record t { row = next_row t.row }) size refl (ground arith) in
    rw small record {
      out = line.out;
      returns = line.returns;
      cursor = line.cursor;
      color = line.color;
      size = line.size;
      cells = λ x y lx ly. ground (arith, line.cells x y lx ly);
    }
