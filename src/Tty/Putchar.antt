-- ===== src/Tty/Putchar.antt =====
-- `tty_putchar` on every branch, and the loops over it.
use ma_os.Base.{
  ℕ, ◌+◌, ◌≡◌, ◌≢◌, refl, ◌∙◌, ◌&&◌, not, Bool, true, false, Option, some, Outcome, ok, ◌>>=◌,
  arith, ◌==◌, if◌then◌else◌, u32, Bool-cases, inl, inr,
}
use ma_os.Tty.{Tty, width, entry, newline, putcharat, putchar}
use ma_os.Tty.Screen.{IsValid, cell, Displays, at, next_row, putcharat-Displays, newline-Displays}

-- A line feed ends the line; so does a character in the last column, but not a carriage return.
abbrev pub ends_line : ℕ → Tty → Bool
ends_line c t = if c == b'\n' then true else if c == b'\r' then false else t.column + 1 == width

abbrev pub is_control : ℕ → Bool
is_control c = if c == b'\n' then true else c == b'\r'

abbrev pub column_after : ℕ → Tty → ℕ
column_after c t = if is_control c then 0 else if t.column + 1 == width then 0 else t.column + 1

abbrev pub row_after : ℕ → Tty → ℕ
row_after c t = if ends_line c t then next_row t.row else t.row

-- The new line is blank, the character stands where the cursor was, and the rest is unchanged.
abbrev pub cells_after : ℕ → Tty → ℕ → ℕ → Option ℕ
cells_after c t x y =
    if ends_line c t && y == next_row t.row
    then some (entry b' ' 0)
    else if not (is_control c) && at t.column t.row x y
    then some (entry c t.color)
    else cell t x y

module _ (c : ℕ) (t : Tty) (v : IsValid t) (other : (c == b'\n') ≡ false)
    (plain : (c == b'\r') ≡ false) where
  abbrev written :
      Displays t t.column t.row
        (λ x y. if at t.column t.row x y then some (entry c t.color) else cell t x y)
        (putcharat c t.color t.column t.row t)
  written = putcharat-Displays c t.color t.column t.row t v.size v.column v.row

  -- A character that is no control character, in the last column or before it.
  last-Displays :
      t.column + 1 ≡ width
      → Displays t 0
          (next_row t.row)
          (cells_after c t)
          (newline (record written.out { column = 0 }))
  last-Displays last =
      let line =
        newline-Displays (record written.out { column = 0 }) (written.size ∙ v.size)
          (omega (arith, written.cursor, v.row)) in
      record {
        out = line.out;
        returns = line.returns;
        cursor = ground (arith, line.cursor, written.cursor);
        color = line.color ∙ written.color;
        size = line.size ∙ written.size;
        cells = λ x y lx ly.
            ground (arith, line.cells x y lx ly, written.cells x y lx ly, written.cursor);
      }

  before-Displays :
      t.column + 1 ≢ width
      → Displays t
          (t.column + 1)
          t.row
          (cells_after c t)
          (ok (record written.out { column = t.column + 1 }))
  before-Displays before = record {
    out = record written.out { column = t.column + 1 };
    returns = refl;
    cursor = (refl, written.cursor.1);
    color = written.color;
    size = written.size;
    cells = λ x y lx ly. ground (arith, written.cells x y lx ly);
  }

  abbrev advance : Tty → Outcome Tty
  advance t' =
      let next = u32 (t'.column + 1) in
      if next == width then newline (record t' { column = 0 }) else ok (record t' { column = next })

  plain-Displays :
      Displays t
        (if t.column + 1 == width then 0 else t.column + 1)
        (if t.column + 1 == width then next_row t.row else t.row)
        (cells_after c t)
        (putcharat c t.color t.column t.row t >>= advance)
  plain-Displays =
      let next : u32 (written.out.column + 1) ≡ t.column + 1 =
        omega (arith, written.cursor, v.column) in
      elim (Bool-cases (t.column + 1 == width)) [
        | inl last ↦ rw (written.returns, next, last) (last-Displays (ground arith))
        | inr before ↦ rw (written.returns, next, before) (before-Displays (ground arith))
      ]

-- With the cursor on the screen, `tty_putchar` returns. A line feed, or a character in the last
-- column, moves to the next row (behind the last row the first) and blanks it; a carriage return
-- moves to the first column; any other character is shown where the cursor was, which advances.
-- Every other cell, and the colour, stay as they were.
pub putchar-Displays :
    (c : ℕ) (t : Tty)
    → IsValid t
    → Displays t (column_after c t) (row_after c t) (cells_after c t) (putchar c t)
unfolding putchar
putchar-Displays c t v = elim (Bool-cases (c == b'\n')) [
  | inl lf ↦
      let line = newline-Displays t v.size v.row in
      rw lf record {
        out = record line.out { column = 0 };
        returns = rw line.returns;
        cursor = (refl, line.cursor.1);
        color = line.color;
        size = line.size;
        cells = λ x y lx ly. ground (arith, line.cells x y lx ly);
      }
  | inr other ↦ elim (Bool-cases (c == b'\r')) [
    | inl cr ↦
        rw (other, cr)
          record {
            out = record t { column = 0 };
            returns = refl;
            cursor = (refl, refl);
            color = refl;
            size = refl;
            cells = λ x y lx ly. ground arith;
          }
    | inr plain ↦ rw (other, plain) (plain-Displays c t v other plain)
  ]
]
