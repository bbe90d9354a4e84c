-- ===== src/Tty.antt =====
-- kernel/io/tty.c: the text screen, 80 columns by 25 rows of 16-bit cells at 0xC00B8000.
-- The static variables are the record `Tty`; an operation returns the new one. A cell outside the
-- screen is a fault. `tty_clear` writes zeros to all bytes of the buffer, so to all its cells.
pub mod Screen
pub mod Putchar
pub mod Write
use ma_os.Base.{
  ℕ, zero, suc, ◌+◌, ◌*◌, ◌%◌, bit_or, none, some, List, [], ◌∷◌, map, Outcome, ok, fault, ◌>>=◌,
  access, get_elem?, set, ◌==◌, if◌then◌else◌, u8, u16, u32, ◌<<<◌,
}

abbrev pub width : ℕ
width = 80

abbrev pub height : ℕ
height = 25

-- `tty_color_t`: the number of the colour is its place in this list.
abbrev pub black : ℕ
black = 0

abbrev pub white : ℕ
white = 15

pub record Tty : Type 0 where
  pub row : ℕ
  pub column : ℕ
  pub buf : List ℕ
  pub color : ℕ

unfoldable pub entry : ℕ → ℕ → ℕ
entry c color = u16 (bit_or (u16 c) (u16 color <<< 8))

unfoldable pub makecolor : ℕ → ℕ → ℕ
makecolor fg bg = u8 (bit_or fg (bg <<< 4))

unfoldable pub putcharat : ℕ → ℕ → ℕ → ℕ → Tty → Outcome Tty
putcharat c color x y t = do
  let index = u32 (y * width + x)
  _ ← access (get_elem? t.buf index)
  ok (record t { buf = set t.buf index (entry c color) })

-- The loop of `newline` at column `i`, with `rounds` left.
unfoldable pub clear_line : ℕ → ℕ → Tty → Outcome Tty
clear_line zero i t = ok t
clear_line (suc rounds) i t = do t' ← putcharat b' ' 0 i t.row t; clear_line rounds (i + 1) t'

unfoldable pub newline : Tty → Outcome Tty
newline t =
    let next = u32 (t.row + 1) in
    let row = if next == height then 0 else next in clear_line width 0 (record t { row = row })

unfoldable pub putchar : ℕ → Tty → Outcome Tty
putchar c t =
    if c == b'\n'
    then (do t' ← newline t; ok (record t' { column = 0 }))
    else if c == b'\r'
    then ok (record t { column = 0 })
    else do
      t' ← putcharat c t.color t.column t.row t
      let next = u32 (t'.column + 1)
      if next == width then newline (record t' { column = 0 }) else ok (record t' { column = next })

-- The bytes of the buffer, in order.
unfoldable pub writebuf : List ℕ → Tty → Outcome Tty
writebuf [] t = ok t
writebuf (c ∷ cs) t = putchar c t >>= writebuf cs

-- A string is the bytes from its start on; without a zero the loop reads past its end.
unfoldable pub writestr : List ℕ → Tty → Outcome Tty
writestr [] t = fault
writestr (c ∷ cs) t = let rest = putchar c t >>= writestr cs in if c == 0 then ok t else rest

unfoldable pub setcolor : ℕ → Tty → Tty
setcolor color t = record t { color = color }

unfoldable pub clear : Tty → Tty
clear t = record t { buf = map (λ _. 0) t.buf }

unfoldable pub init : Tty → Tty
init t = clear (record t { color = makecolor white black })
