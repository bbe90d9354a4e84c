-- ===== src/Kernel/Frame/Pixels.antt =====
-- Where the pixels of a picture stand in memory.
use ma_os.Base.{ℕ, zero, suc, ◌+◌, ◌*◌, ◌^◌, ◌≤◌, ◌<◌, ◌≡◌, refl, ap, ◌∙◌, ◌⊎◌, inl, inr, ok, arith}
use native.Mathlib.Nat.{zero-mul, suc-mul}
use ma_os.Float.{Floats}
use ma_os.CString.{Memory, store}
use ma_os.Kernel.Frame.{pixel_colour, store_dword, Drawn, draw_row, draw_rows}

-- The four bytes from `a` on.
abbrev pub dword_at : Memory → ℕ → ℕ
dword_at m a = m a + 2 ^ 8 * m (a + 1) + 2 ^ 16 * m (a + 2) + 2 ^ 24 * m (a + 3)

-- `m'` is `m` but for the `n` bytes from `d` on.
abbrev pub SameOutside : ℕ → ℕ → Memory → Memory → Type 0
SameOutside d n m m' = (x : ℕ) → (x < d) ⊎ (d + n ≤ x) → m' x ≡ m x

store_dword_lem : (a v : ℕ) (m : Memory) → v < 2 ^ 32 → dword_at (store_dword a v m) a ≡ v
unfolding store_dword store
store_dword_lem a v m small = ground arith

store_dword-SameOutside : (a v : ℕ) (m : Memory) → SameOutside a 4 m (store_dword a v m)
unfolding store_dword store
store_dword-SameOutside a v m x (inl h) = ground arith
store_dword-SameOutside a v m x (inr h) = ground arith

dword_at-SameOutside :
    (d n a : ℕ) (m m' : Memory)
    → SameOutside d n m m'
    → (a + 4 ≤ d) ⊎ (d + n ≤ a)
    → dword_at m' a ≡ dword_at m a
dword_at-SameOutside d n a m m' same apart =
    let at : (i : ℕ) → i < 4 → m' (a + i) ≡ m (a + i) = λ i h.
      same (a + i) (elim apart as (λ _. (a + i < d) ⊎ (d + n ≤ a + i)) [
        | inl l ↦ inl (omega arith)
        | inr l ↦ inr (omega arith)
      ]) in
    let none_on : a + 0 ≡ a = omega arith in
    let first : m' a ≡ m a = rw none_on at (at 0 (omega arith)) in
    omega (arith, first, at 1 (omega arith), at 2 (omega arith), at 3 (omega arith))

-- Two blocks, of which one follows the other.
SameOutside-then :
    (d a b : ℕ) (m m1 m2 : Memory)
    → SameOutside d a m m1
    → SameOutside (d + a) b m1 m2
    → SameOutside d (a + b) m m2
SameOutside-then d a b m m1 m2 first second x (inl h) =
    second x (inl (omega arith)) ∙ first x (inl h)
SameOutside-then d a b m m1 m2 first second x (inr h) =
    second x (inr (omega arith)) ∙ first x (inr (omega arith))

from_first {ℓ} :
    (P : ℕ → Type ℓ) (k count : ℕ) → P 0 → ((j : ℕ) → j < count → P (suc j)) → k < suc count → P k
from_first P zero count first later h = first
from_first P (suc k) count first later h = later k (omega arith)

-- A row that is drawn from `x` on.
record Row (colours : ℕ → ℕ) (count x buf : ℕ) (m : Memory) (d : Drawn) : Type 0 where
  behind : d.buf ≡ buf + 4 * count
  pixels : (k : ℕ) → k < count → dword_at d.memory (buf + 4 * k) ≡ colours (x + k)
  same : SameOutside buf (4 * count) m d.memory

draw_row-Row :
    (fl : Floats) (time : fl.Float) (y : ℕ) (colours : ℕ → ℕ) (count x buf : ℕ) (m : Memory)
    → ((k : ℕ)
        → x ≤ k
        → k < x + count
        → (pixel_colour fl time y k ≡ ok (colours k)) × (colours k < 2 ^ 32))
    → (d : Drawn) × (draw_row fl time y count x buf m ≡ ok d) × Row colours count x buf m d
unfolding draw_row
draw_row-Row fl time y colours zero x buf m all = (
  _,
  refl,
  record { behind = omega arith; pixels = λ k h. absurd (omega arith); same = λ a out. refl },
)
draw_row-Row fl time y colours (suc count) x buf m all =
    let (colour, small) = all x (omega arith) (omega arith) in
    let m1 = store_dword buf (colours x) m in
    let (d, drawn, row) =
      draw_row-Row fl time y colours count (x + 1) (buf + 4) m1
        (λ k low high. all k (omega arith) (omega arith)) in
    let here : dword_at d.memory buf ≡ colours x =
      dword_at-SameOutside (buf + 4) (4 * count) buf m1 d.memory row.same (inl (omega arith))
      ∙ store_dword_lem buf (colours x) m small in
    let total : 4 + 4 * count ≡ 4 * suc count = omega arith in
    (
      d,
      rw colour drawn,
      record {
        behind = omega (arith, row.behind);
        pixels = λ k h.
            from_first (λ k. dword_at d.memory (buf + 4 * k) ≡ colours (x + k)) k count
              (let none_on : buf + 0 ≡ buf = omega arith in
                let none_right : x + 0 ≡ x = omega arith in rw (none_on, none_right) here)
              (λ j l.
                let place : buf + 4 * suc j ≡ buf + 4 + 4 * j = omega arith in
                let right : x + suc j ≡ x + 1 + j = omega arith in
                rw (place, right) (row.pixels j l))
              h;
        same = rw total at (
            SameOutside-then buf 4 (4 * count) m m1 d.memory
              (store_dword-SameOutside buf (colours x) m) row.same);
      },
    )

-- Rows that are drawn from `y` on.
pub record Picture (colours : ℕ → ℕ → ℕ) (width count y buf : ℕ) (m : Memory) (d : Drawn)
    : Type 0 where
  pub behind : d.buf ≡ buf + 4 * (count * width)
  pub pixels :
      (j x : ℕ)
      → j < count
      → x < width
      → dword_at d.memory (buf + 4 * (j * width + x)) ≡ colours (y + j) x
  pub same : SameOutside buf (4 * (count * width)) m d.memory

-- A row, and the rows below it.
Picture-suc :
    (colours : ℕ → ℕ → ℕ) (width count y buf : ℕ) (m : Memory) (first d : Drawn)
    → Row (colours y) width 0 buf m first
    → Picture colours width count (y + 1) first.buf first.memory d
    → Picture colours width (suc count) y buf m d
Picture-suc colours width count y buf m first d row picture =
    let area : suc count * width ≡ count * width + width = suc-mul count width in
    let read = λ (p : ℕ). dword_at d.memory p in
    let same : SameOutside (buf + 4 * width) (4 * (count * width)) first.memory d.memory =
      rw row.behind at picture.same in
    let top : (x : ℕ) → x < width → read (buf + 4 * (0 * width + x)) ≡ colours (y + 0) x = λ x l.
      let place : buf + 4 * (0 * width + x) ≡ buf + 4 * x = omega (arith, zero-mul width) in
      let column : 0 + x ≡ x = omega arith in
      let line : y ≡ y + 0 = omega arith in
      ap read place
      ∙ dword_at-SameOutside (buf + 4 * width) (4 * (count * width)) (buf + 4 * x) first.memory
          d.memory same (inl (omega arith))
      ∙ row.pixels x l
      ∙ ap (colours y) column
      ∙ ap (λ (t : ℕ). colours t x) line in
    let below : (x i : ℕ)
        → x < width
        → i < count
        → read (buf + 4 * (suc i * width + x)) ≡ colours (y + suc i) x =
      λ x i l h.
        let place : buf + 4 * (suc i * width + x) ≡ first.buf + 4 * (i * width + x) =
          omega (arith, suc-mul i width, row.behind) in
        let line : y + 1 + i ≡ y + suc i = omega arith in
        ap read place ∙ picture.pixels i x h l ∙ ap (λ (t : ℕ). colours t x) line in
    let total : 4 * width + 4 * (count * width) ≡ 4 * (suc count * width) = omega (arith, area) in
    record {
      behind = omega (arith, area, row.behind, picture.behind);
      pixels = λ j x h l.
          from_first (λ j. read (buf + 4 * (j * width + x)) ≡ colours (y + j) x) j count (top x l)
            (λ i. below x i l) h;
      same = rw total at (
          SameOutside-then buf (4 * width) (4 * (count * width)) m first.memory d.memory row.same
            same);
    }

-- Where every pixel of the rows has a colour, the loops end, and the memory has the colour of
-- column `x` in row `j` as the four bytes at `buf + 4 * (j * width + x)`. The bytes
-- outside these rows stay as they are, and the pointer stands behind the last of them.
pub draw_rows-Picture :
    (fl : Floats) (time : fl.Float) (colours : ℕ → ℕ → ℕ) (width count y buf : ℕ) (m : Memory)
    → ((j x : ℕ)
        → y ≤ j
        → j < y + count
        → x < width
        → (pixel_colour fl time j x ≡ ok (colours j x)) × (colours j x < 2 ^ 32))
    → (d : Drawn) × (draw_rows fl time width count y buf m ≡ ok d)
      × Picture colours width count y buf m d
unfolding draw_rows
draw_rows-Picture fl time colours width zero y buf m all = (
  _,
  refl,
  record {
    behind = omega (arith, zero-mul width);
    pixels = λ j x h l. absurd (omega arith);
    same = λ a out. refl;
  },
)
draw_rows-Picture fl time colours width (suc count) y buf m all =
    let (first, drawn, row) =
      draw_row-Row fl time y (colours y) width 0 buf m
        (λ k low high. all y k (omega arith) (omega arith) (omega arith)) in
    let (d, rest, picture) =
      draw_rows-Picture fl time colours width count (y + 1) first.buf first.memory
        (λ j x low high l. all j x (omega arith) (omega arith) l) in
    (d, rw (drawn, rest) refl, Picture-suc colours width count y buf m first d row picture)
