-- ===== src/Tests/Console.antt =====
-- tty.c on a screen with the cursor in its last row.
use ma_os.Base.{
  ℕ, zero, suc, ◌*◌, ◌/◌, ◌%◌, ◌^◌, ◌<◌, ◌≡◌, ◌≢◌, refl, ap, ok, List, [], ◌∷◌, ◌++◌, some, arith,
  Outcome, get_elem?, ◌>>=◌,
}
use ma_os.Base
use ma_os.Tty
use ma_os.Tty.{Tty}
use ma_os.Tty.Screen.{IsValid, Displays}
use ma_os.Tty.Putchar.{putchar-Displays, column_after, row_after, cells_after}

abbrev blank : ℕ → List ℕ
blank zero = []
blank (suc n) = 0 ∷ blank n

abbrev pub corner : Tty
corner = record { row = 24; column = 79; buf = blank 2000; color = 15 }

length-blank : (n : ℕ) → Base.length (blank n) ≡ n
length-blank zero = refl
length-blank (suc n) = ap suc (length-blank n)

pub corner-IsValid : IsValid corner
corner-IsValid = record { row = omega arith; column = omega arith; size = length-blank 2000 }

putchar-Displays_example :
    Displays corner
      (column_after 65 corner)
      (row_after 65 corner)
      (cells_after 65 corner)
      (Tty.putchar 65 corner)
putchar-Displays_example = putchar-Displays 65 corner corner-IsValid

-- The screen has no scrolling: behind the last cell comes the first row.
wraps : (column_after 65 corner ≡ 0) × (row_after 65 corner ≡ 0)
wraps = (refl, refl)
