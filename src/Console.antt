-- ===== src/Console.antt =====
-- libc/stdio/putchar.c, puts.c and printf.c, and the panic of kernel/kernel/common.c: output on the
-- screen and on the serial port. `putchar` returns no value, although the callers in printf.c
-- test its result; here the result is never negative.
pub mod Output
pub mod Spoken
use ma_os.Base.{ℕ, List, [], ◌∷◌, Outcome, ok, panic, length, codes}
use ma_os.Tty
use ma_os.Tty.{Tty}
use ma_os.Machine.{Io, ◌>>=◌, ◌>>◌, pure, lift}
use ma_os.Serial.{serial_putchar}
use ma_os.Printf.Format.{Arg, int, str, vprintf}

unfoldable pub on_tty : (Tty → Outcome Tty) → Io (Unit {0})
on_tty run m = (do t ← lift (run m.tty); λ m'. ok (tt, record m' { tty = t })) m

unfoldable pub putchar : ℕ → Io (Unit {0})
putchar c = do on_tty (Tty.putchar c); serial_putchar c

-- The bytes of a string, or of what `printf` prints.
unfoldable pub puts : List ℕ → Io (Unit {0})
puts [] = pure tt
puts (c ∷ cs) = do putchar c; puts cs

-- A round of the loop takes at least one byte of the format. The result is `written`.
unfoldable pub printf : List ℕ → List Arg → Io ℕ
printf format args = do
  printed ← lift (vprintf (length format) format args)
  puts printed.bytes
  pure printed.written

unfoldable pub print_line : Io (Unit {0})
print_line =
    puts
      (codes "\n-------------------------------------------------------------------------------\n")

-- It halts for ever at the end.
unfoldable pub kernel_panic : {A : Type 0} → List ℕ → ℕ → List ℕ → List Arg → Io A
kernel_panic filename line format args = do
  on_tty (λ t. ok (Tty.setcolor 12 t))
  print_line
  _ ← printf (codes "KERNEL PANIC at %s:%d\n") (str filename ∷ int line ∷ [])
  _ ← printf format args
  print_line
  print_line
  lift panic
