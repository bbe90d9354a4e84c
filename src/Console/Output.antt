-- ===== src/Console/Output.antt =====
-- The screen and the serial line show the same text.
use ma_os.Base.{
  ℕ, zero, suc, ◌+◌, ◌≤◌, ◌≡◌, refl, sym, ap, ◌∙◌, false, Option, some, List, [], ◌∷◌, ◌++◌,
  Outcome, ok, arith, length, if◌then◌else◌, Bool-cases, inl, inr, u8, ◌==◌, ==_iff,
}
use mathlib.Core.Path.{subst}
use ma_os.Tty
use ma_os.Tty.{Tty}
use ma_os.Tty.Screen.{IsValid}
use ma_os.Tty.Write.{putchar-Runs}
use ma_os.Machine.{Machine, Access, out8, in8, Io, ◌>>◌, then_ok}
use ma_os.Serial.{com1, tx_busy, put_byte, serial_putchar}
use ma_os.Serial.Wait.{behind_ready, outputs, Put, put_byte-Put}
use ma_os.Console.{on_tty, putchar, puts}

-- The line can take a byte whenever it is asked.
abbrev pub AllReady : List ℕ → Type 0
AllReady [] = Unit
AllReady (a ∷ rest) = (tx_busy (u8 a) ≡ false) × AllReady rest

-- What is sent for a character, and for a text.
abbrev pub line_bytes : ℕ → List ℕ
line_bytes c = if c == b'\n' then b'\r' ∷ b'\n' ∷ [] else u8 c ∷ []

abbrev pub serial_bytes : List ℕ → List ℕ
serial_bytes [] = []
serial_bytes (c ∷ cs) = line_bytes c ++ serial_bytes cs

-- Writes to one port, after the earlier ones; the latest stands first.
abbrev pub sent : ℕ → List ℕ → List (ℕ × ℕ) → List (ℕ × ℕ)
sent port [] earlier = earlier
sent port (b ∷ bytes) earlier = sent port bytes ((port, b) ∷ earlier)

sent-append :
    (port : ℕ) (xs ys : List ℕ) (earlier : List (ℕ × ℕ))
    → sent port (xs ++ ys) earlier ≡ sent port ys (sent port xs earlier)
sent-append port [] ys earlier = refl
sent-append port (x ∷ xs) ys earlier = sent-append port xs ys ((port, x) ∷ earlier)

-- The first `count` answers say that the line can take a byte, and the others are `rest`.
abbrev pub Served : ℕ → List ℕ → List ℕ → Type 0
Served zero answers rest = answers ≡ rest
Served (suc count) [] rest = ⊥
Served (suc count) (a ∷ answers) rest = (tx_busy (u8 a) ≡ false) × Served count answers rest

Served-split :
    (xs ys : List ℕ) (answers rest : List ℕ)
    → Served (length (xs ++ ys)) answers rest
    → (mid : List ℕ) × Served (length xs) answers mid × Served (length ys) mid rest
Served-split [] ys answers rest served = (answers, refl, served)
Served-split (x ∷ xs) ys [] rest served = absurd served
Served-split (x ∷ xs) ys (a ∷ answers) rest (now, served) =
    let (mid, first, second) = Served-split xs ys answers rest served in (mid, (now, first), second)

AllReady-Served :
    (xs answers : List ℕ)
    → AllReady answers
    → length xs ≤ length answers
    → (rest : List ℕ) × Served (length xs) answers rest
AllReady-Served [] answers ready enough = (answers, refl)
AllReady-Served (x ∷ xs) [] ready enough = absurd (omega arith)
AllReady-Served (x ∷ xs) (a ∷ answers) (now, ready) enough =
    let (rest, served) = AllReady-Served xs answers ready (omega arith) in (rest, (now, served))

-- A run that sends some bytes, has the answers left that are named, and changes nothing else.
record Sends (bytes rest : List ℕ) (m : Machine) (r : Outcome (Unit {0} × Machine)) : Type 0 where
  trace : List Access
  returns : r ≡ ok (tt, record m { answers = rest; trace = trace })
  outs : outputs trace ≡ sent m.active_port bytes (outputs m.trace)

byte-Sends :
    (b : ℕ) (m : Machine) (answers rest : List ℕ)
    → m.answers ≡ answers
    → Served 1 answers rest
    → Sends (u8 b ∷ []) rest m (put_byte b m)
byte-Sends b m [] rest e served = absurd served
byte-Sends b m (a ∷ answers) rest e (now, same) =
    let found : behind_ready (λ s. tx_busy s) m.answers ≡ some answers = rw (e, now) refl in
    let (earlier, s, free, outs, done) =
      subst (λ (o : Option (List ℕ)). Put b m o (put_byte b m)) found (put_byte-Put b m) in
    record {
      trace = out8 m.active_port (u8 b) ∷ in8 (com1 + 5) s ∷ earlier;
      returns =
          done
          ∙ ap
              (λ (t : List ℕ). ok (
                tt,
                record m {
                  answers = t;
                  trace = out8 m.active_port (u8 b) ∷ in8 (com1 + 5) s ∷ earlier;
                },
              ))
              same;
      outs = ap (λ (t : List (ℕ × ℕ)). (m.active_port, u8 b) ∷ t) outs;
    }

Sends-then :
    (xs ys mid rest : List ℕ) (run next : Io (Unit {0})) (m : Machine) (s : Sends xs mid m (run m))
    → Sends ys rest
        (record m { answers = mid; trace = s.trace })
        (next (record m { answers = mid; trace = s.trace }))
    → Sends (xs ++ ys) rest m ((run >> next) m)
Sends-then xs ys mid rest run next m s n = record {
  trace = n.trace;
  returns = then_ok run (λ _. next) m s.returns ∙ n.returns;
  outs =
      n.outs
      ∙ ap (λ (t : List (ℕ × ℕ)). sent m.active_port ys t) s.outs
      ∙ sym (sent-append m.active_port xs ys (outputs m.trace));
}

putchar-Sends :
    (c : ℕ) (m : Machine) (rest : List ℕ)
    → Served (length (line_bytes c)) m.answers rest
    → Sends (line_bytes c) rest m (serial_putchar c m)
unfolding serial_putchar
putchar-Sends c m rest served = elim (Bool-cases (c == b'\n')) [
  | inl newline ↦
      let c' : c ≡ b'\n' = (==_iff c b'\n').0 newline in
      let two : Served 2 m.answers rest = rw newline at served in
      let (mid, one, other) = Served-split (b'\r' ∷ []) (b'\n' ∷ []) m.answers rest two in
      let first = byte-Sends b'\r' m m.answers mid refl one in
      let m' = record m { answers = mid; trace = first.trace } in
      rw c' (
        Sends-then (b'\r' ∷ []) (b'\n' ∷ []) mid rest (put_byte b'\r') (put_byte b'\n') m first
          (byte-Sends b'\n' m' mid rest refl other))
  | inr other ↦
      let one : Served 1 m.answers rest = rw other at served in
      rw other (byte-Sends c m m.answers rest refl one)
]

-- What a text does to the machine, where the line is always ready.
pub record Shows (cs : List ℕ) (m : Machine) (r : Outcome (Unit {0} × Machine)) : Type 0 where
  pub out : Machine
  pub returns : r ≡ ok (tt, out)
  pub screen : Tty.writebuf cs m.tty ≡ ok out.tty
  pub port : out.active_port ≡ m.active_port
  pub outs : outputs out.trace ≡ sent m.active_port (serial_bytes cs) (outputs m.trace)

pub on_tty_lem :
    (run : Tty → Outcome Tty) (m : Machine) (t : Tty)
    → run m.tty ≡ ok t
    → on_tty run m ≡ ok (tt, record m { tty = t })
unfolding on_tty
on_tty_lem run m t e = rw e refl

-- What a text does where the line says that it can take each byte: the answers that are left are
-- named.
pub record Prints (cs rest : List ℕ) (m : Machine) (r : Outcome (Unit {0} × Machine)) : Type 0 where
  pub out : Tty
  pub trace : List Access
  pub returns : r ≡ ok (tt, record m { answers = rest; tty = out; trace = trace })
  pub screen : Tty.writebuf cs m.tty ≡ ok out
  pub valid : IsValid out
  pub outs : outputs trace ≡ sent m.active_port (serial_bytes cs) (outputs m.trace)

pub puts-Prints :
    (cs : List ℕ) (m : Machine) (rest : List ℕ)
    → IsValid m.tty
    → Served (length (serial_bytes cs)) m.answers rest
    → Prints cs rest m (puts cs m)
unfolding puts putchar Tty.writebuf
puts-Prints [] m rest valid served = record {
  out = m.tty;
  trace = m.trace;
  returns = rw served refl;
  screen = refl;
  valid = valid;
  outs = refl;
}
puts-Prints (c ∷ cs) m rest valid served =
    let (mid, now, later) = Served-split (line_bytes c) (serial_bytes cs) m.answers rest served in
    let first = putchar-Runs c m.tty valid in
    let m1 = record m { tty = first.out } in
    let second = putchar-Sends c m1 mid now in
    let m2 = record m1 { answers = mid; trace = second.trace } in
    let others = puts-Prints cs m2 rest first.valid later in
    let shown : putchar c m ≡ ok (tt, m2) =
      then_ok (on_tty (Tty.putchar c)) (λ _. serial_putchar c) m
        (on_tty_lem (Tty.putchar c) m first.out first.returns)
      ∙ second.returns in
    record {
      out = others.out;
      trace = others.trace;
      returns = then_ok (putchar c) (λ _. puts cs) m shown ∙ others.returns;
      screen = rw first.returns others.screen;
      valid = others.valid;
      outs =
          others.outs
          ∙ ap (λ (t : List (ℕ × ℕ)). sent m.active_port (serial_bytes cs) t) second.outs
          ∙ sym (sent-append m.active_port (line_bytes c) (serial_bytes cs) (outputs m.trace));
    }

-- On a line that is ready whenever it is asked, and asked at most as often as it answers, `puts`
-- returns: the screen has what `tty_writebuf` of the text leaves on it, and the same bytes, with a
-- carriage return in front of each line feed, are written to the active port in order.
pub puts-Shows :
    (cs : List ℕ) (m : Machine)
    → IsValid m.tty
    → AllReady m.answers
    → length (serial_bytes cs) ≤ length m.answers
    → Shows cs m (puts cs m)
puts-Shows cs m valid ready enough =
    let (rest, served) = AllReady-Served (serial_bytes cs) m.answers ready enough in
    let prints = puts-Prints cs m rest valid served in
    record {
      out = record m { answers = rest; tty = prints.out; trace = prints.trace };
      returns = prints.returns;
      screen = prints.screen;
      port = refl;
      outs = prints.outs;
    }
