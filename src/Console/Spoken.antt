-- ===== src/Console/Spoken.antt =====
-- Texts that are printed one after the other.
use ma_os.Base.{
  ℕ, zero, suc, ◌+◌, ◌*◌, ◌≤◌, ◌≡◌, refl, sym, ap, ◌∙◌, List, [], ◌∷◌, ◌++◌, ok, arith, length,
  length-append, Bool-cases, inl, inr, ◌==◌,
}
use mathlib.Core.List.{append_assoc}
use ma_os.Tty.{setcolor}
use ma_os.Tty.Screen.{IsValid}
use ma_os.Machine.{Machine, ◌>>=◌}
use ma_os.Serial.Wait.{outputs}
use ma_os.Printf.Format.{Arg, Printed, vprintf}
use ma_os.Console.{on_tty, puts, printf}
use ma_os.Console.Output.{AllReady, Served, line_bytes, serial_bytes, sent, puts-Prints, on_tty_lem}

-- The bytes `cs` have gone out on the port, and the line stays ready.
pub record Spoken (cs : List ℕ) (m m' : Machine) : Type 0 where
  pub valid : IsValid m'.tty
  pub port : m'.active_port ≡ m.active_port
  pub handlers : m'.handlers ≡ m.handlers
  pub clock : m'.ns_since_boot ≡ m.ns_since_boot
  pub ready : AllReady m'.answers
  pub left : length m.answers ≡ length (serial_bytes cs) + length m'.answers
  pub outs : outputs m'.trace ≡ sent m.active_port (serial_bytes cs) (outputs m.trace)

serial_bytes-append :
    (xs ys : List ℕ) → serial_bytes (xs ++ ys) ≡ serial_bytes xs ++ serial_bytes ys
serial_bytes-append [] ys = refl
serial_bytes-append (x ∷ xs) ys =
    ap (λ (t : List ℕ). line_bytes x ++ t) (serial_bytes-append xs ys)
    ∙ sym (append_assoc (line_bytes x) (serial_bytes xs) (serial_bytes ys))

length-line_bytes : (c : ℕ) → length (line_bytes c) ≤ 2
length-line_bytes c = elim (Bool-cases (c == b'\n')) [
  | inl e ↦ rw e (omega arith)
  | inr e ↦ rw e (omega arith)
]

-- A line feed takes two bytes, all else one.
length-serial_bytes : (cs : List ℕ) → length (serial_bytes cs) ≤ 2 * length cs
length-serial_bytes [] = omega arith
length-serial_bytes (c ∷ cs) = omega (
  arith,
  length-append (line_bytes c) (serial_bytes cs),
  length-serial_bytes cs,
  length-line_bytes c,
)

sent-append :
    (port : ℕ) (xs ys : List ℕ) (earlier : List (ℕ × ℕ))
    → sent port (xs ++ ys) earlier ≡ sent port ys (sent port xs earlier)
sent-append port [] ys earlier = refl
sent-append port (x ∷ xs) ys earlier = sent-append port xs ys ((port, x) ∷ earlier)

pub Spoken-trans :
    (xs ys : List ℕ) (m m1 m2 : Machine) → Spoken xs m m1 → Spoken ys m1 m2 → Spoken (xs ++ ys) m m2
Spoken-trans xs ys m m1 m2 a b = record {
  valid = b.valid;
  port = b.port ∙ a.port;
  handlers = b.handlers ∙ a.handlers;
  clock = b.clock ∙ a.clock;
  ready = b.ready;
  left =
      rw (serial_bytes-append xs ys)
        (omega (arith, a.left, b.left, length-append (serial_bytes xs) (serial_bytes ys)));
  outs =
      b.outs
      ∙ ap (λ (p : ℕ). sent p (serial_bytes ys) (outputs m1.trace)) a.port
      ∙ ap (λ (t : List (ℕ × ℕ)). sent m.active_port (serial_bytes ys) t) a.outs
      ∙ sym (sent-append m.active_port (serial_bytes xs) (serial_bytes ys) (outputs m.trace))
      ∙ ap (λ (t : List ℕ). sent m.active_port t (outputs m.trace))
          (sym (serial_bytes-append xs ys));
}

-- The line answers for each of `n` bytes, and is still ready behind them.
ready_for :
    (n : ℕ) (answers : List ℕ)
    → AllReady answers
    → n ≤ length answers
    → (rest : List ℕ) × Served n answers rest × AllReady rest × (length answers ≡ n + length rest)
ready_for zero answers ready enough = (answers, refl, ready, omega arith)
ready_for (suc n) [] ready enough = absurd (omega arith)
ready_for (suc n) (a ∷ answers) (now, ready) enough =
    let (rest, served, ready', left) = ready_for n answers ready (omega arith) in
    (rest, (now, served), ready', omega (arith, left))

pub puts-Spoken :
    (cs : List ℕ) (m : Machine)
    → IsValid m.tty
    → AllReady m.answers
    → length (serial_bytes cs) ≤ length m.answers
    → (m' : Machine) × (puts cs m ≡ ok (tt, m')) × Spoken cs m m'
puts-Spoken cs m valid ready enough =
    let (rest, served, ready', left) =
      ready_for (length (serial_bytes cs)) m.answers ready enough in
    let prints = puts-Prints cs m rest valid served in
    (
      record m { answers = rest; tty = prints.out; trace = prints.trace },
      prints.returns,
      record {
        valid = prints.valid;
        port = refl;
        handlers = refl;
        clock = refl;
        ready = ready';
        left = left;
        outs = prints.outs;
      },
    )

printf-Spoken :
    (format : List ℕ) (args : List Arg) (p : Printed) (m : Machine)
    → vprintf (length format) format args ≡ ok p
    → IsValid m.tty
    → AllReady m.answers
    → length (serial_bytes p.bytes) ≤ length m.answers
    → (m' : Machine) × (printf format args m ≡ ok (p.written, m')) × Spoken p.bytes m m'
unfolding printf
printf-Spoken format args p m e valid ready enough =
    let (m', done, spoken) = puts-Spoken p.bytes m valid ready enough in
    (m', rw (e, done, ◌>>=◌) refl, spoken)

-- A text of at most `n` characters, which take at most two bytes each.
pub printf-short :
    (n : ℕ) (format : List ℕ) (args : List Arg) (p : Printed) (m : Machine)
    → vprintf (length format) format args ≡ ok p
    → IsValid m.tty
    → AllReady m.answers
    → length p.bytes ≤ n
    → n + n ≤ length m.answers
    → (m' : Machine) × (printf format args m ≡ ok (p.written, m'))
      × Spoken p.bytes m m'
      × (length m.answers ≤ n + n + length m'.answers)
printf-short n format args p m e valid ready short enough =
    let few = length-serial_bytes p.bytes in
    let (m', done, spoken) = printf-Spoken format args p m e valid ready (omega arith) in
    (m', done, spoken, omega (arith, spoken.left))

pub setcolor-Spoken :
    (color : ℕ) (m : Machine)
    → IsValid m.tty
    → AllReady m.answers
    → (m' : Machine) × (on_tty (λ t. ok (setcolor color t)) m ≡ ok (tt, m')) × Spoken [] m m'
unfolding setcolor
setcolor-Spoken color m valid ready = (
  record m { tty = setcolor color m.tty },
  on_tty_lem (λ t. ok (setcolor color t)) m (setcolor color m.tty) refl,
  record {
    valid = record { row = valid.row; column = valid.column; size = valid.size };
    port = refl;
    handlers = refl;
    clock = refl;
    ready = ready;
    left = omega arith;
    outs = refl;
  },
)
