-- ===== src/Machine.antt =====
-- kernel/io/port.c: access to the ports of the devices, and the state that the drivers share.
-- A device is known by what it answers: `answers` has the values that the coming reads return, in
-- order, and a read that finds none left is `unfinished`. `trace` has what was read and written so
-- far, the latest first.
use ma_os.Base.{
  ℕ, Bool, if◌then◌else◌, ◌≡◌, refl, Option, List, [], ◌∷◌, Outcome, ok, panic, fault, unfinished,
  u8, u16, u32,
}
use ma_os.Tty.{Tty}

pub data Access : Type 0 where
  out8 out16 out32 in8 in16 in32 : ℕ → ℕ → Access

-- The functions that are registered as handlers of interrupts.
pub data Handler : Type 0 where
  serial timer keyboard : Handler

-- `handlers` is `interrupt_handlers` of isr.c, `active_port` is `serial_active_port` of serial.c,
-- `ns_since_boot` is the clock of timer.c.
pub record Machine : Type 0 where
  pub answers : List ℕ
  pub trace : List Access
  pub tty : Tty
  pub handlers : ℕ → Option Handler
  pub active_port : ℕ
  pub ns_since_boot : ℕ

-- A function of the kernel that runs on the machine.
abbrev pub Io : Type 0 → Type 0
Io A = Machine → Outcome (A × Machine)

infixl 5 ◌>>=◌ ◌>>◌
abbrev pub ◌>>=◌ : {A B : Type 0} → Io A → (A → Io B) → Io B
◌>>=◌ run next m = elim (run m) [
  | ok (a, m') ↦ next a m'
  | panic ↦ panic
  | fault ↦ fault
  | unfinished ↦ unfinished
]

abbrev pub ◌>>◌ : {B : Type 0} → Io (Unit {0}) → Io B → Io B
run >> next = run >>= λ _. next

-- A first part that ends well hands its result to the second one.
pub then_ok :
    {A B : Type 0} (run : Io A) (next : A → Io B) (m : Machine) {a : A} {m' : Machine}
    → run m ≡ ok (a, m')
    → (run >>= next) m ≡ next a m'
then_ok run next m e = rw (e, ◌>>=◌) refl

pub then_unfinished :
    {A B : Type 0} (run : Io A) (next : A → Io B) (m : Machine)
    → run m ≡ unfinished
    → (run >>= next) m ≡ unfinished
then_unfinished run next m e = rw (e, ◌>>=◌) refl

abbrev pub pure : {A : Type 0} → A → Io A
pure a m = ok (a, m)

-- An outcome that does not depend on the machine.
abbrev pub lift : {A : Type 0} → Outcome A → Io A
lift (ok a) m = ok (a, m)
lift panic m = panic
lift fault m = fault
lift unfinished m = unfinished

abbrev pub log : Access → Machine → Machine
log access m = record m { trace = access ∷ m.trace }

unfoldable pub outb : ℕ → ℕ → Io (Unit {0})
outb port value m = ok (tt, log (out8 port value) m)

unfoldable pub outw : ℕ → ℕ → Io (Unit {0})
outw port value m = ok (tt, log (out16 port value) m)

unfoldable pub outl : ℕ → ℕ → Io (Unit {0})
outl port value m = ok (tt, log (out32 port value) m)

-- The next answer, and the machine that has none of it left.
abbrev take_answer : (ℕ → Access) → (ℕ → ℕ) → List ℕ → Io ℕ
take_answer access cut [] m = unfinished
take_answer access cut (a ∷ rest) m = ok (cut a, log (access (cut a)) (record m { answers = rest }))

unfoldable pub inb : ℕ → Io ℕ
inb port m = take_answer (in8 port) (λ n. u8 n) m.answers m

unfoldable pub inw : ℕ → Io ℕ
inw port m = take_answer (in16 port) (λ n. u16 n) m.answers m

unfoldable pub inl : ℕ → Io ℕ
inl port m = take_answer (in32 port) (λ n. u32 n) m.answers m

-- One round of a loop that reads a status: the answers that are left, and what has been read.
abbrev pub after_read : ℕ → ℕ → List ℕ → Machine → Machine
after_read port value rest m = log (in8 port value) (record m { answers = rest })

unfoldable pub poll_from : ℕ → (ℕ → Bool) → List ℕ → Io (Unit {0})
poll_from port busy [] m = unfinished
poll_from port busy (a ∷ rest) m =
    if busy (u8 a)
    then poll_from port busy rest (after_read port (u8 a) rest m)
    else ok (tt, after_read port (u8 a) rest m)

-- `while (busy(inb(port))) { }`.
unfoldable pub poll : ℕ → (ℕ → Bool) → Io (Unit {0})
poll port busy m = poll_from port busy m.answers m

unfoldable pub drain_from : ℕ → ℕ → (ℕ → Bool) → List ℕ → Io (Unit {0})
drain_from port from ready [] m = unfinished
drain_from port from ready (a ∷ []) m =
    if ready (u8 a) then unfinished else ok (tt, after_read port (u8 a) [] m)
drain_from port from ready (a ∷ b ∷ rest) m =
    if ready (u8 a)
    then drain_from port from ready rest
        (after_read from (u8 b) rest (after_read port (u8 a) (b ∷ rest) m))
    else ok (tt, after_read port (u8 a) (b ∷ rest) m)

-- `while (ready(inb(port))) { inb(from); }`.
unfoldable pub drain : ℕ → ℕ → (ℕ → Bool) → Io (Unit {0})
drain port from ready m = drain_from port from ready m.answers m
