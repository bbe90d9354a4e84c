-- ===== src/Serial/Wait.antt =====
-- A byte goes out on the serial line only when the line says that it can take one.
use ma_os.Base.{
  ℕ, ◌+◌, ◌≡◌, refl, Bool, false, Option, none, some, List, [], ◌∷◌, Outcome, ok, unfinished,
  if◌then◌else◌, Bool-cases, inl, inr, u8,
}
use ma_os.Machine.{
  Machine, Access, out8, out16, out32, in8, in16, in32, outb, poll_from, poll, after_read, inb,
  ◌>>=◌, pure, then_ok, then_unfinished,
}
use ma_os.Serial.{com1, tx_busy, put_byte}

-- The answers behind the first one that ends the loop; none if all keep it waiting.
abbrev pub behind_ready : (ℕ → Bool) → List ℕ → Option (List ℕ)
behind_ready busy [] = none
behind_ready busy (a ∷ rest) = if busy (u8 a) then behind_ready busy rest else some rest

-- What has been written, and where.
abbrev pub outputs : List Access → List (ℕ × ℕ)
outputs [] = []
outputs (out8 port value ∷ earlier) = (port, value) ∷ outputs earlier
outputs (out16 port value ∷ earlier) = (port, value) ∷ outputs earlier
outputs (out32 port value ∷ earlier) = (port, value) ∷ outputs earlier
outputs (in8 port value ∷ earlier) = outputs earlier
outputs (in16 port value ∷ earlier) = outputs earlier
outputs (in32 port value ∷ earlier) = outputs earlier

-- The loop waits for ever, or has read one last status that is not busy.
abbrev pub Polled :
    ℕ → (ℕ → Bool) → Machine → Option (List ℕ) → Outcome (Unit {0} × Machine) → Type 0
Polled port busy m none r = r ≡ unfinished
Polled port busy m (some rest) r =
    (earlier : List Access) × (s : ℕ) × (busy s ≡ false)
    × (outputs earlier ≡ outputs m.trace)
    × (r ≡ ok (tt, record m { answers = rest; trace = in8 port s ∷ earlier }))

-- What was read before does not matter.
Polled-after_read :
    (port value : ℕ) (busy : ℕ → Bool) (m : Machine) (left : List ℕ) (o : Option (List ℕ))
    (r : Outcome (Unit {0} × Machine))
    → Polled port busy (after_read port value left m) o r
    → Polled port busy m o r
Polled-after_read port value busy m left none r p = p
Polled-after_read port value busy m left (some rest) r p = p

poll_from-Polled :
    (port : ℕ) (busy : ℕ → Bool) (answers : List ℕ) (m : Machine)
    → Polled port busy m (behind_ready busy answers) (poll_from port busy answers m)
unfolding poll_from
poll_from-Polled port busy [] m = refl
poll_from-Polled port busy (a ∷ rest) m = elim (Bool-cases (busy (u8 a))) [
  | inl waits ↦ rw waits (
      Polled-after_read port (u8 a) busy m rest (behind_ready busy rest)
        (poll_from port busy rest (after_read port (u8 a) rest m))
        (poll_from-Polled port busy rest (after_read port (u8 a) rest m)))
  | inr ready ↦ rw ready (m.trace, u8 a, ready, refl, refl)
]

-- `while (busy(inb(port))) { }` ends with the first answer that is not busy, and only with it.
pub poll-Polled :
    (port : ℕ) (busy : ℕ → Bool) (m : Machine)
    → Polled port busy m (behind_ready busy m.answers) (poll port busy m)
unfolding poll
poll-Polled port busy m = poll_from-Polled port busy m.answers m

one_round :
    (port : ℕ) (busy : ℕ → Bool) (answers : List ℕ) (m : Machine)
    → poll port busy (record m { answers = answers })
      ≡ (inb port >>= λ status. if busy status then poll port busy else pure tt)
          (record m { answers = answers })
unfolding poll inb poll_from
one_round port busy [] m = refl
one_round port busy (a ∷ rest) m = elim (Bool-cases (busy (u8 a))) [
  | inl waits ↦ rw waits refl
  | inr ready ↦ rw ready refl
]

-- The loop is the one that reads the port before each round.
pub poll_lem :
    (port : ℕ) (busy : ℕ → Bool) (m : Machine)
    → poll port busy m ≡ (inb port >>= λ status. if busy status then poll port busy else pure tt) m
poll_lem port busy m = one_round port busy m.answers m

-- One byte, sent to the active port.
abbrev pub Put : ℕ → Machine → Option (List ℕ) → Outcome (Unit {0} × Machine) → Type 0
Put a m none r = r ≡ unfinished
Put a m (some rest) r =
    (earlier : List Access) × (s : ℕ) × (tx_busy s ≡ false)
    × (outputs earlier ≡ outputs m.trace)
    × (r
        ≡ ok (
          tt,
          record m {
            answers = rest;
            trace = out8 m.active_port (u8 a) ∷ in8 (com1 + 5) s ∷ earlier;
          },
        ))

Polled-Put :
    (a : ℕ) (m : Machine) (o : Option (List ℕ))
    → Polled (com1 + 5) (λ s. tx_busy s) m o (poll (com1 + 5) (λ s. tx_busy s) m)
    → Put a m o (put_byte a m)
unfolding put_byte outb
Polled-Put a m none p =
    then_unfinished (poll (com1 + 5) (λ s. tx_busy s)) (λ _ m'. outb m'.active_port (u8 a) m') m p
Polled-Put a m (some rest) (earlier, s, ready, same, e) = (
  earlier,
  s,
  ready,
  same,
  then_ok (poll (com1 + 5) (λ s. tx_busy s)) (λ _ m'. outb m'.active_port (u8 a) m') m e,
)

-- A byte is written to the active port right after a status that is not busy, and nothing else is
-- written; without such a status the call does not return.
pub put_byte-Put :
    (a : ℕ) (m : Machine) → Put a m (behind_ready (λ s. tx_busy s) m.answers) (put_byte a m)
put_byte-Put a m =
    Polled-Put a m (behind_ready (λ s. tx_busy s) m.answers)
      (poll-Polled (com1 + 5) (λ s. tx_busy s) m)
