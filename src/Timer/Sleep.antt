-- ===== src/Timer/Sleep.antt =====
-- `sleep` returns when the timer's interrupts have advanced the clock far enough.
use ma_os.Base.{
  ℕ, zero, suc, ◌+◌, ◌*◌, ◌%◌, ◌^◌, ◌≤◌, ◌<◌, ◌≡◌, refl, sym, ◌∙◌, List, [], ◌∷◌, Outcome, ok,
  unfinished, arith, ltb, Bool-cases, inl, inr, ltb→ge, lt→ltb, ge→ltb,
}
use mathlib.Core.Path.{subst}
use ma_os.Machine.{Machine, then_ok}
use ma_os.Timer.{ns_per_tick, timer_handler, handle_ticks, sleep_until, sleep}

-- The machine at another time.
abbrev pub at_time : ℕ → Machine → Machine
at_time t m = record m { ns_since_boot = t }

abbrev pub sum : List ℕ → ℕ
sum [] = 0
sum (x ∷ xs) = x + sum xs

handle_ticks_lem :
    (ticks : ℕ) (m : Machine)
    → m.ns_since_boot + ticks * ns_per_tick < 2 ^ 64
    → handle_ticks ticks m ≡ ok (tt, at_time (m.ns_since_boot + ticks * ns_per_tick) m)
unfolding handle_ticks timer_handler
handle_ticks_lem zero m fits =
    let same : m.ns_since_boot + 0 * ns_per_tick ≡ m.ns_since_boot = omega arith in rw same refl
handle_ticks_lem (suc ticks) m fits =
    let now = m.ns_since_boot + ns_per_tick in
    let no_wrap : now % 2 ^ 64 ≡ now = omega arith in
    let total : now + ticks * ns_per_tick ≡ m.ns_since_boot + suc ticks * ns_per_tick =
      omega arith in
    rw no_wrap (handle_ticks_lem ticks (at_time now m) (omega arith) ∙ rw total refl)

-- Either the interrupts reach the end, and the call returns no earlier than that and no later than
-- the last of them, or they do not, and it does not return.
abbrev pub Sleeps : ℕ → List ℕ → Machine → Outcome (Unit {0} × Machine) → Type 0
Sleeps end_time wakes m r =
    (end_time ≤ m.ns_since_boot + sum wakes * ns_per_tick
      → (t : ℕ) × (r ≡ ok (tt, at_time t m))
        × (end_time ≤ t)
        × (t ≤ m.ns_since_boot + sum wakes * ns_per_tick))
    × (m.ns_since_boot + sum wakes * ns_per_tick < end_time → r ≡ unfinished)

sleep_until-Sleeps :
    (end_time : ℕ) (wakes : List ℕ) (m : Machine)
    → m.ns_since_boot + sum wakes * ns_per_tick < 2 ^ 64
    → Sleeps end_time wakes m (sleep_until end_time wakes m)
unfolding sleep_until
sleep_until-Sleeps end_time [] m fits = (
  λ reached. (
    m.ns_since_boot,
    rw (ge→ltb m.ns_since_boot end_time (omega arith)) refl,
    omega arith,
    omega arith,
  ),
  λ early. rw (lt→ltb m.ns_since_boot end_time (omega arith)) refl,
)
sleep_until-Sleeps end_time (ticks ∷ wakes) m fits =
    elim (Bool-cases (ltb m.ns_since_boot end_time)) [
      | inl early ↦
          let now = m.ns_since_boot + ticks * ns_per_tick in
          let ih = sleep_until-Sleeps end_time wakes (at_time now m) (omega arith) in
          let step : sleep_until end_time (ticks ∷ wakes) m
              ≡ sleep_until end_time wakes (at_time now m) =
            rw early (
              then_ok (handle_ticks ticks) (λ _. sleep_until end_time wakes) m
                (handle_ticks_lem ticks m (omega arith))) in
          subst (λ (r : Outcome (Unit {0} × Machine)). Sleeps end_time (ticks ∷ wakes) m r)
            (sym step)
            (
              λ reached.
                  let (t, done, enough, last) = ih.0 (omega arith) in
                  (t, done, enough, omega (arith, last)),
              λ short. ih.1 (omega arith),
            )
      | inr over ↦
          let past : end_time ≤ m.ns_since_boot = ltb→ge m.ns_since_boot end_time over in
          rw over
            (λ reached. (m.ns_since_boot, refl, past, omega arith), λ short. absurd (omega arith))
    ]

-- If the clock does not wrap: `sleep` returns when the interrupts that are handled while it waits
-- make up the time, not before the time is over and with nothing but the clock changed; when they
-- make up less, it goes on waiting.
pub sleep-Sleeps :
    (wakes : List ℕ) (millis : ℕ) (m : Machine)
    → m.ns_since_boot + sum wakes * ns_per_tick < 2 ^ 64
    → m.ns_since_boot + millis * 1000000 < 2 ^ 64
    → Sleeps (m.ns_since_boot + millis * 1000000) wakes m (sleep wakes millis m)
unfolding sleep
sleep-Sleeps wakes millis m fits ends =
    let no_wrap : (m.ns_since_boot + millis * 1000000) % 2 ^ 64
        ≡ m.ns_since_boot + millis * 1000000 =
      omega arith in
    rw no_wrap (sleep_until-Sleeps (m.ns_since_boot + millis * 1000000) wakes m fits)
