-- ===== src/Remainder.antt =====
-- libmath/math.cpp: `fmod`. The instruction `fprem` is a parameter: it gives a number, and whether
-- the bit 0x400 of the status word says that the reduction is not complete.
pub mod Exact
use ma_os.Base.{ℕ, zero, suc, Bool, Outcome, ok, unfinished, if◌then◌else◌}

-- `do ... while (fpsr & 0x400)`, for at most `rounds` rounds.
unfoldable pub fmod {ℓ} : {A : Type ℓ} → (A → A → A × Bool) → ℕ → A → A → Outcome A
fmod fprem zero x y = unfinished
fmod fprem (suc rounds) x y =
    let reduced = fprem x y in
    let rest = fmod fprem rounds reduced.0 y in if reduced.1 then rest else ok reduced.0
