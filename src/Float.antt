-- ===== src/Float.antt =====
-- libmath/include/math.hpp: what the code takes of floating-point numbers. Their type and operations
-- are those of the processor and of the assembly in libmath, and a parameter here.
use ma_os.Base.{
  ℕ, ◌^◌, ◌<◌, ◌≤◌, ◌≡◌, refl, Bool, Option, none, some, Outcome, ok, fault, ltb, lt→ltb, ge→ltb,
  if◌then◌else◌,
}

-- `literal n k` is n / 10 ^ k, rounded. `truncate` drops what is behind the point, where that leaves
-- a natural number. `as_int` and `as_float` cast the bits.
pub record Floats : Type 1 where
  pub Float : Type 0
  pub literal : ℕ → ℕ → Float
  pub of_uint : ℕ → Float
  pub add : Float → Float → Float
  pub sub : Float → Float → Float
  pub mul : Float → Float → Float
  pub div : Float → Float → Float
  pub neg : Float → Float
  pub less : Float → Float → Bool
  pub truncate : Float → Option ℕ
  pub fabs : Float → Float
  pub fmod : Float → Float → Float
  pub fsin : Float → Float
  pub as_int : Float → ℕ
  pub as_float : ℕ → Float

unfoldable pub within : ℕ → Option ℕ → Outcome ℕ
within bits none = fault
within bits (some n) = if ltb n (2 ^ bits) then ok n else fault

-- The conversion to an unsigned type of `bits` bits, or to the positive half of a signed one with
-- one bit more. It is undefined for what the type does not have.
abbrev pub to_uint : (fl : Floats) → ℕ → fl.Float → Outcome ℕ
to_uint fl bits x = within bits (fl.truncate x)

pub to_uint_lem :
    (fl : Floats) (bits : ℕ) (x : fl.Float) (n : ℕ)
    → fl.truncate x ≡ some n
    → n < 2 ^ bits
    → to_uint fl bits x ≡ ok n
unfolding within
to_uint_lem fl bits x n e small = rw (e, lt→ltb n (2 ^ bits) small) refl

pub to_uint-fault :
    (fl : Floats) (bits : ℕ) (x : fl.Float) (n : ℕ)
    → fl.truncate x ≡ some n
    → 2 ^ bits ≤ n
    → to_uint fl bits x ≡ fault
unfolding within
to_uint-fault fl bits x n e large = rw (e, ge→ltb n (2 ^ bits) large) refl
