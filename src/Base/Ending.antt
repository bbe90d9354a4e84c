-- ===== src/Base/Ending.antt =====
-- How a C function of the kernel ends: with a value, in `kernel_panic` (which never returns), or
-- in undefined behaviour, such as an access out of bounds. A loop that is computed for a number
-- of rounds may also be `unfinished` after them.
use mathlib.Core.Path.{◌≡◌}
use mathlib.Core.Option.{Option, none, some}
use mathlib.Core.Bool.{Bool, true, false}

pub data Outcome {ℓ} (A : Type ℓ) : Type ℓ where
  ok : A → Outcome A
  panic fault unfinished : Outcome A

infixl 5 ◌>>=◌ ◌>>◌
abbrev pub ◌>>=◌ {ℓ κ} : {A : Type ℓ} {B : Type κ} → Outcome A → (A → Outcome B) → Outcome B
ok a >>= k = k a
panic >>= k = panic
fault >>= k = fault
unfinished >>= k = unfinished

abbrev pub ◌>>◌ {ℓ} : {B : Type ℓ} → Outcome (Unit {0}) → Outcome B → Outcome B
m >> k = m >>= λ _. k

-- A read that may be out of bounds.
abbrev pub access {ℓ} : {A : Type ℓ} → Option A → Outcome A
access none = fault
access (some a) = ok a

-- `ASSERT(exp)`.
abbrev pub assert : Bool → Outcome (Unit {0})
assert true = ok tt
assert false = panic

pub ok-injective {ℓ} : {A : Type ℓ} {a b : A} → ok a ≡ ok b → a ≡ b
ok-injective e = cc
