-- ===== src/Remainder/Exact.antt =====
-- `fmod` ends, and is the exact remainder.
use ma_os.Base.{
  ℕ, zero, suc, ◌+◌, ◌*◌, ◌%◌, ◌<◌, ◌≡◌, refl, sym, ap, ◌∙◌, Bool, true, false, Outcome, ok, arith,
  Bool-cases, inl, inr,
}
use native.Mathlib.Nat.{mul-add-mod_self_right, mod-eq_of_lt}
use ma_os.Remainder.{fmod}

-- What the processor's manual says of `fprem`. `size` is the size of a number in some unit that all
-- of them are multiples of. A multiple of `y` is subtracted from `x`, and the sign stays; in the
-- last step the size is below that of `y`, in the others it has become smaller.
pub record IsPartialRemainder {ℓ} {A : Type ℓ} (size : A → ℕ) (negative : A → Bool)
    (fprem : A → A → A × Bool) : Type ℓ where
  pub multiple : (x y : A) → (q : ℕ) × (size x ≡ q * size y + size (fprem x y).0)
  pub same_sign : (x y : A) → negative (fprem x y).0 ≡ negative x
  pub complete : (x y : A) → 0 < size y → (fprem x y).1 ≡ false → size (fprem x y).0 < size y
  pub reduced : (x y : A) → 0 < size y → (fprem x y).1 ≡ true → size (fprem x y).0 < size x

-- The remainder, with the sign of `x`.
pub record IsRemainder {ℓ} {A : Type ℓ} (size : A → ℕ) (negative : A → Bool) (x y : A)
    (r : Outcome A) : Type ℓ where
  pub out : A
  pub returns : r ≡ ok out
  pub remainder : size out ≡ size x % size y
  pub sign : negative out ≡ negative x

mod_multiple : (x y q r : ℕ) → x ≡ q * y + r → x % y ≡ r % y
mod_multiple x y q r e = ap (λ (t : ℕ). t % y) e ∙ mul-add-mod_self_right q y r

module _ {ℓ} {A : Type ℓ} (size : A → ℕ) (negative : A → Bool) (fprem : A → A → A × Bool)
    (partial : IsPartialRemainder size negative fprem) where
  -- With more rounds than the size of `x`, and a `y` that is not zero, `fmod` returns the remainder
  -- of the sizes with the sign of `x`, whatever steps `fprem` takes.
  pub fmod-IsRemainder :
      (rounds : ℕ) (x y : A)
      → 0 < size y
      → size x < rounds
      → IsRemainder size negative x y (fmod fprem rounds x y)
  unfolding fmod
  fmod-IsRemainder zero x y pos enough = absurd (omega arith)
  fmod-IsRemainder (suc rounds) x y pos enough =
      let (q, split) = partial.multiple x y in
      let same = mod_multiple (size x) (size y) q (size (fprem x y).0) split in
      elim (Bool-cases (fprem x y).1) [
        | inr last ↦ record {
          out = (fprem x y).0;
          returns = rw last refl;
          remainder = sym (same ∙ mod-eq_of_lt (partial.complete x y pos last));
          sign = partial.same_sign x y;
        }
        | inl again ↦
            let rest =
              fmod-IsRemainder rounds (fprem x y).0 y pos
                (omega (arith, partial.reduced x y pos again)) in
            record {
              out = rest.out;
              returns = rw again rest.returns;
              remainder = rest.remainder ∙ sym same;
              sign = rest.sign ∙ partial.same_sign x y;
            }
      ]
