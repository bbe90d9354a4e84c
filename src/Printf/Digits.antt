-- ===== src/Printf/Digits.antt =====
-- What the buffer of `print_int` holds.
use ma_os.Base.{
  ℕ, zero, suc, ◌+◌, ◌-◌, ◌*◌, ◌/◌, ◌%◌, ◌^◌, ◌≤◌, ◌<◌, ◌≡◌, refl, ap, false, some, List, [], ◌∷◌,
  ok, fault, arith, get_elem?, length, ltb, if◌then◌else◌, Bool-cases, ◌⊎◌, inl, inr, ltb→lt,
  lt→ltb, ge→ltb,
}
use native.Mathlib.Nat.{
  pow-suc, pow-zero, one-mul, mod-lt, div-lt_iff_lt-mul, le-div_iff_mul-le, mod-add-div, one-le-pow,
  mod-eq_of_lt,
}
use ma_os.Printf.{hexchars, fill_buffer}

-- The character of a digit below 16.
abbrev pub digit_char : ℕ → ℕ
digit_char d = if ltb d 10 then b'0' + d else b'A' + (d - 10)

-- The digit that a character stands for.
abbrev pub digit_value : ℕ → ℕ
digit_value c = if ltb c 65 then c - 48 else c - 55

-- The number that digits stand for, the least digit first.
abbrev pub value : ℕ → List ℕ → ℕ
value base [] = 0
value base (c ∷ cs) = digit_value c + base * value base cs

-- Each is one of the characters `0` to `9` and `A` to `F` for a digit of the base.
abbrev pub AreDigits : ℕ → List ℕ → Type 0
AreDigits base [] = Unit
AreDigits base (c ∷ cs) = ((d : ℕ) × (d < base) × (c ≡ digit_char d)) × AreDigits base cs

-- The characters are those for the numbers from `n` on.
abbrev Counts : List ℕ → ℕ → Type 0
Counts [] n = Unit
Counts (c ∷ cs) n = (c ≡ digit_char n) × Counts cs (suc n)

Counts-get_elem? :
    (cs : List ℕ) (n d : ℕ)
    → Counts cs n
    → d < length cs
    → get_elem? cs d ≡ some (digit_char (n + d))
Counts-get_elem? [] n d counts h = absurd (omega arith)
Counts-get_elem? (c ∷ cs) n zero (e, counts) h =
    let same : n + 0 ≡ n = omega arith in rw (same, e) refl
Counts-get_elem? (c ∷ cs) n (suc d) (e, counts) h =
    let same : n + suc d ≡ suc n + d = omega arith in
    rw same (Counts-get_elem? cs (suc n) d counts (omega arith))

digit_value-char : (d : ℕ) → d < 16 → digit_value (digit_char d) ≡ d
digit_value-char d h = ground arith

hexchars-Counts : Counts hexchars 0
hexchars-Counts = (
  refl,
  (
    refl,
    (
      refl,
      (
        refl,
        (
          refl,
          (
            refl,
            (refl, (refl, (refl, (refl, (refl, (refl, (refl, (refl, (refl, (refl, tt)))))))))),
          ),
        ),
      ),
    ),
  ),
)

pub hexchar :
    (unum base : ℕ)
    → 2 ≤ base
    → base ≤ 16
    → (c : ℕ) × (get_elem? hexchars (unum % base) ≡ some c)
      × (digit_value c ≡ unum % base)
      × ((d : ℕ) × (d < base) × (c ≡ digit_char d))
hexchar unum base two sixteen =
    let small : unum % base < base = mod-lt unum (omega arith) in
    let none_before : 0 + unum % base ≡ unum % base = omega arith in
    let found = Counts-get_elem? hexchars 0 (unum % base) hexchars-Counts (omega arith) in
    (
      digit_char (unum % base),
      rw none_before at found,
      digit_value-char (unum % base) (omega arith),
      (unum % base, small, refl),
    )

-- No digit is missing and none is there in vain: at least one, at most `places`, and as few as the
-- number takes.
abbrev pub IsShort : ℕ → ℕ → ℕ → List ℕ → Type 0
IsShort base places unum cs =
    (1 ≤ length cs) × (length cs ≤ places) × ((length cs ≡ 1) ⊎ (base ^ (length cs - 1) ≤ unum))

longer_IsShort :
    (base places unum c : ℕ) (cs : List ℕ)
    → 2 ≤ base
    → base ≤ unum
    → IsShort base places (unum / base) cs
    → IsShort base (suc places) unum (c ∷ cs)
longer_IsShort base places unum c cs two large (some_left, few, inl one) =
    let two_digits : suc (length cs) - 1 ≡ 1 = omega arith in
    let power : base ^ 1 ≡ base =
      omega (arith, pow-suc base 0, ap (λ (t : ℕ). t * base) (pow-zero base), one-mul base) in
    (omega arith, omega arith, inr (rw (two_digits, power) large))
longer_IsShort base places unum c cs two large (some_left, few, inr least) =
    let count : suc (length cs) - 1 ≡ suc (length cs - 1) = omega arith in
    let product : base ^ (length cs - 1) * base ≤ unum =
      (le-div_iff_mul-le {k = base} {x = base ^ (length cs - 1)} {y = unum} (omega arith)).0
        least in
    (
      omega arith,
      omega arith,
      inr (rw count (omega (arith, pow-suc base (length cs - 1), product))),
    )

last_digit :
    (rounds unum base : ℕ)
    → 2 ≤ base
    → base ≤ 16
    → unum < base
    → (cs : List ℕ) × (fill_buffer (suc rounds) unum base ≡ ok cs)
      × (value base cs ≡ unum)
      × AreDigits base cs
      × IsShort base (suc rounds) unum cs
unfolding fill_buffer
last_digit rounds unum base two sixteen low =
    let (c, found, digit, char) = hexchar unum base two sixteen in
    rw (found, lt→ltb unum base low)
      (
        c ∷ [],
        refl,
        omega (arith, digit, mod-eq_of_lt low),
        (char, tt),
        (omega arith, omega arith, inl refl),
      )

ge_of_ltb : (x y : ℕ) → ltb x y ≡ false → y ≤ x
ge_of_ltb x y e = ground arith

-- In a base from 2 to 16, a number that has at most as many digits as there are places, of which
-- there is at least one, is in the buffer when the loop ends, in digits of the base and with as few
-- of them as it takes.
pub fill_buffer-value :
    (rounds unum base : ℕ)
    → 2 ≤ base
    → base ≤ 16
    → unum < base ^ suc rounds
    → (cs : List ℕ) × (fill_buffer (suc rounds) unum base ≡ ok cs)
      × (value base cs ≡ unum)
      × AreDigits base cs
      × IsShort base (suc rounds) unum cs
unfolding fill_buffer
fill_buffer-value zero unum base two sixteen fits =
    last_digit 0 unum base two sixteen
      (omega (arith, pow-suc base 0, ap (λ (t : ℕ). t * base) (pow-zero base), one-mul base))
fill_buffer-value (suc rounds) unum base two sixteen fits =
    let (c, found, digit, char) = hexchar unum base two sixteen in
    let fits' : unum < base ^ suc rounds * base = omega (arith, pow-suc base (suc rounds)) in
    let high : unum / base < base ^ suc rounds =
      (div-lt_iff_lt-mul {k = base} {x = unum} {y = base ^ suc rounds} (omega arith)).1 fits' in
    let (cs, filled, same, chars, short) =
      fill_buffer-value rounds (unum / base) base two sixteen high in
    elim (Bool-cases (ltb unum base)) [
      | inl e ↦ last_digit (suc rounds) unum base two sixteen (ltb→lt unum base e)
      | inr e ↦
          let large : base ≤ unum = ge_of_ltb unum base e in
          rw (found, e, filled)
            (
              c ∷ cs,
              refl,
              rw (same, digit) (mod-add-div unum base),
              (char, chars),
              longer_IsShort base (suc rounds) unum c cs two large short,
            )
    ]

-- A number with more digits than there are places leads out of the buffer.
pub fill_buffer-fault :
    (rounds unum base : ℕ)
    → 2 ≤ base
    → base ≤ 16
    → base ^ rounds ≤ unum
    → fill_buffer rounds unum base ≡ fault
unfolding fill_buffer
fill_buffer-fault zero unum base two sixteen over = refl
fill_buffer-fault (suc rounds) unum base two sixteen over =
    let (c, found, digit, char) = hexchar unum base two sixteen in
    let over' : base ^ rounds * base ≤ unum = omega (arith, pow-suc base rounds) in
    let high : base ^ rounds ≤ unum / base =
      (le-div_iff_mul-le {k = base} {x = base ^ rounds} {y = unum} (omega arith)).1 over' in
    let positive : 1 ≤ base ^ rounds = one-le-pow rounds base (omega arith) in
    let e : ltb unum base ≡ false = ge→ltb unum base (
      omega
        (arith, (le-div_iff_mul-le {k = base} {x = 1} {y = unum} (omega arith)).0 (omega arith))) in
    rw (found, e, fill_buffer-fault rounds (unum / base) base two sixteen high) refl
