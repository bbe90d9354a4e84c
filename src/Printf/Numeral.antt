-- ===== src/Printf/Numeral.antt =====
-- What `print_int` prints, in every base and with every width.
use ma_os.Base.{
  ℕ, zero, suc, ◌+◌, ◌-◌, ◌^◌, ◌≤◌, ◌<◌, ◌≡◌, refl, ◌⊎◌, inl, inr, Bool, true, false, List, [], ◌∷◌,
  ◌++◌, Outcome, ok, fault, arith, length, length-append, leb, ◌==◌, ==_iff, ◌&&◌, if◌then◌else◌,
  Bool-cases, dec_lt,
}
use ma_os.Printf.{padding, backwards, print_unsigned, print_int}
use ma_os.Printf.Digits.{value, AreDigits, IsShort, fill_buffer-value, fill_buffer-fault}

-- The digits of `unum`, the greatest first, behind as much padding as the width asks for.
pub record IsNumeral (base width pad_char unum : ℕ) (bytes : List ℕ) : Type 0 where
  pub digits : List ℕ
  pub same : value base digits ≡ unum
  pub characters : AreDigits base digits
  pub short : IsShort base 15 unum digits
  pub shown : bytes ≡ padding (width - length digits) pad_char ++ backwards digits []

pub print_unsigned-IsNumeral :
    (unum base width pad_char : ℕ)
    → 2 ≤ base
    → base ≤ 16
    → unum < base ^ 15
    → (bytes : List ℕ) × (print_unsigned unum base width pad_char ≡ ok bytes)
      × IsNumeral base width pad_char unum bytes
unfolding print_unsigned
print_unsigned-IsNumeral unum base width pad_char two sixteen fits =
    let (digits, filled, same, characters, short) =
      fill_buffer-value 14 unum base two sixteen fits in
    (
      padding (width - length digits) pad_char ++ backwards digits [],
      rw filled refl,
      record { digits = digits; same = same; characters = characters; short = short; shown = refl },
    )

-- The number without its sign.
abbrev pub size_of : Bool → ℕ → ℕ
size_of sig num = if sig && leb (2 ^ 31) num then 2 ^ 32 - num else num

-- A number that is not below zero, one that is, the least `int`, which has no negation, and one
-- with more digits than the buffer has places.
abbrev pub PrintsInt : ℕ → ℕ → Bool → ℕ → ℕ → Outcome (List ℕ) → Type 0
PrintsInt num base sig width pad_char r =
    (((sig ≡ false) ⊎ (num < 2 ^ 31))
      × (bytes : List ℕ) × (r ≡ ok bytes)
      × IsNumeral base width pad_char num bytes)
    ⊎ ((sig ≡ true)
        × (2 ^ 31 < num)
        × (bytes : List ℕ) × (r ≡ ok (b'-' ∷ bytes))
        × IsNumeral base (width - 1) pad_char (2 ^ 32 - num) bytes)
    ⊎ ((sig ≡ true) × (num ≡ 2 ^ 31) × (r ≡ fault))
    ⊎ ((base ^ 15 ≤ size_of sig num) × (r ≡ fault))

print_unsigned-fault :
    (unum base width pad_char : ℕ)
    → 2 ≤ base
    → base ≤ 16
    → base ^ 15 ≤ unum
    → print_unsigned unum base width pad_char ≡ fault
unfolding print_unsigned
print_unsigned-fault unum base width pad_char two sixteen over =
    rw (fill_buffer-fault 15 unum base two sixteen over) refl

print_int-fault :
    (num base width pad_char : ℕ) (sig : Bool)
    → 2 ≤ base
    → base ≤ 16
    → base ^ 15 ≤ size_of sig num
    → print_int num base sig width pad_char ≡ fault
unfolding print_int
print_int-fault num base width pad_char sig two sixteen over =
    elim (Bool-cases (sig && leb (2 ^ 31) num)) [
      | inr e ↦ rw e (print_unsigned-fault num base width pad_char two sixteen (rw e at over))
      | inl e ↦ elim (Bool-cases (num == 2 ^ 31)) [
        | inl least ↦ rw (e, least) refl
        | inr other ↦
            let below =
              print_unsigned-fault (2 ^ 32 - num) base (width - 1) pad_char two sixteen
                (rw e at over) in
            rw (e, other, below) refl
      ]
    ]

print_int-fits :
    (num base width pad_char : ℕ) (sig : Bool)
    → 2 ≤ base
    → base ≤ 16
    → size_of sig num < base ^ 15
    → PrintsInt num base sig width pad_char (print_int num base sig width pad_char)
unfolding print_int
print_int-fits num base width pad_char false two sixteen fits =
    let (bytes, done, shown) = print_unsigned-IsNumeral num base width pad_char two sixteen fits in
    inl (inl refl, bytes, done, shown)
print_int-fits num base width pad_char true two sixteen fits =
    elim (Bool-cases (leb (2 ^ 31) num)) [
      | inr e ↦
          let small : num < 2 ^ 31 = ground arith in
          let (bytes, done, shown) =
            print_unsigned-IsNumeral num base width pad_char two sixteen (rw e at fits) in
          inl (inr small, bytes, rw e done, shown)
      | inl e ↦ elim (Bool-cases (num == 2 ^ 31)) [
        | inl least ↦ inr (inr (inl (refl, (==_iff num (2 ^ 31)).0 least, rw (e, least) refl)))
        | inr other ↦
            let below : 2 ^ 31 < num = ground arith in
            let (bytes, done, shown) =
              print_unsigned-IsNumeral (2 ^ 32 - num) base (width - 1) pad_char two sixteen
                (rw e at fits) in
            inr (inl (refl, below, bytes, rw (e, other, done) refl, shown))
      ]
    ]

-- In a base from 2 to 16, `print_int` prints the number in digits of the base, which are the
-- characters `0` to `9` and `A` to `F`, as few as it takes, the greatest first, behind the padding; the sign of a negative number stands in front of the padding and takes one
-- place of the width. The least `int`, and a number with more than 15 digits, are undefined
-- behaviour.
pub print_int-PrintsInt :
    (num base width pad_char : ℕ) (sig : Bool)
    → 2 ≤ base
    → base ≤ 16
    → PrintsInt num base sig width pad_char (print_int num base sig width pad_char)
print_int-PrintsInt num base width pad_char sig two sixteen =
    elim (dec_lt (size_of sig num) (base ^ 15)) [
      | yes fits ↦ print_int-fits num base width pad_char sig two sixteen fits
      | no over ↦ inr (
          inr (
            inr
              (omega arith, print_int-fault num base width pad_char sig two sixteen (omega arith))))
    ]

pub print_int-positive :
    (num base width pad_char : ℕ) (sig : Bool)
    → 2 ≤ base
    → base ≤ 16
    → num < 2 ^ 31
    → num < base ^ 15
    → (bytes : List ℕ) × (print_int num base sig width pad_char ≡ ok bytes)
      × IsNumeral base width pad_char num bytes
unfolding print_int
print_int-positive num base width pad_char sig two sixteen small fits =
    let unsigned : (sig && leb (2 ^ 31) num) ≡ false = ground arith in
    rw unsigned (print_unsigned-IsNumeral num base width pad_char two sixteen fits)

length-padding : (count pad_char : ℕ) → length (padding count pad_char) ≡ count
unfolding padding
length-padding zero pad_char = refl
length-padding (suc count) pad_char = omega (arith, length-padding count pad_char)

length-backwards : (cs later : List ℕ) → length (backwards cs later) ≡ length cs + length later
unfolding backwards
length-backwards [] later = omega arith
length-backwards (c ∷ cs) later = omega (arith, length-backwards cs (c ∷ later))

-- A width up to 15 leaves it at 15 characters.
pub IsNumeral-short :
    (base width pad_char unum : ℕ) (bytes : List ℕ)
    → width ≤ 15
    → IsNumeral base width pad_char unum bytes
    → length bytes ≤ 15
IsNumeral-short base width pad_char unum bytes narrow n =
    let (_, few, _) = n.short in
    rw n.shown (
      omega (
        arith,
        few,
        length-append (padding (width - length n.digits) pad_char) (backwards n.digits []),
        length-padding (width - length n.digits) pad_char,
        length-backwards n.digits [],
      ))
