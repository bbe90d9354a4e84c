-- ===== src/Colors/Hue.antt =====
-- `hsv2rgbfast` gives fully saturated colours.
use ma_os.Base.{
  ℕ, zero, suc, ◌+◌, ◌*◌, ◌/◌, ◌%◌, ◌^◌, ◌<◌, ◌≡◌, refl, ◌∙◌, some, ok, arith, bit_or, ◌==◌,
  if◌then◌else◌,
}
use ma_os.Base.Bits.{bit_or-disjoint}
use ma_os.Float.{Floats, to_uint_lem}
use ma_os.Colors.{rgb, sector_colour, hsv2rgbfast}

abbrev pub red : ℕ → ℕ
red c = c / 2 ^ 16

abbrev pub green : ℕ → ℕ
green c = c / 2 ^ 8 % 2 ^ 8

abbrev pub blue : ℕ → ℕ
blue c = c % 2 ^ 8

pub rgb_lem :
    (r g b : ℕ)
    → r < 256
    → g < 256
    → b < 256
    → (red (rgb r g b) ≡ r) × (green (rgb r g b) ≡ g) × (blue (rgb r g b) ≡ b)
unfolding rgb
rgb_lem r g b hr hg hb =
    let upper : bit_or (r * 2 ^ 16) (g * 2 ^ 8) ≡ (r * 2 ^ 8 + g) * 2 ^ 8 =
      bit_or-disjoint 16 r (g * 2 ^ 8) (omega arith) ∙ omega arith in
    let all = bit_or-disjoint 8 (r * 2 ^ 8 + g) b hb in
    rw (upper, all) (omega arith, omega arith, omega arith)

-- The channel that is full, and the one that has `x`, at each of the six sectors.
abbrev pub Saturated : ℕ → ℕ → ℕ → Type 0
Saturated sector x c =
    (red c ≡ (
      if sector == 0
      then 255
      else if sector == 5
      then 255
      else if sector == 1
      then x
      else if sector == 4
      then x
      else 0))
    × (green c ≡ (
        if sector == 1
        then 255
        else if sector == 2
        then 255
        else if sector == 0
        then x
        else if sector == 3
        then x
        else 0))
    × (blue c ≡ (
        if sector == 3
        then 255
        else if sector == 4
        then 255
        else if sector == 2
        then x
        else if sector == 5
        then x
        else 0))

sector_colour-Saturated :
    (sector x : ℕ) → sector < 6 → x < 256 → Saturated sector x (sector_colour sector x)
unfolding sector_colour
sector_colour-Saturated zero x h hx = rgb_lem 255 x 0 (omega arith) hx (omega arith)
sector_colour-Saturated (suc zero) x h hx = rgb_lem x 255 0 hx (omega arith) (omega arith)
sector_colour-Saturated (suc (suc zero)) x h hx = rgb_lem 0 255 x (omega arith) (omega arith) hx
sector_colour-Saturated (suc (suc (suc zero))) x h hx =
    rgb_lem 0 x 255 (omega arith) hx (omega arith)
sector_colour-Saturated (suc (suc (suc (suc zero)))) x h hx =
    rgb_lem x 0 255 hx (omega arith) (omega arith)
sector_colour-Saturated (suc (suc (suc (suc (suc zero))))) x h hx =
    rgb_lem 255 0 x (omega arith) (omega arith) hx
sector_colour-Saturated (suc (suc (suc (suc (suc (suc n)))))) x h hx = absurd (omega arith)

-- `x * 255.0f` in `hsv2rgbfast`.
abbrev pub ramp : (fl : Floats) → fl.Float → fl.Float
ramp fl h =
    let one = fl.literal 1 0 in
    fl.mul (fl.sub one (fl.fabs (fl.sub (fl.fmod h (fl.literal 2 0)) one))) (fl.literal 255 0)

-- Where the hue truncates to a `u32` and the ramp at it to a byte, `hsv2rgbfast` returns a colour
-- with one channel full, one that has the ramp and one that is 0. Which of them is which follows
-- from the sector of the hue, and no channel runs over into another.
pub hsv2rgbfast-Saturated :
    (fl : Floats) (h : fl.Float) (n k : ℕ)
    → fl.truncate h ≡ some n
    → n < 2 ^ 32
    → fl.truncate (ramp fl h) ≡ some k
    → k < 256
    → (c : ℕ) × (hsv2rgbfast fl h ≡ ok c) × Saturated (n % 6) k c
unfolding hsv2rgbfast
hsv2rgbfast-Saturated fl h n k hue small byte low =
    let whole = to_uint_lem fl 32 h n hue small in
    let channel = to_uint_lem fl 8 (ramp fl h) k byte low in
    (
      sector_colour (n % 6) k,
      rw (whole, channel) refl,
      sector_colour-Saturated (n % 6) k (omega arith) low,
    )
