-- ===== src/Colors.antt =====
-- kernel/gfx/colors.cpp: from hues to colours of three bytes.
pub mod Hue
use ma_os.Base.{ℕ, ◌*◌, ◌%◌, ◌+◌, bit_or, Outcome, ok, ◌>>=◌, ◌==◌, if◌then◌else◌, u32, ◌<<<◌}
use ma_os.Float.{Floats, to_uint}

-- `(r << 16) | (g << 8) | b`.
unfoldable pub rgb : ℕ → ℕ → ℕ → ℕ
rgb r g b = bit_or (bit_or (r <<< 16) (g <<< 8)) b

-- The `switch` of `hsv2rgbfast`, where `x` is the channel that is neither 0 nor 255.
unfoldable pub sector_colour : ℕ → ℕ → ℕ
sector_colour sector x =
    if sector == 0
    then rgb 255 x 0
    else if sector == 1
    then rgb x 255 0
    else if sector == 2
    then rgb 0 255 x
    else if sector == 3
    then rgb 0 x 255
    else if sector == 4
    then rgb x 0 255
    else rgb 255 0 x

module _ (fl : Floats) where
  open fl use {Float, literal, add, sub, mul, div, less, fabs, fmod}

  unfoldable pub hsv2rgbfast : Float → Outcome ℕ
  hsv2rgbfast h =
      let one = literal 1 0 in
      let x = sub one (fabs (sub (fmod h (literal 2 0)) one)) in
      do
        sector ← to_uint fl 32 h
        channel ← to_uint fl 8 (mul x (literal 255 0))
        ok (sector_colour (sector % 6) channel)

  -- One channel of `hsv2rgb`: `(u8)((c + m) * 255.0f)`.
  unfoldable pub channel : Float → Float → Outcome ℕ
  channel c m = to_uint fl 8 (mul (add c m) (literal 255 0))

  -- The `if` of `hsv2rgb`: `r_`, `g_` and `b_`.
  unfoldable pub shares : Float → Float → Float → Float × Float × Float
  shares h c x =
      let nothing = literal 0 0 in
      if less h (literal 60 0)
      then (c, x, nothing)
      else if less h (literal 120 0)
      then (x, c, nothing)
      else if less h (literal 180 0)
      then (nothing, c, x)
      else if less h (literal 240 0)
      then (nothing, x, c)
      else if less h (literal 300 0)
      then (x, nothing, c)
      else (c, nothing, x)

  unfoldable pub hsv2rgb : Float → Float → Float → Outcome ℕ
  hsv2rgb h s v =
      let one = literal 1 0 in
      let c = mul v s in
      let x = mul c (sub one (fabs (sub (fmod (div h (literal 60 0)) (literal 2 0)) one))) in
      let m = sub v c in
      let (r_, g_, b_) = shares h c x in
      do r ← channel r_ m; g ← channel g_ m; b ← channel b_ m; ok (rgb r g b)
