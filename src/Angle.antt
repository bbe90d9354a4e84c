-- ===== src/Angle.antt =====
-- libmath/math.cpp: `atan2`.
pub mod Quadrant
use Prim.Native.Nat.{bit_xor}
use ma_os.Base.{ℕ, bit_and, bit_or, not32, ◌>>>◌}
use ma_os.Float.{Floats}

abbrev pub sign_mask : ℕ
sign_mask = 0x80000000

-- The offset `q`, from the sign bits of `x` and `y`.
unfoldable pub quadrant : ℕ → ℕ → ℕ
quadrant ux_s uy_s = bit_or (bit_and (not32 ux_s) uy_s >>> 29) (ux_s >>> 30)

-- The arctangent in the first quadrant.
unfoldable pub atan_first : (fl : Floats) → fl.Float → fl.Float → fl.Float
atan_first fl y x =
    let bxy_a = fl.fabs (fl.mul (fl.mul (fl.literal 596227 6) x) y) in
    let num = fl.add bxy_a (fl.mul y y) in fl.div num (fl.add (fl.add (fl.mul x x) bxy_a) num)

unfoldable pub atan2 : (fl : Floats) → fl.Float → fl.Float → fl.Float
atan2 fl y x =
    let ux_s = bit_and sign_mask (fl.as_int x) in
    let uy_s = bit_and sign_mask (fl.as_int y) in
    let q = fl.of_uint (quadrant ux_s uy_s) in
    let uatan_2q = bit_or (bit_xor ux_s uy_s) (fl.as_int (atan_first fl y x)) in
    fl.mul (fl.add q (fl.as_float uatan_2q)) (fl.literal 1570796326794897 15)
