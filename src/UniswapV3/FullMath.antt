-- ===== src/UniswapV3/FullMath.antt =====
-- src/dex/uniswap-v3/contract-math: FullMath.ts, UnsafeMath.ts and LiquidityMath.ts.
pub mod Rounded
use verified_paraswap.Prelude.{ℕ, ◌+◌, ◌-◌, ◌*◌, ◌^◌, ◌≡◌, refl, Bool, ltb, leb, if◌then◌else◌}
use verified_paraswap.Prelude.Int.{ℤ, pos, pos_part, neg_part, ◌+ℤ◌, ◌-ℤ◌, ◌*ℤ◌, ltb_ℤ, leb_ℤ}
use verified_paraswap.Prelude.Result.{
  Result, ok, unnamed_check, liquidity_sub, liquidity_add, require, ◌>>=◌, ◌>>◌,
}
use verified_paraswap.Prelude.Words.{divided, as_uint_n, negate}

abbrev pub max_uint256 : ℤ
max_uint256 = pos (2 ^ 256 - 1)

unfoldable pub mul_div : ℤ → ℤ → ℤ → Result ℤ
mul_div a b denominator = do
  result ← divided (a *ℤ b) denominator
  require (leb_ℤ result max_uint256) unnamed_check
  ok result

unfoldable pub mul_div_rounding_up : ℤ → ℤ → ℤ → Result ℤ
mul_div_rounding_up a b denominator = do
  result ← divided (a *ℤ b +ℤ denominator -ℤ pos 1) denominator
  require (leb_ℤ result max_uint256) unnamed_check
  ok result

unfoldable pub div_rounding_up : ℤ → ℤ → Result ℤ
div_rounding_up x y = divided (x +ℤ y -ℤ pos 1) y

unfoldable pub add_delta : ℤ → ℤ → Result ℤ
add_delta x y =
    if ltb_ℤ y (pos 0)
    then (let z = x -ℤ as_uint_n 128 (negate y) in require (ltb_ℤ z x) liquidity_sub >> ok z)
    else let z = x +ℤ as_uint_n 128 y in require (leb_ℤ x z) liquidity_add >> ok z
