-- ===== src/UniswapV3/SqrtPrice.antt =====
-- src/dex/uniswap-v3/contract-math/SqrtPriceMath.ts.
pub mod Amounts
pub mod Inputs
use verified_paraswap.Prelude.{
  ℕ, ◌+◌, ◌-◌, ◌*◌, ◌^◌, ◌≡◌, refl, Bool, true, false, ◌&&◌, ltb, leb, ◌==◌, if◌then◌else◌,
}
use verified_paraswap.Prelude.Int.{
  ℤ, pos, pos_part, neg_part, ◌+ℤ◌, ◌-ℤ◌, ◌*ℤ◌, ◌/ℤ◌, ltb_ℤ, leb_ℤ, ◌==ℤ◌,
}
use verified_paraswap.Prelude.Result.{Result, ok, unnamed_check, require, ◌>>=◌, ◌>>◌}
use verified_paraswap.Prelude.Words.{divided, as_uint_n, as_int_n, negate, shl}
use verified_paraswap.UniswapV3.FullMath.{mul_div, mul_div_rounding_up, div_rounding_up}

-- FixedPoint96.
abbrev pub resolution : ℕ
resolution = 96

abbrev pub q96 : ℤ
q96 = pos (2 ^ 96)

abbrev pub max_uint160 : ℤ
max_uint160 = pos (2 ^ 160 - 1)

-- `product / amount === sqrtPX96`; the amount is not 0 there.
pub product_exact : ℤ → ℤ → Bool
product_exact amount sqrt_p = amount *ℤ sqrt_p /ℤ amount ==ℤ sqrt_p

pub next_from_amount0_added : ℤ → ℤ → ℤ → Result ℤ
unfolding product_exact
next_from_amount0_added sqrt_p numerator1 amount =
    let product = amount *ℤ sqrt_p in
    if product_exact amount sqrt_p && leb_ℤ numerator1 (numerator1 +ℤ product)
    then (do
      next ← mul_div_rounding_up numerator1 sqrt_p (numerator1 +ℤ product)
      ok (as_uint_n 160 next))
    else do
      quotient ← divided numerator1 sqrt_p
      next ← div_rounding_up numerator1 (quotient +ℤ amount)
      ok (as_uint_n 160 next)

pub next_from_amount0_removed : ℤ → ℤ → ℤ → Result ℤ
unfolding product_exact
next_from_amount0_removed sqrt_p numerator1 amount = do
  let product = amount *ℤ sqrt_p
  require (product_exact amount sqrt_p && ltb_ℤ product numerator1) unnamed_check
  next ← mul_div_rounding_up numerator1 sqrt_p (numerator1 -ℤ product)
  ok (as_uint_n 160 next)

unfoldable pub get_next_sqrt_price_from_amount0_rounding_up : ℤ → ℤ → ℤ → Bool → Result ℤ
unfolding next_from_amount0_added next_from_amount0_removed
get_next_sqrt_price_from_amount0_rounding_up sqrt_p liquidity amount add =
    let numerator1 = shl (as_uint_n 256 liquidity) resolution in
    if amount ==ℤ pos 0
    then ok sqrt_p
    else if add
    then next_from_amount0_added sqrt_p numerator1 amount
    else next_from_amount0_removed sqrt_p numerator1 amount

pub quotient_rounding_down : ℤ → ℤ → Result ℤ
quotient_rounding_down amount liquidity =
    if leb_ℤ amount max_uint160
    then divided (shl amount resolution) liquidity
    else mul_div amount q96 liquidity

pub quotient_rounding_up : ℤ → ℤ → Result ℤ
quotient_rounding_up amount liquidity =
    if leb_ℤ amount max_uint160
    then div_rounding_up (shl amount resolution) liquidity
    else mul_div_rounding_up amount q96 liquidity

pub next_from_amount1_added : ℤ → ℤ → ℤ → Result ℤ
unfolding quotient_rounding_down
next_from_amount1_added sqrt_p liquidity amount = do
  quotient ← quotient_rounding_down amount liquidity
  ok (as_uint_n 160 (as_uint_n 256 sqrt_p +ℤ quotient))

pub next_from_amount1_removed : ℤ → ℤ → ℤ → Result ℤ
unfolding quotient_rounding_up
next_from_amount1_removed sqrt_p liquidity amount = do
  quotient ← quotient_rounding_up amount liquidity
  require (ltb_ℤ quotient sqrt_p) unnamed_check
  ok (as_uint_n 160 (sqrt_p -ℤ quotient))

unfoldable pub get_next_sqrt_price_from_amount1_rounding_down : ℤ → ℤ → ℤ → Bool → Result ℤ
unfolding next_from_amount1_added next_from_amount1_removed
get_next_sqrt_price_from_amount1_rounding_down sqrt_p liquidity amount add =
    if add
    then next_from_amount1_added sqrt_p liquidity amount
    else next_from_amount1_removed sqrt_p liquidity amount

unfoldable pub get_next_sqrt_price_from_input : ℤ → ℤ → ℤ → Bool → Result ℤ
unfolding get_next_sqrt_price_from_amount0_rounding_up
    get_next_sqrt_price_from_amount1_rounding_down
get_next_sqrt_price_from_input sqrt_p liquidity amount_in zero_for_one = do
  require (ltb_ℤ (pos 0) sqrt_p) unnamed_check
  require (ltb_ℤ (pos 0) liquidity) unnamed_check
  if zero_for_one
      then get_next_sqrt_price_from_amount0_rounding_up sqrt_p liquidity amount_in true
      else get_next_sqrt_price_from_amount1_rounding_down sqrt_p liquidity amount_in true

unfoldable pub get_next_sqrt_price_from_output : ℤ → ℤ → ℤ → Bool → Result ℤ
unfolding get_next_sqrt_price_from_amount0_rounding_up
    get_next_sqrt_price_from_amount1_rounding_down
get_next_sqrt_price_from_output sqrt_p liquidity amount_out zero_for_one = do
  require (ltb_ℤ (pos 0) sqrt_p) unnamed_check
  require (ltb_ℤ (pos 0) liquidity) unnamed_check
  if zero_for_one
      then get_next_sqrt_price_from_amount1_rounding_down sqrt_p liquidity amount_out false
      else get_next_sqrt_price_from_amount0_rounding_up sqrt_p liquidity amount_out false

-- The two prices in order.
pub ordered : ℤ → ℤ → ℤ × ℤ
ordered a b = if ltb_ℤ b a then (b, a) else (a, b)

pub amount0_between : ℤ → ℤ → ℤ → Bool → Result ℤ
amount0_between lower upper liquidity round_up = do
  let numerator1 = shl (as_uint_n 256 liquidity) resolution
  let numerator2 = upper -ℤ lower
  require (ltb_ℤ (pos 0) lower) unnamed_check
  if round_up
      then (do
        scaled ← mul_div_rounding_up numerator1 numerator2 upper
        div_rounding_up scaled lower)
      else (do scaled ← mul_div numerator1 numerator2 upper; divided scaled lower)

unfoldable pub get_amount0_delta : ℤ → ℤ → ℤ → Bool → Result ℤ
unfolding ordered amount0_between
get_amount0_delta ratio_a ratio_b liquidity round_up =
    let (lower, upper) = ordered ratio_a ratio_b in amount0_between lower upper liquidity round_up

unfoldable pub get_amount1_delta : ℤ → ℤ → ℤ → Bool → Result ℤ
unfolding ordered
get_amount1_delta ratio_a ratio_b liquidity round_up =
    let (lower, upper) = ordered ratio_a ratio_b in
    if round_up
    then mul_div_rounding_up liquidity (upper -ℤ lower) q96
    else mul_div liquidity (upper -ℤ lower) q96

-- `_getAmount0DeltaO` and `_getAmount1DeltaO`: the amount for a change of liquidity, signed.
pub signed_delta : (ℤ → Bool → Result ℤ) → ℤ → Result ℤ
signed_delta delta liquidity =
    if ltb_ℤ liquidity (pos 0)
    then (do
      amount ← delta (as_uint_n 128 (negate liquidity)) false
      ok (negate (as_int_n 256 amount)))
    else do amount ← delta (as_uint_n 128 liquidity) true; ok (as_int_n 256 amount)

unfoldable pub get_amount0_delta_o : ℤ → ℤ → ℤ → Result ℤ
unfolding signed_delta get_amount0_delta
get_amount0_delta_o ratio_a ratio_b liquidity =
    signed_delta (get_amount0_delta ratio_a ratio_b) liquidity

unfoldable pub get_amount1_delta_o : ℤ → ℤ → ℤ → Result ℤ
unfolding signed_delta get_amount1_delta
get_amount1_delta_o ratio_a ratio_b liquidity =
    signed_delta (get_amount1_delta ratio_a ratio_b) liquidity
