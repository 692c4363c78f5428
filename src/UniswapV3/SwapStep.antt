-- ===== src/UniswapV3/SwapStep.antt =====
-- src/dex/uniswap-v3/contract-math/SwapMath.ts.
pub mod Parts
pub mod ExactIn
use verified_paraswap.Prelude.{
  ℕ, ◌+◌, ◌^◌, ◌≡◌, refl, Bool, true, false, not, ◌&&◌, ltb, leb, ◌==◌, if◌then◌else◌,
}
use verified_paraswap.Prelude.Int.{ℤ, pos, pos_part, neg_part, ◌+ℤ◌, ◌-ℤ◌, ltb_ℤ, leb_ℤ, ◌==ℤ◌}
use verified_paraswap.Prelude.Result.{Result, ok, ◌>>=◌, ◌>>◌}
use verified_paraswap.Prelude.Words.{as_uint_n, negate}
use verified_paraswap.UniswapV3.FullMath.{mul_div, mul_div_rounding_up}
use verified_paraswap.UniswapV3.SqrtPrice.{
  get_amount0_delta, get_amount1_delta, get_next_sqrt_price_from_input,
  get_next_sqrt_price_from_output,
}

pub record SwapStep : Type 0 where
  pub sqrt_ratio_next_x96 : ℤ
  pub amount_in : ℤ
  pub amount_out : ℤ
  pub fee_amount : ℤ

-- BI_POWS[6].
abbrev pub million : ℤ
million = pos 1000000

-- The amounts between two prices: what a swap takes, and what it gives.
pub amount_in_between : Bool → ℤ → ℤ → ℤ → Result ℤ
amount_in_between zero_for_one current next liquidity =
    if zero_for_one
    then get_amount0_delta next current liquidity true
    else get_amount1_delta current next liquidity true

pub amount_out_between : Bool → ℤ → ℤ → ℤ → Result ℤ
amount_out_between zero_for_one current next liquidity =
    if zero_for_one
    then get_amount1_delta next current liquidity false
    else get_amount0_delta current next liquidity false

-- The step for an exact input of `remaining`.
pub step_exact_in : Bool → ℤ → ℤ → ℤ → ℤ → ℤ → Result SwapStep
unfolding amount_in_between amount_out_between
step_exact_in zero_for_one current target liquidity remaining fee_pips = do
  less_fee ← mul_div (as_uint_n 256 remaining) (million -ℤ fee_pips) million
  amount_to_target ← amount_in_between zero_for_one current target liquidity
  next ←
      (if leb_ℤ amount_to_target less_fee
        then ok target
        else get_next_sqrt_price_from_input current liquidity less_fee zero_for_one)
  amount_in ←
      (if target ==ℤ next
        then ok amount_to_target
        else amount_in_between zero_for_one current next liquidity)
  amount_out ← amount_out_between zero_for_one current next liquidity
  fee_amount ←
      (if not (next ==ℤ target)
        then ok (as_uint_n 256 remaining -ℤ amount_in)
        else mul_div_rounding_up amount_in fee_pips (million -ℤ fee_pips))
  ok record {
    sqrt_ratio_next_x96 = next;
    amount_in = amount_in;
    amount_out = amount_out;
    fee_amount = fee_amount;
  }

-- The step for an exact output of `-remaining`, which caps the output.
pub step_exact_out : Bool → ℤ → ℤ → ℤ → ℤ → ℤ → Result SwapStep
unfolding amount_in_between amount_out_between
step_exact_out zero_for_one current target liquidity remaining fee_pips = do
  let wanted = as_uint_n 256 (negate remaining)
  amount_to_target ← amount_out_between zero_for_one current target liquidity
  next ←
      (if leb_ℤ amount_to_target wanted
        then ok target
        else get_next_sqrt_price_from_output current liquidity wanted zero_for_one)
  amount_in ← amount_in_between zero_for_one current next liquidity
  amount_out ←
      (if target ==ℤ next
        then ok amount_to_target
        else amount_out_between zero_for_one current next liquidity)
  let capped = (if ltb_ℤ wanted amount_out then wanted else amount_out)
  fee_amount ← mul_div_rounding_up amount_in fee_pips (million -ℤ fee_pips)
  ok record {
    sqrt_ratio_next_x96 = next;
    amount_in = amount_in;
    amount_out = capped;
    fee_amount = fee_amount;
  }

unfoldable pub compute_swap_step : ℤ → ℤ → ℤ → ℤ → ℤ → Result SwapStep
unfolding step_exact_in step_exact_out
compute_swap_step current target liquidity remaining fee_pips =
    let zero_for_one = leb_ℤ target current in
    if leb_ℤ (pos 0) remaining
    then step_exact_in zero_for_one current target liquidity remaining fee_pips
    else step_exact_out zero_for_one current target liquidity remaining fee_pips
