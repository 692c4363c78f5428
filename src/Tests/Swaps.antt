-- ===== src/Tests/Swaps.antt =====
-- Swaps and quotes of src/dex/uniswap-v3 at concrete inputs.
use verified_paraswap.Prelude.{
  ◌-◌, ◌^◌, ◌≡◌, refl, true, false, some, if◌then◌else◌, List, [], ◌∷◌, map, arith,
}
use verified_paraswap.Prelude.Int.{ℤ, pos, ◌+ℤ◌, ◌-ℤ◌, ◌*ℤ◌, ◌/ℤ◌}
use verified_paraswap.Prelude.Result.{ok, err, price_limit}
use verified_paraswap.Prelude.Words.{
  divided, remainder, shr, shl, negate, as_uint_n, as_int_n, residue, ◌%ℤ◌,
}
use verified_paraswap.Verified.Prices.{sell}
use verified_paraswap.UniswapV3.Types.{PoolState}
use verified_paraswap.UniswapV3.SwapStep.{SwapStep, compute_swap_step}
use verified_paraswap.UniswapV3.Bits.{most_significant_bit, least_significant_bit}
use verified_paraswap.UniswapV3.TickBitmap.{
  bit, word_at, is_word_pos_out, next_initialized_tick_within_one_word,
}
use verified_paraswap.UniswapV3.FullMath.{mul_div, mul_div_rounding_up, div_rounding_up, add_delta}
use verified_paraswap.UniswapV3.SqrtPrice.{
  get_amount0_delta, get_amount1_delta, get_next_sqrt_price_from_input,
  get_next_sqrt_price_from_amount0_rounding_up,
}
use verified_paraswap.UniswapV3.TickMath.{get_sqrt_ratio_at_tick, get_tick_at_sqrt_ratio}
use verified_paraswap.UniswapV3.Oracle.{transform, observe_single_now}
use verified_paraswap.UniswapV3.Ticks.{cross}
use verified_paraswap.UniswapV3.Cycles.{price_computation_cycles}
use verified_paraswap.UniswapV3.SwapStep.ExactIn.{compute_swap_step-IsStep}
use verified_paraswap.UniswapV3.SwapStep.Parts.{IsStep}
use verified_paraswap.UniswapV3.Cycles.Rounds.{Finishes}
use verified_paraswap.UniswapV3.Quote.{query_outputs}
use verified_paraswap.UniswapV3.Quote.Counts.{Quoted, query_outputs-Quoted}
use verified_paraswap.UniswapV3.Quote.Limit.{any_nonzero, query_outputs_limit}
use verified_paraswap.Tests.V3Pool.{a_pool}

-- A swap of the first token that does not reach the target.
compute_swap_step-IsStep_example :
    (step : SwapStep) × (compute_swap_step
        (pos (2 ^ 96))
        (pos (2 ^ 96 - 2 ^ 80))
        (pos 1000000000)
        (pos 5000)
        (pos 3000)
      ≡ ok step)
    × IsStep (2 ^ 96) (2 ^ 96 - 2 ^ 80) 5000 step
compute_swap_step-IsStep_example =
    compute_swap_step-IsStep (2 ^ 96) (2 ^ 96 - 2 ^ 80) 1000000000 5000 3000 (omega arith)
      (omega arith) (omega arith) (omega arith) (omega arith) (omega arith) (omega arith)

abbrev amounts : List ℤ
amounts = pos 0 ∷ pos 1000 ∷ pos 2000 ∷ []

query_outputs-Quoted_example :
    Finishes (Quoted false amounts) (query_outputs a_pool amounts true sell)
query_outputs-Quoted_example = query_outputs-Quoted a_pool amounts true sell

abbrev drained : PoolState
drained =
    let slot = a_pool.slot0 in
    record a_pool { slot0 = record slot { sqrt_price_x96 = pos 4295128740 } }

query_outputs_limit_example :
    query_outputs drained amounts true sell
    ≡ (if any_nonzero amounts then err price_limit else ok (some (map (λ a. (pos 0, 0)) amounts)))
query_outputs_limit_example = query_outputs_limit drained amounts true sell (omega arith)

-- Two quotes, and one for more than the known ticks hold.
quotes_run :
    query_outputs a_pool (pos 0 ∷ pos 1000 ∷ pos 200000 ∷ pos 90000000 ∷ []) true sell
    ≡ ok (some ((pos 0, 0) ∷ (pos 996, 2) ∷ (pos 199360, 2) ∷ (pos 0, 0) ∷ []))
unfolding query_outputs price_computation_cycles compute_swap_step get_sqrt_ratio_at_tick
    get_tick_at_sqrt_ratio next_initialized_tick_within_one_word most_significant_bit
    least_significant_bit bit word_at is_word_pos_out mul_div mul_div_rounding_up div_rounding_up
    add_delta cross transform observe_single_now get_amount0_delta get_amount1_delta
    get_next_sqrt_price_from_input get_next_sqrt_price_from_amount0_rounding_up ◌+ℤ◌ ◌-ℤ◌ ◌*ℤ◌ ◌/ℤ◌
    ◌%ℤ◌ shl shr residue as_uint_n as_int_n negate divided remainder
quotes_run = refl
