-- ===== src/UniswapV3/Quote.antt =====
-- `queryOutputs` of src/dex/uniswap-v3/contract-math/uniswap-v3-math.ts: the outputs for a list of
-- amounts, each computed from where the one before it stopped.
pub mod Counts
pub mod Limit
use verified_paraswap.Prelude.{
  ℕ, zero, suc, ◌+◌, ◌-◌, ◌^◌, ◌%◌, ◌≡◌, refl, Bool, true, false, not, ◌&&◌, ◌||◌, Option, none,
  some, List, [], ◌∷◌, ltb, leb, ◌==◌, if◌then◌else◌,
}
use verified_paraswap.Prelude.Int.{
  ℤ, pos, negsuc, pos_part, neg_part, ◌+ℤ◌, ◌-ℤ◌, ltb_ℤ, leb_ℤ, ◌==ℤ◌,
}
use verified_paraswap.Prelude.Result.{Result, ok, err, price_limit, require, ◌>>=◌, ◌>>◌}
use verified_paraswap.Prelude.Words.{negate, as_int_n, as_uint_n, shr, ◌%ℤ◌}
use verified_paraswap.Verified.Prices.{SwapSide, sell, buy}
use verified_paraswap.UniswapV3.Types.{PoolState}
use verified_paraswap.UniswapV3.TickMath.{min_sqrt_ratio, max_sqrt_ratio}
use verified_paraswap.UniswapV3.Positions.{current_timestamp}
use verified_paraswap.UniswapV3.Crossing.{PriceComputationState, PriceComputationCache, Ticks}
use verified_paraswap.UniswapV3.Cycles.{Loop, price_computation_cycles}

-- What one amount leaves for the next.
pub record Progress : Type 0 where
  pub state : PriceComputationState
  pub cache : PriceComputationCache
  pub ticks : Ticks
  pub is_out_of_range : Bool
  pub previous_amount : ℤ

pub sqrt_price_limit : Bool → ℤ
sqrt_price_limit zero_for_one =
    if zero_for_one then pos (min_sqrt_ratio + 1) else pos (max_sqrt_ratio - 1)

-- The check that throws 'SPL'.
pub price_inside : PoolState → Bool → Bool
unfolding sqrt_price_limit
price_inside pool zero_for_one =
    let limit = sqrt_price_limit zero_for_one in
    let price = pool.slot0.sqrt_price_x96 in
    if zero_for_one
    then ltb_ℤ limit price && ltb_ℤ (pos min_sqrt_ratio) limit
    else ltb_ℤ price limit && ltb_ℤ limit (pos max_sqrt_ratio)

pub specified : SwapSide → ℤ → ℤ
specified sell amount = as_int_n 256 amount
specified buy amount = negate (as_int_n 256 amount)

-- The amount that is left to compute, after what the amount before it has left.
pub with_amount : Progress → ℤ → PriceComputationState
with_amount progress amount_specified =
    let state = progress.state in
    record state {
      amount_specified_remaining =
          if state.is_first_cycle_state
          then amount_specified
          else amount_specified -ℤ (progress.previous_amount -ℤ state.amount_specified_remaining);
      is_first_cycle_state = false;
    }

-- The output, out of the amounts of the two tokens.
pub output_of : SwapSide → Bool → Bool → ℤ → PriceComputationState → ℤ
output_of side zero_for_one exact_input amount_specified state =
    let used = amount_specified -ℤ state.amount_specified_remaining in
    let straight = if zero_for_one then exact_input else not exact_input in
    let amount0 = if straight then used else state.amount_calculated in
    let amount1 = if straight then state.amount_calculated else used in
    elim side [
      | sell ↦ as_uint_n 256 (negate (if zero_for_one then amount1 else amount0))
      | buy ↦ as_uint_n 256 (if zero_for_one then amount0 else amount1)
    ]

-- What the cycles of one amount give.
pub take_result : SwapSide → Bool → Bool → ℤ → Progress → Loop → Progress × ℤ × ℕ
unfolding output_of
take_result side zero_for_one exact_input amount_specified progress lp =
    let final = lp.state in
    if final.amount_specified_remaining ==ℤ pos 0 && final.amount_calculated ==ℤ pos 0
    then (
      record progress { state = final; cache = lp.cache; ticks = lp.ticks; is_out_of_range = true },
      pos 0,
      0,
    )
    else (
      record progress {
        state = lp.latest_state;
        cache = lp.latest_cache;
        ticks = lp.ticks;
        previous_amount = amount_specified;
      },
      output_of side zero_for_one exact_input amount_specified final,
      lp.latest_cache.tick_count,
    )

-- One amount that is not 0. `none` means that the fuel ran out.
pub quote_nonzero :
    ℕ → PoolState → Bool → SwapSide → Progress → ℤ → Result (Option (Progress × ℤ × ℕ))
unfolding price_inside specified with_amount take_result sqrt_price_limit
quote_nonzero fuel pool zero_for_one side progress amount = do
  let amount_specified = specified side amount
  let state = with_amount progress amount_specified
  let exact_input = ltb_ℤ (pos 0) amount_specified
  let waiting : Progress = record progress { state = state }
  require (price_inside pool zero_for_one) price_limit
  if progress.is_out_of_range then ok (some (waiting, pos 0, 0)) else do
    ended ←
        price_computation_cycles fuel pool progress.ticks pool.slot0 state progress.cache
          (sqrt_price_limit zero_for_one) zero_for_one exact_input
    elim ended [
      | none ↦ ok none
      | some lp ↦ ok (some (take_result side zero_for_one exact_input amount_specified waiting lp))
    ]

-- One amount: its output and its tick count.
pub quote_amount :
    ℕ → PoolState → Bool → SwapSide → Progress → ℤ → Result (Option (Progress × ℤ × ℕ))
unfolding quote_nonzero
quote_amount fuel pool zero_for_one side progress amount =
    if amount ==ℤ pos 0
    then ok (some (progress, pos 0, 0))
    else quote_nonzero fuel pool zero_for_one side progress amount

-- The amounts in order.
pub quote_amounts :
    ℕ → PoolState → Bool → SwapSide → Progress → List ℤ → Result (Option (List (ℤ × ℕ)))
unfolding quote_amount
quote_amounts fuel pool zero_for_one side progress [] = ok (some [])
quote_amounts fuel pool zero_for_one side progress (amount ∷ amounts) = do
  quoted ← quote_amount fuel pool zero_for_one side progress amount
  elim quoted [
    | none ↦ ok none
    | some (progress', output, count) ↦
        quote_amounts fuel pool zero_for_one side progress' amounts >>= λ rest.
        ok (elim rest [ none ↦ none | some outputs ↦ some ((output, count) ∷ outputs) ])
  ]

-- Where the computation starts.
pub start_of : PoolState → Bool → Progress
start_of pool zero_for_one =
    let fee_protocol = pool.slot0.fee_protocol in
    record {
      cache = record {
        liquidity_start = pool.liquidity;
        block_timestamp = current_timestamp pool;
        fee_protocol = if zero_for_one then fee_protocol %ℤ pos 16 else shr fee_protocol 4;
        seconds_per_liquidity_cumulative_x128 = pos 0;
        tick_cumulative = pos 0;
        computed_latest_observation = false;
        tick_count = 0;
      };
      state = record {
        amount_specified_remaining = pos 0;
        amount_calculated = pos 0;
        sqrt_price_x96 = pool.slot0.sqrt_price_x96;
        tick = pool.slot0.tick;
        protocol_fee = pos 0;
        liquidity = pool.liquidity;
        is_first_cycle_state = true;
      };
      ticks = pool.ticks;
      is_out_of_range = false;
      previous_amount = pos 0;
    }

-- The outputs with their tick counts. The fuel is one more than the rounds that are allowed.
unfoldable pub query_outputs : PoolState → List ℤ → Bool → SwapSide → Result (Option (List (ℤ × ℕ)))
unfolding quote_amounts start_of
query_outputs pool amounts zero_for_one side =
    quote_amounts 129 pool zero_for_one side (start_of pool zero_for_one) amounts
