-- ===== src/UniswapV3/Crossing.antt =====
-- What a step of `_priceComputationCycles` of
-- src/dex/uniswap-v3/contract-math/uniswap-v3-math.ts does to the amounts, the price and the ticks.
-- The objects that it changes in place are passed on.
pub mod Counts
pub mod Liquidity
pub mod Thrown
use verified_paraswap.Prelude.{
  ℕ, zero, suc, ◌+◌, ◌-◌, ◌≡◌, refl, Bool, true, false, not, ◌&&◌, ◌||◌, Option, none, some, ltb,
  leb, ◌==◌, if◌then◌else◌,
}
use verified_paraswap.Prelude.Int.{
  ℤ, pos, negsuc, pos_part, neg_part, ◌+ℤ◌, ◌-ℤ◌, ◌/ℤ◌, ltb_ℤ, leb_ℤ, ◌==ℤ◌,
}
use verified_paraswap.Prelude.Result.{Result, ok, err, Error, word_out_of_range, ◌>>=◌, ◌>>◌}
use verified_paraswap.Prelude.Words.{negate}
use verified_paraswap.UniswapV3.Types.{
  PoolState, Slot0, TickInfo, write, max_pricing_computation_steps_allowed,
}
use verified_paraswap.UniswapV3.TickBitmap.{next_initialized_tick_within_one_word}
use verified_paraswap.UniswapV3.FullMath.{add_delta}
use verified_paraswap.UniswapV3.SwapStep.{SwapStep, compute_swap_step}
use verified_paraswap.UniswapV3.TickMath.{max_tick, get_sqrt_ratio_at_tick, get_tick_at_sqrt_ratio}
use verified_paraswap.UniswapV3.Oracle.{observe_single_now}
use verified_paraswap.UniswapV3.Ticks.{Accumulators, cross}

pub record PriceComputationState : Type 0 where
  pub amount_specified_remaining : ℤ
  pub amount_calculated : ℤ
  pub sqrt_price_x96 : ℤ
  pub tick : ℤ
  pub protocol_fee : ℤ
  pub liquidity : ℤ
  pub is_first_cycle_state : Bool

pub record PriceComputationCache : Type 0 where
  pub liquidity_start : ℤ
  pub block_timestamp : ℤ
  pub fee_protocol : ℤ
  pub seconds_per_liquidity_cumulative_x128 : ℤ
  pub tick_cumulative : ℤ
  pub computed_latest_observation : Bool
  pub tick_count : ℕ

abbrev pub Ticks : Type 0
Ticks = ℤ → Option TickInfo

-- `state.amountSpecifiedRemaining = 0n; state.amountCalculated = 0n`.
unfoldable pub given_up : PriceComputationState → PriceComputationState
given_up state = record state { amount_specified_remaining = pos 0; amount_calculated = pos 0 }

-- The tick kept within the ticks that have a price.
unfoldable pub clamp_tick : ℤ → ℤ
clamp_tick tick =
    if ltb_ℤ tick (negsuc (max_tick - 1))
    then negsuc (max_tick - 1)
    else if ltb_ℤ (pos max_tick) tick
    then pos max_tick
    else tick

-- The price that a step goes for: that of the next tick, but not past the limit.
unfoldable pub step_target : Bool → ℤ → ℤ → ℤ
step_target zero_for_one price_next limit =
    if (if zero_for_one then ltb_ℤ price_next limit else ltb_ℤ limit price_next)
    then limit
    else price_next

-- The amounts after a step.
unfoldable pub after_step : Bool → SwapStep → ℤ → PriceComputationState → PriceComputationState
after_step exact_input step fee_protocol state =
    let remaining = state.amount_specified_remaining in
    let calculated = state.amount_calculated in
    record state {
      sqrt_price_x96 = step.sqrt_ratio_next_x96;
      amount_specified_remaining =
          if exact_input
          then remaining -ℤ (step.amount_in +ℤ step.fee_amount)
          else remaining +ℤ step.amount_out;
      amount_calculated =
          if exact_input
          then calculated -ℤ step.amount_out
          else calculated +ℤ step.amount_in +ℤ step.fee_amount;
      protocol_fee =
          if ltb_ℤ (pos 0) fee_protocol
          then state.protocol_fee +ℤ step.fee_amount /ℤ fee_protocol
          else state.protocol_fee;
    }

-- The latest observation, computed once.
pub with_observation : PoolState → Slot0 → PriceComputationCache → Result PriceComputationCache
with_observation pool slot cache = if cache.computed_latest_observation then ok cache else do
  seen ←
      observe_single_now pool cache.block_timestamp slot.tick slot.observation_index
        cache.liquidity_start
  ok record cache {
    tick_cumulative = seen.0;
    seconds_per_liquidity_cumulative_x128 = seen.1;
    computed_latest_observation = true;
  }

pub cache_accumulators : PriceComputationCache → Accumulators
cache_accumulators cache = record {
  seconds_per_liquidity_cumulative_x128 = cache.seconds_per_liquidity_cumulative_x128;
  tick_cumulative = cache.tick_cumulative;
  time = cache.block_timestamp;
}

-- An initialized tick is crossed: its outside values turn, and the liquidity changes.
pub cross_tick :
    PoolState
    → Slot0
    → Bool
    → ℤ
    → PriceComputationCache
    → Ticks
    → ℤ
    → Result (PriceComputationCache × Ticks × ℤ)
unfolding with_observation cache_accumulators
cross_tick pool slot zero_for_one tick cache ticks liquidity = do
  cache' ← with_observation pool slot cache
  crossed ← cross ticks tick (cache_accumulators cache')
  let net = (if zero_for_one then negate crossed.1 else crossed.1)
  liquidity' ← add_delta liquidity net
  ok (cache', crossed.0, liquidity')

pub cross_if_initialized :
    PoolState
    → Slot0
    → Bool
    → ℤ
    → Bool
    → PriceComputationCache
    → Ticks
    → ℤ
    → Result (PriceComputationCache × Ticks × ℤ)
unfolding cross_tick
cross_if_initialized pool slot zero_for_one tick initialized cache ticks liquidity =
    if initialized
    then cross_tick pool slot zero_for_one tick cache ticks liquidity
    else ok (cache, ticks, liquidity)

-- Where the step ends: at the next tick, which is crossed if it is initialized, or between ticks.
unfoldable pub move_tick :
    PoolState
    → Slot0
    → Bool
    → ℤ
    → Bool
    → ℤ
    → ℤ
    → PriceComputationState
    → PriceComputationCache
    → Ticks
    → Result (PriceComputationState × PriceComputationCache × Ticks)
unfolding cross_if_initialized
move_tick pool slot zero_for_one tick_next initialized price_start price_next state cache ticks =
    if state.sqrt_price_x96 ==ℤ price_next
    then (do
      crossed ←
          cross_if_initialized pool slot zero_for_one tick_next initialized cache ticks
            state.liquidity
      let (cache', ticks', liquidity) = crossed
      let tick = (if zero_for_one then tick_next -ℤ pos 1 else tick_next)
      ok (record state { liquidity = liquidity; tick = tick }, cache', ticks'))
    else if state.sqrt_price_x96 ==ℤ price_start
    then ok (state, cache, ticks)
    else do
      tick ← get_tick_at_sqrt_ratio state.sqrt_price_x96
      ok (record state { tick = tick }, cache, ticks)
