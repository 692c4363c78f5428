-- ===== src/UniswapV3/Crossing/Thrown.antt =====
-- What moving the tick in src/dex/uniswap-v3/contract-math/uniswap-v3-math.ts has changed of the ticks
-- where it throws.
use verified_paraswap.Prelude.{Bool, if◌then◌else◌}
use verified_paraswap.Prelude.Int.{ℤ, ◌==ℤ◌}
use verified_paraswap.Prelude.Result.{left_by}
use verified_paraswap.UniswapV3.Types.{PoolState, Slot0}
use verified_paraswap.UniswapV3.Ticks.{cross}
use verified_paraswap.UniswapV3.Crossing.{
  PriceComputationState, PriceComputationCache, Ticks, with_observation, cache_accumulators,
}

-- The tick is crossed before the liquidity is checked.
pub cross_tick_left : PoolState → Slot0 → ℤ → PriceComputationCache → Ticks → Ticks
unfolding with_observation cache_accumulators cross
cross_tick_left pool slot tick cache ticks =
    left_by (with_observation pool slot cache) ticks
      λ cache'. left_by (cross ticks tick (cache_accumulators cache')) ticks λ crossed. crossed.0

unfoldable pub move_tick_left :
    PoolState → Slot0 → ℤ → Bool → ℤ → PriceComputationState → PriceComputationCache → Ticks → Ticks
unfolding cross_tick_left
move_tick_left pool slot tick_next initialized price_next state cache ticks =
    if state.sqrt_price_x96 ==ℤ price_next
    then (if initialized then cross_tick_left pool slot tick_next cache ticks else ticks)
    else ticks
