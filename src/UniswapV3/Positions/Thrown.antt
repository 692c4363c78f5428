-- ===== src/UniswapV3/Positions/Thrown.antt =====
-- What `_modifyPosition` of src/dex/uniswap-v3/contract-math/uniswap-v3-math.ts has changed of the pool
-- where it throws. Each function says this of the one in its name, and is asked only if that throws.
use verified_paraswap.Prelude.{true, false, some, if◌then◌else◌}
use verified_paraswap.Prelude.Int.{ℤ, ltb_ℤ}
use verified_paraswap.Prelude.Result.{left_by}
use verified_paraswap.UniswapV3.Types.{PoolState, Slot0, write}
use verified_paraswap.UniswapV3.Ticks.{Accumulators, info_or_zero}
use verified_paraswap.UniswapV3.Positions.{
  is_tick_to_process, update_end, flip_end, observed, update_position, write_observation,
}

-- `Tick.update` throws on the liquidity, when an unknown tick has got the record of zeros.
pub update_end_left : PoolState → ℤ → PoolState
unfolding is_tick_to_process
update_end_left state end_tick =
    if is_tick_to_process state end_tick
    then record state {
      ticks = write state.ticks end_tick (some (info_or_zero (state.ticks end_tick)));
    }
    else state

-- A flip of a tick changes nothing before it throws, and nothing throws after the two.
pub change_ends_left : PoolState → ℤ → ℤ → ℤ → ℤ → Accumulators → PoolState
unfolding update_end_left update_end flip_end
change_ends_left state tick_lower tick_upper liquidity_delta tick seen =
    left_by (update_end state tick_lower tick liquidity_delta seen false)
      (update_end_left state tick_lower)
      λ lower.
        left_by (update_end lower.0 tick_upper tick liquidity_delta seen true)
          (update_end_left lower.0 tick_upper)
          λ upper. left_by (flip_end upper.0 tick_lower lower.1) upper.0 λ with_lower. with_lower

pub update_position_left : PoolState → ℤ → ℤ → ℤ → ℤ → PoolState
unfolding observed change_ends_left
update_position_left state tick_lower tick_upper liquidity_delta tick =
    left_by (observed state) state
      λ seen. change_ends_left state tick_lower tick_upper liquidity_delta tick seen

-- The observation is written before the amounts are computed; the liquidity comes last.
pub position_amounts_left : PoolState → ℤ → ℤ → Slot0 → PoolState
unfolding write_observation
position_amounts_left state tick_lower tick_upper slot =
    if ltb_ℤ slot.tick tick_lower
    then state
    else if ltb_ℤ slot.tick tick_upper
    then left_by (write_observation state slot.tick state.liquidity) state (λ written. written)
    else state

unfoldable pub modify_position_left : PoolState → ℤ → ℤ → ℤ → PoolState
unfolding update_position update_position_left position_amounts_left
modify_position_left state tick_lower tick_upper liquidity_delta =
    let slot = state.slot0 in
    left_by (update_position state tick_lower tick_upper liquidity_delta slot.tick)
      (update_position_left state tick_lower tick_upper liquidity_delta slot.tick)
      λ state'. position_amounts_left state' tick_lower tick_upper slot
