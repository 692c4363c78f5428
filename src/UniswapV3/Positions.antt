-- ===== src/UniswapV3/Positions.antt =====
-- `_updatePosition` and `_modifyPosition` of
-- src/dex/uniswap-v3/contract-math/uniswap-v3-math.ts.
pub mod Places
pub mod Ends
pub mod Matching
pub mod Kept
pub mod Thrown
pub mod Valid
use verified_paraswap.Prelude.{
  ℕ, ◌+◌, ◌≡◌, refl, Bool, true, false, not, ◌&&◌, Option, none, some, ltb, leb, ◌==◌,
  if◌then◌else◌,
}
use verified_paraswap.Prelude.Int.{ℤ, pos, pos_part, neg_part, ltb_ℤ, leb_ℤ, ◌==ℤ◌}
use verified_paraswap.Prelude.Result.{Result, ok, err, ◌>>=◌, ◌>>◌}
use verified_paraswap.Prelude.Words.{as_uint_n}
use verified_paraswap.UniswapV3.Types.{PoolState, Slot0}
use verified_paraswap.UniswapV3.TickBitmap.{flip_tick}
use verified_paraswap.UniswapV3.FullMath.{add_delta}
use verified_paraswap.UniswapV3.SqrtPrice.{get_amount0_delta_o, get_amount1_delta_o}
use verified_paraswap.UniswapV3.TickMath.{get_sqrt_ratio_at_tick}
use verified_paraswap.UniswapV3.Oracle
use verified_paraswap.UniswapV3.Oracle.{observe_single_now}
use verified_paraswap.UniswapV3.Ticks.{Accumulators, update, clear}

-- `_blockTimestamp`.
pub current_timestamp : PoolState → ℤ
current_timestamp state = as_uint_n 32 state.block_timestamp

unfoldable pub is_tick_to_process : PoolState → ℤ → Bool
is_tick_to_process state tick =
    leb_ℤ state.lowest_known_tick tick && leb_ℤ tick state.highest_known_tick

-- One end of the position: its tick is updated where the pool knows it.
pub update_end : PoolState → ℤ → ℤ → ℤ → Accumulators → Bool → Result (PoolState × Bool)
unfolding is_tick_to_process
update_end state end_tick tick liquidity_delta seen upper =
    if is_tick_to_process state end_tick
    then update state end_tick tick liquidity_delta seen upper state.max_liquidity_per_tick
    else ok (state, false)

pub flip_end : PoolState → ℤ → Bool → Result PoolState
flip_end state tick flipped = if flipped then flip_tick state tick state.tick_spacing else ok state

pub clear_end : PoolState → ℤ → Bool → PoolState
clear_end state tick flipped = if flipped then clear state tick else state

-- What the ends are told, with `secondsAgo` of 0.
pub observed : PoolState → Result Accumulators
unfolding current_timestamp
observed state = do
  let time = current_timestamp state
  seen ←
      observe_single_now state time state.slot0.tick state.slot0.observation_index state.liquidity
  ok record {
    seconds_per_liquidity_cumulative_x128 = seen.1;
    tick_cumulative = seen.0;
    time = time;
  }

pub change_ends : PoolState → ℤ → ℤ → ℤ → ℤ → Accumulators → Result PoolState
unfolding update_end flip_end clear_end
change_ends state tick_lower tick_upper liquidity_delta tick seen = do
  let burn = ltb_ℤ liquidity_delta (pos 0)
  lower ← update_end state tick_lower tick liquidity_delta seen false
  upper ← update_end lower.0 tick_upper tick liquidity_delta seen true
  with_lower ← flip_end upper.0 tick_lower lower.1
  with_both ← flip_end with_lower tick_upper upper.1
  ok (clear_end (clear_end with_both tick_lower (burn && lower.1)) tick_upper (burn && upper.1))

unfoldable pub update_position : PoolState → ℤ → ℤ → ℤ → ℤ → Result PoolState
unfolding observed change_ends
update_position state tick_lower tick_upper liquidity_delta tick =
    if liquidity_delta ==ℤ pos 0
    then ok state
    else do seen ← observed state; change_ends state tick_lower tick_upper liquidity_delta tick seen

-- `Oracle.write`, with the index and the cardinality put into `slot0`.
pub write_observation : PoolState → ℤ → ℤ → Result PoolState
unfolding current_timestamp
write_observation state tick liquidity = do
  written ←
      Oracle.write state state.slot0.observation_index (current_timestamp state) tick liquidity
        state.slot0.observation_cardinality state.slot0.observation_cardinality_next
  let (state', index, cardinality) = written
  let slot = state'.slot0
  ok record state' {
    slot0 = record slot { observation_index = index; observation_cardinality = cardinality };
  }

-- The amounts of a position, by where the price stands; inside it the pool's liquidity changes.
pub position_amounts : PoolState → ℤ → ℤ → ℤ → Slot0 → Result (PoolState × ℤ × ℤ)
unfolding write_observation
position_amounts state tick_lower tick_upper liquidity_delta slot =
    if ltb_ℤ slot.tick tick_lower
    then (do
      lower ← get_sqrt_ratio_at_tick tick_lower
      upper ← get_sqrt_ratio_at_tick tick_upper
      amount0 ← get_amount0_delta_o lower upper liquidity_delta
      ok (state, amount0, pos 0))
    else if ltb_ℤ slot.tick tick_upper
    then (do
      let liquidity_before = state.liquidity
      written ← write_observation state slot.tick liquidity_before
      upper ← get_sqrt_ratio_at_tick tick_upper
      amount0 ← get_amount0_delta_o slot.sqrt_price_x96 upper liquidity_delta
      lower ← get_sqrt_ratio_at_tick tick_lower
      amount1 ← get_amount1_delta_o lower slot.sqrt_price_x96 liquidity_delta
      liquidity ← add_delta liquidity_before liquidity_delta
      ok (record written { liquidity = liquidity }, amount0, amount1))
    else do
      lower ← get_sqrt_ratio_at_tick tick_lower
      upper ← get_sqrt_ratio_at_tick tick_upper
      amount1 ← get_amount1_delta_o lower upper liquidity_delta
      ok (state, pos 0, amount1)

unfoldable pub modify_position : PoolState → ℤ → ℤ → ℤ → Result (PoolState × ℤ × ℤ)
unfolding position_amounts
modify_position state tick_lower tick_upper liquidity_delta = do
  let slot = state.slot0
  state' ← update_position state tick_lower tick_upper liquidity_delta slot.tick
  if liquidity_delta ==ℤ pos 0
      then ok (state', pos 0, pos 0)
      else position_amounts state' tick_lower tick_upper liquidity_delta slot
