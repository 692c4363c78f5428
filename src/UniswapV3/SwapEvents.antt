-- ===== src/UniswapV3/SwapEvents.antt =====
-- `swapFromEvent` of src/dex/uniswap-v3/contract-math/uniswap-v3-math.ts: the pool after a swap
-- that the chain reports, with the ticks that it crossed.
pub mod Kept
pub mod Thrown
pub mod Valid
use verified_paraswap.Prelude.{
  ℕ, zero, suc, ◌-◌, ◌^◌, Bool, false, ◌||◌, Option, none, some, if◌then◌else◌,
}
use verified_paraswap.Prelude.Int.{ℤ, pos, ◌==ℤ◌}
use verified_paraswap.Prelude.Result.{Result, ok, ◌>>=◌}
use verified_paraswap.UniswapV3.Types.{PoolState, Slot0}
use verified_paraswap.UniswapV3.TickBitmap.{next_initialized_tick_within_one_word}
use verified_paraswap.UniswapV3.SwapStep.{compute_swap_step}
use verified_paraswap.UniswapV3.TickMath.{get_sqrt_ratio_at_tick}
use verified_paraswap.UniswapV3.Positions.{current_timestamp, write_observation}
use verified_paraswap.UniswapV3.Crossing.{
  PriceComputationState, PriceComputationCache, Ticks, clamp_tick, step_target, move_tick,
}

-- BI_MAX_INT.
abbrev pub max_int : ℤ
max_int = pos (2 ^ 255 - 1)

-- The loop's objects; the ticks are those of the pool, which are changed in place.
pub record Replay : Type 0 where
  pub state : PriceComputationState
  pub cache : PriceComputationCache
  pub ticks : Ticks

-- The loop's body.
pub replay_round : PoolState → Slot0 → ℤ → Bool → Replay → Result Replay
replay_round pool slot new_price zero_for_one r = do
  let state = r.state
  next ← next_initialized_tick_within_one_word pool state.tick pool.tick_spacing zero_for_one false
  let tick_next = clamp_tick next.0
  price_next ← get_sqrt_ratio_at_tick tick_next
  step ←
      compute_swap_step state.sqrt_price_x96 (step_target zero_for_one price_next new_price)
        state.liquidity state.amount_specified_remaining pool.fee
  let stepped = record state { sqrt_price_x96 = step.sqrt_ratio_next_x96 }
  moved ←
      move_tick pool slot zero_for_one tick_next next.1 state.sqrt_price_x96 price_next stepped
        r.cache r.ticks
  let (state', cache, ticks) = moved
  ok record { state = state'; cache = cache; ticks = ticks }

-- The loop, with fuel; `none` means that it ran out.
pub replay : ℕ → PoolState → Slot0 → ℤ → ℤ → Bool → Replay → Result (Option Replay)
unfolding replay_round
replay zero pool slot new_price new_tick zero_for_one r = ok none
replay (suc fuel) pool slot new_price new_tick zero_for_one r =
    let more = replay_round pool slot new_price zero_for_one r >>= λ r'.
    replay fuel pool slot new_price new_tick zero_for_one r' in
    if r.state.tick ==ℤ new_tick || r.state.sqrt_price_x96 ==ℤ new_price then ok (some r) else more

pub replay_start : PoolState → Replay
replay_start pool = record {
  cache = record {
    liquidity_start = pool.liquidity;
    block_timestamp = current_timestamp pool;
    fee_protocol = pos 0;
    seconds_per_liquidity_cumulative_x128 = pos 0;
    tick_cumulative = pos 0;
    computed_latest_observation = false;
    tick_count = 0;
  };
  state = record {
    amount_specified_remaining = max_int;
    amount_calculated = pos 0;
    sqrt_price_x96 = pool.slot0.sqrt_price_x96;
    tick = pool.slot0.tick;
    protocol_fee = pos 0;
    liquidity = pool.liquidity;
    is_first_cycle_state = false;
  };
  ticks = pool.ticks;
}

-- The pool's price, tick and liquidity are those that the event reports.
pub settle_swap : PoolState → ℤ → ℤ → ℤ → Result PoolState
settle_swap pool new_price new_tick new_liquidity = do
  written ←
      (if pool.slot0.tick ==ℤ new_tick
        then ok pool
        else write_observation pool pool.slot0.tick pool.liquidity)
  let slot = written.slot0
  ok record written {
    slot0 = record slot {
      sqrt_price_x96 = new_price;
      tick = if pool.slot0.tick ==ℤ new_tick then slot.tick else new_tick;
    };
    liquidity = if written.liquidity ==ℤ new_liquidity then written.liquidity else new_liquidity;
  }

-- The pool with the ticks of the loop, settled.
pub settle_replay : PoolState → ℤ → ℤ → ℤ → Option Replay → Result (Option PoolState)
unfolding settle_swap
settle_replay pool new_price new_tick new_liquidity none = ok none
settle_replay pool new_price new_tick new_liquidity (some r) = do
  settled ← settle_swap (record pool { ticks = r.ticks }) new_price new_tick new_liquidity
  ok (some settled)

unfoldable pub swap_from_event : ℕ → PoolState → ℤ → ℤ → ℤ → Bool → Result (Option PoolState)
unfolding replay replay_start settle_replay
swap_from_event fuel pool new_price new_tick new_liquidity zero_for_one = do
  ended ← replay fuel pool pool.slot0 new_price new_tick zero_for_one (replay_start pool)
  settle_replay pool new_price new_tick new_liquidity ended
