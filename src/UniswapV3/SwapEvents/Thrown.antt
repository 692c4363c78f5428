-- ===== src/UniswapV3/SwapEvents/Thrown.antt =====
-- What `swapFromEvent` of src/dex/uniswap-v3/contract-math/uniswap-v3-math.ts has changed of the pool
-- where it throws: the ticks that it has crossed.
use verified_paraswap.Prelude.{ℕ, zero, suc, Bool, false, ◌||◌, none, some, if◌then◌else◌}
use verified_paraswap.Prelude.Int.{ℤ, ◌==ℤ◌}
use verified_paraswap.Prelude.Result.{left_by}
use verified_paraswap.UniswapV3.Types.{PoolState, Slot0}
use verified_paraswap.UniswapV3.TickBitmap.{next_initialized_tick_within_one_word}
use verified_paraswap.UniswapV3.SwapStep.{compute_swap_step}
use verified_paraswap.UniswapV3.TickMath.{get_sqrt_ratio_at_tick}
use verified_paraswap.UniswapV3.Crossing.{Ticks, clamp_tick, step_target}
use verified_paraswap.UniswapV3.Crossing.Thrown.{move_tick_left}
use verified_paraswap.UniswapV3.SwapEvents.{Replay, replay_round, replay, replay_start}

pub replay_round_left : PoolState → Slot0 → ℤ → Bool → Replay → Ticks
unfolding next_initialized_tick_within_one_word get_sqrt_ratio_at_tick compute_swap_step
    move_tick_left clamp_tick step_target
replay_round_left pool slot new_price zero_for_one r =
    let state = r.state in
    left_by
      (next_initialized_tick_within_one_word pool state.tick pool.tick_spacing zero_for_one false)
      r.ticks
      λ next. left_by (get_sqrt_ratio_at_tick (clamp_tick next.0)) r.ticks λ price_next.
        left_by
          (compute_swap_step state.sqrt_price_x96 (step_target zero_for_one price_next new_price)
            state.liquidity state.amount_specified_remaining pool.fee)
          r.ticks
          λ step.
            move_tick_left pool slot (clamp_tick next.0) next.1 price_next
              (record state { sqrt_price_x96 = step.sqrt_ratio_next_x96 }) r.cache r.ticks

pub replay_left : ℕ → PoolState → Slot0 → ℤ → ℤ → Bool → Replay → Ticks
unfolding replay_round_left replay_round
replay_left zero pool slot new_price new_tick zero_for_one r = r.ticks
replay_left (suc fuel) pool slot new_price new_tick zero_for_one r =
    let more =
      left_by (replay_round pool slot new_price zero_for_one r)
        (replay_round_left pool slot new_price zero_for_one r)
        (λ r'. replay_left fuel pool slot new_price new_tick zero_for_one r') in
    if r.state.tick ==ℤ new_tick || r.state.sqrt_price_x96 ==ℤ new_price then r.ticks else more

-- After the loop only the reading of an observation throws, before anything else is changed.
unfoldable pub swap_from_event_left : ℕ → PoolState → ℤ → ℤ → Bool → PoolState
unfolding replay replay_left replay_start
swap_from_event_left fuel pool new_price new_tick zero_for_one =
    let start = replay_start pool in
    record pool {
      ticks =
          left_by (replay fuel pool pool.slot0 new_price new_tick zero_for_one start)
            (replay_left fuel pool pool.slot0 new_price new_tick zero_for_one start)
            (λ ended. elim ended [ none ↦ pool.ticks | some r ↦ r.ticks ]);
    }
