-- ===== src/UniswapV3/Pool/Matching.antt =====
-- The events of src/dex/uniswap-v3/uniswap-v3-pool.ts and the match of the tick bitmap and the
-- ticks.
use verified_paraswap.Prelude.{
  ℕ, ◌<◌, ◌≡◌, refl, Bool, true, false, ◌&&◌, Option, none, some, Bool-cases, inl, inr,
}
use verified_paraswap.Prelude.Int.{ℤ, pos, leb_ℤ}
use verified_paraswap.Prelude.Result.{Yields, Yields-then}
use verified_paraswap.Prelude.Words.{negate, as_int_n}
use verified_paraswap.UniswapV3.Types.{PoolState}
use verified_paraswap.UniswapV3.Positions.{modify_position, is_tick_to_process}
use verified_paraswap.UniswapV3.Positions.Matching.{Matched}
use verified_paraswap.UniswapV3.Positions.Kept.{
  PositionFits, SameTicks, SameTicks-Matched, modify_position-Matched,
}
use verified_paraswap.UniswapV3.SwapEvents.{swap_from_event}
use verified_paraswap.UniswapV3.SwapEvents.Kept.{Known, swap_from_event-Matched}
use verified_paraswap.UniswapV3.Pool.{
  Event, swap, burn, mint, set_fee_protocol, collect, flash, increase_observation_cardinality_next,
  at_block, swap_balances, handle_swap_event, handle_burn_event, handle_mint_event,
  handle_set_fee_protocol_event, handle_collect_event, handle_flash_event,
  handle_increase_observation_cardinality_next_event, handle,
}

-- An event that changes a position fits the pool.
unfoldable pub EventFits : ℕ → PoolState → Event → Type 0
EventFits s pool (burn amount low high) =
    PositionFits s pool low high (negate (as_int_n 128 (as_int_n 256 amount)))
EventFits s pool (mint amount low high amount0 amount1) = PositionFits s pool low high amount
EventFits s pool (swap price amount0 amount1 tick liquidity) = Unit {0}
EventFits s pool (set_fee_protocol fee0 fee1) = Unit {0}
EventFits s pool (collect amount0 amount1) = Unit {0}
EventFits s pool (flash paid0 paid1) = Unit {0}
EventFits s pool (increase_observation_cardinality_next next) = Unit {0}

swap_balances-SameTicks :
    (zero_for_one : Bool) (amount0 amount1 : ℤ) (pool : PoolState)
    → SameTicks pool (swap_balances zero_for_one amount0 amount1 pool)
unfolding swap_balances
swap_balances-SameTicks true amount0 amount1 pool = record {
  same_bitmap = refl;
  same_ticks = refl;
  same_spacing = refl;
}
swap_balances-SameTicks false amount0 amount1 pool = record {
  same_bitmap = refl;
  same_ticks = refl;
  same_spacing = refl;
}

at_block-PositionFits :
    (s : ℕ) (time : ℤ) (pool : PoolState) (low high delta : ℤ)
    → PositionFits s pool low high delta
    → PositionFits s (at_block time pool) low high delta
unfolding at_block is_tick_to_process
at_block-PositionFits s time pool low high delta fits = record {
  lower_word = fits.lower_word;
  lower_bit = fits.lower_bit;
  upper_word = fits.upper_word;
  upper_bit = fits.upper_bit;
  lower_word_ok = fits.lower_word_ok;
  lower_bit_ok = fits.lower_bit_ok;
  upper_word_ok = fits.upper_word_ok;
  upper_bit_ok = fits.upper_bit_ok;
  lower_is = fits.lower_is;
  upper_is = fits.upper_is;
  apart = fits.apart;
  held_low = fits.held_low;
  held_high = fits.held_high;
}

module _ (s : ℕ) (time : ℤ) (pool : PoolState) (spaced : 0 < s) (matched : Matched s pool) where
  untouched :
      (pool' : PoolState)
      → pool'.tick_bitmap ≡ pool.tick_bitmap
      → pool'.ticks ≡ pool.ticks
      → pool'.tick_spacing ≡ pool.tick_spacing
      → Matched s pool'
  untouched pool' bitmap ticks spacing =
      SameTicks-Matched s pool pool'
        record { same_bitmap = bitmap; same_ticks = ticks; same_spacing = spacing } matched

  at_block-Matched : Matched s (at_block time pool)
  unfolding at_block
  at_block-Matched = untouched (record pool { block_timestamp = time }) refl refl refl

  modify_at_block-Matched :
      (low high delta : ℤ)
      → PositionFits s pool low high delta
      → Yields
          (λ (m : PoolState × ℤ × ℤ). Matched s m.0)
          (modify_position (at_block time pool) low high delta)
  unfolding at_block
  modify_at_block-Matched low high delta fits =
      modify_position-Matched s spaced (at_block time pool) low high delta
        (at_block-PositionFits s time pool low high delta fits) at_block-Matched

  handle_burn_event-Matched :
      (amount low high : ℤ)
      → EventFits s pool (burn amount low high)
      → Yields (Matched s) (handle_burn_event time amount low high pool)
  unfolding handle_burn_event EventFits
  handle_burn_event-Matched amount low high fits =
      Yields-then _ _ (modify_position (at_block time pool) low high _) _
        (modify_at_block-Matched low high _ fits) λ changed kept. kept

  handle_mint_event-Matched :
      (amount low high amount0 amount1 : ℤ)
      → EventFits s pool (mint amount low high amount0 amount1)
      → Yields (Matched s) (handle_mint_event time amount low high amount0 amount1 pool)
  unfolding handle_mint_event EventFits
  handle_mint_event-Matched amount low high amount0 amount1 fits =
      Yields-then _ _ (modify_position (at_block time pool) low high amount) _
        (modify_at_block-Matched low high amount fits)
        λ changed kept.
          SameTicks-Matched s changed.0 _
            record { same_bitmap = refl; same_ticks = refl; same_spacing = refl } kept

  balanced :
      (zero_for_one : Bool) (amount0 amount1 : ℤ) (swapped : Option PoolState)
      → Known (Matched s) swapped
      → Known (Matched s) (elim swapped [
        | none ↦ none
        | some pool' ↦ some (swap_balances zero_for_one amount0 amount1 pool')
      ])
  balanced zero_for_one amount0 amount1 none kept = tt
  balanced zero_for_one amount0 amount1 (some pool') kept =
      SameTicks-Matched s pool' _ (swap_balances-SameTicks zero_for_one amount0 amount1 pool') kept

  handle_swap_event-Matched :
      (fuel : ℕ) (price amount0 amount1 tick liquidity : ℤ)
      → Yields
          (Known (Matched s))
          (handle_swap_event fuel time price amount0 amount1 tick liquidity pool)
  unfolding handle_swap_event
  handle_swap_event-Matched fuel price amount0 amount1 tick liquidity =
      elim (Bool-cases (leb_ℤ amount0 (pos 0) && leb_ℤ amount1 (pos 0))) [
        | inl wrong ↦ rw wrong (untouched _ refl refl refl)
        | inr right ↦ rw right (
            Yields-then _ _ (swap_from_event fuel (at_block time pool) price tick liquidity _) _
              (swap_from_event-Matched s fuel (at_block time pool) price tick liquidity _
                at_block-Matched)
              λ swapped kept. balanced _ amount0 amount1 swapped kept)
      ]

  -- Every event keeps the match, if it fits the pool and neither throws nor runs out of fuel.
  pub handle-Matched :
      (fuel : ℕ) (event : Event)
      → EventFits s pool event
      → Yields (Known (Matched s)) (handle fuel time event pool)
  unfolding handle EventFits handle_set_fee_protocol_event handle_collect_event handle_flash_event
      handle_increase_observation_cardinality_next_event
  handle-Matched fuel (swap price amount0 amount1 tick liquidity) fits =
      handle_swap_event-Matched fuel price amount0 amount1 tick liquidity
  handle-Matched fuel (burn amount low high) fits =
      Yields-then _ _ (handle_burn_event time amount low high pool) _
        (handle_burn_event-Matched amount low high fits) λ pool' kept. kept
  handle-Matched fuel (mint amount low high amount0 amount1) fits =
      Yields-then _ _ (handle_mint_event time amount low high amount0 amount1 pool) _
        (handle_mint_event-Matched amount low high amount0 amount1 fits) λ pool' kept. kept
  handle-Matched fuel (set_fee_protocol fee0 fee1) fits = untouched _ refl refl refl
  handle-Matched fuel (collect amount0 amount1) fits = untouched _ refl refl refl
  handle-Matched fuel (flash paid0 paid1) fits = untouched _ refl refl refl
  handle-Matched fuel (increase_observation_cardinality_next next) fits = untouched _ refl refl refl
