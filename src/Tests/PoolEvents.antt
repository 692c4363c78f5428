-- ===== src/Tests/PoolEvents.antt =====
-- The events of a Uniswap V3 pool at concrete inputs.
use verified_paraswap.Prelude.{◌≡◌, refl, true, false, Option, none, some, List, [], ◌∷◌, arith}
use verified_paraswap.Prelude.Int.{pos, negsuc, ◌+ℤ◌, ◌-ℤ◌, ◌/ℤ◌, ◌*ℤ◌}
use verified_paraswap.Prelude.Words.{negate, as_int_n, as_uint_n, residue, remainder, shr, ◌%ℤ◌}
use verified_paraswap.UniswapV3.TickBitmap.{word_at}
use verified_paraswap.UniswapV3.TickBitmap.Place.{tick_of}
use verified_paraswap.UniswapV3.TickBitmap.Masks.{bit_of_lt}
use verified_paraswap.UniswapV3.Ticks.Flipped.{has_liquidity}
use verified_paraswap.UniswapV3.Positions.Matching.{BitsMatch, Matched}
use verified_paraswap.UniswapV3.Positions.Kept.{PositionFits}
use verified_paraswap.UniswapV3.SwapEvents.Kept.{Known}
use verified_paraswap.UniswapV3.Pool.{
  Event, mint, burn, flash, collect, swap, half_changed, process_block_logs,
}
use verified_paraswap.UniswapV3.Pool.Matching.{EventFits}
use verified_paraswap.UniswapV3.Pool.Blocks.{decoded}
use verified_paraswap.UniswapV3.Pool.Invariant.{EventsFit, process_block_logs-Matched}
use verified_paraswap.UniswapV3.Oracle.{observe_single_now}
use verified_paraswap.UniswapV3.Ticks.{update}
use verified_paraswap.UniswapV3.FullMath.{add_delta}
use verified_paraswap.UniswapV3.TickBitmap.{flip_tick}
use verified_paraswap.UniswapV3.Positions.{modify_position}
use verified_paraswap.Tests.V3Pool.{a_pool, empty_pool}

-- A block without events, one whose swap is impossible, and one of a collection of fees.
blocks_run :
    (process_block_logs 9 a_pool empty_pool (pos 1024) (none ∷ []) ≡ some none)
    × (process_block_logs 9 a_pool empty_pool
          (pos 1024)
          (some (swap (pos 1) (pos 0) (pos 0) (pos 0) (pos 0)) ∷ none ∷ [])
        ≡ some (some a_pool))
    × (process_block_logs 9 a_pool empty_pool (pos 1024) (some (collect (pos 3) (pos 4)) ∷ [])
        ≡ some (
            some (record empty_pool {
              balance0 = pos 4997;
              balance1 = pos 4996;
              block_timestamp = pos 1024;
            })))
unfolding process_block_logs ◌-ℤ◌
blocks_run = (refl, refl, refl)

abbrev a_mint : Event
a_mint =
    mint (pos 7) (tick_of (negsuc 0) 255 *ℤ pos 60) (tick_of (pos 0) 1 *ℤ pos 60) (pos 1) (pos 1)

a_mint-PositionFits :
    PositionFits 60 empty_pool
      (tick_of (negsuc 0) 255 *ℤ pos 60)
      (tick_of (pos 0) 1 *ℤ pos 60)
      (pos 7)
a_mint-PositionFits = record {
  lower_word = negsuc 0;
  lower_bit = 255;
  upper_word = pos 0;
  upper_bit = 1;
  lower_word_ok = omega arith;
  lower_bit_ok = omega arith;
  upper_word_ok = omega arith;
  upper_bit_ok = omega arith;
  lower_is = refl;
  upper_is = refl;
  apart = unfold ◌*ℤ◌ in λ e. cc;
  held_low = λ (f : false ≡ true). cc;
  held_high = λ (f : false ≡ true). cc;
}

empty-BitsMatch : BitsMatch 60 empty_pool
unfolding word_at has_liquidity
empty-BitsMatch w b word_ok bit_ok = bit_of_lt 0 0 b (omega arith) (omega arith)

empty-Matched : Matched 60 empty_pool
empty-Matched = record { bits_match = empty-BitsMatch; spacing_is = refl }

abbrev a_block : List (Option Event)
a_block = none ∷ some a_mint ∷ some (collect (pos 3) (pos 4)) ∷ []

a_block-EventsFit : EventsFit 60 9 (pos 1024) empty_pool (decoded a_block)
unfolding EventsFit EventFits decoded
a_block-EventsFit = (a_mint-PositionFits, λ pool' handled. (tt, λ pool'' after. tt))

-- A mint between the ticks -60 and 60, and a collection of fees.
process_block_logs-Matched_example :
    Known (Known (Matched 60)) (process_block_logs 9 empty_pool empty_pool (pos 1024) a_block)
process_block_logs-Matched_example =
    process_block_logs-Matched 60 9 (pos 1024) (omega arith) empty_pool empty_pool a_block
      empty-Matched empty-Matched a_block-EventsFit

-- The upper tick of this burn is no multiple of the spacing: its handler throws where it flips that tick,
-- when the lower one has been updated. A flash on that copy does not save the block.
abbrev a_bad_burn : Event
a_bad_burn = burn (pos 7) (pos 0) (pos 61)

thrown_run :
    let copy = half_changed 9 (pos 1024) a_bad_burn empty_pool in
    (has_liquidity (copy.ticks (pos 0)) ≡ true)
    × (process_block_logs 9 a_pool empty_pool
          (pos 1024)
          (some a_bad_burn ∷ some (flash (pos 1) (pos 1)) ∷ [])
        ≡ some (some a_pool))
unfolding half_changed process_block_logs has_liquidity negate as_int_n as_uint_n residue remainder
    shr ◌%ℤ◌ ◌-ℤ◌ ◌+ℤ◌ ◌*ℤ◌ ◌/ℤ◌ observe_single_now update add_delta flip_tick modify_position
thrown_run = (refl, refl)
