-- ===== src/Tests/Ticks.antt =====
-- The tick bitmap and the ticks of src/dex/uniswap-v3 at concrete inputs.
use verified_paraswap.Prelude.{
  ℕ, ◌-◌, ◌^◌, ◌≡◌, refl, Bool, true, false, not, ◌&&◌, ◌==◌, if◌then◌else◌, arith,
}
use verified_paraswap.Prelude.Int.{ℤ, pos, negsuc, neg, ◌+ℤ◌, ◌-ℤ◌, ◌*ℤ◌, ◌/ℤ◌, ◌==ℤ◌}
use verified_paraswap.Prelude.Result.{ok, err, tick_out}
use verified_paraswap.Prelude.Words.{
  divided, remainder, shr, shl, negate, as_uint_n, as_int_n, residue, ◌%ℤ◌,
}
use verified_paraswap.UniswapV3.Types.{PoolState}
use verified_paraswap.UniswapV3.Bits.{most_significant_bit, least_significant_bit}
use verified_paraswap.UniswapV3.TickMath.{
  get_sqrt_ratio_at_tick, get_tick_at_sqrt_ratio, max_sqrt_ratio, min_sqrt_ratio,
}
use verified_paraswap.UniswapV3.TickBitmap.{
  bit, word_at, is_word_pos_out, flip_tick, next_initialized_tick_within_one_word,
}
use verified_paraswap.UniswapV3.TickBitmap.Place.{tick_of}
use verified_paraswap.UniswapV3.TickBitmap.Flip.{bit-flip_tick}
use verified_paraswap.UniswapV3.TickBitmap.Next.{
  NextBelow, NextAbove, next_initialized_tick_within_one_word-NextBelow,
  next_initialized_tick_within_one_word-NextAbove,
}
use verified_paraswap.Tests.V3Pool.{a_pool}

next_runs :
    (next_initialized_tick_within_one_word a_pool (pos 59) (pos 60) true true ≡ ok (pos 0, false))
    × (next_initialized_tick_within_one_word a_pool (pos 59) (pos 60) false true
        ≡ ok (pos 60, true))
    × (next_initialized_tick_within_one_word a_pool (negsuc 0) (pos 60) true true
        ≡ ok (negsuc 119, true))
    × (next_initialized_tick_within_one_word a_pool (negsuc 120) (pos 60) true true
        ≡ ok (neg 15360, false))
unfolding next_initialized_tick_within_one_word ◌+ℤ◌ ◌-ℤ◌ ◌*ℤ◌ ◌/ℤ◌ divided remainder shr as_uint_n
    as_int_n residue ◌%ℤ◌ most_significant_bit least_significant_bit
next_runs = (refl, refl, refl, refl)

ratios_run :
    (get_sqrt_ratio_at_tick (pos 0) ≡ ok (pos (2 ^ 96)))
    × (get_sqrt_ratio_at_tick (pos 887272) ≡ ok (pos max_sqrt_ratio))
    × (get_sqrt_ratio_at_tick (negsuc 887271) ≡ ok (pos min_sqrt_ratio))
    × (get_sqrt_ratio_at_tick (pos 887273) ≡ err tick_out)
    × (get_tick_at_sqrt_ratio (pos min_sqrt_ratio) ≡ ok (negsuc 887271))
    × (get_tick_at_sqrt_ratio (pos (max_sqrt_ratio - 1)) ≡ ok (pos 887271))
    × (get_tick_at_sqrt_ratio (pos (2 ^ 96)) ≡ ok (pos 0))
    × (get_tick_at_sqrt_ratio (pos (2 ^ 96 - 1)) ≡ ok (negsuc 0))
unfolding get_sqrt_ratio_at_tick get_tick_at_sqrt_ratio ◌+ℤ◌ ◌-ℤ◌ ◌*ℤ◌ shr shl as_int_n residue
    negate
ratios_run = (refl, refl, refl, refl, refl, refl, refl, refl)

-- From tick 119 downwards: the tick 60 of bit 1.
next_initialized_tick_within_one_word-NextBelow_example :
    (r : ℤ × Bool) × (next_initialized_tick_within_one_word a_pool
        (tick_of (pos 0) 1 *ℤ pos 60 +ℤ pos 59)
        (pos 60)
        true
        true
      ≡ ok r)
    × NextBelow (pos 0) 1 (word_at a_pool (pos 0)) (pos 60) r
unfolding is_word_pos_out word_at ◌+ℤ◌ ◌-ℤ◌
next_initialized_tick_within_one_word-NextBelow_example =
    next_initialized_tick_within_one_word-NextBelow a_pool (pos 0) 1 60 59 true (omega arith)
      (omega arith) (omega arith) (omega arith) (omega arith) refl

-- From tick 0 upwards.
next_initialized_tick_within_one_word-NextAbove_example :
    (r : ℤ × Bool) × (next_initialized_tick_within_one_word a_pool
        (pos 0 *ℤ pos 60 +ℤ pos 0)
        (pos 60)
        false
        true
      ≡ ok r)
    × NextAbove (pos 0) 1 (word_at a_pool (pos 0)) (pos 60) r
unfolding is_word_pos_out word_at ◌+ℤ◌ ◌-ℤ◌
next_initialized_tick_within_one_word-NextAbove_example =
    next_initialized_tick_within_one_word-NextAbove a_pool (pos 0) 1 60 0 true (omega arith)
      (omega arith) (omega arith) (omega arith) (omega arith) refl (pos 0) refl

bit-flip_tick_example :
    (state' : PoolState) × (flip_tick a_pool (tick_of (negsuc 0) 254 *ℤ pos 60) (pos 60)
      ≡ ok state')
    × ((w' : ℤ) (b' : ℕ)
        → bit b' (word_at state' w') ≡ (
            if w' ==ℤ negsuc 0 && b' == 254
            then not (bit 254 (word_at a_pool (negsuc 0)))
            else bit b' (word_at a_pool w')))
unfolding is_word_pos_out ◌+ℤ◌ ◌-ℤ◌
bit-flip_tick_example =
    bit-flip_tick a_pool (negsuc 0) 254 60 (omega arith) (omega arith) (omega arith) refl
