-- ===== src/UniswapV3/TickBitmap.antt =====
-- src/dex/uniswap-v3/contract-math/TickBitMap.ts.
pub mod Word
pub mod Place
pub mod Masks
pub mod Next
pub mod Flip
use verified_paraswap.Prelude.{
  ℕ, ◌+◌, ◌-◌, ◌*◌, ◌/◌, ◌%◌, ◌^◌, ◌≡◌, refl, Bool, true, false, not, ◌&&◌, Option, none, some, ltb,
  leb, ◌==◌, if◌then◌else◌,
}
use verified_paraswap.Prelude.Int.{
  ℤ, pos, negsuc, pos_part, neg_part, ◌+ℤ◌, ◌-ℤ◌, ◌*ℤ◌, ◌/ℤ◌, ltb_ℤ, leb_ℤ, ◌==ℤ◌,
}
use verified_paraswap.Prelude.Result.{
  Result, ok, err, unnamed_check, word_out_of_range, require, ◌>>=◌, ◌>>◌,
}
use verified_paraswap.Prelude.Words.{divided, remainder, shr, as_uint_n, as_int_n, residue, ◌%ℤ◌}
use verified_paraswap.UniswapV3.Types.{PoolState, tick_bitmap_to_use, tick_bitmap_buffer, write}
use verified_paraswap.UniswapV3.Bits.{most_significant_bit, least_significant_bit}

-- How far from the start a word may lie.
pub word_limit : Bool → ℤ
word_limit is_price_query =
    if is_price_query then tick_bitmap_buffer +ℤ tick_bitmap_to_use else tick_bitmap_buffer

unfoldable pub is_word_pos_out : ℤ → ℤ → Bool → Result (Unit {0})
unfolding word_limit
is_word_pos_out word_pos start is_price_query =
    let limit = word_limit is_price_query in
    require (leb_ℤ (start -ℤ limit) word_pos && leb_ℤ word_pos (start +ℤ limit)) word_out_of_range

-- The word of a tick and the bit in that word.
pub position : ℤ → ℤ × ℕ
position tick = (as_int_n 16 (shr tick 8), residue 8 (tick %ℤ pos 256))

-- Whether bit `b` of a word is set, and the word with that bit turned over: `word ^ (1n << b)`.
unfoldable pub bit : ℕ → ℕ → Bool
bit b word = word / 2 ^ b % 2 == 1

pub flip_bit : ℕ → ℕ → ℕ
unfolding bit
flip_bit b word = if bit b word then word - 2 ^ b else word + 2 ^ b

-- `tickBitmap[wordPos]`, where a missing word is 0.
unfoldable pub word_at : PoolState → ℤ → ℕ
word_at state word_pos = elim (state.tick_bitmap word_pos) [ none ↦ 0 | some word ↦ word ]

unfoldable pub flip_tick : PoolState → ℤ → ℤ → Result PoolState
unfolding position is_word_pos_out word_at flip_bit
flip_tick state tick tick_spacing = do
  rest ← remainder tick tick_spacing
  require (rest ==ℤ pos 0) unnamed_check
  let (word_pos, bit_pos) = position (tick /ℤ tick_spacing)
  is_word_pos_out word_pos state.start_tick_bitmap false
  let flipped = some (flip_bit bit_pos (word_at state word_pos))
  ok (record state { tick_bitmap = write state.tick_bitmap word_pos flipped })

-- `tick / tickSpacing`, rounded down.
pub compress : ℤ → ℤ → Result ℤ
compress tick tick_spacing = do
  quotient ← divided tick tick_spacing
  rest ← remainder tick tick_spacing
  ok (if ltb_ℤ tick (pos 0) && not (rest ==ℤ pos 0) then quotient -ℤ pos 1 else quotient)

-- The next tick at or below, in one word; the flag says whether it is initialized.
pub below_in_word : ℤ → ℤ → ℕ → ℕ → Result (ℤ × Bool)
below_in_word compressed tick_spacing bit_pos word =
    let masked = word % 2 ^ (bit_pos + 1) in
    if masked == 0
    then ok ((compressed -ℤ as_int_n 24 (pos bit_pos)) *ℤ tick_spacing, false)
    else do
      highest ← most_significant_bit masked
      ok ((compressed -ℤ as_int_n 24 (pos bit_pos -ℤ pos highest)) *ℤ tick_spacing, true)

pub next_at_or_below : PoolState → ℤ → ℤ → Bool → Result (ℤ × Bool)
unfolding position is_word_pos_out word_at below_in_word
next_at_or_below state compressed tick_spacing is_price_query = do
  let (word_pos, bit_pos) = position compressed
  is_word_pos_out word_pos state.start_tick_bitmap is_price_query
  below_in_word compressed tick_spacing bit_pos (word_at state word_pos)

-- The next tick above, in the word of the next tick. The mask leaves the bits from `bitPos` on.
pub above_in_word : ℤ → ℤ → ℕ → ℕ → Result (ℤ × Bool)
above_in_word compressed tick_spacing bit_pos word =
    let masked = word / 2 ^ bit_pos * 2 ^ bit_pos in
    if masked == 0
    then ok ((compressed +ℤ pos 1 +ℤ as_int_n 24 (pos 255 -ℤ pos bit_pos)) *ℤ tick_spacing, false)
    else do
      lowest ← least_significant_bit masked
      ok ((compressed +ℤ pos 1 +ℤ as_int_n 24 (pos lowest -ℤ pos bit_pos)) *ℤ tick_spacing, true)

pub next_above : PoolState → ℤ → ℤ → Bool → Result (ℤ × Bool)
unfolding position is_word_pos_out word_at above_in_word
next_above state compressed tick_spacing is_price_query = do
  let (word_pos, bit_pos) = position (compressed +ℤ pos 1)
  is_word_pos_out word_pos state.start_tick_bitmap is_price_query
  above_in_word compressed tick_spacing bit_pos (word_at state word_pos)

unfoldable pub next_initialized_tick_within_one_word :
    PoolState → ℤ → ℤ → Bool → Bool → Result (ℤ × Bool)
unfolding compress next_at_or_below next_above
next_initialized_tick_within_one_word state tick tick_spacing lte is_price_query = do
  compressed ← compress tick tick_spacing
  if lte
      then next_at_or_below state compressed tick_spacing is_price_query
      else next_above state compressed tick_spacing is_price_query
