-- ===== src/UniswapV3/Pool.antt =====
-- src/dex/uniswap-v3/uniswap-v3-pool.ts: the pool's state under the events of its contract. The
-- arguments of an event are the decoder's, as integers.
pub mod Matching
pub mod Valid
pub mod Blocks
pub mod Invariant
use verified_paraswap.Prelude.{
  ℕ, Bool, true, false, ◌&&◌, Option, none, some, List, [], ◌∷◌, if◌then◌else◌,
}
use verified_paraswap.Prelude.Int.{ℤ, pos, ◌+ℤ◌, ◌-ℤ◌, ◌*ℤ◌, ltb_ℤ, leb_ℤ}
use verified_paraswap.Prelude.Result.{Result, ok, err, ◌>>=◌}
use verified_paraswap.Prelude.Text.{Text}
use verified_paraswap.Prelude.Words.{negate, as_int_n, as_uint_n, shl, divided}
use verified_paraswap.UniswapV3.Types.{
  PoolState, Slot0, TickInfo, OracleObservation, tick_bitmap_to_use, tick_bitmap_buffer,
  write_index,
}
use verified_paraswap.UniswapV3.TickBitmap.{position}
use verified_paraswap.UniswapV3.Ticks.{reduce_tick_bitmap, reduce_ticks}
use verified_paraswap.UniswapV3.Positions.{modify_position}
use verified_paraswap.UniswapV3.Positions.Thrown.{modify_position_left}
use verified_paraswap.UniswapV3.SwapEvents.{swap_from_event}
use verified_paraswap.UniswapV3.SwapEvents.Thrown.{swap_from_event_left}

pub data Event : Type 0 where
  -- The new price, the amounts, the new tick and the new liquidity.
  swap : ℤ → ℤ → ℤ → ℤ → ℤ → Event
  -- The liquidity and the two ticks; for a mint, the amounts too.
  burn : ℤ → ℤ → ℤ → Event
  mint : ℤ → ℤ → ℤ → ℤ → ℤ → Event
  set_fee_protocol : ℤ → ℤ → Event
  -- `Collect` and `CollectProtocol`.
  collect : ℤ → ℤ → Event
  flash : ℤ → ℤ → Event
  increase_observation_cardinality_next : ℕ → Event

-- `pool.blockTimestamp = bigIntify(blockHeader.timestamp)`.
pub at_block : ℤ → PoolState → PoolState
at_block timestamp pool = record pool { block_timestamp = timestamp }

-- The balances after a swap, and whether its amounts make sense.
pub swap_balances : Bool → ℤ → ℤ → PoolState → PoolState
swap_balances true amount0 amount1 pool = record pool {
  balance0 = pool.balance0 +ℤ as_uint_n 256 amount0;
  balance1 =
      if ltb_ℤ amount1 (pos 0)
      then pool.balance1 -ℤ as_uint_n 256 (negate amount1)
      else pool.balance1;
  is_valid = pool.is_valid && ltb_ℤ amount1 (pos 0);
}
swap_balances false amount0 amount1 pool = record pool {
  balance0 =
      if ltb_ℤ amount0 (pos 0)
      then pool.balance0 -ℤ as_uint_n 256 (negate amount0)
      else pool.balance0;
  balance1 = pool.balance1 +ℤ as_uint_n 256 amount1;
  is_valid = pool.is_valid && ltb_ℤ amount0 (pos 0);
}

-- `handleSwapEvent`; `none` means that the fuel of its loop ran out.
pub handle_swap_event : ℕ → ℤ → ℤ → ℤ → ℤ → ℤ → ℤ → PoolState → Result (Option PoolState)
unfolding swap_balances at_block
handle_swap_event fuel timestamp price amount0 amount1 tick liquidity pool =
    if leb_ℤ amount0 (pos 0) && leb_ℤ amount1 (pos 0)
    then ok (some (record pool { block_timestamp = timestamp; is_valid = false }))
    else do
      let zero_for_one = ltb_ℤ (pos 0) amount0
      swapped ← swap_from_event fuel (at_block timestamp pool) price tick liquidity zero_for_one
      ok (elim swapped [
        | none ↦ none
        | some pool' ↦ some (swap_balances zero_for_one amount0 amount1 pool')
      ])

pub handle_burn_event : ℤ → ℤ → ℤ → ℤ → PoolState → Result PoolState
unfolding at_block
handle_burn_event timestamp amount tick_lower tick_upper pool = do
  changed ←
      modify_position (at_block timestamp pool) tick_lower tick_upper
        (negate (as_int_n 128 (as_int_n 256 amount)))
  ok changed.0

pub handle_mint_event : ℤ → ℤ → ℤ → ℤ → ℤ → ℤ → PoolState → Result PoolState
unfolding at_block
handle_mint_event timestamp amount tick_lower tick_upper amount0 amount1 pool = do
  changed ← modify_position (at_block timestamp pool) tick_lower tick_upper amount
  let pool' = changed.0
  ok record pool' { balance0 = pool'.balance0 +ℤ amount0; balance1 = pool'.balance1 +ℤ amount1 }

pub handle_set_fee_protocol_event : ℤ → ℤ → ℤ → PoolState → PoolState
handle_set_fee_protocol_event timestamp fee_protocol0 fee_protocol1 pool =
    let slot = pool.slot0 in
    record pool {
      slot0 = record slot { fee_protocol = fee_protocol0 +ℤ shl fee_protocol1 4 };
      block_timestamp = timestamp;
    }

pub handle_collect_event : ℤ → ℤ → ℤ → PoolState → PoolState
handle_collect_event timestamp amount0 amount1 pool = record pool {
  balance0 = pool.balance0 -ℤ amount0;
  balance1 = pool.balance1 -ℤ amount1;
  block_timestamp = timestamp;
}

pub handle_flash_event : ℤ → ℤ → ℤ → PoolState → PoolState
handle_flash_event timestamp paid0 paid1 pool = record pool {
  balance0 = pool.balance0 +ℤ paid0;
  balance1 = pool.balance1 +ℤ paid1;
  block_timestamp = timestamp;
}

pub handle_increase_observation_cardinality_next_event : ℤ → ℕ → PoolState → PoolState
handle_increase_observation_cardinality_next_event timestamp next pool =
    let slot = pool.slot0 in
    record pool {
      slot0 = record slot { observation_cardinality_next = next };
      block_timestamp = timestamp;
    }

-- The handler of an event, with the block's time.
pub handle : ℕ → ℤ → Event → PoolState → Result (Option PoolState)
unfolding handle_swap_event handle_burn_event handle_mint_event handle_set_fee_protocol_event
    handle_collect_event handle_flash_event handle_increase_observation_cardinality_next_event
handle fuel time (swap price amount0 amount1 tick liquidity) pool =
    handle_swap_event fuel time price amount0 amount1 tick liquidity pool
handle fuel time (burn amount tick_lower tick_upper) pool =
    handle_burn_event time amount tick_lower tick_upper pool >>= λ pool'. ok (some pool')
handle fuel time (mint amount tick_lower tick_upper amount0 amount1) pool =
    handle_mint_event time amount tick_lower tick_upper amount0 amount1 pool >>= λ pool'.
    ok (some pool')
handle fuel time (set_fee_protocol fee_protocol0 fee_protocol1) pool =
    ok (some (handle_set_fee_protocol_event time fee_protocol0 fee_protocol1 pool))
handle fuel time (collect amount0 amount1) pool =
    ok (some (handle_collect_event time amount0 amount1 pool))
handle fuel time (flash paid0 paid1) pool = ok (some (handle_flash_event time paid0 paid1 pool))
handle fuel time (increase_observation_cardinality_next next) pool =
    ok (some (handle_increase_observation_cardinality_next_event time next pool))

-- The copy of the pool as a handler that throws leaves it.
unfoldable pub half_changed : ℕ → ℤ → Event → PoolState → PoolState
unfolding at_block swap_from_event_left modify_position_left
half_changed fuel time (swap price amount0 amount1 tick liquidity) pool =
    swap_from_event_left fuel (at_block time pool) price tick (ltb_ℤ (pos 0) amount0)
half_changed fuel time (burn amount tick_lower tick_upper) pool =
    modify_position_left (at_block time pool) tick_lower tick_upper
      (negate (as_int_n 128 (as_int_n 256 amount)))
half_changed fuel time (mint amount tick_lower tick_upper amount0 amount1) pool =
    modify_position_left (at_block time pool) tick_lower tick_upper amount
half_changed fuel time event pool = at_block time pool

-- What `processLog` gives: `none` inside is `null`, for an event without a handler or that cannot
-- be decoded; `none` outside means that the fuel ran out. Where a handler throws, the copy that it has
-- half changed is marked invalid.
pub process_log : ℕ → PoolState → ℤ → Option Event → Option (Option PoolState)
unfolding handle half_changed
process_log fuel pool timestamp none = some none
process_log fuel pool timestamp (some event) = elim (handle fuel timestamp event pool) [
  | ok none ↦ none
  | ok (some pool') ↦ some (some pool')
  | err e ↦
      let copy = half_changed fuel timestamp event pool in
      some (some (record copy { is_valid = false }))
]

pub state_or : PoolState → Option PoolState → PoolState
state_or state none = state
state_or state (some next) = next

-- `super.processBlockLogs`, with `nextState` as an argument.
pub process_logs :
    ℕ → PoolState → ℤ → Option PoolState → List (Option Event) → Option (Option PoolState)
unfolding process_log state_or
process_logs fuel state timestamp next [] = some next
process_logs fuel state timestamp next (log ∷ logs) =
    let go = λ (r : Option PoolState).
      process_logs fuel state timestamp (elim r [ none ↦ next | some pool ↦ some pool ]) logs in
    elim (process_log fuel (state_or state next) timestamp log) [ none ↦ none | some r ↦ go r ]

-- An invalid state is replaced by a generated one.
pub settle_block : PoolState → Option (Option PoolState) → Option (Option PoolState)
settle_block generated none = none
settle_block generated (some none) = some none
settle_block generated (some (some pool)) = some (some (if pool.is_valid then pool else generated))

-- `processBlockLogs`; what `generateState` gives is an argument.
unfoldable pub process_block_logs :
    ℕ → PoolState → PoolState → ℤ → List (Option Event) → Option (Option PoolState)
unfolding process_logs settle_block
process_block_logs fuel generated state timestamp logs =
    settle_block generated (process_logs fuel state timestamp none logs)

-- The contract's answer from which `generateState` builds the state.
pub record DecodedState : Type 0 where
  pub pool : Text
  pub block_timestamp : ℤ
  pub slot0 : Slot0
  pub liquidity : ℤ
  pub tick_spacing : ℤ
  pub max_liquidity_per_tick : ℤ
  pub observation : OracleObservation
  pub tick_bitmap : List (ℤ × ℕ)
  pub ticks : List (ℤ × TickInfo)

abbrev pub requested_range : ℤ
requested_range = tick_bitmap_to_use +ℤ tick_bitmap_buffer

unfoldable pub generate_state : ℤ → DecodedState → ℤ → ℤ → Result PoolState
generate_state fee_code decoded balance0 balance1 = do
  compressed ← divided decoded.slot0.tick decoded.tick_spacing
  let start = (position compressed).0
  ok record {
    pool = decoded.pool;
    block_timestamp = decoded.block_timestamp;
    slot0 = decoded.slot0;
    liquidity = decoded.liquidity;
    fee = fee_code;
    tick_spacing = decoded.tick_spacing;
    max_liquidity_per_tick = decoded.max_liquidity_per_tick;
    tick_bitmap = reduce_tick_bitmap (λ w. none) decoded.tick_bitmap;
    ticks = reduce_ticks (λ t. none) decoded.ticks;
    observations =
        write_index (λ i. none) decoded.slot0.observation_index (some decoded.observation);
    is_valid = true;
    start_tick_bitmap = start;
    lowest_known_tick = shl (as_int_n 24 (start -ℤ requested_range)) 8 *ℤ decoded.tick_spacing;
    highest_known_tick =
        (shl (as_int_n 24 (start +ℤ requested_range)) 8 +ℤ as_int_n 24 (pos 255))
        *ℤ decoded.tick_spacing;
    balance0 = balance0;
    balance1 = balance1;
  }
