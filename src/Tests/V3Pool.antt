-- ===== src/Tests/V3Pool.antt =====
-- A small pool of src/dex/uniswap-v3, on which its model runs.
use verified_paraswap.Prelude.{ℕ, ◌^◌, true, none, some, ◌==◌, if◌then◌else◌, []}
use verified_paraswap.Prelude.Int.{ℤ, pos, negsuc, ◌==ℤ◌}
use verified_paraswap.UniswapV3.Types.{PoolState, OracleObservation, TickInfo}

abbrev pub an_observation : OracleObservation
an_observation = record {
  block_timestamp = pos 1000;
  tick_cumulative = pos 0;
  seconds_per_liquidity_cumulative_x128 = pos 0;
  initialized = true;
}

abbrev crossed : ℤ → TickInfo
crossed net = record {
  liquidity_gross = pos 1000000000;
  liquidity_net = net;
  tick_cumulative_outside = pos 0;
  seconds_per_liquidity_outside_x128 = pos 0;
  seconds_outside = pos 0;
  initialized = true;
}

-- Ticks -120 and 60 are initialized: bits 254 of word -1 and 1 of word 0.
abbrev pub a_pool : PoolState
a_pool = record {
  pool = [];
  block_timestamp = pos 1012;
  tick_spacing = pos 60;
  fee = pos 3000;
  slot0 = record {
    sqrt_price_x96 = pos (2 ^ 96);
    tick = pos 0;
    observation_index = 0;
    observation_cardinality = 1;
    observation_cardinality_next = 1;
    fee_protocol = pos 0;
  };
  liquidity = pos 1000000000;
  max_liquidity_per_tick = pos (2 ^ 110);
  tick_bitmap =
      λ (w : ℤ). if w ==ℤ pos 0 then some 2 else if w ==ℤ negsuc 0 then some (2 ^ 254) else none;
  ticks = λ (t : ℤ).
      if t ==ℤ pos 60
      then some (crossed (negsuc 999999999))
      else if t ==ℤ negsuc 119
      then some (crossed (pos 1000000000))
      else none;
  observations = λ (i : ℕ). if i == 0 then some an_observation else none;
  is_valid = true;
  start_tick_bitmap = pos 0;
  lowest_known_tick = negsuc 184319;
  highest_known_tick = pos 199620;
  balance0 = pos 5000;
  balance1 = pos 5000;
}

-- The same pool with no ticks.
abbrev pub empty_pool : PoolState
empty_pool = record a_pool { tick_bitmap = λ (w : ℤ). none; ticks = λ (t : ℤ). none }
