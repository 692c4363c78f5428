-- ===== src/UniswapV3/Types.antt =====
-- The data of a Uniswap V3 pool: src/dex/uniswap-v3/types.ts and src/dex/uniswap-v3/constants.ts.
-- A `Record` with integer keys is a function into `Option`: what is missing is `none`.
use verified_paraswap.Prelude.{ℕ, Bool, false, Option, ◌==◌, if◌then◌else◌}
use verified_paraswap.Prelude.Int.{ℤ, pos, ◌==ℤ◌}
use verified_paraswap.Prelude.Text.{Text}

pub record OracleObservation : Type 0 where
  pub block_timestamp : ℤ
  pub tick_cumulative : ℤ
  pub seconds_per_liquidity_cumulative_x128 : ℤ
  pub initialized : Bool

pub record TickInfo : Type 0 where
  pub liquidity_gross : ℤ
  pub liquidity_net : ℤ
  pub tick_cumulative_outside : ℤ
  pub seconds_per_liquidity_outside_x128 : ℤ
  pub seconds_outside : ℤ
  pub initialized : Bool

pub record Slot0 : Type 0 where
  pub sqrt_price_x96 : ℤ
  pub tick : ℤ
  pub observation_index : ℕ
  pub observation_cardinality : ℕ
  pub observation_cardinality_next : ℕ
  pub fee_protocol : ℤ

-- `tickBitmap` holds unsigned 256-bit words.
pub record PoolState : Type 0 where
  pub pool : Text
  pub block_timestamp : ℤ
  pub tick_spacing : ℤ
  pub fee : ℤ
  pub slot0 : Slot0
  pub liquidity : ℤ
  pub max_liquidity_per_tick : ℤ
  pub tick_bitmap : ℤ → Option ℕ
  pub ticks : ℤ → Option TickInfo
  pub observations : ℕ → Option OracleObservation
  pub is_valid : Bool
  pub start_tick_bitmap : ℤ
  pub lowest_known_tick : ℤ
  pub highest_known_tick : ℤ
  pub balance0 : ℤ
  pub balance1 : ℤ

abbrev pub zero_tick_info : TickInfo
zero_tick_info = record {
  liquidity_gross = pos 0;
  liquidity_net = pos 0;
  tick_cumulative_outside = pos 0;
  seconds_per_liquidity_outside_x128 = pos 0;
  seconds_outside = pos 0;
  initialized = false;
}

abbrev pub tick_bitmap_to_use : ℤ
tick_bitmap_to_use = pos 4

abbrev pub tick_bitmap_buffer : ℤ
tick_bitmap_buffer = pos 8

abbrev pub max_pricing_computation_steps_allowed : ℕ
max_pricing_computation_steps_allowed = 128

-- `m[key] = value` and `delete m[key]`.
module _ {ℓ} {V : Type ℓ} where
  abbrev pub write : (ℤ → Option V) → ℤ → Option V → ℤ → Option V
  write m key value k = if k ==ℤ key then value else m k

  abbrev pub write_index : (ℕ → Option V) → ℕ → Option V → ℕ → Option V
  write_index m key value k = if k == key then value else m k
