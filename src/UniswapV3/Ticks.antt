-- ===== src/UniswapV3/Ticks.antt =====
-- src/dex/uniswap-v3/contract-math/Tick.ts, and the filling of a pool's maps in
-- src/dex/uniswap-v3/contract-math/utils.ts.
pub mod Flipped
use verified_paraswap.Prelude.{
  ℕ, ◌+◌, ◌≡◌, refl, Bool, true, false, not, Option, none, some, List, [], ◌∷◌, ltb, leb, ◌==◌,
  if◌then◌else◌,
}
use verified_paraswap.Prelude.Int.{ℤ, pos, pos_part, neg_part, ◌+ℤ◌, ◌-ℤ◌, leb_ℤ, ◌==ℤ◌}
use verified_paraswap.Prelude.Result.{
  Result, ok, err, type_error, liquidity_over, require, ◌>>=◌, ◌>>◌,
}
use verified_paraswap.Prelude.Words.{as_int_n}
use verified_paraswap.UniswapV3.Types.{PoolState, TickInfo, zero_tick_info, write}
use verified_paraswap.UniswapV3.FullMath.{add_delta}

-- What a position is told of the pool's history.
pub record Accumulators : Type 0 where
  pub seconds_per_liquidity_cumulative_x128 : ℤ
  pub tick_cumulative : ℤ
  pub time : ℤ

pub info_or_zero : Option TickInfo → TickInfo
info_or_zero none = zero_tick_info
info_or_zero (some info) = info

-- A tick's record where its first liquidity comes.
pub started : TickInfo → Bool → Accumulators → TickInfo
started info below seen =
    if below
    then record info {
      seconds_per_liquidity_outside_x128 = seen.seconds_per_liquidity_cumulative_x128;
      tick_cumulative_outside = seen.tick_cumulative;
      seconds_outside = seen.time;
      initialized = true;
    }
    else record info { initialized = true }

-- The tick's record with its liquidity changed.
pub updated_info : TickInfo → ℤ → ℤ → ℤ → ℤ → Accumulators → Bool → TickInfo
unfolding started
updated_info info gross_after tick tick_current liquidity_delta seen upper =
    let base =
      if info.liquidity_gross ==ℤ pos 0
      then started info (leb_ℤ tick tick_current) seen
      else info in
    let net = as_int_n 256 base.liquidity_net in
    record base {
      liquidity_gross = gross_after;
      liquidity_net =
          as_int_n 128 (if upper then net -ℤ liquidity_delta else net +ℤ liquidity_delta);
    }

-- `a != b` on booleans.
abbrev pub differ : Bool → Bool → Bool
differ true b = not b
differ false b = b

-- `Tick.update` gives the pool with the tick changed, and whether the tick was flipped.
unfoldable pub update : PoolState → ℤ → ℤ → ℤ → Accumulators → Bool → ℤ → Result (PoolState × Bool)
unfolding info_or_zero updated_info
update state tick tick_current liquidity_delta seen upper max_liquidity = do
  let info = info_or_zero (state.ticks tick)
  gross_after ← add_delta info.liquidity_gross liquidity_delta
  require (leb_ℤ gross_after max_liquidity) liquidity_over
  let info' = updated_info info gross_after tick tick_current liquidity_delta seen upper
  let flipped = differ (gross_after ==ℤ pos 0) (info.liquidity_gross ==ℤ pos 0)
  ok (record state { ticks = write state.ticks tick (some info') }, flipped)

unfoldable pub clear : PoolState → ℤ → PoolState
clear state tick = record state { ticks = write state.ticks tick none }

-- `Tick.cross` gives the ticks with the outside values turned, and the net liquidity.
unfoldable pub cross : (ℤ → Option TickInfo) → ℤ → Accumulators → Result ((ℤ → Option TickInfo) × ℤ)
cross ticks tick seen = elim (ticks tick) [
  | none ↦ err type_error
  | some info ↦
      let info' : TickInfo = record info {
        seconds_per_liquidity_outside_x128 =
            seen.seconds_per_liquidity_cumulative_x128 -ℤ info.seconds_per_liquidity_outside_x128;
        tick_cumulative_outside = seen.tick_cumulative -ℤ info.tick_cumulative_outside;
        seconds_outside = seen.time -ℤ info.seconds_outside;
      } in
      ok (write ticks tick (some info'), info.liquidity_net)
]

-- `_reduceTickBitmap` and `_reduceTicks`: the maps filled from the contract's answer.
unfoldable pub reduce_tick_bitmap : (ℤ → Option ℕ) → List (ℤ × ℕ) → ℤ → Option ℕ
reduce_tick_bitmap bitmap [] = bitmap
reduce_tick_bitmap bitmap ((index, value) ∷ rest) =
    reduce_tick_bitmap (write bitmap index (some value)) rest

unfoldable pub reduce_ticks : (ℤ → Option TickInfo) → List (ℤ × TickInfo) → ℤ → Option TickInfo
reduce_ticks ticks [] = ticks
reduce_ticks ticks ((index, value) ∷ rest) =
    reduce_ticks (if value.initialized then write ticks index (some value) else ticks) rest
