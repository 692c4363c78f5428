-- ===== src/UniswapV3/Oracle.antt =====
-- src/dex/uniswap-v3/contract-math/Oracle.ts. An observation that is `undefined` throws when one of
-- its fields is read.
pub mod Ends
use verified_paraswap.Prelude.{
  ℕ, zero, suc, ◌+◌, ◌-◌, ◌*◌, ◌/◌, ◌%◌, ◌^◌, ◌≡◌, refl, Bool, true, false, not, ◌&&◌, Option, none,
  some, ltb, leb, ◌==◌, if◌then◌else◌,
}
use verified_paraswap.Prelude.Int.{
  ℤ, pos, negsuc, pos_part, neg_part, ◌+ℤ◌, ◌-ℤ◌, ◌*ℤ◌, ◌/ℤ◌, ltb_ℤ, leb_ℤ, ◌==ℤ◌,
}
use verified_paraswap.Prelude.Result.{
  Result, ok, err, type_error, observation_old, require, ◌>>=◌, ◌>>◌,
}
use verified_paraswap.Prelude.Words.{divided, as_uint_n, as_int_n, shl}
use verified_paraswap.UniswapV3.Types.{PoolState, OracleObservation, write_index}

pub observation_at : PoolState → ℕ → Result OracleObservation
observation_at state index = elim (state.observations index) [
  | none ↦ err type_error
  | some seen ↦ ok seen
]

unfoldable pub transform : PoolState → OracleObservation → ℤ → ℤ → ℤ → OracleObservation
transform state last block_timestamp tick liquidity =
    let delta = block_timestamp -ℤ last.block_timestamp in
    let divisor = if ltb_ℤ (pos 0) liquidity then liquidity else pos 1 in
    record {
      block_timestamp = state.block_timestamp;
      tick_cumulative = last.tick_cumulative +ℤ as_int_n 56 tick *ℤ delta;
      seconds_per_liquidity_cumulative_x128 =
          last.seconds_per_liquidity_cumulative_x128 +ℤ shl (as_uint_n 160 delta) 128 /ℤ divisor;
      initialized = true;
    }

-- `(index + 1) % cardinalityUpdated`; in JavaScript `x % 0` is NaN, under which nothing is stored
-- that could be read again, and a pool has a positive cardinality.
pub next_index : ℕ → ℕ → ℕ
next_index index cardinality = (index + 1) % cardinality

pub cardinality_updated : ℕ → ℕ → ℕ → ℕ
cardinality_updated index cardinality cardinality_next =
    if ltb cardinality cardinality_next && index + 1 == cardinality
    then cardinality_next
    else cardinality

-- The new observations, with the index and the cardinality.
unfoldable pub write : PoolState → ℕ → ℤ → ℤ → ℤ → ℕ → ℕ → Result (PoolState × ℕ × ℕ)
unfolding observation_at next_index cardinality_updated transform
write state index block_timestamp tick liquidity cardinality cardinality_next = do
  last ← observation_at state index
  let updated = cardinality_updated index cardinality cardinality_next
  let index' = next_index index updated
  let stored =
      write_index state.observations index'
        (some (transform state last block_timestamp tick liquidity))
  let kept = (if index' == index then stored else write_index stored index none)
  if last.block_timestamp ==ℤ state.block_timestamp
      then ok (state, index, cardinality)
      else ok (record state { observations = kept }, index', updated)

-- Whether `a` is not after `b`, for 32-bit times not later than `time`.
unfoldable pub lte : ℤ → ℤ → ℤ → Bool
lte time a b =
    if leb_ℤ a time && leb_ℤ b time
    then leb_ℤ a b
    else leb_ℤ (if ltb_ℤ time a then a else a +ℤ pos (2 ^ 32))
        (if ltb_ℤ time b then b else b +ℤ pos (2 ^ 32))

-- One index of the binary search. `i = (l + r) / 2` is a fraction where `l + r` is odd, and
-- then `observations[i % cardinality]` is `undefined`. `r` is passed as `r + 1`, for it can be -1.
pub data Probe : Type 0 where
  higher lower : ℕ → Probe
  found : OracleObservation → OracleObservation → Probe

pub probe : PoolState → ℤ → ℤ → ℕ → ℕ → ℕ → Result Probe
unfolding observation_at lte
probe state time target cardinality l r_suc = do
  require ((l + r_suc) % 2 == 1) type_error
  let i = (l + r_suc - 1) / 2
  before ← observation_at state (i % cardinality)
  let after = observation_at state ((i + 1) % cardinality)
  let or_after = after >>= λ seen.
      ok (if lte time target seen.block_timestamp then found before seen else higher (i + 1))
  if not before.initialized
      then ok (higher (i + 1))
      else if lte time before.block_timestamp target
      then or_after
      else ok (lower i)

-- `while (true)`, with fuel; `none` means that it ran out.
pub search_loop :
    ℕ → PoolState → ℤ → ℤ → ℕ → ℕ → ℕ → Result (Option (OracleObservation × OracleObservation))
unfolding probe
search_loop zero state time target cardinality l r_suc = ok none
search_loop (suc fuel) state time target cardinality l r_suc = do
  next ← probe state time target cardinality l r_suc
  elim next [
    | higher l' ↦ search_loop fuel state time target cardinality l' r_suc
    | lower r_suc' ↦ search_loop fuel state time target cardinality l r_suc'
    | found before after ↦ ok (some (before, after))
  ]

unfoldable pub binary_search :
    ℕ → PoolState → ℤ → ℤ → ℕ → ℕ → Result (Option (OracleObservation × OracleObservation))
unfolding search_loop
binary_search fuel state time target index cardinality =
    let l = (index + 1) % cardinality in
    search_loop fuel state time target cardinality l (l + cardinality)

pub get_surrounding_observations :
    ℕ → PoolState → ℤ → ℤ → ℤ → ℕ → ℤ → ℕ → Result (Option (OracleObservation × OracleObservation))
unfolding observation_at lte transform binary_search
get_surrounding_observations fuel state time target tick index liquidity cardinality = do
  latest ← observation_at state index
  if lte time latest.block_timestamp target
      then ok (
          some (
            latest,
            if latest.block_timestamp ==ℤ target
                then latest
                else transform state latest target tick liquidity,
          ))
      else do
        next ← observation_at state ((index + 1) % cardinality)
        oldest ← (if next.initialized then ok next else observation_at state 0)
        require (lte time oldest.block_timestamp target) observation_old
        binary_search fuel state time target index cardinality

-- Between two observations, by their times.
pub interpolated : ℤ → OracleObservation → OracleObservation → Result (ℤ × ℤ)
interpolated target before after =
    if target ==ℤ before.block_timestamp
    then ok (before.tick_cumulative, before.seconds_per_liquidity_cumulative_x128)
    else if target ==ℤ after.block_timestamp
    then ok (after.tick_cumulative, after.seconds_per_liquidity_cumulative_x128)
    else do
      let observation_time_delta = after.block_timestamp -ℤ before.block_timestamp
      let target_delta = target -ℤ before.block_timestamp
      slope ← divided (after.tick_cumulative -ℤ before.tick_cumulative) observation_time_delta
      let seconds = as_uint_n 256 (
          after.seconds_per_liquidity_cumulative_x128
          -ℤ before.seconds_per_liquidity_cumulative_x128)
      share ← divided (seconds *ℤ target_delta) observation_time_delta
      ok (
        before.tick_cumulative +ℤ slope *ℤ target_delta,
        before.seconds_per_liquidity_cumulative_x128 +ℤ as_uint_n 160 share,
      )

unfoldable pub observe_single_now : PoolState → ℤ → ℤ → ℕ → ℤ → Result (ℤ × ℤ)
unfolding observation_at transform
observe_single_now state time tick index liquidity = do
  last ← observation_at state index
  let seen =
      (if last.block_timestamp ==ℤ time then last else transform state last time tick liquidity)
  ok (seen.tick_cumulative, seen.seconds_per_liquidity_cumulative_x128)

-- `none` where the search ran out of fuel.
unfoldable pub observe_single : ℕ → PoolState → ℤ → ℤ → ℤ → ℕ → ℤ → ℕ → Result (Option (ℤ × ℤ))
unfolding observe_single_now get_surrounding_observations interpolated
observe_single fuel state time seconds_ago tick index liquidity cardinality =
    if seconds_ago ==ℤ pos 0
    then (observe_single_now state time tick index liquidity >>= λ seen. ok (some seen))
    else do
      let target = time -ℤ seconds_ago
      around ← get_surrounding_observations fuel state time target tick index liquidity cardinality
      elim around [
        | none ↦ ok none
        | some (before, after) ↦ interpolated target before after >>= λ seen. ok (some seen)
      ]
