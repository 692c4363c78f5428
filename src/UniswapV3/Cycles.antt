-- ===== src/UniswapV3/Cycles.antt =====
-- `_priceComputationCycles` of src/dex/uniswap-v3/contract-math/uniswap-v3-math.ts: the steps of a
-- swap at a price, over copies of the ticks. The objects that it changes in place are passed on.
pub mod Rounds
use verified_paraswap.Prelude.{
  ℕ, zero, suc, ◌+◌, ◌-◌, ◌≡◌, refl, Bool, true, false, not, ◌&&◌, ◌||◌, Option, none, some, ltb,
  leb, ◌==◌, if◌then◌else◌,
}
use verified_paraswap.Prelude.Int.{
  ℤ, pos, negsuc, pos_part, neg_part, ◌+ℤ◌, ◌-ℤ◌, ◌/ℤ◌, ltb_ℤ, leb_ℤ, ◌==ℤ◌,
}
use verified_paraswap.Prelude.Result.{Result, ok, err, Error, word_out_of_range, ◌>>=◌, ◌>>◌}
use verified_paraswap.Prelude.Words.{negate}
use verified_paraswap.UniswapV3.Types.{
  PoolState, Slot0, TickInfo, write, max_pricing_computation_steps_allowed,
}
use verified_paraswap.UniswapV3.TickBitmap.{next_initialized_tick_within_one_word}
use verified_paraswap.UniswapV3.FullMath.{add_delta}
use verified_paraswap.UniswapV3.SwapStep.{SwapStep, compute_swap_step}
use verified_paraswap.UniswapV3.TickMath.{max_tick, get_sqrt_ratio_at_tick, get_tick_at_sqrt_ratio}
use verified_paraswap.UniswapV3.Oracle.{observe_single_now}
use verified_paraswap.UniswapV3.Ticks.{Accumulators, cross}
use verified_paraswap.UniswapV3.Crossing.{
  PriceComputationState, PriceComputationCache, Ticks, given_up, clamp_tick, step_target,
  after_step, with_observation, cache_accumulators, cross_tick, cross_if_initialized, move_tick,
}

-- What one round of the loop changes; `latest_*` are those of the last full cycle.
pub record Loop : Type 0 where
  pub state : PriceComputationState
  pub cache : PriceComputationCache
  pub ticks : Ticks
  pub latest_state : PriceComputationState
  pub latest_cache : PriceComputationCache
  pub rounds : ℕ

-- After the last round the tick that it crossed is restored; after another, this is the latest
-- full cycle.
pub close_round : Loop → Ticks → PriceComputationState × PriceComputationCache × Ticks → Loop
close_round lp ticks_before (state, cache, ticks) =
    let last = state.amount_specified_remaining ==ℤ pos 0 in
    record {
      state = state;
      cache = cache;
      ticks = if last then ticks_before else ticks;
      latest_state = if last then lp.latest_state else state;
      latest_cache = if last then lp.latest_cache else cache;
      rounds = lp.rounds + 1;
    }

-- One round, from the tick that the bitmap gives.
pub round : PoolState → Slot0 → ℤ → Bool → Bool → Loop → ℤ × Bool → Result Loop
unfolding clamp_tick step_target after_step move_tick close_round
round pool slot limit zero_for_one exact_input lp (found, initialized) = do
  let state = lp.state
  let tick_next = clamp_tick found
  price_next ← get_sqrt_ratio_at_tick tick_next
  step ←
      compute_swap_step state.sqrt_price_x96 (step_target zero_for_one price_next limit)
        state.liquidity state.amount_specified_remaining pool.fee
  let stepped = after_step exact_input step lp.cache.fee_protocol state
  moved ←
      move_tick pool slot zero_for_one tick_next initialized state.sqrt_price_x96 price_next stepped
        lp.cache lp.ticks
  ok (close_round lp lp.ticks moved)

-- How the loop's body leaves.
pub data Exit : Type 0 where
  -- The loop's condition or a `break` ends it, with this state.
  stop : PriceComputationState → Exit
  again : Loop → Exit

-- The round, where the bitmap gives a tick; only an out-of-range word is caught.
pub after_search : PoolState → Slot0 → ℤ → Bool → Bool → Loop → Result (ℤ × Bool) → Result Exit
unfolding round given_up
after_search pool slot limit zero_for_one exact_input lp (ok next) =
    round pool slot limit zero_for_one exact_input lp next >>= λ lp'. ok (again lp')
after_search pool slot limit zero_for_one exact_input lp (err word_out_of_range) =
    ok (stop (given_up lp.state))
after_search pool slot limit zero_for_one exact_input lp (err e) = err e

-- The loop's test and its body.
pub body : PoolState → Slot0 → ℤ → Bool → Bool → Loop → Result Exit
unfolding given_up after_search
body pool slot limit zero_for_one exact_input lp =
    let state = lp.state in
    if state.amount_specified_remaining ==ℤ pos 0 || state.sqrt_price_x96 ==ℤ limit
    then ok (stop state)
    else if ltb max_pricing_computation_steps_allowed (lp.latest_cache.tick_count + lp.rounds)
    then ok (stop (given_up state))
    else after_search pool slot limit zero_for_one exact_input lp
        (next_initialized_tick_within_one_word pool state.tick pool.tick_spacing zero_for_one true)

-- The loop, with fuel; `none` means that it ran out.
pub loop : ℕ → PoolState → Slot0 → ℤ → Bool → Bool → Loop → Result (Option Loop)
unfolding body
loop zero pool slot limit zero_for_one exact_input lp = ok none
loop (suc fuel) pool slot limit zero_for_one exact_input lp = do
  exit ← body pool slot limit zero_for_one exact_input lp
  elim exit [
    | stop state ↦ ok (some (record lp { state = state }))
    | again lp' ↦ loop fuel pool slot limit zero_for_one exact_input lp'
  ]

-- What is left of the amount when the loop ends makes the result none.
pub settle : Loop → Loop
unfolding given_up
settle lp =
    let counted = lp.latest_cache.tick_count + (lp.rounds - 1) in
    let cache = lp.latest_cache in
    let state = lp.state in
    record lp {
      latest_cache = if ltb 1 lp.rounds then record cache { tick_count = counted } else cache;
      state = if state.amount_specified_remaining ==ℤ pos 0 then state else given_up state;
    }

unfoldable pub price_computation_cycles :
    ℕ
    → PoolState
    → Ticks
    → Slot0
    → PriceComputationState
    → PriceComputationCache
    → ℤ
    → Bool
    → Bool
    → Result (Option Loop)
unfolding loop settle
price_computation_cycles fuel pool ticks slot state cache limit zero_for_one exact_input = do
  let started = record cache { tick_count = if cache.tick_count == 0 then 1 else cache.tick_count }
  let start : Loop = record {
    state = state;
    cache = started;
    ticks = ticks;
    latest_state = state;
    latest_cache = started;
    rounds = 0;
  }
  ended ← loop fuel pool slot limit zero_for_one exact_input start
  ok (elim ended [ none ↦ none | some lp ↦ some (settle lp) ])
