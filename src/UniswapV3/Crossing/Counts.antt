-- ===== src/UniswapV3/Crossing/Counts.antt =====
-- The tick count of `_priceComputationCycles` of
-- src/dex/uniswap-v3/contract-math/uniswap-v3-math.ts stays while a step moves the tick.
use verified_paraswap.Prelude.{◌≡◌, refl, Bool, true, false, Bool-cases, inl, inr}
use verified_paraswap.Prelude.Int.{ℤ, ◌==ℤ◌}
use verified_paraswap.Prelude.Result.{Yields, Yields-bind, Yields-then}
use verified_paraswap.UniswapV3.Types.{PoolState, Slot0}
use verified_paraswap.UniswapV3.TickMath.{get_tick_at_sqrt_ratio}
use verified_paraswap.UniswapV3.FullMath.{add_delta}
use verified_paraswap.UniswapV3.Oracle.{observe_single_now}
use verified_paraswap.UniswapV3.Ticks.{cross}
use verified_paraswap.UniswapV3.Crossing.{
  PriceComputationState, PriceComputationCache, Ticks, with_observation, cross_tick,
  cross_if_initialized, move_tick, cache_accumulators,
}

module _ (pool : PoolState) (slot : Slot0) where
  pub with_observation-count :
      (cache : PriceComputationCache)
      → Yields
          (λ (c : PriceComputationCache). c.tick_count ≡ cache.tick_count)
          (with_observation pool slot cache)
  unfolding with_observation
  with_observation-count cache = elim (Bool-cases cache.computed_latest_observation) [
    | inl done ↦ rw done refl
    | inr new ↦ rw new (Yields-bind _ (observe_single_now pool _ _ _ _) _ λ _ _. refl)
  ]

  pub cross_tick-count :
      (zero_for_one : Bool) (tick : ℤ) (cache : PriceComputationCache) (ticks : Ticks) (l : ℤ)
      → Yields
          (λ (m : PriceComputationCache × Ticks × ℤ). m.0.tick_count ≡ cache.tick_count)
          (cross_tick pool slot zero_for_one tick cache ticks l)
  unfolding cross_tick
  cross_tick-count zero_for_one tick cache ticks l =
      Yields-then _ _ (with_observation pool slot cache) _ (with_observation-count cache) λ c e.
        Yields-bind _ (cross ticks tick (cache_accumulators c)) _
          λ crossed _. Yields-bind _ (add_delta l _) _ λ _ _. e

  pub cross_if_initialized-count :
      (zero_for_one : Bool) (tick : ℤ) (initialized : Bool) (cache : PriceComputationCache)
      (ticks : Ticks) (l : ℤ)
      → Yields
          (λ (m : PriceComputationCache × Ticks × ℤ). m.0.tick_count ≡ cache.tick_count)
          (cross_if_initialized pool slot zero_for_one tick initialized cache ticks l)
  unfolding cross_if_initialized
  cross_if_initialized-count zero_for_one tick true cache ticks l =
      cross_tick-count zero_for_one tick cache ticks l
  cross_if_initialized-count zero_for_one tick false cache ticks l = refl

  pub move_tick-count :
      (zero_for_one : Bool) (tick_next : ℤ) (initialized : Bool) (price_start price_next : ℤ)
      (state : PriceComputationState) (cache : PriceComputationCache) (ticks : Ticks)
      → Yields
          (λ (m : PriceComputationState × PriceComputationCache × Ticks).
            m.1.tick_count ≡ cache.tick_count)
          (move_tick pool slot zero_for_one tick_next initialized price_start price_next state cache
            ticks)
  unfolding move_tick
  move_tick-count zero_for_one tick_next initialized price_start price_next state cache ticks =
      elim (Bool-cases (state.sqrt_price_x96 ==ℤ price_next)) [
        | inl at_tick ↦ rw at_tick (
            Yields-then _ _
              (cross_if_initialized pool slot zero_for_one tick_next initialized cache ticks
                state.liquidity)
              _
              (cross_if_initialized-count zero_for_one tick_next initialized cache ticks
                state.liquidity)
              λ crossed e. e)
        | inr between ↦ rw between (elim (Bool-cases (state.sqrt_price_x96 ==ℤ price_start)) [
          | inl still ↦ rw still refl
          | inr moved ↦
              rw moved (Yields-bind _ (get_tick_at_sqrt_ratio state.sqrt_price_x96) _ λ _ _. refl)
        ])
      ]
