-- ===== src/UniswapV3/Crossing/Liquidity.antt =====
-- Crossing ticks in src/dex/uniswap-v3/contract-math/uniswap-v3-math.ts leaves which ticks have
-- liquidity.
use verified_paraswap.Prelude.{◌≡◌, refl, Bool, true, false, Bool-cases, Option-cases, inl, inr}
use verified_paraswap.Prelude.Int.{ℤ, ◌==ℤ◌, ==ℤ→eq}
use verified_paraswap.Prelude.Result.{Yields, Yields-bind, Yields-then}
use verified_paraswap.UniswapV3.Types.{PoolState, Slot0}
use verified_paraswap.UniswapV3.TickMath.{get_tick_at_sqrt_ratio}
use verified_paraswap.UniswapV3.FullMath.{add_delta}
use verified_paraswap.UniswapV3.Ticks.{Accumulators, cross}
use verified_paraswap.UniswapV3.Ticks.Flipped.{has_liquidity}
use verified_paraswap.UniswapV3.Crossing.{
  PriceComputationState, PriceComputationCache, Ticks, with_observation, cross_tick,
  cross_if_initialized, move_tick, cache_accumulators,
}

-- The same ticks have liquidity.
abbrev pub SameLiquidity : Ticks → Ticks → Type 0
SameLiquidity before after = (k : ℤ) → has_liquidity (after k) ≡ has_liquidity (before k)

cross-SameLiquidity :
    (ticks : Ticks) (tick : ℤ) (seen : Accumulators)
    → Yields (λ (m : Ticks × ℤ). SameLiquidity ticks m.0) (cross ticks tick seen)
unfolding cross has_liquidity
cross-SameLiquidity ticks tick seen = elim (Option-cases (ticks tick)) [
  | inl missing ↦ rw (missing, Yields) tt
  | inr (info, here) ↦
      rw (here, Yields)
        λ (k : ℤ). elim (Bool-cases (k ==ℤ tick)) [
          | inl same ↦ rw (same, ==ℤ→eq k tick same, here) refl
          | inr other ↦ rw other refl
        ]
]

module _ (pool : PoolState) (slot : Slot0) (zero_for_one : Bool) where
  cross_tick-SameLiquidity :
      (tick : ℤ) (cache : PriceComputationCache) (ticks : Ticks) (l : ℤ)
      → Yields
          (λ (m : PriceComputationCache × Ticks × ℤ). SameLiquidity ticks m.1)
          (cross_tick pool slot zero_for_one tick cache ticks l)
  unfolding cross_tick
  cross_tick-SameLiquidity tick cache ticks l =
      Yields-bind _ (with_observation pool slot cache) _ λ c _.
        Yields-then _ _ (cross ticks tick (cache_accumulators c)) _
          (cross-SameLiquidity ticks tick (cache_accumulators c))
          λ crossed same. Yields-bind _ (add_delta l _) _ λ _ _. same

  cross_if_initialized-SameLiquidity :
      (tick : ℤ) (initialized : Bool) (cache : PriceComputationCache) (ticks : Ticks) (l : ℤ)
      → Yields
          (λ (m : PriceComputationCache × Ticks × ℤ). SameLiquidity ticks m.1)
          (cross_if_initialized pool slot zero_for_one tick initialized cache ticks l)
  unfolding cross_if_initialized
  cross_if_initialized-SameLiquidity tick true cache ticks l =
      cross_tick-SameLiquidity tick cache ticks l
  cross_if_initialized-SameLiquidity tick false cache ticks l = λ k. refl

  pub move_tick-SameLiquidity :
      (tick_next : ℤ) (initialized : Bool) (price_start price_next : ℤ)
      (state : PriceComputationState) (cache : PriceComputationCache) (ticks : Ticks)
      → Yields
          (λ (m : PriceComputationState × PriceComputationCache × Ticks). SameLiquidity ticks m.2)
          (move_tick pool slot zero_for_one tick_next initialized price_start price_next state cache
            ticks)
  unfolding move_tick
  move_tick-SameLiquidity tick_next initialized price_start price_next state cache ticks =
      elim (Bool-cases (state.sqrt_price_x96 ==ℤ price_next)) [
        | inl at_tick ↦ rw at_tick (
            Yields-then _ _
              (cross_if_initialized pool slot zero_for_one tick_next initialized cache ticks
                state.liquidity)
              _
              (cross_if_initialized-SameLiquidity tick_next initialized cache ticks state.liquidity)
              λ crossed e. e)
        | inr between ↦ rw between (elim (Bool-cases (state.sqrt_price_x96 ==ℤ price_start)) [
          | inl still ↦ rw still (λ k. refl)
          | inr moved ↦
              rw moved (Yields-bind _ (get_tick_at_sqrt_ratio state.sqrt_price_x96) _ λ _ _ k. refl)
        ])
      ]
