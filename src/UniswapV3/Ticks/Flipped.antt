-- ===== src/UniswapV3/Ticks/Flipped.antt =====
-- When `Tick.update` of src/dex/uniswap-v3/contract-math/Tick.ts flips a tick.
use verified_paraswap.Prelude.{
  ◌≡◌, ◌∙◌, refl, Bool, true, false, not, Option, none, some, if◌then◌else◌, Bool-cases, inl, inr,
}
use verified_paraswap.Prelude.Int.{ℤ, pos, leb_ℤ, ◌==ℤ◌, ==ℤ→eq}
use verified_paraswap.Prelude.Result.{require, liquidity_over, Yields, Yields-bind}
use verified_paraswap.UniswapV3.Types.{PoolState, TickInfo, write}
use verified_paraswap.UniswapV3.FullMath.{add_delta}
use verified_paraswap.UniswapV3.Ticks.{Accumulators, differ, info_or_zero, updated_info, update}

unfoldable pub has_liquidity : Option TickInfo → Bool
has_liquidity none = false
has_liquidity (some info) = not (info.liquidity_gross ==ℤ pos 0)

-- What updating one end leaves: the tick has liquidity or not as the flip says.
pub record EndUpdated (state : PoolState) (e : ℤ) (flip : Bool) (state' : PoolState) : Type 0 where
  pub same_bitmap : state'.tick_bitmap ≡ state.tick_bitmap
  pub same_spacing : state'.tick_spacing ≡ state.tick_spacing
  pub same_start : state'.start_tick_bitmap ≡ state.start_tick_bitmap
  pub same_lowest : state'.lowest_known_tick ≡ state.lowest_known_tick
  pub same_highest : state'.highest_known_tick ≡ state.highest_known_tick
  pub liquidity :
      (k : ℤ)
      → has_liquidity (state'.ticks k) ≡ (
          if k ==ℤ e
          then differ flip (has_liquidity (state.ticks k))
          else has_liquidity (state.ticks k))

not-differ : (a b : Bool) → not a ≡ differ (differ a b) (not b)
not-differ true true = refl
not-differ true false = refl
not-differ false true = refl
not-differ false false = refl

flip_lem :
    (o : Option TickInfo) (after : Bool)
    → not after
      ≡ differ (differ after ((info_or_zero o).liquidity_gross ==ℤ pos 0)) (has_liquidity o)
unfolding info_or_zero has_liquidity
flip_lem none after = not-differ after true
flip_lem (some info) after = not-differ after _

module _ (tick delta : ℤ) (seen : Accumulators) (upper : Bool) where
  has_some :
      (info : TickInfo) (after e : ℤ)
      → has_liquidity (some (updated_info info after e tick delta seen upper))
        ≡ not (after ==ℤ pos 0)
  unfolding updated_info has_liquidity
  has_some info after e = refl

  written :
      (state : PoolState) (e after : ℤ)
      → let info = info_or_zero (state.ticks e) in
        EndUpdated state e
          (differ (after ==ℤ pos 0) (info.liquidity_gross ==ℤ pos 0))
          (record state {
            ticks = write state.ticks e (some (updated_info info after e tick delta seen upper));
          })
  written state e after = record {
    same_bitmap = refl;
    same_spacing = refl;
    same_start = refl;
    same_lowest = refl;
    same_highest = refl;
    liquidity = λ (k : ℤ). elim (Bool-cases (k ==ℤ e)) [
      | inl same ↦
          rw (same, ==ℤ→eq k e same)
            (has_some (info_or_zero (state.ticks e)) after e
              ∙ flip_lem (state.ticks e) (after ==ℤ pos 0))
      | inr other ↦ rw other refl
    ];
  }

  pub update-EndUpdated :
      (state : PoolState) (e max : ℤ)
      → Yields
          (λ (r : PoolState × Bool). EndUpdated state e r.1 r.0)
          (update state e tick delta seen upper max)
  unfolding update
  update-EndUpdated state e max =
      let info = info_or_zero (state.ticks e) in
      Yields-bind _ (add_delta info.liquidity_gross delta) _ λ after _.
        Yields-bind _ (require (leb_ℤ after max) liquidity_over) _ λ _ _. written state e after
