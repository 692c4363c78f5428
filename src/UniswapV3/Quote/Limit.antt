-- ===== src/UniswapV3/Quote/Limit.antt =====
-- When `queryOutputs` of src/dex/uniswap-v3/contract-math/uniswap-v3-math.ts throws 'SPL'.
use verified_paraswap.Prelude.{
  ℕ, ◌+◌, ◌-◌, ◌≡◌, refl, Bool, true, false, not, ◌||◌, some, List, [], ◌∷◌, map, if◌then◌else◌,
  Bool-cases, inl, inr, arith,
}
use verified_paraswap.Prelude.Int.{ℤ, pos, ◌≤ℤ◌, ◌==ℤ◌}
use verified_paraswap.Prelude.Result.{ok, err, price_limit}
use verified_paraswap.Verified.Prices.{SwapSide}
use verified_paraswap.UniswapV3.Types.{PoolState}
use verified_paraswap.UniswapV3.TickMath.{min_sqrt_ratio, max_sqrt_ratio}
use verified_paraswap.UniswapV3.Quote.{
  Progress, price_inside, sqrt_price_limit, quote_nonzero, quote_amount, quote_amounts, start_of,
  query_outputs,
}

-- The price leaves no room in the swap's direction.
abbrev pub Exhausted : Bool → ℤ → Type 0
Exhausted true price = price ≤ℤ pos (min_sqrt_ratio + 1)
Exhausted false price = pos (max_sqrt_ratio - 1) ≤ℤ price

pub any_nonzero : List ℤ → Bool
any_nonzero [] = false
any_nonzero (a ∷ amounts) = not (a ==ℤ pos 0) || any_nonzero amounts

price_outside :
    (pool : PoolState) (zero_for_one : Bool)
    → Exhausted zero_for_one pool.slot0.sqrt_price_x96
    → price_inside pool zero_for_one ≡ false
unfolding price_inside sqrt_price_limit
price_outside pool true h = ground arith
price_outside pool false h = ground arith

module _ (fuel : ℕ) (pool : PoolState) (zero_for_one : Bool) (side : SwapSide)
    (outside : price_inside pool zero_for_one ≡ false) where
  quote_amounts_limit :
      (progress : Progress) (amounts : List ℤ)
      → quote_amounts fuel pool zero_for_one side progress amounts ≡ (
          if any_nonzero amounts
          then err price_limit
          else ok (some (map (λ a. (pos 0, 0)) amounts)))
  unfolding quote_amounts quote_amount quote_nonzero any_nonzero
  quote_amounts_limit progress [] = refl
  quote_amounts_limit progress (a ∷ amounts) = elim (Bool-cases (a ==ℤ pos 0)) [
    | inl z ↦
        rw (z, quote_amounts_limit progress amounts)
          (elim (Bool-cases (any_nonzero amounts)) [
            | inl some_left ↦ rw some_left refl
            | inr none_left ↦ rw none_left refl
          ])
    | inr nz ↦ rw (nz, outside) refl
  ]

-- Where the price of the pool leaves no room in the direction of the swap, pricing amounts throws
-- the error of the price limit if any amount is not 0, and otherwise gives 0 for each.
pub query_outputs_limit :
    (pool : PoolState) (amounts : List ℤ) (zero_for_one : Bool) (side : SwapSide)
    → Exhausted zero_for_one pool.slot0.sqrt_price_x96
    → query_outputs pool amounts zero_for_one side
      ≡ (if any_nonzero amounts then err price_limit else ok (some (map (λ a. (pos 0, 0)) amounts)))
unfolding query_outputs
query_outputs_limit pool amounts zero_for_one side h =
    quote_amounts_limit 129 pool zero_for_one side (price_outside pool zero_for_one h)
      (start_of pool zero_for_one) amounts
