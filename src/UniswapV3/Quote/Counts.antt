-- ===== src/UniswapV3/Quote/Counts.antt =====
-- What `queryOutputs` of src/dex/uniswap-v3/contract-math/uniswap-v3-math.ts gives for the amounts.
use verified_paraswap.Prelude.{
  ℕ, ◌≤◌, ◌<◌, ◌≡◌, ◌≢◌, ◌∙◌, refl, sym, Bool, true, false, not, ◌&&◌, ◌||◌, List, [], ◌∷◌, ◌==◌,
  if◌then◌else◌, Bool-cases, inl, inr, arith,
}
use mathlib.Core.Path.{subst}
use verified_paraswap.Prelude.Int.{ℤ, pos, ◌==ℤ◌}
use verified_paraswap.Verified.Prices.{SwapSide}
use verified_paraswap.UniswapV3.Types.{PoolState}
use verified_paraswap.UniswapV3.Cycles.{Loop, price_computation_cycles}
use verified_paraswap.UniswapV3.Cycles.Rounds.{
  Finishes, CountFits, Finishes-bind, price_computation_cycles-Finishes,
}
use verified_paraswap.UniswapV3.Quote.{
  Progress, price_inside, specified, with_amount, sqrt_price_limit, take_result, quote_nonzero,
  quote_amount, quote_amounts, start_of, query_outputs,
}

-- One output for each amount; 0 and no ticks for an amount of 0; at most 128 ticks; and once an
-- amount could not be priced, which is a count of 0, nothing after it is.
abbrev pub Quoted : Bool → List ℤ → List (ℤ × ℕ) → Type 0
Quoted out [] [] = Unit
Quoted out [] (o ∷ os) = ⊥
Quoted out (a ∷ as') [] = ⊥
Quoted out (a ∷ as') (o ∷ os) =
    (o.1 ≤ 128)
    × (a ≡ pos 0 → o ≡ (pos 0, 0))
    × (out ≡ true → o ≡ (pos 0, 0))
    × Quoted (out || (not (a ==ℤ pos 0) && o.1 == 0)) as' os

-- While amounts are priced the tick count fits.
abbrev pub Ready : Progress → Type 0
Ready progress = progress.is_out_of_range ≡ false → progress.cache.tick_count ≤ 128

abbrev pub OneQuoted : Progress → ℤ → Progress × ℤ × ℕ → Type 0
OneQuoted progress a r =
    Ready r.0
    × (r.2 ≤ 128)
    × (a ≡ pos 0 → ◌≡◌ {A = ℤ × ℕ} (r.1, r.2) (pos 0, 0))
    × (progress.is_out_of_range ≡ true → ◌≡◌ {A = ℤ × ℕ} (r.1, r.2) (pos 0, 0))
    × (r.0.is_out_of_range ≡ (progress.is_out_of_range || (not (a ==ℤ pos 0) && r.2 == 0)))

not_zero : (a : ℤ) → (a ==ℤ pos 0) ≡ false → a ≢ pos 0
not_zero a ne e = let f = rw e at ne in ground arith

flags : (out z : Bool) (n : ℕ) → out ≡ false → z ≡ false → true ≡ (out || (not z && 0 == 0))
flags out z n p q = rw (p, q) refl

counted :
    (out z : Bool) (n : ℕ) → out ≡ false → z ≡ false → 1 ≤ n → out ≡ (out || (not z && n == 0))
counted out z n p q h = rw (p, q) (ground arith)

or_false : (b : Bool) → b ≡ (b || false)
or_false true = refl
or_false false = refl

if_lem {ℓ} :
    {A : Type ℓ} (P : A → Type 0) (b : Bool) (x y : A)
    → (b ≡ true → P x)
    → (b ≡ false → P y)
    → P (if b then x else y)
if_lem P true x y f g = f refl
if_lem P false x y f g = g refl

zero_flags : (out z : Bool) → z ≡ true → out ≡ (out || (not z && 0 == 0))
zero_flags out z e = or_false out ∙ sym (rw e refl)

out_flags : (out z : Bool) → out ≡ true → true ≡ (out || (not z && 0 == 0))
out_flags out z e = rw e refl

take_result-OneQuoted :
    (side : SwapSide) (zero_for_one exact_input : Bool) (specified_amount a : ℤ)
    (progress : Progress) (lp : Loop)
    → (a ==ℤ pos 0) ≡ false
    → progress.is_out_of_range ≡ false
    → CountFits lp
    → OneQuoted progress a (take_result side zero_for_one exact_input specified_amount progress lp)
unfolding take_result
take_result-OneQuoted side zero_for_one exact_input specified_amount a progress lp ne inside fits =
    elim (Bool-cases
      (lp.state.amount_specified_remaining ==ℤ pos 0 && lp.state.amount_calculated ==ℤ pos 0)) [
        | inl empty ↦ rw empty (
          λ (e : true ≡ false). cc,
          omega arith,
          λ e. refl,
          λ e. refl,
          flags progress.is_out_of_range (a ==ℤ pos 0) 0 inside ne,
        )
        | inr priced ↦ rw priced (
          λ e. fits.1,
          fits.1,
          λ e. absurd (not_zero a ne e),
          λ e. let f = sym inside ∙ e in cc,
          counted progress.is_out_of_range (a ==ℤ pos 0) lp.latest_cache.tick_count inside ne
              fits.0,
        )
      ]

module _ (fuel : ℕ) (pool : PoolState) (zero_for_one : Bool) (side : SwapSide)
    (enough : 128 < fuel) where
  quote_nonzero-OneQuoted :
      (progress : Progress) (a : ℤ)
      → (a ==ℤ pos 0) ≡ false
      → Ready progress
      → Finishes (OneQuoted progress a) (quote_nonzero fuel pool zero_for_one side progress a)
  unfolding quote_nonzero
  quote_nonzero-OneQuoted progress a ne ready = elim (Bool-cases (price_inside pool zero_for_one)) [
    | inr outside ↦ rw outside tt
    | inl inside ↦ rw inside (
        if_lem (Finishes (OneQuoted progress a)) progress.is_out_of_range _ _
          (λ out. (
            ready,
            omega arith,
            λ e. refl,
            λ e. refl,
            out ∙ out_flags progress.is_out_of_range (a ==ℤ pos 0) out,
          ))
          (λ priced.
            Finishes-bind (OneQuoted progress a) CountFits
              (price_computation_cycles fuel pool progress.ticks pool.slot0 _ progress.cache
                (sqrt_price_limit zero_for_one) zero_for_one _)
              _
              (price_computation_cycles-Finishes fuel pool progress.ticks pool.slot0 _
                progress.cache (sqrt_price_limit zero_for_one) zero_for_one _ (ready priced) enough)
              λ lp fits.
                let waiting : Progress = record progress {
                  state = with_amount progress (specified side a);
                } in
                take_result-OneQuoted side zero_for_one _ _ a waiting lp ne priced fits))
  ]

  quote_amount-OneQuoted :
      (progress : Progress) (a : ℤ)
      → Ready progress
      → Finishes (OneQuoted progress a) (quote_amount fuel pool zero_for_one side progress a)
  unfolding quote_amount
  quote_amount-OneQuoted progress a ready = elim (Bool-cases (a ==ℤ pos 0)) [
    | inl zero_amount ↦ rw zero_amount (
      ready,
      omega arith,
      λ e. refl,
      λ e. refl,
      zero_flags progress.is_out_of_range (a ==ℤ pos 0) zero_amount,
    )
    | inr ne ↦ rw ne (quote_nonzero-OneQuoted progress a ne ready)
  ]

  quote_amounts-Quoted :
      (progress : Progress) (amounts : List ℤ)
      → Ready progress
      → Finishes
          (Quoted progress.is_out_of_range amounts)
          (quote_amounts fuel pool zero_for_one side progress amounts)
  unfolding quote_amounts
  quote_amounts-Quoted progress [] ready = tt
  quote_amounts-Quoted progress (a ∷ amounts) ready =
      Finishes-bind (Quoted progress.is_out_of_range (a ∷ amounts)) (OneQuoted progress a)
        (quote_amount fuel pool zero_for_one side progress a) _
        (quote_amount-OneQuoted progress a ready)
        λ (r : Progress × ℤ × ℕ) one.
          Finishes-bind _ (Quoted r.0.is_out_of_range amounts)
            (quote_amounts fuel pool zero_for_one side r.0 amounts) _
            (quote_amounts-Quoted r.0 amounts one.0)
            λ outputs rest.
              (one.1, one.2, one.3, subst (λ (b : Bool). Quoted b amounts outputs) one.4 rest)

-- Pricing amounts for a swap never runs out of the fuel of 129 rounds for an amount, and unless it
-- throws gives one output for each amount, each with a tick count of at most 128, an output of 0
-- with a count of 0 for an amount of 0, and nothing but such outputs behind an amount other than 0
-- whose count is 0.
pub query_outputs-Quoted :
    (pool : PoolState) (amounts : List ℤ) (zero_for_one : Bool) (side : SwapSide)
    → Finishes (Quoted false amounts) (query_outputs pool amounts zero_for_one side)
unfolding query_outputs start_of
query_outputs-Quoted pool amounts zero_for_one side =
    quote_amounts-Quoted 129 pool zero_for_one side (omega arith) (start_of pool zero_for_one)
      amounts (λ e. omega arith)
