-- ===== src/UniswapV3/SwapStep/ExactIn.antt =====
-- A step of src/dex/uniswap-v3/contract-math/SwapMath.ts for an exact input.
use verified_paraswap.Prelude.{
  ℕ, ◌+◌, ◌-◌, ◌*◌, ◌^◌, ◌≤◌, ◌<◌, ◌≡◌, refl, arith, leb, true, false, Bool-cases, inl, inr, leb→le,
  not-leb→lt,
}
use verified_paraswap.Prelude.Int.{pos}
use verified_paraswap.Prelude.Result.{ok}
use verified_paraswap.UniswapV3.SqrtPrice.Amounts.{
  amount0_up, amount0_down, amount1_up, amount1_down,
}
use verified_paraswap.UniswapV3.SqrtPrice.Inputs.{
  price_after_input0, price_after_input0-le, amount0_up-le, target-lt, price_rise, amount1_up-le,
  price_rise-lt, get_next_sqrt_price_from_input-down, get_next_sqrt_price_from_input-up,
}
use verified_paraswap.UniswapV3.SwapStep.{SwapStep, step_exact_in, compute_swap_step}
use verified_paraswap.UniswapV3.SwapStep.Parts.{
  IsStep, fee_of, fee_of-le, less_fee, less_fee-le, ne_of_gt, ne_of_lt, needs_liquidity0,
  needs_liquidity1, step_reached, step_stopped, amounts_down, amounts_up,
}

module _ (p t l rem f : ℕ) (pp : 0 < p) (tp : 0 < t) (pf : p < 2 ^ 160) (tf : t < 2 ^ 160)
    (lf : l < 2 ^ 128) (ff : f < 1000000) (rf : rem < 2 ^ 255) where
  down-IsStep :
      t ≤ p
      → (step : SwapStep) × (step_exact_in true (pos p) (pos t) (pos l) (pos rem) (pos f) ≡ ok step)
        × IsStep p t rem step
  down-IsStep down =
      let less = less_fee rem f in
      let (in_is, out_is) = amounts_down l lf t p down tp pf in
      elim (Bool-cases (leb (amount0_up l t p) less)) [
        | inl h ↦ (
          _,
          step_reached true p t l rem f less _ _ ff refl rf in_is (leb→le _ _ h) out_is,
          record {
            next = t;
            input = amount0_up l t p;
            output = amount1_down l t p;
            fee = fee_of (amount0_up l t p) f;
            next_is = refl;
            input_is = refl;
            output_is = refl;
            fee_is = refl;
            downwards = λ _. (omega arith, down);
            upwards = λ up. absurd (omega arith);
            paid = fee_of-le rem f ff _ (leb→le _ _ h);
            used_up = λ ne. absurd (ne refl);
          },
        )
        | inr h ↦
            let short = not-leb→lt _ _ h in
            let lp = needs_liquidity0 l t p less tp pp short in
            let n = l * 2 ^ 96 in
            let np : 0 < n = omega arith in
            let q = price_after_input0 n p less in
            let q_le = price_after_input0-le n p less np pp in
            let t_lt = target-lt n p less np pp t tp down short in
            let (i_is, o_is) = amounts_down l lf q p q_le (omega arith) pf in
            let i_le = amount0_up-le n p less np pp in
            let le : amount0_up l q p ≤ rem = omega (arith, i_le, less_fee-le rem f ff) in
            (
              _,
              step_stopped true p t l rem f less _ _ ff refl rf in_is q _ short (ne_of_lt t_lt)
                  (get_next_sqrt_price_from_input-down l p less lp lf pp pf) i_is o_is le,
              record {
                next = q;
                input = amount0_up l q p;
                output = amount1_down l q p;
                fee = rem - amount0_up l q p;
                next_is = refl;
                input_is = refl;
                output_is = refl;
                fee_is = refl;
                downwards = λ _. (omega arith, q_le);
                upwards = λ up. absurd (omega arith);
                paid = omega arith;
                used_up = λ _. omega arith;
              },
            )
      ]

  up-IsStep :
      p < t
      → (step : SwapStep) × (step_exact_in false (pos p) (pos t) (pos l) (pos rem) (pos f)
          ≡ ok step)
        × IsStep p t rem step
  up-IsStep up =
      let less = less_fee rem f in
      let (in_is, out_is) = amounts_up l lf p t (omega arith) pp tf in
      elim (Bool-cases (leb (amount1_up l p t) less)) [
        | inl h ↦ (
          _,
          step_reached false p t l rem f less _ _ ff refl rf in_is (leb→le _ _ h) out_is,
          record {
            next = t;
            input = amount1_up l p t;
            output = amount0_down l p t;
            fee = fee_of (amount1_up l p t) f;
            next_is = refl;
            input_is = refl;
            output_is = refl;
            fee_is = refl;
            downwards = λ down. absurd (omega arith);
            upwards = λ _. (omega arith, omega arith);
            paid = fee_of-le rem f ff _ (leb→le _ _ h);
            used_up = λ ne. absurd (ne refl);
          },
        )
        | inr h ↦
            let short = not-leb→lt _ _ h in
            let lp = needs_liquidity1 l (t - p) less short in
            let q = p + price_rise l less in
            let rise = price_rise-lt l less lp (t - p) short in
            let q_lt : q < t = omega (arith, rise) in
            let (i_is, o_is) = amounts_up l lf p q (omega arith) pp (omega arith) in
            let gap : q - p ≡ price_rise l less = omega arith in
            let i_le : amount1_up l p q ≤ less = rw gap (amount1_up-le l less lp) in
            let le : amount1_up l p q ≤ rem = omega (arith, i_le, less_fee-le rem f ff) in
            (
              _,
              step_stopped false p t l rem f less _ _ ff refl rf in_is q _ short (ne_of_gt q_lt)
                  (get_next_sqrt_price_from_input-up l p less lp lf pp (omega arith)) i_is o_is le,
              record {
                next = q;
                input = amount1_up l p q;
                output = amount0_down l p q;
                fee = rem - amount1_up l p q;
                next_is = refl;
                input_is = refl;
                output_is = refl;
                fee_is = refl;
                downwards = λ down. absurd (omega arith);
                upwards = λ _. (omega arith, omega arith);
                paid = omega arith;
                used_up = λ _. omega arith;
              },
            )
      ]

  -- For prices that are positive and fit 160 bits, a liquidity of 128 bits, a fee below one million
  -- and an exact input below 2 ^ 255, a swap step does not throw; its price lies between the
  -- current price and the target; the amount in and the fee are together at most the input, and
  -- exactly the input where the target is not reached.
  pub compute_swap_step-IsStep :
      (step : SwapStep) × (compute_swap_step (pos p) (pos t) (pos l) (pos rem) (pos f) ≡ ok step)
      × IsStep p t rem step
  unfolding compute_swap_step
  compute_swap_step-IsStep = elim (Bool-cases (leb t p)) [
    | inl down ↦ let (step, e, is) = down-IsStep (leb→le _ _ down) in (step, ground (arith, e), is)
    | inr up ↦ let (step, e, is) = up-IsStep (not-leb→lt _ _ up) in (step, ground (arith, e), is)
  ]
