-- ===== src/UniswapV3/SwapStep/Parts.antt =====
-- The parts of a step of src/dex/uniswap-v3/contract-math/SwapMath.ts for an exact input.
use verified_paraswap.Prelude.{
  ℕ, zero, suc, ◌+◌, ◌-◌, ◌*◌, ◌/◌, ◌^◌, ◌≤◌, ◌<◌, ◌≡◌, ◌≢◌, sym, ap, ◌∙◌, arith, Bool, true, false,
}
use native.Mathlib.Nat.{le-div_iff_mul-le, mul-le-mul_left, mul-add, add-mul, div-le_of_le-mul}
use verified_paraswap.Prelude.Int.{pos, ◌-ℤ◌}
use verified_paraswap.Prelude.Result.{ok}
use verified_paraswap.Prelude.Words.{as_uint_n}
use verified_paraswap.UniswapV3.FullMath.{mul_div}
use verified_paraswap.UniswapV3.FullMath.Rounded.{
  ceil, ceil-le, sub-pos, mul_div-pos, mul_div_rounding_up-pos,
}
use verified_paraswap.UniswapV3.SqrtPrice.{get_next_sqrt_price_from_input}
use verified_paraswap.UniswapV3.SqrtPrice.Amounts.{
  amount0_up, amount0_down, amount1_up, amount1_down, get_amount0_delta-pos, get_amount1_delta-pos,
}
use verified_paraswap.UniswapV3.SqrtPrice.Inputs.{uint256-pos}
use verified_paraswap.UniswapV3.SwapStep.{
  SwapStep, million, amount_in_between, amount_out_between, step_exact_in,
}

-- The input less the fee, and the fee of an input, for a fee of `f` millionths.
abbrev pub less_fee : ℕ → ℕ → ℕ
less_fee rem f = rem * (1000000 - f) / 1000000

abbrev pub fee_of : ℕ → ℕ → ℕ
fee_of amount f = ceil (amount * f) (1000000 - f)

module _ (rem f : ℕ) (ff : f < 1000000) where
  pub less_fee-le : less_fee rem f ≤ rem
  less_fee-le =
      div-le_of_le-mul 1000000 {m = rem * (1000000 - f)} {n = rem}
        (omega (arith, mul-le-mul_left {m = 1000000 - f} {n = 1000000} rem (omega arith)))

  -- An input that fits what is left after the fee leaves room for its fee.
  pub fee_of-le : (amount : ℕ) → amount ≤ less_fee rem f → amount + fee_of amount f ≤ rem
  fee_of-le amount h =
      let k = 1000000 - f in
      let scaled : amount * 1000000 ≤ rem * k =
        (le-div_iff_mul-le {k = 1000000} {x = amount} {y = rem * k} (omega arith)).0 h in
      let whole : amount * k + amount * f ≡ amount * 1000000 =
        sym (mul-add amount k f) ∙ ap (λ (t : ℕ). amount * t) (omega arith) in
      let fits : amount ≤ rem = omega (arith, less_fee-le) in
      let rest : (rem - amount) * k + amount * k ≡ rem * k =
        sym (add-mul (rem - amount) amount k) ∙ ap (λ (t : ℕ). t * k) (omega arith) in
      let c = ceil-le (amount * f) k (rem - amount) (omega arith) (omega arith) in omega (arith, c)

-- What a step keeps: the price moves towards the target and not past it; the input and its fee
-- do not exceed the amount, and use it up where the target is not reached.
pub record IsStep (current target remaining : ℕ) (step : SwapStep) : Type 0 where
  pub next : ℕ
  pub input : ℕ
  pub output : ℕ
  pub fee : ℕ
  pub next_is : step.sqrt_ratio_next_x96 ≡ pos next
  pub input_is : step.amount_in ≡ pos input
  pub output_is : step.amount_out ≡ pos output
  pub fee_is : step.fee_amount ≡ pos fee
  pub downwards : target ≤ current → (target ≤ next) × (next ≤ current)
  pub upwards : current < target → (current ≤ next) × (next ≤ target)
  pub paid : input + fee ≤ remaining
  pub used_up : next ≢ target → input + fee ≡ remaining

module _ (z : Bool) (p t l rem f less to_target o : ℕ) (ff : f < 1000000)
    (less_is : less ≡ less_fee rem f) (rf : rem < 2 ^ 255)
    (in_is : amount_in_between z (pos p) (pos t) (pos l) ≡ ok (pos to_target)) where
  pub less_is-ok : mul_div (as_uint_n 256 (pos rem)) (million -ℤ pos f) million ≡ ok (pos less)
  less_is-ok =
      rw (uint256-pos rem (omega arith), sub-pos 1000000 f (omega arith), less_is)
        (mul_div-pos rem (1000000 - f) 1000000 (omega arith) (omega (arith, less_fee-le rem f ff)))

  -- The amount reaches the target.
  pub step_reached :
      to_target ≤ less
      → amount_out_between z (pos p) (pos t) (pos l) ≡ ok (pos o)
      → step_exact_in z (pos p) (pos t) (pos l) (pos rem) (pos f)
        ≡ ok record {
          sqrt_ratio_next_x96 = pos t;
          amount_in = pos to_target;
          amount_out = pos o;
          fee_amount = pos (fee_of to_target f);
        }
  unfolding step_exact_in
  step_reached h out_is =
      let fee : ceil (to_target * f) (1000000 - f) < 2 ^ 256 =
        omega (arith, fee_of-le rem f ff to_target (omega (arith, less_is))) in
      let fee_is = mul_div_rounding_up-pos to_target f (1000000 - f) (omega arith) fee in
      rw (less_is-ok, in_is) (ground (arith, out_is, fee_is, sub-pos 1000000 f))

  -- The amount is used up before.
  pub step_stopped :
      (q i : ℕ)
      → less < to_target
      → q ≢ t
      → get_next_sqrt_price_from_input (pos p) (pos l) (pos less) z ≡ ok (pos q)
      → amount_in_between z (pos p) (pos q) (pos l) ≡ ok (pos i)
      → amount_out_between z (pos p) (pos q) (pos l) ≡ ok (pos o)
      → i ≤ rem
      → step_exact_in z (pos p) (pos t) (pos l) (pos rem) (pos f)
        ≡ ok record {
          sqrt_ratio_next_x96 = pos q;
          amount_in = pos i;
          amount_out = pos o;
          fee_amount = pos (rem - i);
        }
  unfolding step_exact_in
  step_stopped q i h ne next_is i_is out_is le =
      rw (less_is-ok, in_is) (ground (arith, next_is, i_is, out_is, sub-pos rem i, uint256-pos rem))

pub ne_of_lt : {t q : ℕ} → t < q → q ≢ t
ne_of_lt h e = omega arith

pub ne_of_gt : {t q : ℕ} → q < t → q ≢ t
ne_of_gt h e = omega arith

module _ (l : ℕ) (lf : l < 2 ^ 128) where
  module _ (q p : ℕ) (le : q ≤ p) (qp : 0 < q) (pf : p < 2 ^ 160) where
    pub amounts_down :
        (amount_in_between true (pos p) (pos q) (pos l) ≡ ok (pos (amount0_up l q p)))
        × (amount_out_between true (pos p) (pos q) (pos l) ≡ ok (pos (amount1_down l q p)))
    unfolding amount_in_between amount_out_between
    amounts_down =
        ((get_amount0_delta-pos l q p le lf pf qp).0, (get_amount1_delta-pos l q p le lf pf).1)

    pub amounts_up :
        (amount_in_between false (pos q) (pos p) (pos l) ≡ ok (pos (amount1_up l q p)))
        × (amount_out_between false (pos q) (pos p) (pos l) ≡ ok (pos (amount0_down l q p)))
    unfolding amount_in_between amount_out_between
    amounts_up =
        ((get_amount1_delta-pos l q p le lf pf).0, (get_amount0_delta-pos l q p le lf pf qp).1)

-- With no liquidity the target costs nothing, so it is reached.
pub needs_liquidity0 : (l t p less : ℕ) → 0 < t → 0 < p → less < amount0_up l t p → 0 < l
needs_liquidity0 zero t p less tp pp h =
    let inner : ceil (0 * 2 ^ 96 * (p - t)) p ≤ 0 =
      ceil-le (0 * 2 ^ 96 * (p - t)) p 0 pp (omega arith) in
    absurd (omega (arith, ceil-le (ceil (0 * 2 ^ 96 * (p - t)) p) t 0 tp (omega arith)))
needs_liquidity0 (suc l) t p less tp pp h = omega arith

pub needs_liquidity1 : (l gap less : ℕ) → less < ceil (l * gap) (2 ^ 96) → 0 < l
needs_liquidity1 zero gap less h =
    absurd (omega (arith, ceil-le (0 * gap) (2 ^ 96) 0 (omega arith) (omega arith)))
needs_liquidity1 (suc l) gap less h = omega arith
