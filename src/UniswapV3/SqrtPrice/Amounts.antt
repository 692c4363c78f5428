-- ===== src/UniswapV3/SqrtPrice/Amounts.antt =====
-- The amounts between two prices of src/dex/uniswap-v3/contract-math/SqrtPriceMath.ts, as quotients
-- of unsigned numbers. Prices fit 160 bits, liquidity 128.
use verified_paraswap.Prelude.{ℕ, ◌-◌, ◌*◌, ◌/◌, ◌^◌, ◌≤◌, ◌<◌, ◌≡◌, ap, arith, true, false}
use native.Mathlib.Nat.{mul-le-mul_left, mul-le-mul, div-le_of_le-mul, mul_comm}
use verified_paraswap.Prelude.Int.{pos, ◌*ℤ◌, ◌/ℤ◌}
use verified_paraswap.Prelude.Result.{ok}
use verified_paraswap.Prelude.Words.{divided-pos, as_uint_n, residue, shl}
use verified_paraswap.UniswapV3.FullMath.Rounded.{
  ceil, ceil-le, sub-pos, mul_div-pos, mul_div_rounding_up-pos, div_rounding_up-pos,
}
use verified_paraswap.UniswapV3.SqrtPrice.{
  ordered, amount0_between, get_amount0_delta, get_amount1_delta, resolution,
}

-- The first token's amount: liquidity * 2 ^ 96 * (b - a) / b / a.
abbrev pub amount0_up : ℕ → ℕ → ℕ → ℕ
amount0_up l a b = ceil (ceil (l * 2 ^ 96 * (b - a)) b) a

abbrev pub amount0_down : ℕ → ℕ → ℕ → ℕ
amount0_down l a b = l * 2 ^ 96 * (b - a) / b / a

-- The second token's amount: liquidity * (b - a) / 2 ^ 96.
abbrev pub amount1_up : ℕ → ℕ → ℕ → ℕ
amount1_up l a b = ceil (l * (b - a)) (2 ^ 96)

abbrev pub amount1_down : ℕ → ℕ → ℕ → ℕ
amount1_down l a b = l * (b - a) / 2 ^ 96

pub numerator-pos :
    (l : ℕ) → l < 2 ^ 128 → shl (as_uint_n 256 (pos l)) resolution ≡ pos (l * 2 ^ 96)
unfolding shl as_uint_n residue ◌*ℤ◌
numerator-pos l h = ap pos (ap (λ (t : ℕ). t * 2 ^ 96) (omega arith))

module _ (l a b : ℕ) (le : a ≤ b) (lf : l < 2 ^ 128) (bf : b < 2 ^ 160) where
  ordered-pos : ordered (pos a) (pos b) ≡ (pos a, pos b)
  unfolding ordered
  ordered-pos = ground arith

  -- The scaled numerator stays below the liquidity's 224 bits.
  scaled-le : (n : ℕ) → n * (b - a) ≤ n * b
  scaled-le n = mul-le-mul_left n (omega arith)

  product-lt : l * (b - a) < 2 ^ 128 * 2 ^ 160
  product-lt =
      let h =
        mul-le-mul {n₁ = l} {m₁ = b - a} {n₂ = 2 ^ 128 - 1} {m₂ = 2 ^ 160} (omega arith)
          (omega arith) in
      omega (arith, h)

  pub get_amount1_delta-pos :
      (get_amount1_delta (pos a) (pos b) (pos l) true ≡ ok (pos (amount1_up l a b)))
      × (get_amount1_delta (pos a) (pos b) (pos l) false ≡ ok (pos (amount1_down l a b)))
  unfolding get_amount1_delta
  get_amount1_delta-pos =
      rw (ordered-pos, sub-pos b a le)
        (
          mul_div_rounding_up-pos l (b - a) (2 ^ 96) (omega arith) (omega (arith, product-lt)),
          mul_div-pos l (b - a) (2 ^ 96) (omega arith) (omega (arith, product-lt)),
        )

  module _ (ap_ : 0 < a) where
    pub get_amount0_delta-pos :
        (get_amount0_delta (pos a) (pos b) (pos l) true ≡ ok (pos (amount0_up l a b)))
        × (get_amount0_delta (pos a) (pos b) (pos l) false ≡ ok (pos (amount0_down l a b)))
    unfolding get_amount0_delta amount0_between ◌/ℤ◌
    get_amount0_delta-pos =
        let n = l * 2 ^ 96 in
        let up : ceil (n * (b - a)) b < 2 ^ 256 =
          omega (arith, ceil-le (n * (b - a)) b n (omega arith) (scaled-le n)) in
        let down : n * (b - a) / b < 2 ^ 256 = omega (
          arith,
          div-le_of_le-mul b {m = n * (b - a)} {n = n} (omega (arith, scaled-le n, mul_comm n b)),
        ) in
        rw (ordered-pos, numerator-pos l lf, sub-pos b a le)
          (
            ground (
              arith,
              mul_div_rounding_up-pos n (b - a) b (omega arith) up,
              div_rounding_up-pos (ceil (n * (b - a)) b) a ap_,
            ),
            ground (
              arith,
              mul_div-pos n (b - a) b (omega arith) down,
              divided-pos (pos (n * (b - a) / b)) a ap_,
            ),
          )
