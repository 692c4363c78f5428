-- ===== src/UniswapV3/SqrtPrice/Inputs.antt =====
-- The price after an input: `getNextSqrtPriceFromInput` of
-- src/dex/uniswap-v3/contract-math/SqrtPriceMath.ts, on unsigned numbers.
use verified_paraswap.Prelude.{
  ℕ, ◌+◌, ◌-◌, ◌*◌, ◌/◌, ◌^◌, ◌≤◌, ◌<◌, ◌≡◌, refl, sym, ap, ◌∙◌, arith, ltb, ◌==◌, true, false,
  Bool-cases, inl, inr, ltb→lt, not-ltb→le, ==→eq, not-==→ne,
}
use native.Mathlib.Nat.{
  div-lt_iff_lt-mul, mul_comm, mul-div_cancel_left, div-mul-le_self, lt_of_mul-lt-mul_left,
  le_of_mul-le-mul_left, mul-add,
}
use verified_paraswap.Prelude.Int.{pos, ◌+ℤ◌, ◌*ℤ◌, ◌/ℤ◌}
use verified_paraswap.Prelude.Result.{ok}
use verified_paraswap.Prelude.Words.{divided-pos, as_uint_n, residue, shl}
use verified_paraswap.UniswapV3.FullMath.Rounded.{
  ceil, ceil-le, le-ceil, lt-ceil, mul_div-pos, mul_div_rounding_up-pos,
}
use verified_paraswap.UniswapV3.SqrtPrice.{
  next_from_amount0_added, next_from_amount1_added, quotient_rounding_down, product_exact,
  get_next_sqrt_price_from_amount0_rounding_up, get_next_sqrt_price_from_amount1_rounding_down,
  get_next_sqrt_price_from_input,
}
use verified_paraswap.UniswapV3.SqrtPrice.Amounts.{numerator-pos}

uint160-pos : (n : ℕ) → n < 2 ^ 160 → as_uint_n 160 (pos n) ≡ pos n
unfolding as_uint_n residue
uint160-pos n h = ap pos (omega arith)

pub uint256-pos : (n : ℕ) → n < 2 ^ 256 → as_uint_n 256 (pos n) ≡ pos n
unfolding as_uint_n residue
uint256-pos n h = ap pos (omega arith)

-- An input of the first token lowers the price `p` to this one; `n` is the scaled liquidity.
abbrev pub price_after_input0 : ℕ → ℕ → ℕ → ℕ
price_after_input0 n p amount = ceil (n * p) (n + amount * p)

-- An input of the second token raises it by this much.
abbrev pub price_rise : ℕ → ℕ → ℕ
price_rise l amount = amount * 2 ^ 96 / l

module _ (n p amount : ℕ) (np : 0 < n) (pp : 0 < p) where
  positive : 0 < n + amount * p
  positive = omega (arith, np)

  pub price_after_input0-le : price_after_input0 n p amount ≤ p
  price_after_input0-le = ceil-le (n * p) (n + amount * p) p positive (grind arith)

  covers : n * p ≤ price_after_input0 n p amount * n + price_after_input0 n p amount * (amount * p)
  covers =
      let h = le-ceil (n * p) (n + amount * p) positive in
      omega (arith, h, mul-add (price_after_input0 n p amount) n (amount * p))

  pub price_after_input0_pos : 0 < price_after_input0 n p amount
  price_after_input0_pos = elim (Bool-cases (ltb 0 (price_after_input0 n p amount))) [
    | inl h ↦ ltb→lt _ _ h
    | inr h ↦
        let z : price_after_input0 n p amount ≡ 0 = omega (arith, not-ltb→le _ _ h) in
        let c = rw z at covers in let m : 0 < n * p = grind arith in absurd (omega (arith, c, m))
  ]

  -- Moving the price takes no more than the amount.
  pub amount0_up-le :
      ceil (ceil (n * (p - price_after_input0 n p amount)) p) (price_after_input0 n p amount)
      ≤ amount
  amount0_up-le =
      let q = price_after_input0 n p amount in
      let e : n * (p - q) + n * q ≡ n * p =
        sym (mul-add n (p - q) q) ∙ ap (λ (t : ℕ). n * t) (omega (arith, price_after_input0-le)) in
      let f : amount * q * p ≡ q * (amount * p) = grind arith in
      let inner : ceil (n * (p - q)) p ≤ amount * q =
        ceil-le (n * (p - q)) p (amount * q) pp (omega (arith, e, f, covers, mul_comm n q)) in
      ceil-le _ q amount price_after_input0_pos inner

  -- An amount too small to reach a lower price stops above it.
  pub target-lt :
      (t : ℕ)
      → 0 < t
      → t ≤ p
      → amount < ceil (ceil (n * (p - t)) p) t
      → t < price_after_input0 n p amount
  target-lt t tp tl h =
      let q = price_after_input0 n p amount in
      let l : amount * t * p < n * (p - t) =
        lt-ceil (n * (p - t)) p (amount * t) pp (lt-ceil _ t amount tp h) in
      let e : n * (p - t) + n * t ≡ n * p =
        sym (mul-add n (p - t) t) ∙ ap (λ (x : ℕ). n * x) (omega arith) in
      let f : t * (n + amount * p) ≡ n * t + amount * t * p = grind arith in
      let g : q * (n + amount * p) ≡ q * n + q * (amount * p) = mul-add q n (amount * p) in
      lt_of_mul-lt-mul_left (n + amount * p) (
        omega (arith, e, f, g, l, covers, mul_comm (n + amount * p) t, mul_comm (n + amount * p) q))

  pub next_from_amount0_added-pos :
      0 < amount
      → p < 2 ^ 160
      → next_from_amount0_added (pos p) (pos n) (pos amount)
        ≡ ok (pos (price_after_input0 n p amount))
  unfolding next_from_amount0_added product_exact ◌*ℤ◌ ◌/ℤ◌ ◌+ℤ◌
  next_from_amount0_added-pos h pf =
      let c = mul-div_cancel_left p {n = amount} h in
      let m =
        mul_div_rounding_up-pos n p (n + amount * p) positive
          (omega (arith, price_after_input0-le)) in
      let u = uint160-pos (price_after_input0 n p amount) (omega (arith, price_after_input0-le)) in
      rw c (ground (arith, m, u))

module _ (l amount : ℕ) (lp : 0 < l) where
  -- Moving the price up takes no more than the amount.
  pub amount1_up-le : ceil (l * price_rise l amount) (2 ^ 96) ≤ amount
  amount1_up-le =
      ceil-le (l * price_rise l amount) (2 ^ 96) amount (omega arith)
        (omega (arith, div-mul-le_self (amount * 2 ^ 96) l, mul_comm l (price_rise l amount)))

  -- An amount too small to reach a higher price stops below it.
  pub price_rise-lt : (gap : ℕ) → amount < ceil (l * gap) (2 ^ 96) → price_rise l amount < gap
  price_rise-lt gap h =
      (div-lt_iff_lt-mul lp).1
        (omega (arith, lt-ceil (l * gap) (2 ^ 96) amount (omega arith) h, mul_comm l gap))

  pub quotient_rounding_down-pos :
      price_rise l amount < 2 ^ 160
      → quotient_rounding_down (pos amount) (pos l) ≡ ok (pos (price_rise l amount))
  unfolding quotient_rounding_down shl ◌*ℤ◌ ◌/ℤ◌
  quotient_rounding_down-pos h = ground (
    arith,
    divided-pos (pos (amount * 2 ^ 96)) l lp,
    mul_div-pos amount (2 ^ 96) l lp (omega (arith, h)),
  )

  pub next_from_amount1_added-pos :
      (p : ℕ)
      → p + price_rise l amount < 2 ^ 160
      → next_from_amount1_added (pos p) (pos l) (pos amount) ≡ ok (pos (p + price_rise l amount))
  unfolding next_from_amount1_added ◌+ℤ◌
  next_from_amount1_added-pos p h =
      rw
        (
          quotient_rounding_down-pos (omega arith),
          uint256-pos p (omega arith),
          uint160-pos (p + price_rise l amount) h,
        )
        refl

module _ (l p amount : ℕ) (lp : 0 < l) (lf : l < 2 ^ 128) (pp : 0 < p) where
  unmoved : price_after_input0 (l * 2 ^ 96) p 0 ≡ p
  unmoved =
      let n : 0 < l * 2 ^ 96 = omega arith in
      let c = covers (l * 2 ^ 96) p 0 n pp in
      let q = price_after_input0 (l * 2 ^ 96) p 0 in
      let le : p ≤ q =
        le_of_mul-le-mul_left {m = p} {n = q} {k = l * 2 ^ 96}
          (omega (arith, c, mul_comm q (l * 2 ^ 96))) n in
      omega (arith, le, price_after_input0-le (l * 2 ^ 96) p 0 n pp)

  pub get_next_sqrt_price_from_input-down :
      p < 2 ^ 160
      → get_next_sqrt_price_from_input (pos p) (pos l) (pos amount) true
        ≡ ok (pos (price_after_input0 (l * 2 ^ 96) p amount))
  unfolding get_next_sqrt_price_from_input get_next_sqrt_price_from_amount0_rounding_up
  get_next_sqrt_price_from_input-down pf =
      rw (numerator-pos l lf) (elim (Bool-cases (amount == 0)) [
        | inl z ↦ rw (==→eq _ _ z) (ground (arith, unmoved))
        | inr nz ↦
            let h : 0 < amount = omega (arith, not-==→ne _ _ nz) in
            ground (arith, next_from_amount0_added-pos (l * 2 ^ 96) p amount (omega arith) pp h pf)
      ])

  pub get_next_sqrt_price_from_input-up :
      p + price_rise l amount < 2 ^ 160
      → get_next_sqrt_price_from_input (pos p) (pos l) (pos amount) false
        ≡ ok (pos (p + price_rise l amount))
  unfolding get_next_sqrt_price_from_input get_next_sqrt_price_from_amount1_rounding_down
  get_next_sqrt_price_from_input-up h = ground (arith, next_from_amount1_added-pos l amount lp p h)
