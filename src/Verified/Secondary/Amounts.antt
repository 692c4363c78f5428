-- ===== src/Verified/Secondary/Amounts.antt =====
-- The sums of `_getSecondaryTokenAmount` (src/dex/verified/pools/secondary/secondaryPool.ts).
use verified_paraswap.Prelude.{
  ℕ, ◌+◌, ◌-◌, ◌*◌, ◌/◌, ◌≤◌, ◌<◌, ◌≡◌, refl, true, false, List, [], ◌∷◌, Bool-cases, inl, inr,
  arith,
}
use verified_paraswap.Prelude.Int.{ℤ, pos, ◌-ℤ◌, ltb_ℤ, leb_ℤ}
use verified_paraswap.Prelude.Result.{ok, Yields, Yields-then, Yields-weaken}
use verified_paraswap.FixedMath.{one, div_down_fixed}
use verified_paraswap.FixedMath.Rounding.{add-pos, mul_down_fixed-pos, div_down_fixed-Yields}
use verified_paraswap.Verified.Types.{OrdersState}
use verified_paraswap.Verified.Prices.{SwapSide, sell, buy}
use verified_paraswap.Verified.OrderBook.{Numbers}
use verified_paraswap.Verified.Secondary.{
  up_scaled, check_value, partial_value, fill, get_secondary_token_amount,
}
use native.Mathlib.Nat.{div-le_of_le-mul, div-mul-le_self, mul-le-mul_right}

module _ {F : Type 0} (num : Numbers F) where
  -- The scaled amounts and prices of a list of orders.
  abbrev pub Scaled : List OrdersState → List (ℕ × ℕ) → Type 0
  Scaled [] [] = Unit
  Scaled [] (e ∷ es) = ⊥
  Scaled (o ∷ os) [] = ⊥
  Scaled (o ∷ os) ((offered, price) ∷ es) =
      (up_scaled num o.amount_offered ≡ ok (pos offered))
      × (up_scaled num o.price_offered ≡ ok (pos price))
      × Scaled os es

  abbrev pub total : List (ℕ × ℕ) → ℕ
  total [] = 0
  total ((offered, price) ∷ es) = offered + total es

  -- An order's value, and that what a smaller amount pays for is not more than the order offers.
  abbrev Covers : SwapSide → ℕ → ℕ → ℕ → ℤ → Type 0
  Covers side offered price amount check =
      (c : ℕ) × (check ≡ pos c)
      × (amount < c
          → Yields (λ part. (p : ℕ) × (part ≡ pos p) × (p ≤ offered))
              (partial_value num side (pos amount) (pos price)))

  check_value-Covers :
      (side : SwapSide) (offered price amount : ℕ)
      → Yields (Covers side offered price amount) (check_value num side (pos offered) (pos price))
  check_value-Covers sell offered price amount =
      Yields-weaken _ _ (div_down_fixed (pos offered) (pos price))
        (λ check (positive, e). (
          offered * one / price,
          e,
          λ less. rw (mul_down_fixed-pos amount price) (
            amount * price / one,
            refl,
            div-le_of_le-mul one {m = amount * price} {n = offered} (
                omega (
                  arith,
                  mul-le-mul_right {m = amount} {n = offered * one / price} price (omega arith),
                  div-mul-le_self (offered * one) price,
                )),
          ),
        ))
        (div_down_fixed-Yields offered price)
  check_value-Covers buy offered price amount = rw (mul_down_fixed-pos offered price) (
    offered * price / one,
    refl,
    λ less.
        Yields-weaken _ _ (div_down_fixed (pos amount) (pos price))
          (λ part (positive, e). (
            amount * one / price,
            e,
            div-le_of_le-mul price {m = amount * one} {n = offered} (
                omega (
                  arith,
                  mul-le-mul_right {m = amount} {n = offered * price / one} one (omega arith),
                  div-mul-le_self (offered * price) one,
                )),
          ))
          (div_down_fixed-Yields amount price),
  )

  covered : (a c : ℕ) → c ≤ a → (pos a -ℤ pos c) ≡ pos (a - c)
  unfolding ◌-ℤ◌
  covered a c h = ground arith

  not_negative : (n : ℕ) → ltb_ℤ (pos n) (pos 0) ≡ false
  not_negative n = ground arith

  exhausted : (a c : ℕ) → a < c → ltb_ℤ (pos a -ℤ pos c) (pos 0) ≡ true
  unfolding ◌-ℤ◌
  exhausted a c h = ground arith

  -- For orders whose amounts and prices scale to numbers that are not negative, an amount that is
  -- not negative is filled, on top of a start value, by at most the sum of what the orders offer,
  -- or the loop throws.
  pub get_secondary_token_amount-le-total :
      (side : SwapSide) (amount ret : ℕ) (os : List OrdersState) (es : List (ℕ × ℕ))
      → Scaled os es
      → Yields
          (λ r. (n : ℕ) × (r ≡ pos n) × (ret ≤ n) × (n ≤ ret + total es))
          (get_secondary_token_amount num side (pos amount) (pos ret) os)
  unfolding get_secondary_token_amount
  get_secondary_token_amount-le-total side amount ret [] [] s =
      (ret, refl, omega arith, omega arith)
  get_secondary_token_amount-le-total side amount ret [] (e ∷ es) s = absurd s
  get_secondary_token_amount-le-total side amount ret (o ∷ os) [] s = absurd s
  get_secondary_token_amount-le-total side amount ret (o ∷ os) ((offered, price) ∷ es)
        (eo, ep, rest) =
      rw (eo, ep)
        (Yields-then _ _ (check_value num side (pos offered) (pos price)) _
          (check_value-Covers side offered price amount)
          (λ check (c, ec, covers). rw ec (elim (Bool-cases (leb_ℤ (pos c) (pos amount))) [
            | inl whole ↦
                let fits : c ≤ amount = ground arith in
                rw (whole, add-pos ret offered, covered amount c fits, not_negative (amount - c))
                  (Yields-weaken _ _
                    (get_secondary_token_amount num side (pos (amount - c)) (pos (ret + offered))
                      os)
                    (λ r (n, er, low, high). (n, er, omega arith, omega arith))
                    (get_secondary_token_amount-le-total side (amount - c) (ret + offered) os es
                      rest))
            | inr part ↦
                let short : amount < c = ground arith in
                rw (part, exhausted amount c short)
                  (Yields-then _ _
                    (fill num side false (pos ret) (pos offered) (pos price) (pos amount)) _
                    (Yields-then _ _ (partial_value num side (pos amount) (pos price)) _
                      (covers short)
                      (λ part (p, e, le).
                        rw (e, add-pos ret p) (ret + p, refl, omega arith, omega arith)))
                    (λ added q. q))
          ])))
