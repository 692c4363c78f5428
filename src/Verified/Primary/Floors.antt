-- ===== src/Verified/Primary/Floors.antt =====
-- The minimum price and the minimum order size in the sales of
-- src/dex/verified/pools/primary/primaryPool.ts.
use verified_paraswap.Prelude.{
  ℕ, zero, suc, ◌+◌, ◌*◌, ◌/◌, ◌≤◌, ◌<◌, ◌≡◌, ◌⊎◌, refl, Bool, true, false, Option, none, some, inl,
  inr, arith, get_elem?, Bool-cases, if◌then◌else◌,
}
use verified_paraswap.Prelude.Int.{ℤ, pos, ltb_ℤ, leb_ℤ, ◌==ℤ◌}
use verified_paraswap.Prelude.Result.{ok, ◌>>=◌, Yields, Yields-then, Yields-catch, Yields-weaken}
use verified_paraswap.FixedMath.{one, div_down_fixed}
use verified_paraswap.FixedMath.Rounding.{add-pos, mul_down_fixed-pos, div_down_fixed-Yields}
use verified_paraswap.Verified.Types.{PoolPairData}
use verified_paraswap.Verified.Primary.{
  security_out, currency_out, settle_out, try_token_out, get_primary_token_out, quote_out, below,
  scaled_balances,
}
use verified_paraswap.Verified.Primary.Solvency.{scaled_balances-Yields}
use native.Mathlib.Nat.{
  le_trans, mul-le-mul_right, div-le_of_le-mul, div-mul-le_self, le-div_iff_mul-le,
}

-- A sale of currency that came to `a` of the security, both scaled: not less than the order size,
-- and not cheaper than the minimum price.
abbrev pub BoughtAt : ℕ → ℕ → ℕ → ℕ → Type 0
BoughtAt M P scaled a = (0 < a) × (M ≤ a) × (a * P ≤ scaled * one)

-- A sale of the security that came to `a` of the currency, both scaled.
abbrev pub SoldAt : ℕ → ℕ → ℕ → ℕ → Type 0
SoldAt M P scaled a = (0 < scaled) × (M ≤ scaled) × (P * scaled ≤ a * one)

abbrev pub DealtAt : Bool → ℕ → ℕ → ℕ → ℕ → Type 0
DealtAt true = BoughtAt
DealtAt false = SoldAt

abbrev pub Quoted : (ℕ → Type 0) → Option ℤ → Type 0
Quoted Q q = (q ≡ none) ⊎ ((a : ℕ) × (q ≡ some (pos a)) × Q a)

ratio-ge-one : (x s : ℕ) → 0 < x → one ≤ (x + s) * one / x
ratio-ge-one x s h = (le-div_iff_mul-le h).1 (omega arith)

-- Dividing by a ratio of one or more does not raise the amount.
bought_floor : (P s ratio : ℕ) → 0 < P → one ≤ ratio → (s * one / P * one / ratio) * P ≤ s * one
bought_floor P s ratio hp hr =
    le_trans
      (mul-le-mul_right P
        (div-le_of_le-mul ratio {m = s * one / P * one} {n = s * one / P} (grind arith)))
      (div-mul-le_self (s * one) P)

module _ (d : PoolPairData) (M P : ℕ) (order_size : d.min_order_size ≡ pos M)
    (price : d.min_price ≡ some (pos P)) where
  accept_bought :
      (s a : ℕ)
      → a * P ≤ s * one
      → Yields (Quoted (BoughtAt M P s)) (
          if ltb_ℤ (pos a) d.min_order_size then ok none else (do
            unit ← div_down_fixed (pos s) (pos a)
            ok (if ltb_ℤ unit (pos P) then none else some (pos a))))
  unfolding div_down_fixed
  accept_bought s zero h = rw order_size (ground arith)
  accept_bought s (suc a) h = rw order_size (ground arith)

  security_out_floor :
      (x s : ℕ) → Yields (Quoted (BoughtAt M P s)) (security_out d (some (pos x)) (pos s))
  unfolding security_out
  security_out_floor x s =
      rw (add-pos x s, price)
        (Yields-then _ _ (div_down_fixed (pos s) (pos P)) _ (div_down_fixed-Yields s P) (λ post hp.
          Yields-then _ _ (div_down_fixed (pos (x + s)) (pos x)) _ (div_down_fixed-Yields (x + s) x)
            (λ ratio hx.
              rw (hp.1, hx.1)
                (Yields-then _ _ (div_down_fixed (pos (s * one / P)) (pos ((x + s) * one / x))) _
                  (div_down_fixed-Yields (s * one / P) ((x + s) * one / x))
                  (λ out ho. rw ho.1 (
                    accept_bought s (s * one / P * one / ((x + s) * one / x))
                      (bought_floor P s ((x + s) * one / x) hp.0 (ratio-ge-one x s hx.0))))))))

  accept_sold :
      (s a : ℕ)
      → M ≤ s
      → Yields (Quoted (SoldAt M P s)) (do
        unit ← div_down_fixed (pos a) (pos s)
        ok (if ltb_ℤ unit (pos P) then none else some (pos a)))
  accept_sold s a h =
      Yields-then _ _ (div_down_fixed (pos a) (pos s)) _ (div_down_fixed-Yields a s) (λ unit u.
        rw u.1 (elim (Bool-cases (ltb_ℤ (pos (a * one / s)) (pos P))) [
          | inl cheap ↦ rw cheap (inl refl)
          | inr dear ↦ rw dear (inr (a, refl, (u.0, h, (le-div_iff_mul-le u.0).0 (ground arith))))
        ]))

  currency_out_floor :
      (x s : ℕ) → Yields (Quoted (SoldAt M P s)) (currency_out d (some (pos x)) (pos s))
  unfolding currency_out
  currency_out_floor x s = elim (Bool-cases (leb_ℤ (pos x) (pos 0))) [
    | inl empty ↦ rw empty (inl refl)
    | inr held ↦
        rw (held, order_size)
          (elim (Bool-cases (ltb_ℤ (pos s) (pos M))) [
            | inl small ↦ rw small (inl refl)
            | inr fits ↦
                rw (fits, add-pos s x)
                  (Yields-then _ _ (div_down_fixed (pos (s + x)) (pos x)) _
                    (div_down_fixed-Yields (s + x) x)
                    (λ post hx.
                      rw (price, hx.1, mul_down_fixed-pos s P, mul_down_fixed-pos)
                        (accept_sold s _ (ground arith))))
          ])
  ]

  quote_out_floor :
      (c : Bool) (x s : ℕ)
      → Yields (Quoted (DealtAt c M P s)) (quote_out d c (some (pos x)) (pos s))
  unfolding quote_out
  quote_out_floor true x s = security_out_floor x s
  quote_out_floor false x s = currency_out_floor x s

  settle_out_floor :
      (c : Bool) (s Fo : ℕ) (out_balance quote : Option ℤ)
      → get_elem? d.scaling_factors d.index_out ≡ some (pos Fo)
      → Quoted (DealtAt c M P s) quote
      → Yields
          (λ r. (r ≡ pos 0) ⊎ ((a : ℕ) × DealtAt c M P s a × (r ≡ pos (a * one / Fo))))
          (settle_out d out_balance quote)
  unfolding settle_out
  settle_out_floor c s Fo out_balance quote hf (inl e) = rw e (inl refl)
  settle_out_floor c s Fo out_balance quote hf (inr (a, e, q)) =
      rw e (elim (Bool-cases (below out_balance (pos a))) [
        | inl short ↦ rw short (inl refl)
        | inr enough ↦
            rw (enough, hf)
              (Yields-weaken _ _ (div_down_fixed (pos a) (pos Fo)) (λ r hr. inr (a, q, hr.1))
                (div_down_fixed-Yields a Fo))
      ])

  try_token_out_floor :
      (c : Bool) (n X Fi Fo : ℕ)
      → get_elem? d.balances d.index_in ≡ some (pos X)
      → get_elem? d.scaling_factors d.index_in ≡ some (pos Fi)
      → get_elem? d.scaling_factors d.index_out ≡ some (pos Fo)
      → Yields
          (λ r. (r ≡ pos 0) ⊎ ((a : ℕ) × DealtAt c M P (n * Fi / one) a × (r ≡ pos (a * one / Fo))))
          (try_token_out d (pos n) c)
  unfolding try_token_out
  try_token_out_floor c n X Fi Fo hx hi ho = elim (Bool-cases (pos n ==ℤ pos 0)) [
    | inl z ↦ rw z (inl refl)
    | inr nz ↦
        rw (nz, hi, mul_down_fixed-pos n Fi)
          (Yields-then _ _ (scaled_balances d.balances d.scaling_factors) _
            (scaled_balances-Yields d.balances d.scaling_factors d.index_in X Fi hx hi)
            (λ scaled e. rw e (
              Yields-then _ _ (quote_out d c (some (pos (X * Fi / one))) (pos (n * Fi / one))) _
                (quote_out_floor c (X * Fi / one) (n * Fi / one))
                (λ quote q.
                  settle_out_floor c (n * Fi / one) Fo (get_elem? scaled d.index_out) quote ho q))))
  ]

  -- On a pool whose minimum order size, minimum price, balance and scaling factors are not
  -- negative, a sale of an amount that is not negative is quoted zero, or an amount at 18 decimals
  -- that meets the terms of the pool, divided by the scaling factor of the token paid out and
  -- rounded down: for currency paid in, this amount, before the last rounding, is at least the
  -- minimum order size, and times the minimum price at most the scaled amount paid in; for security
  -- paid in, the scaled amount paid in is positive, at least the minimum order size, and times the
  -- minimum price at most this amount.
  pub get_primary_token_out_floor :
      (c : Bool) (n X Fi Fo : ℕ)
      → get_elem? d.balances d.index_in ≡ some (pos X)
      → get_elem? d.scaling_factors d.index_in ≡ some (pos Fi)
      → get_elem? d.scaling_factors d.index_out ≡ some (pos Fo)
      → (get_primary_token_out d (pos n) c ≡ pos 0)
        ⊎ ((a : ℕ) × DealtAt c M P (n * Fi / one) a
            × (get_primary_token_out d (pos n) c ≡ pos (a * one / Fo)))
  unfolding get_primary_token_out
  get_primary_token_out_floor c n X Fi Fo hx hi ho =
      Yields-catch
        (λ r. (r ≡ pos 0) ⊎ ((a : ℕ) × DealtAt c M P (n * Fi / one) a × (r ≡ pos (a * one / Fo))))
        (try_token_out d (pos n) c) (pos 0) (try_token_out_floor c n X Fi Fo hx hi ho) (inl refl)
