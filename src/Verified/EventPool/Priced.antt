-- ===== src/Verified/EventPool/Priced.antt =====
-- `getPricesPool` of src/dex/verified/verified-pool.ts on a primary issue pool, from the tracked state on.
use verified_paraswap.Prelude.{
  ℕ, zero, suc, ◌^◌, ◌*◌, ◌≡◌, refl, sym, ap, ◌∙◌, inl, inr, Bool, Option, none, some,
  if◌then◌else◌, List, [], ◌∷◌, map, All, arith, length, get_elem?,
}
use mathlib.Core.Path.{subst}
use verified_paraswap.Prelude.Int.{ℤ, pos, ◌≤ℤ◌}
use verified_paraswap.Prelude.Result.{Result, ok, err, ◌>>=◌, Yields}
use verified_paraswap.Prelude.Text.{Text, text_eq}
use verified_paraswap.FixedMath.{one}
use verified_paraswap.Verified.Types.{primary_issue_pool, PoolState, SubgraphPoolBase, PoolPairData}
use verified_paraswap.Verified.Primary.{get_primary_token_out, try_token_out}
use verified_paraswap.Verified.Primary.Solvency.{get_primary_token_out-le-balance}
use verified_paraswap.Verified.Parse.{IsScale, parse_pool_pair_data, parse_pool_pair_data-Aligned}
use verified_paraswap.Verified.Prices.{
  sell, Prices, price_amounts, price_amounts_lem, is_supported_pool,
}
use verified_paraswap.Verified.OrderBook.{Numbers}
use verified_paraswap.Verified.EventPool.{get_prices_pool, parse_pair_of, quotes_of}

-- An entry of a list has a partner in every list of the same length.
All-partner :
    (P : ℤ → Type 0) (xs ys : List ℤ) (i : ℕ) (y : ℤ)
    → length xs ≡ length ys
    → All P xs
    → get_elem? ys i ≡ some y
    → (x : ℤ) × (get_elem? xs i ≡ some x) × P x
All-partner P [] [] i y l a e = cc
All-partner P [] (z ∷ ys) i y l a e = absurd (omega (arith, l))
All-partner P (x ∷ xs) [] i y l a e = cc
All-partner P (x ∷ xs) (z ∷ ys) zero y l a e = (x, refl, a.0)
All-partner P (x ∷ xs) (z ∷ ys) (suc i) y l a e = All-partner P xs ys i y (omega (arith, l)) a.1 e

All-map : (P : ℤ → Type 0) (f : ℤ → ℤ) (xs : List ℤ) → ((x : ℤ) → P (f x)) → All P (map f xs)
All-map P f [] h = tt
All-map P f (x ∷ xs) h = (h x, All-map P f xs h)

Yields-ok {ℓ κ} : {A : Type ℓ} (P : A → Type κ) (m : Result A) (a : A) → Yields P m → m ≡ ok a → P a
Yields-ok P (ok b) a h e = let same : b ≡ a = cc in subst P same h
Yields-ok P (err x) a h e = cc

-- Nothing in the answer, if there is one, is above the bound.
abbrev pub Within : ℕ → Option Prices → Type 0
Within b none = Unit
Within b (some p) = (p.unit ≤ℤ pos b) × All (λ x. x ≤ℤ pos b) p.prices

module _ {F : Type 0} (num : Numbers F) (creator : Text) where
  primary_sale-zero : (d : PoolPairData) (c : Bool) → get_primary_token_out d (pos 0) c ≡ pos 0
  unfolding get_primary_token_out try_token_out
  primary_sale-zero d c = refl

  factor_out :
      (pool : SubgraphPoolBase) (state : PoolState) (from to : Text) (d : PoolPairData) (b : ℕ)
      → parse_pool_pair_data pool state from to ≡ ok d
      → get_elem? d.balances d.index_out ≡ some (pos b)
      → (f : ℕ) × (get_elem? d.scaling_factors d.index_out ≡ some (pos f))
  factor_out pool state from to d b parsed held =
      let a =
        Yields-ok _ (parse_pool_pair_data pool state from to) d
          (parse_pool_pair_data-Aligned pool state from to) parsed in
      let (x, e, (k, _, scale)) =
        All-partner IsScale d.scaling_factors d.balances d.index_out (pos b)
          (a.factors_length ∙ sym a.balances_length) a.factors_scale held in
      (one * 10 ^ k, e ∙ ap some scale)

  priced-Within :
      (d : PoolPairData) (c : Bool) (b : ℕ) (placeholder : ℤ) (rest : List ℤ) (unit_volume : ℤ)
      → ((amount : ℤ) → get_primary_token_out d amount c ≤ℤ pos b)
      → Yields (Within b) (
          price_amounts
            (quotes_of num creator primary_issue_pool)
            sell
            d
            c
            (placeholder ∷ rest)
            unit_volume)
  unfolding quotes_of
  priced-Within d c b placeholder rest unit_volume h =
      elim (price_amounts_lem (quotes_of num creator primary_issue_pool) sell d c placeholder rest
        unit_volume (primary_sale-zero d c)) [
          | inl (e, _) ↦ rw e tt
          | inr (e, _) ↦ rw e (h unit_volume, (omega arith, All-map _ _ rest h))
        ]

  -- For a primary pool whose parsed data hold a balance that is not negative of the token paid out,
  -- the prices of a sale, if any, and the unit price never exceed that balance, whatever the
  -- amounts.
  pub get_prices_pool-Within :
      (pool : SubgraphPoolBase) (state : PoolState) (from to : Text) (d : PoolPairData) (b : ℕ)
      (placeholder : ℤ) (rest : List ℤ) (unit_volume : ℤ)
      → pool.pool_type ≡ primary_issue_pool
      → parse_pool_pair_data pool state from to ≡ ok d
      → get_elem? d.balances d.index_out ≡ some (pos b)
      → Yields
          (Within b)
          (get_prices_pool num creator from to pool state (placeholder ∷ rest) unit_volume sell)
  unfolding get_prices_pool parse_pair_of is_supported_pool
  get_prices_pool-Within pool state from to d b placeholder rest unit_volume t parsed held =
      let (f, scaled) = factor_out pool state from to d b parsed held in
      subst
        (λ kind. Yields (Within b) (
          if is_supported_pool kind
          then (do
            data_in ← parse_pair_of num creator kind pool state from to
            price_amounts (quotes_of num creator kind) sell data_in (text_eq from pool.currency)
                (placeholder ∷ rest) unit_volume)
          else ok none))
        (sym t)
        (rw parsed (
          priced-Within d (text_eq from pool.currency) b placeholder rest unit_volume (λ amount.
            get_primary_token_out-le-balance d amount (text_eq from pool.currency) b f held
              scaled)))
