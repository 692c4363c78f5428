-- ===== src/Verified/Primary/Solvency.antt =====
-- The quotes of src/dex/verified/pools/primary/primaryPool.ts against the balance of the token paid out.
use verified_paraswap.Prelude.{
  ℕ, zero, suc, ◌*◌, ◌/◌, ◌<◌, ◌≡◌, ◌⊎◌, refl, Bool, true, false, Option, none, some, List, [], ◌∷◌,
  inl, inr, arith, get_elem?, Bool-cases,
}
use verified_paraswap.Prelude.Int.{ℤ, pos, negsuc, leb_ℤ, ◌==ℤ◌, ◌≤ℤ◌, ◌*ℤ◌, ◌/ℤ◌}
use verified_paraswap.Prelude.Result.{Yields, Yields-bind, Yields-then, Yields-catch, Yields-always}
use verified_paraswap.FixedMath.{one, mul_down_fixed, div_down_fixed}
use verified_paraswap.FixedMath.Rounding.{div_mono, mul_down_fixed-pos}
use verified_paraswap.Verified.Types.{PoolPairData}
use verified_paraswap.Verified.Primary.{
  elem, at_most, scaled_balances, quote_in, currency_in, security_in, settle_in, try_token_in,
  get_primary_token_in, quote_out, settle_out, try_token_out, get_primary_token_out,
}
use native.Mathlib.Decide.{dec_lt}
use native.Mathlib.Nat.{mul-le-mul_right, div-le_of_le-mul, div-mul-le_self}

-- The balances scale one by one.
pub scaled_balances-Yields :
    (balances factors : List ℤ) (i B F : ℕ)
    → get_elem? balances i ≡ some (pos B)
    → get_elem? factors i ≡ some (pos F)
    → Yields
        (λ scaled. get_elem? scaled i ≡ some (pos (B * F / one)))
        (scaled_balances balances factors)
unfolding scaled_balances
scaled_balances-Yields [] factors i B F hb hf = cc
scaled_balances-Yields (b ∷ bs) [] i B F hb hf = tt
scaled_balances-Yields (b ∷ bs) (f ∷ fs) zero B F hb hf =
    let eb : b ≡ pos B = cc in
    let ef : f ≡ pos F = cc in
    rw (eb, ef, mul_down_fixed-pos B F) (Yields-bind _ (scaled_balances bs fs) _ (λ rest _. refl))
scaled_balances-Yields (b ∷ bs) (f ∷ fs) (suc i) B F hb hf =
    Yields-bind _ (mul_down_fixed b f) _ (λ x _.
      Yields-then _ _ (scaled_balances bs fs) _ (scaled_balances-Yields bs fs i B F hb hf)
        (λ rest h. h))

settle_out_bound :
    (d : PoolPairData) (B F : ℕ) (quote : Option ℤ)
    → get_elem? d.scaling_factors d.index_out ≡ some (pos F)
    → Yields (λ r. r ≤ℤ pos B) (settle_out d (some (pos (B * F / one))) quote)
unfolding settle_out div_down_fixed ◌*ℤ◌ ◌/ℤ◌
settle_out_bound d B F none h = omega arith
settle_out_bound d B F (some (pos n)) h =
    rw h (grind (arith, div-le_of_le-mul F {m = n * one} {n = B}, div-mul-le_self (B * F) one))
settle_out_bound d B F (some (negsuc n)) h = rw h (ground arith)

try_token_out_bound :
    (d : PoolPairData) (amount : ℤ) (c : Bool) (B F : ℕ)
    → get_elem? d.balances d.index_out ≡ some (pos B)
    → get_elem? d.scaling_factors d.index_out ≡ some (pos F)
    → Yields (λ r. r ≤ℤ pos B) (try_token_out d amount c)
unfolding try_token_out
try_token_out_bound d amount c B F hb hf = elim (Bool-cases (amount ==ℤ pos 0)) [
  | inl z ↦ rw z (omega arith)
  | inr nz ↦ rw nz (
      Yields-then _ _ (scaled_balances d.balances d.scaling_factors) _
        (scaled_balances-Yields d.balances d.scaling_factors d.index_out B F hb hf)
        (λ scaled e. Yields-bind _ (elem (get_elem? d.scaling_factors d.index_in)) _ (λ factor _.
          Yields-bind _ (mul_down_fixed amount factor) _ (λ scaled_amount _.
            Yields-bind _ (quote_out d c (get_elem? scaled d.index_in) scaled_amount) _
              (λ quote _. rw e (settle_out_bound d B F quote hf))))))
]

-- For a token paid out whose balance and scaling factor are not negative, a sale is never quoted
-- more than that balance, whatever the amount, the direction and the other data.
pub get_primary_token_out-le-balance :
    (d : PoolPairData) (amount : ℤ) (is_currency_in : Bool) (B F : ℕ)
    → get_elem? d.balances d.index_out ≡ some (pos B)
    → get_elem? d.scaling_factors d.index_out ≡ some (pos F)
    → get_primary_token_out d amount is_currency_in ≤ℤ pos B
unfolding get_primary_token_out
get_primary_token_out-le-balance d amount c B F hb hf =
    Yields-catch _ (try_token_out d amount c) (pos 0) (try_token_out_bound d amount c B F hb hf)
      (omega arith)

lt_of_scaled : (n B F : ℕ) → n * F / one < B * F / one → n < B
lt_of_scaled n B F h = elim (dec_lt n B) [
  | yes p ↦ p
  | no p ↦ absurd (omega (arith, div_mono one (mul-le-mul_right {m = B} {n = n} F (omega arith))))
]

quote_in_bound :
    (d : PoolPairData) (c : Bool) (in_balance : Option ℤ) (S n : ℕ)
    → Yields (λ q. (q ≡ none) ⊎ (n < S)) (quote_in d c in_balance (some (pos S)) (pos n))
unfolding quote_in currency_in security_in
quote_in_bound d true in_balance S n = elim (Bool-cases (leb_ℤ (pos S) (pos n))) [
  | inl full ↦ rw full (inl refl)
  | inr room ↦ rw room (Yields-always _ _ (λ q. inr (ground arith)))
]
quote_in_bound d false in_balance S n = elim (Bool-cases (at_most in_balance (pos 0))) [
  | inl empty ↦ rw empty (inl refl)
  | inr held ↦ rw held (elim (Bool-cases (leb_ℤ (pos S) (pos n))) [
    | inl full ↦ rw full (inl refl)
    | inr room ↦ rw room (Yields-always _ _ (λ q. inr (ground arith)))
  ])
]

settle_in_bound :
    (d : PoolPairData) (P : Type 0) (quote : Option ℤ)
    → (quote ≡ none) ⊎ P
    → Yields (λ r. (r ≡ pos 0) ⊎ P) (settle_in d quote)
unfolding settle_in
settle_in_bound d P quote (inl e) = rw e (inl refl)
settle_in_bound d P quote (inr p) = Yields-always _ _ (λ r. inr p)

try_token_in_bound :
    (d : PoolPairData) (n : ℕ) (c : Bool) (B F : ℕ)
    → get_elem? d.balances d.index_out ≡ some (pos B)
    → get_elem? d.scaling_factors d.index_out ≡ some (pos F)
    → Yields (λ r. (r ≡ pos 0) ⊎ (n < B)) (try_token_in d (pos n) c)
unfolding try_token_in
try_token_in_bound d n c B F hb hf = elim (Bool-cases (pos n ==ℤ pos 0)) [
  | inl z ↦ rw z (inl refl)
  | inr nz ↦
      rw (nz, hf, mul_down_fixed-pos n F)
        (Yields-then _ _ (scaled_balances d.balances d.scaling_factors) _
          (scaled_balances-Yields d.balances d.scaling_factors d.index_out B F hb hf)
          (λ scaled e. rw e (
            Yields-then _ _
              (quote_in d c (get_elem? scaled d.index_in) (some (pos (B * F / one)))
                (pos (n * F / one)))
              _ (quote_in_bound d c (get_elem? scaled d.index_in) (B * F / one) (n * F / one))
              (λ quote q. settle_in_bound d (n < B) quote (below_balance quote q)))))
]
  where
    below_balance :
        (quote : Option ℤ) → (quote ≡ none) ⊎ (n * F / one < B * F / one) → (quote ≡ none) ⊎ (n < B)
    below_balance quote (inl e) = inl e
    below_balance quote (inr h) = inr (lt_of_scaled n B F h)

-- For a token paid out whose balance and scaling factor are not negative, a purchase of an amount
-- that is not negative is quoted zero, or the amount is less than that balance.
pub get_primary_token_in-lt-balance :
    (d : PoolPairData) (n : ℕ) (is_currency_in : Bool) (B F : ℕ)
    → get_elem? d.balances d.index_out ≡ some (pos B)
    → get_elem? d.scaling_factors d.index_out ≡ some (pos F)
    → (get_primary_token_in d (pos n) is_currency_in ≡ pos 0) ⊎ (n < B)
unfolding get_primary_token_in
get_primary_token_in-lt-balance d n c B F hb hf =
    Yields-catch (λ r. (r ≡ pos 0) ⊎ (n < B)) (try_token_in d (pos n) c) (pos 0)
      (try_token_in_bound d n c B F hb hf) (inl refl)
