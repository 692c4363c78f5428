-- ===== src/ConstantProduct/Curve.antt =====
-- The product of the reserves, and the two quotes of
-- src/dex/uniswap-v2/uniswap-v2-constant-product-pool.ts against each other.
use verified_paraswap.Prelude.{
  ℕ, ◌+◌, ◌-◌, ◌*◌, ◌/◌, ◌≤◌, ◌<◌, ◌≡◌, refl, ◌∙◌, false, arith, ◌==◌, if◌then◌else◌, Bool-cases,
  inl, inr,
}
use verified_paraswap.Prelude.Int.{pos, ◌+ℤ◌, ◌-ℤ◌, ◌*ℤ◌, ◌/ℤ◌, ltb_ℤ, sub_ℕ}
use verified_paraswap.ConstantProduct.{OrderedParams, reserve_limit, get_sell_price, get_buy_price}
use mathlib.Core.Path.{subst}
use verified_paraswap.FixedMath.Rounding.{lt_suc_div}
use native.Mathlib.Nat.{
  sub-zero, le-div_iff_mul-le, le_of_mul-le-mul_right, mul-pos, mul-le-mul_right, mul-le-mul_left,
  div-mul-le_self,
}

abbrev pub params : ℕ → ℕ → ℕ → OrderedParams
params x y f = record { reserves_in = pos x; reserves_out = pos y; fee = pos f }

sub_ℕ-le : (a b : ℕ) → b ≤ a → sub_ℕ a b ≡ pos (a - b)
sub_ℕ-le a b h = ground arith

-- The quote of a sale on reserves that are not negative.
get_sell_price-pos :
    (x y f F a : ℕ)
    → f ≤ F
    → get_sell_price (params x y f) (pos a) (pos F) ≡ (
        if ltb_ℤ reserve_limit (pos (x + a))
        then pos 0
        else if x * F + a * (F - f) == 0
        then pos 0
        else pos (a * (F - f) * y / (x * F + a * (F - f))))
unfolding get_sell_price ◌+ℤ◌ ◌-ℤ◌ ◌*ℤ◌ ◌/ℤ◌
get_sell_price-pos x y f F a h = rw (sub_ℕ-le F f h) (ground arith)

-- r is what stays of y.
product_kept :
    (x r out a g F : ℕ)
    → g ≤ a * F
    → out * (x * F + g) ≤ g * (r + out)
    → 0 < F
    → x * (r + out) ≤ (x + a) * r
product_kept x r out a g F hg ho hF =
    let bound : out * x * F ≤ a * r * F = omega (arith, mul-le-mul_right r hg) in
    omega (arith, le_of_mul-le-mul_right {m = out * x} {n = a * r} bound hF)

-- The quotient of a sale, as a bound on the product.
sale_bound :
    (x y a g F : ℕ)
    → g ≤ a * F
    → 0 < F
    → 0 < x * F + g
    → let out = g * y / (x * F + g) in (out ≤ y) × (x * y ≤ (x + a) * (y - out))
sale_bound x y a g F hg hF hd =
    let out = g * y / (x * F + g) in
    let b : out * (x * F + g) ≤ g * y = div-mul-le_self (g * y) (x * F + g) in
    let le : out ≤ y = le_of_mul-le-mul_right {m = out} {n = y} (omega (arith, b)) hd in
    let split : y - out + out ≡ y = omega arith in
    (
      le,
      subst (λ m. x * m ≤ (x + a) * (y - out)) split
          (product_kept x (y - out) out a g F hg (rw split b) hF),
    )

-- For reserves and an amount that are not negative, a fee within the fee factor and a positive fee
-- factor, a sale is quoted at most the reserve, and the product of the reserves does not fall.
pub get_sell_price-product :
    (x y f F a : ℕ)
    → f ≤ F
    → 0 < F
    → (q : ℕ) × (get_sell_price (params x y f) (pos a) (pos F) ≡ pos q)
      × (q ≤ y)
      × (x * y ≤ (x + a) * (y - q))
get_sell_price-product x y f F a h hF =
    rw (get_sell_price-pos x y f F a h) (elim (Bool-cases (ltb_ℤ reserve_limit (pos (x + a)))) [
      | inl over ↦ rw over unchanged
      | inr within ↦ rw within (elim (Bool-cases (x * F + a * (F - f) == 0)) [
        | inl none_in ↦ rw none_in unchanged
        | inr some_in ↦
            let (le, product) =
              sale_bound x y a (a * (F - f)) F (mul-le-mul_left a (omega arith)) hF
                (ground arith) in
            rw some_in (a * (F - f) * y / (x * F + a * (F - f)), refl, le, product)
      ])
    ])
  where
    unchanged : (q : ℕ) × (pos 0 ≡ pos q) × (q ≤ y) × (x * y ≤ (x + a) * (y - q))
    unchanged = (0, refl, omega arith, rw sub-zero (omega arith))

-- The quote of a purchase of less than the reserve.
get_buy_price-pos :
    (x y f F d : ℕ)
    → f ≤ F
    → d ≤ y
    → get_buy_price (params x y f) (pos d) (pos F) ≡ (
        if (F - f) * (y - d) == 0
        then pos 0
        else if x * d * F == 0
        then pos 0
        else pos (1 + x * d * F / ((F - f) * (y - d))))
unfolding get_buy_price ◌+ℤ◌ ◌-ℤ◌ ◌*ℤ◌ ◌/ℤ◌
get_buy_price-pos x y f F d h hd = rw (sub_ℕ-le F f h, sub_ℕ-le y d hd) (ground arith)

-- What a purchase is quoted, sold back to the same reserves, returns at least what was bought.
bought_back :
    (x e d G F : ℕ)
    → 0 < G
    → 0 < e
    → let p = 1 + x * d * F / (G * e) in d * (x * F + p * G) ≤ p * G * (e + d)
bought_back x e d G F hG he =
    let q = x * d * F / (G * e) in
    let b : x * d * F < (q + 1) * (G * e) = lt_suc_div (x * d * F) (G * e) (mul-pos hG he) in
    omega (arith, b)

-- For a fee below the fee factor, a positive reserve in and a positive purchase of less than the
-- reserve out, where the price is within the reserve limit: selling the price of the purchase to
-- the same reserves returns what was bought or more.
pub get_buy_price-suffices :
    (x y f F d : ℕ)
    → f < F
    → 0 < x
    → 0 < d
    → d < y
    → ltb_ℤ reserve_limit (pos x +ℤ get_buy_price (params x y f) (pos d) (pos F)) ≡ false
    → (p : ℕ) × (get_buy_price (params x y f) (pos d) (pos F) ≡ pos p)
      × (q : ℕ) × (get_sell_price (params x y f) (pos p) (pos F) ≡ pos q)
      × (d ≤ q)
unfolding ◌+ℤ◌
get_buy_price-suffices x y f F d hf hx hd hy limit =
    let G = F - f in
    let e = y - d in
    let p = 1 + x * d * F / (G * e) in
    let sold : d * (x * F + p * G) ≤ p * G * (e + d) =
      bought_back x e d G F (omega arith) (omega arith) in
    let split : e + d ≡ y = omega arith in
    let priced : get_buy_price (params x y f) (pos d) (pos F) ≡ pos p =
      get_buy_price-pos x y f F d (omega arith) (omega arith)
      ∙ (rw (
        positive (G * e) (mul-pos {m = G} {n = e} (omega arith) (omega arith)),
        positive (x * d * F) (mul-pos (mul-pos hx hd) (omega arith)),
      )) in
    let within : ltb_ℤ reserve_limit (pos (x + p)) ≡ false =
      subst (λ r. ltb_ℤ reserve_limit (pos x +ℤ r) ≡ false) priced limit in
    (
      p,
      priced,
      p * G * y / (x * F + p * G),
      get_sell_price-pos x y f F p (omega arith)
          ∙ (rw (within, positive (x * F + p * G) (enough x F (p * G) hx (omega arith)))),
      (le-div_iff_mul-le (enough x F (p * G) hx (omega arith))).1
          (subst (λ m. d * (x * F + p * G) ≤ p * G * m) split sold),
    )
  where
    positive : (n : ℕ) → 0 < n → (n == 0) ≡ false
    positive n h = ground arith

    enough : (x F g : ℕ) → 0 < x → 0 < F → 0 < x * F + g
    enough x F g hx hF = omega (arith, mul-pos hx hF)
