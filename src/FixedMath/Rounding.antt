-- ===== src/FixedMath/Rounding.antt =====
-- How the operations of src/dex/verified/pools/generalPoolMath.ts round.
use verified_paraswap.Prelude.{
  ℕ, zero, suc, ◌+◌, ◌-◌, ◌*◌, ◌/◌, ◌≤◌, ◌<◌, ◌≡◌, true, arith, ◌==◌, if◌then◌else◌,
}
use verified_paraswap.Prelude.Int.{pos, ◌*ℤ◌, ◌/ℤ◌, ◌+ℤ◌, ◌-ℤ◌}
use verified_paraswap.Prelude.Result.{Yields, ok}
use native.Mathlib.Nat.{
  mul-div_cancel_left, div-mul-le_self, div-add-mod', mod-lt, le-div_iff_mul-le,
}
use verified_paraswap.FixedMath.{
  one, add, sub, product_fits, mul_down_fixed, mul_up_fixed, div_down_fixed, div_up_fixed,
}

-- The overflow check of the multiplications cannot fail: there is no machine width.
pub product_fits_always : (a b : ℕ) → product_fits (pos (a * b)) (pos a) (pos b) ≡ true
unfolding ◌/ℤ◌
product_fits_always zero b = ground arith
product_fits_always (suc a) b = ground (arith, mul-div_cancel_left b {n = suc a} (omega arith))

pub mul_down_fixed-pos : (a b : ℕ) → mul_down_fixed (pos a) (pos b) ≡ ok (pos (a * b / one))
unfolding mul_down_fixed ◌*ℤ◌ ◌/ℤ◌
mul_down_fixed-pos a b = rw (product_fits_always a b)

pub div_down_fixed-pos : (a b : ℕ) → 0 < b → div_down_fixed (pos a) (pos b) ≡ ok (pos (a * one / b))
unfolding div_down_fixed ◌*ℤ◌ ◌/ℤ◌
div_down_fixed-pos a b h = ground arith

-- A division that does not throw has a positive divisor.
pub div_down_fixed-Yields :
    (a b : ℕ) → Yields (λ q. (0 < b) × (q ≡ pos (a * one / b))) (div_down_fixed (pos a) (pos b))
unfolding div_down_fixed ◌*ℤ◌ ◌/ℤ◌
div_down_fixed-Yields a zero = tt
div_down_fixed-Yields a (suc b) = ground arith

pub add-pos : (a b : ℕ) → add (pos a) (pos b) ≡ ok (pos (a + b))
unfolding add ◌+ℤ◌
add-pos a b = ground arith

pub sub-pos : (a b : ℕ) → b ≤ a → sub (pos a) (pos b) ≡ ok (pos (a - b))
unfolding sub ◌-ℤ◌
sub-pos a b h = ground arith

pub div_up_fixed-pos :
    (a b : ℕ) → 0 < a → 0 < b → div_up_fixed (pos a) (pos b) ≡ ok (pos ((a * one - 1) / b + 1))
unfolding div_up_fixed ◌*ℤ◌ ◌/ℤ◌ ◌+ℤ◌ ◌-ℤ◌
div_up_fixed-pos a b ha hb = ground (arith, mul-div_cancel_left one {n = a} ha)

-- The quotient rounded up, by the formula of `divUp`.
abbrev pub ceil_div : ℕ → ℕ → ℕ
ceil_div n b = if n == 0 then 0 else (n - 1) / b + 1

pub lt_suc_div : (n b : ℕ) → 0 < b → n < (n / b + 1) * b
lt_suc_div n b h = omega (arith, div-add-mod' n b, mod-lt n h)

le-ceil : (n b : ℕ) → 0 < b → n ≤ ceil_div n b * b
le-ceil zero b h = omega arith
le-ceil (suc n) b h = ground (arith, lt_suc_div n b h)

pub div_mono : (k : ℕ) {m n : ℕ} → m ≤ n → m / k ≤ n / k
div_mono zero h = omega arith
div_mono (suc k) {m} {n} h =
    (le-div_iff_mul-le (omega arith)).1 (omega (arith, div-mul-le_self m (suc k)))

ceil-le : (n b : ℕ) → ceil_div n b ≤ n / b + 1
ceil-le zero b = omega arith
ceil-le (suc n) b = ground (arith, div_mono b {m = n} {n = suc n})

ceil_div_bounds :
    (n b : ℕ)
    → 0 < b
    → (n / b * b ≤ n) × (n < (n / b + 1) * b) × (n ≤ ceil_div n b * b) × (ceil_div n b ≤ n / b + 1)
ceil_div_bounds n b h = (div-mul-le_self n b, lt_suc_div n b h, le-ceil n b h, ceil-le n b)

mul_up_fixed-pos : (a b : ℕ) → mul_up_fixed (pos a) (pos b) ≡ ok (pos (ceil_div (a * b) one))
unfolding mul_up_fixed ◌*ℤ◌ ◌/ℤ◌ ◌+ℤ◌ ◌-ℤ◌
mul_up_fixed-pos a b = rw (product_fits_always a b) (ground arith)

div_up_fixed_zero : (b : ℕ) → 0 < b → div_up_fixed (pos 0) (pos b) ≡ ok (pos 0)
unfolding div_up_fixed
div_up_fixed_zero b h = ground arith

div_up_fixed-ceil :
    (a b : ℕ) → 0 < b → div_up_fixed (pos a) (pos b) ≡ ok (pos (ceil_div (a * one) b))
div_up_fixed-ceil zero b h = div_up_fixed_zero b h
div_up_fixed-ceil (suc a) b h = ground (arith, div_up_fixed-pos (suc a) b)

-- On numbers that are not negative the two fixed-point products never throw, and bracket the exact
-- product at 18 decimals, at most one unit apart.
pub mul_fixed_rounding :
    (a b : ℕ)
    → (q : ℕ) × (r : ℕ) × (mul_down_fixed (pos a) (pos b) ≡ ok (pos q))
      × (mul_up_fixed (pos a) (pos b) ≡ ok (pos r))
      × (q * one ≤ a * b)
      × (a * b < (q + 1) * one)
      × (a * b ≤ r * one)
      × (r ≤ q + 1)
mul_fixed_rounding a b =
    let (l, u, c, d) = ceil_div_bounds (a * b) one (omega arith) in
    (a * b / one, ceil_div (a * b) one, mul_down_fixed-pos a b, mul_up_fixed-pos a b, l, u, c, d)

-- For a dividend that is not negative and a positive divisor the two fixed-point quotients never
-- throw, and bracket the exact quotient at 18 decimals, at most one unit apart.
pub div_fixed_rounding :
    (a b : ℕ)
    → 0 < b
    → (q : ℕ) × (r : ℕ) × (div_down_fixed (pos a) (pos b) ≡ ok (pos q))
      × (div_up_fixed (pos a) (pos b) ≡ ok (pos r))
      × (q * b ≤ a * one)
      × (a * one < (q + 1) * b)
      × (a * one ≤ r * b)
      × (r ≤ q + 1)
div_fixed_rounding a b h =
    let (l, u, c, d) = ceil_div_bounds (a * one) b h in
    (
      a * one / b,
      ceil_div (a * one) b,
      div_down_fixed-pos a b h,
      div_up_fixed-ceil a b h,
      l,
      u,
      c,
      d,
    )
