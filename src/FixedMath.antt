-- ===== src/FixedMath.antt =====
-- Fixed-point arithmetic with 18 decimals on unbounded integers:
-- src/dex/verified/pools/generalPoolMath.ts, class `MathSol`. A failed `_require` throws.
pub mod Rounding
use verified_paraswap.Prelude.{ℕ, ◌^◌, ◌≡◌, Bool, true, ◌&&◌, ◌||◌, not, if◌then◌else◌}
use verified_paraswap.Prelude.Int.{ℤ, pos, ◌+ℤ◌, ◌-ℤ◌, ◌*ℤ◌, ◌/ℤ◌, ltb_ℤ, leb_ℤ, ◌==ℤ◌}
use verified_paraswap.Prelude.Result.{
  Result, ok, ◌>>=◌, ◌>>◌, require, add_overflow, sub_overflow, mul_overflow, zero_division,
  div_internal,
}

-- `MathSol.ONE`, which is `BI_POWS[18]`.
abbrev pub one : ℕ
one = 1_000_000_000_000_000_000

unfoldable pub add : ℤ → ℤ → Result ℤ
add a b = do
  let c = a +ℤ b
  require ((leb_ℤ (pos 0) b && leb_ℤ a c) || (ltb_ℤ b (pos 0) && ltb_ℤ c a)) add_overflow
  ok c

unfoldable pub sub : ℤ → ℤ → Result ℤ
sub a b = do require (leb_ℤ b a) sub_overflow; ok (a -ℤ b)

unfoldable pub max : ℤ → ℤ → ℤ
max a b = if leb_ℤ b a then a else b

unfoldable pub min : ℤ → ℤ → ℤ
min a b = if ltb_ℤ a b then a else b

-- The overflow check of the multiplications: `a == 0n || product / a == b`.
abbrev pub product_fits : ℤ → ℤ → ℤ → Bool
product_fits product a b = (a ==ℤ pos 0) || (product /ℤ a ==ℤ b)

unfoldable pub mul : ℤ → ℤ → Result ℤ
mul a b = do let c = a *ℤ b; require (product_fits c a b) mul_overflow; ok c

unfoldable pub div_down : ℤ → ℤ → Result ℤ
div_down a b = do require (not (b ==ℤ pos 0)) zero_division; ok (a /ℤ b)

unfoldable pub div_up : ℤ → ℤ → Result ℤ
div_up a b = do
  require (not (b ==ℤ pos 0)) zero_division
  ok (if a ==ℤ pos 0 then pos 0 else pos 1 +ℤ (a -ℤ pos 1) /ℤ b)

unfoldable pub div : ℤ → ℤ → Bool → Result ℤ
unfolding div_up div_down
div a b round_up = if round_up then div_up a b else div_down a b

unfoldable pub mul_up_fixed : ℤ → ℤ → Result ℤ
mul_up_fixed a b = do
  let product = a *ℤ b
  require (product_fits product a b) mul_overflow
  ok (if product ==ℤ pos 0 then pos 0 else (product -ℤ pos 1) /ℤ pos one +ℤ pos 1)

unfoldable pub mul_down_fixed : ℤ → ℤ → Result ℤ
mul_down_fixed a b = do
  let product = a *ℤ b
  require (product_fits product a b) mul_overflow
  ok (product /ℤ pos one)

unfoldable pub div_down_fixed : ℤ → ℤ → Result ℤ
div_down_fixed a b = do
  require (not (b ==ℤ pos 0)) zero_division
  ok (if a ==ℤ pos 0 then pos 0 else a *ℤ pos one /ℤ b)

-- The part of `divUpFixed` behind its test for a zero dividend.
abbrev pub inflate_up : ℤ → ℤ → Result ℤ
inflate_up a b = do
  let inflated = a *ℤ pos one
  require (inflated /ℤ a ==ℤ pos one) div_internal
  ok ((inflated -ℤ pos 1) /ℤ b +ℤ pos 1)

unfoldable pub div_up_fixed : ℤ → ℤ → Result ℤ
div_up_fixed a b = do
  require (not (b ==ℤ pos 0)) zero_division
  if a ==ℤ pos 0 then ok (pos 0) else inflate_up a b
