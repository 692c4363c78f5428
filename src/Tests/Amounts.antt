-- ===== src/Tests/Amounts.antt =====
-- Runs of the arithmetic: fixed point, the constant product curve, and transfer fees.
use verified_paraswap.Prelude.{ℕ, ◌+◌, ◌-◌, ◌*◌, ◌≤◌, ◌<◌, ◌≡◌, refl, List, [], ◌∷◌, map, arith}
use verified_paraswap.Prelude.Int.{ℤ, pos, ◌+ℤ◌, ◌-ℤ◌, ◌*ℤ◌, ◌/ℤ◌}
use verified_paraswap.Prelude.Result.{ok, err, zero_division, sub_overflow}
use verified_paraswap.FixedMath.{
  one, sub, mul_down_fixed, mul_up_fixed, div_down_fixed, div_up_fixed,
}
use verified_paraswap.FixedMath.Rounding.{mul_fixed_rounding, div_fixed_rounding}
use verified_paraswap.ConstantProduct.{get_sell_price, get_buy_price}
use verified_paraswap.ConstantProduct.Curve.{params, get_sell_price-product, get_buy_price-suffices}
use verified_paraswap.Verified.Prices.{sell, buy}
use verified_paraswap.TransferFee.{apply_transfer_fee, transfer_all, transfer_times, transfer_once}
use verified_paraswap.TransferFee.RoundTrip.{apply_transfer_fee_roundtrip}

sub-run : sub (pos 1) (pos 2) ≡ err sub_overflow
unfolding sub ◌-ℤ◌
sub-run = refl

div-run :
    (div_down_fixed (pos 1) (pos 0) ≡ err zero_division)
    × (div_down_fixed (pos 0) (pos 3) ≡ ok (pos 0))
unfolding div_down_fixed ◌*ℤ◌ ◌/ℤ◌
div-run = (refl, refl)

-- 1000 of 10000 against 20000 at 0.3 percent.
sell-run : get_sell_price (params 10_000 20_000 30) (pos 1000) (pos 10_000) ≡ pos 1813
unfolding get_sell_price ◌+ℤ◌ ◌-ℤ◌ ◌*ℤ◌ ◌/ℤ◌
sell-run = refl

buy-run : get_buy_price (params 10_000 20_000 30) (pos 1813) (pos 10_000) ≡ pos 1000
unfolding get_buy_price ◌+ℤ◌ ◌-ℤ◌ ◌*ℤ◌ ◌/ℤ◌
buy-run = refl

transfer-run : apply_transfer_fee (pos 10_000 ∷ []) sell 100 2 ≡ ok (pos 9801 ∷ [])
unfolding apply_transfer_fee transfer_all transfer_times transfer_once ◌-ℤ◌ ◌*ℤ◌ ◌/ℤ◌
transfer-run = refl

mul_fixed_rounding_example :
    (q : ℕ) × (r : ℕ) × (mul_down_fixed (pos 7) (pos 3) ≡ ok (pos q))
    × (mul_up_fixed (pos 7) (pos 3) ≡ ok (pos r))
    × (q * one ≤ 7 * 3)
    × (7 * 3 < (q + 1) * one)
    × (7 * 3 ≤ r * one)
    × (r ≤ q + 1)
mul_fixed_rounding_example = mul_fixed_rounding 7 3

div_fixed_rounding_example :
    (q : ℕ) × (r : ℕ) × (div_down_fixed (pos 7) (pos 3) ≡ ok (pos q))
    × (div_up_fixed (pos 7) (pos 3) ≡ ok (pos r))
    × (q * 3 ≤ 7 * one)
    × (7 * one < (q + 1) * 3)
    × (7 * one ≤ r * 3)
    × (r ≤ q + 1)
div_fixed_rounding_example = div_fixed_rounding 7 3 (omega arith)

get_sell_price-product_example :
    (q : ℕ) × (get_sell_price (params 10_000 20_000 30) (pos 1000) (pos 10_000) ≡ pos q)
    × (q ≤ 20_000)
    × (10_000 * 20_000 ≤ (10_000 + 1000) * (20_000 - q))
get_sell_price-product_example =
    get_sell_price-product 10_000 20_000 30 10_000 1000 (omega arith) (omega arith)

get_buy_price-suffices_example :
    (p : ℕ) × (get_buy_price (params 10_000 20_000 30) (pos 1813) (pos 10_000) ≡ pos p)
    × (q : ℕ) × (get_sell_price (params 10_000 20_000 30) (pos p) (pos 10_000) ≡ pos q)
    × (1813 ≤ q)
unfolding get_buy_price ◌+ℤ◌ ◌-ℤ◌ ◌*ℤ◌ ◌/ℤ◌
get_buy_price-suffices_example =
    get_buy_price-suffices 10_000 20_000 30 10_000 1813 (omega arith) (omega arith) (omega arith)
      (omega arith) refl

apply_transfer_fee_roundtrip_example :
    (raised : List ℤ) × (apply_transfer_fee (map pos (10_000 ∷ 77 ∷ [])) buy 100 2 ≡ ok raised)
    × (apply_transfer_fee raised sell 100 2 ≡ ok (map pos (10_000 ∷ 77 ∷ [])))
apply_transfer_fee_roundtrip_example =
    apply_transfer_fee_roundtrip (10_000 ∷ 77 ∷ []) 100 2 (omega arith)
