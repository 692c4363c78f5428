-- ===== src/ConstantProduct.antt =====
-- src/dex/uniswap-v2/uniswap-v2-constant-product-pool.ts: quotes on the curve x * y = k, net of a fee.
pub mod Curve
use verified_paraswap.Prelude.{ℕ, ◌-◌, ◌^◌, Bool, if◌then◌else◌}
use verified_paraswap.Prelude.Int.{ℤ, pos, ◌+ℤ◌, ◌-ℤ◌, ◌*ℤ◌, ◌/ℤ◌, ltb_ℤ, leb_ℤ, ◌==ℤ◌}

-- `RESERVE_LIMIT` (src/dex/uniswap-v2/uniswap-v2.ts).
abbrev pub reserve_limit : ℤ
reserve_limit = pos (2 ^ 112 - 1)

-- `UniswapV2PoolOrderedParams`, its decimal strings read as numbers.
pub record OrderedParams : Type 0 where
  pub reserves_in : ℤ
  pub reserves_out : ℤ
  pub fee : ℤ

unfoldable pub get_sell_price : OrderedParams → ℤ → ℤ → ℤ
get_sell_price params src_amount fee_factor =
    let amount_in_with_fee = src_amount *ℤ (fee_factor -ℤ params.fee) in
    let numerator = amount_in_with_fee *ℤ params.reserves_out in
    let denominator = params.reserves_in *ℤ fee_factor +ℤ amount_in_with_fee in
    if ltb_ℤ reserve_limit (params.reserves_in +ℤ src_amount)
    then pos 0
    else if denominator ==ℤ pos 0
    then pos 0
    else numerator /ℤ denominator

unfoldable pub get_buy_price : OrderedParams → ℤ → ℤ → ℤ
get_buy_price params dest_amount fee_factor =
    let numerator = params.reserves_in *ℤ dest_amount *ℤ fee_factor in
    let denominator = (fee_factor -ℤ params.fee) *ℤ (params.reserves_out -ℤ dest_amount) in
    if leb_ℤ denominator (pos 0)
    then pos 0
    else if numerator ==ℤ pos 0
    then pos 0
    else pos 1 +ℤ numerator /ℤ denominator
