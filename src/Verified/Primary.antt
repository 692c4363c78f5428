-- ===== src/Verified/Primary.antt =====
-- The primary issue pool: src/dex/verified/pools/primary/primaryPool.ts. Quotes for a sale (tokens
-- out) and for a purchase (tokens in), over the fixed-point arithmetic of `MathSol`.
pub mod Solvency
pub mod Floors
use verified_paraswap.Prelude.{
  Bool, true, false, Option, none, some, List, [], ◌∷◌, map, get_elem?, if◌then◌else◌,
}
use verified_paraswap.Prelude.Int.{ℤ, pos, ltb_ℤ, leb_ℤ, ◌==ℤ◌}
use verified_paraswap.Prelude.Result.{Result, ok, err, type_error, ◌>>=◌, catch}
use verified_paraswap.FixedMath.{add, sub, mul_down_fixed, div_down_fixed, div_up_fixed}
use verified_paraswap.Verified.Types.{PoolPairData}

-- A read that may be `undefined`: arithmetic on `undefined` throws, and a comparison is false.
abbrev pub elem : Option ℤ → Result ℤ
elem none = err type_error
elem (some a) = ok a

abbrev pub below : Option ℤ → ℤ → Bool
below none b = false
below (some a) b = ltb_ℤ a b

abbrev pub at_most : Option ℤ → ℤ → Bool
at_most none b = false
at_most (some a) b = leb_ℤ a b

-- `balances.map((balance, idx) => MathSol.mulDownFixed(balance, scalingFactors[idx]))`.
unfoldable pub scaled_balances : List ℤ → List ℤ → Result (List ℤ)
scaled_balances [] factors = ok []
scaled_balances (b ∷ balances) [] = err type_error
scaled_balances (b ∷ balances) (f ∷ factors) = do
  scaled ← mul_down_fixed b f
  rest ← scaled_balances balances factors
  ok (scaled ∷ rest)

-- The branch of `getPrimaryTokenOut` where the currency comes in; `none` is its early `return 0n`.
unfoldable pub security_out : PoolPairData → Option ℤ → ℤ → Result (Option ℤ)
security_out d in_balance scaled = do
  balance ← elem in_balance
  pre_calc ← add balance scaled
  price ← elem d.min_price
  post_calc ← div_down_fixed scaled price
  ratio ← div_down_fixed pre_calc balance
  amount_out ← div_down_fixed post_calc ratio
  if ltb_ℤ amount_out d.min_order_size then ok none else (do
    unit ← div_down_fixed scaled amount_out
    ok (if ltb_ℤ unit price then none else some amount_out))

-- The branch of `getPrimaryTokenOut` where the security comes in.
unfoldable pub currency_out : PoolPairData → Option ℤ → ℤ → Result (Option ℤ)
currency_out d in_balance scaled =
    if at_most in_balance (pos 0)
    then ok none
    else if ltb_ℤ scaled d.min_order_size
    then ok none
    else (do
      balance ← elem in_balance
      pre_calc ← add scaled balance
      post_calc ← div_down_fixed pre_calc balance
      price ← elem d.min_price
      value ← mul_down_fixed scaled price
      amount_out ← mul_down_fixed post_calc value
      unit ← div_down_fixed amount_out scaled
      ok (if ltb_ℤ unit price then none else some amount_out))

-- Its `if (isCurrencyIn)`.
unfoldable pub quote_out : PoolPairData → Bool → Option ℤ → ℤ → Result (Option ℤ)
quote_out d true in_balance scaled = security_out d in_balance scaled
quote_out d false in_balance scaled = currency_out d in_balance scaled

-- The end of `getPrimaryTokenOut`: the balance check and the scaling down.
unfoldable pub settle_out : PoolPairData → Option ℤ → Option ℤ → Result ℤ
settle_out d out_balance none = ok (pos 0)
settle_out d out_balance (some amount_out) =
    if below out_balance amount_out then ok (pos 0) else (do
      factor ← elem (get_elem? d.scaling_factors d.index_out)
      div_down_fixed amount_out factor)

-- The body of the `try` of `getPrimaryTokenOut`.
unfoldable pub try_token_out : PoolPairData → ℤ → Bool → Result ℤ
try_token_out d amount is_currency_in = if amount ==ℤ pos 0 then ok (pos 0) else (do
  scaled ← scaled_balances d.balances d.scaling_factors
  factor ← elem (get_elem? d.scaling_factors d.index_in)
  scaled_amount ← mul_down_fixed amount factor
  quote ← quote_out d is_currency_in (get_elem? scaled d.index_in) scaled_amount
  settle_out d (get_elem? scaled d.index_out) quote)

unfoldable pub get_primary_token_out : PoolPairData → ℤ → Bool → ℤ
get_primary_token_out d amount is_currency_in =
    catch (try_token_out d amount is_currency_in) (pos 0)

-- The branch of `getPrimaryTokenIn` where the currency comes in.
unfoldable pub currency_in : PoolPairData → Option ℤ → ℤ → Result (Option ℤ)
currency_in d out_balance scaled =
    if at_most out_balance scaled
    then ok none
    else if ltb_ℤ scaled d.min_order_size
    then ok none
    else (do
      balance ← elem out_balance
      pre_calc ← sub balance scaled
      post_calc ← div_down_fixed balance pre_calc
      price ← elem d.min_price
      value ← mul_down_fixed scaled price
      amount_in ← mul_down_fixed post_calc value
      unit ← div_down_fixed amount_in scaled
      ok (if ltb_ℤ unit price then none else some amount_in))

-- The branch of `getPrimaryTokenIn` where the security comes in.
unfoldable pub security_in : PoolPairData → Option ℤ → Option ℤ → ℤ → Result (Option ℤ)
security_in d in_balance out_balance scaled =
    if at_most in_balance (pos 0)
    then ok none
    else if at_most out_balance scaled
    then ok none
    else (do
      balance ← elem out_balance
      pre_calc ← sub balance scaled
      price ← elem d.min_price
      post_calc ← div_down_fixed scaled price
      ratio ← div_down_fixed balance pre_calc
      amount_in ← div_down_fixed post_calc ratio
      if ltb_ℤ amount_in d.min_order_size then ok none else (do
        unit ← div_down_fixed scaled amount_in
        ok (if ltb_ℤ unit price then none else some amount_in)))

-- Its `if (isCurrencyIn)`.
unfoldable pub quote_in : PoolPairData → Bool → Option ℤ → Option ℤ → ℤ → Result (Option ℤ)
quote_in d true in_balance out_balance scaled = currency_in d out_balance scaled
quote_in d false in_balance out_balance scaled = security_in d in_balance out_balance scaled

-- The end of `getPrimaryTokenIn`: the scaling down, rounded up.
unfoldable pub settle_in : PoolPairData → Option ℤ → Result ℤ
settle_in d none = ok (pos 0)
settle_in d (some amount_in) = do
  factor ← elem (get_elem? d.scaling_factors d.index_in)
  div_up_fixed amount_in factor

-- The body of the `try` of `getPrimaryTokenIn`.
unfoldable pub try_token_in : PoolPairData → ℤ → Bool → Result ℤ
try_token_in d amount is_currency_in = if amount ==ℤ pos 0 then ok (pos 0) else (do
  scaled ← scaled_balances d.balances d.scaling_factors
  factor ← elem (get_elem? d.scaling_factors d.index_out)
  scaled_amount ← mul_down_fixed amount factor
  quote ←
      quote_in d is_currency_in (get_elem? scaled d.index_in) (get_elem? scaled d.index_out)
        scaled_amount
  settle_in d quote)

unfoldable pub get_primary_token_in : PoolPairData → ℤ → Bool → ℤ
get_primary_token_in d amount is_currency_in = catch (try_token_in d amount is_currency_in) (pos 0)

unfoldable pub on_buy : List ℤ → PoolPairData → Bool → List ℤ
on_buy amounts d is_currency_in =
    map (λ amount. get_primary_token_in d amount is_currency_in) amounts

unfoldable pub on_sell : List ℤ → PoolPairData → Bool → List ℤ
on_sell amounts d is_currency_in =
    map (λ amount. get_primary_token_out d amount is_currency_in) amounts
