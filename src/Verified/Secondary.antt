-- ===== src/Verified/Secondary.antt =====
-- The quotes of the secondary issue pool: src/dex/verified/pools/secondary/secondaryPool.ts. A quote
-- matches an amount against the book of open orders.
pub mod Amounts
use verified_paraswap.Prelude.{
  Bool, true, false, not, ◌&&◌, Option, none, some, List, [], ◌∷◌, map, get_elem?, if◌then◌else◌,
}
use verified_paraswap.Prelude.Int.{ℤ, pos, ◌-ℤ◌, ltb_ℤ, leb_ℤ, ◌==ℤ◌}
use verified_paraswap.Prelude.Result.{Result, ok, err, type_error, range_error, ◌>>=◌, catch}
use verified_paraswap.Prelude.Text.{Text, text_eq, to_lower_case}
use verified_paraswap.FixedMath.{one, add, mul, mul_down_fixed, div_down_fixed}
use verified_paraswap.Verified.Types.{
  PoolState, SubgraphPoolBase, OrdersState, SecondaryTradeState, PoolPairData,
}
use verified_paraswap.Verified.Parse.{defined, no_data, parse_tokens}
use verified_paraswap.Verified.Prices.{SwapSide, sell, buy}
use verified_paraswap.Verified.OrderBook.{Numbers, to_big_int, e18, order_book}

-- `parsePoolPairData`, whose loop is that of the primary pool.
unfoldable pub parse_secondary_pair_data :
    SubgraphPoolBase → PoolState → Text → Text → Result PoolPairData
unfolding parse_tokens
parse_secondary_pair_data pool state token_in token_out =
    parse_tokens pool state token_in token_out 0 state.ordered_tokens
      (record (no_data pool state token_in token_out) {
        min_price = none;
        orders = pool.orders;
        secondary_trades = pool.secondary_trades;
      })

module _ {F : Type 0} (num : Numbers F) where
  abbrev pub order_depth : SwapSide → OrdersState → F
  order_depth sell o =
      if o.is_matched
      then num.over (num.number o.amount_offered) (num.number o.price_offered)
      else num.over (num.times (num.number o.amount_offered) (e18 num)) (num.number o.price_offered)
  order_depth buy o =
      if o.is_matched
      then num.times (num.number o.amount_offered) (num.number o.price_offered)
      else num.times (num.times (num.number o.amount_offered) (e18 num))
          (num.number o.price_offered)

  unfoldable pub depth : SwapSide → F → List OrdersState → F
  depth side sum [] = sum
  depth side sum (o ∷ os) = depth side (num.plus sum (order_depth side o)) os

  -- `BigInt(Number(x) * 10 ** 18)`.
  unfoldable pub up_scaled : ℤ → Result ℤ
  up_scaled x = to_big_int num (num.times (num.number x) (e18 num))

  abbrev pub check_value : SwapSide → ℤ → ℤ → Result ℤ
  check_value sell offered price = div_down_fixed offered price
  check_value buy offered price = mul_down_fixed offered price

  abbrev pub partial_value : SwapSide → ℤ → ℤ → Result ℤ
  partial_value sell amount price = mul_down_fixed amount price
  partial_value buy amount price = div_down_fixed amount price

  -- What an order adds: all that it offers, or what the rest of the amount pays for.
  abbrev pub fill : SwapSide → Bool → ℤ → ℤ → ℤ → ℤ → Result ℤ
  fill side true ret offered price amount = add ret offered
  fill side false ret offered price amount = do part ← partial_value side amount price; add ret part

  -- The loop of `_getSecondaryTokenAmount`; its scaling factor is not read.
  unfoldable pub get_secondary_token_amount : SwapSide → ℤ → ℤ → List OrdersState → Result ℤ
  unfolding up_scaled
  get_secondary_token_amount side amount ret [] = ok ret
  get_secondary_token_amount side amount ret (o ∷ os) = do
    offered ← up_scaled o.amount_offered
    price ← up_scaled o.price_offered
    check ← check_value side offered price
    added ← fill side (leb_ℤ check amount) ret offered price amount
    let rest = get_secondary_token_amount side (amount -ℤ check) added os
    if ltb_ℤ (amount -ℤ check) (pos 0) then ok added else rest

  -- The end of both quotes: nothing beyond the depth of the book.
  unfoldable pub quote_book : SwapSide → ℤ → List OrdersState → Result ℤ
  unfolding depth get_secondary_token_amount
  quote_book side amount book =
      if num.less (depth side (num.number (pos 0)) book) (num.number amount)
      then ok (pos 0)
      else get_secondary_token_amount side amount (pos 0) book

  abbrev pub token_at : PoolPairData → Bool → Option Text
  token_at d is_in = get_elem? d.tokens (if is_in then d.index_in else d.index_out)

  -- The body of the `try` of `getSecondaryTokenOut`.
  unfoldable pub try_secondary_out : PoolPairData → ℤ → Text → Bool → Result ℤ
  unfolding order_book quote_book
  try_secondary_out d amount creator is_currency_in =
      let security = token_at d (not is_currency_in) in
      if amount ==ℤ pos 0
      then ok (pos 0)
      else (do book ← order_book num sell security security creator d; quote_book sell amount book)

  unfoldable pub get_secondary_token_out : PoolPairData → ℤ → Text → Bool → ℤ
  get_secondary_token_out d amount creator is_currency_in =
      catch (try_secondary_out d amount creator is_currency_in) (pos 0)

  -- The body of the `try` of `getSecondaryTokenIn`; `undefined` does not multiply.
  unfoldable pub try_secondary_in : PoolPairData → ℤ → Text → Bool → Result ℤ
  unfolding order_book quote_book
  try_secondary_in d amount creator is_currency_in = do
    factor ←
        defined (get_elem? d.scaling_factors (if is_currency_in then d.index_in else d.index_out))
    scaled_amount ← mul amount factor
    if scaled_amount ==ℤ pos 0 then ok (pos 0) else (do
      book ←
          order_book num buy (token_at d is_currency_in) (token_at d (not is_currency_in)) creator d
      quote_book buy amount book)

  unfoldable pub get_secondary_token_in : PoolPairData → ℤ → Text → Bool → ℤ
  get_secondary_token_in d amount creator is_currency_in =
      catch (try_secondary_in d amount creator is_currency_in) (pos 0)

  unfoldable pub secondary_on_buy : List ℤ → PoolPairData → Bool → Text → List ℤ
  secondary_on_buy amounts d is_currency_in creator =
      map (λ amount. get_secondary_token_in d amount creator is_currency_in) amounts

  unfoldable pub secondary_on_sell : List ℤ → PoolPairData → Bool → Text → List ℤ
  secondary_on_sell amounts d is_currency_in creator =
      map (λ amount. get_secondary_token_out d amount creator is_currency_in) amounts
