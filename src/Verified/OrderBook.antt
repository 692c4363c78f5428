-- ===== src/Verified/OrderBook.antt =====
-- The order book of a secondary issue pool (src/dex/verified/pools/secondary/secondaryPool.ts): which
-- orders a quote runs over, and in which order. The floating-point numbers are a parameter.
pub mod Selection
pub mod Sorting
use verified_paraswap.Prelude.{
  Bool, true, false, not, ◌&&◌, Option, none, some, List, [], ◌∷◌, map, get_elem?, if◌then◌else◌,
}
use verified_paraswap.Prelude.Int.{ℤ, pos, ◌-ℤ◌, ltb_ℤ, leb_ℤ, ◌==ℤ◌}
use verified_paraswap.Prelude.Result.{Result, ok, err, type_error, range_error, ◌>>=◌, catch}
use verified_paraswap.Prelude.Text.{Text, text_eq, to_lower_case}
use verified_paraswap.FixedMath.{one, add, mul, mul_down_fixed, div_down_fixed}
use verified_paraswap.Verified.Types.{
  PoolState, SubgraphPoolBase, OrdersState, SecondaryTradeState, PoolPairData,
}
use verified_paraswap.Verified.Parse.{defined, no_data, parse_tokens}
use verified_paraswap.Verified.Prices.{SwapSide, sell, buy}

-- JavaScript's numbers: `Number` of a bigint, `BigInt` of a number (which throws on a fraction), the
-- operators, and `<`.
pub record Numbers (F : Type 0) : Type 0 where
  pub number : ℤ → F
  pub big_int : F → Option ℤ
  pub plus : F → F → F
  pub minus : F → F → F
  pub times : F → F → F
  pub over : F → F → F
  pub less : F → F → Bool

abbrev pub same_text : Text → Text → Bool
same_text s t = text_eq (to_lower_case s) (to_lower_case t)

-- The orders of others that do not offer the token; the token's address is read for each order.
unfoldable pub foreign_orders : Option Text → Text → List OrdersState → Result (List OrdersState)
foreign_orders token creator [] = ok []
foreign_orders token creator (o ∷ os) = do
  t ← defined token
  rest ← foreign_orders token creator os
  ok (if not (same_text o.token_in t) && not (same_text o.creator creator) then o ∷ rest else rest)

-- `Array.sort`, which is stable; `after a b` says that the comparator of `a` and `b` is positive.
module _ (after : OrdersState → OrdersState → Bool) where
  unfoldable pub insert_order : OrdersState → List OrdersState → List OrdersState
  insert_order o [] = o ∷ []
  insert_order o (p ∷ ps) =
      let rest = insert_order o ps in if after o p then p ∷ rest else o ∷ p ∷ ps

  unfoldable pub sort_orders : List OrdersState → List OrdersState
  sort_orders [] = []
  sort_orders (o ∷ os) = insert_order o (sort_orders os)

-- Whether an order with the reference is in the list.
abbrev pub seen : Text → List OrdersState → Bool
seen ref [] = false
seen ref (o ∷ os) = if text_eq o.order_reference ref then true else seen ref os

-- The `reduce` that keeps the first order of each reference, and `Object.values` of it. (References are
-- hexadecimal hashes, so that the object keeps their order.)
unfoldable pub first_of_reference : List OrdersState → List OrdersState → List OrdersState
first_of_reference acc [] = []
first_of_reference acc (o ∷ os) =
    let rest = first_of_reference (o ∷ acc) os in
    let skipped = first_of_reference acc os in
    if seen o.order_reference acc then skipped else o ∷ rest

unfoldable pub priced : List OrdersState → List OrdersState
priced [] = []
priced (o ∷ os) = if o.price_offered ==ℤ pos 0 then priced os else o ∷ priced os

unfoldable pub offering : List OrdersState → List OrdersState
offering [] = []
offering (o ∷ os) = if o.amount_offered ==ℤ pos 0 then offering os else o ∷ offering os

unfoldable pub matched_trade : Text → List SecondaryTradeState → Option SecondaryTradeState
matched_trade ref [] = none
matched_trade ref (t ∷ ts) =
    if same_text t.order_reference ref then some t else matched_trade ref ts

module _ {F : Type 0} (num : Numbers F) where
  abbrev pub to_big_int : F → Result ℤ
  to_big_int x = elim (num.big_int x) [ none ↦ err range_error | some n ↦ ok n ]

  -- `10 ** 18`.
  abbrev pub e18 : F
  e18 = num.number (pos one)

  -- What a trade leaves of an order, scaled by 10 ** 18.
  unfoldable pub settle_trade :
      Option Text → OrdersState → Option SecondaryTradeState → Result OrdersState
  settle_trade security o none = ok o
  settle_trade security o (some trade) = do
    s ← defined security
    let price =
        if same_text o.token_in s
        then num.over (num.number (pos 1)) (num.number trade.price)
        else num.number trade.price
    let traded = num.times (num.number trade.amount) price
    left ← to_big_int (num.times (num.minus (num.number o.amount_offered) traded) e18)
    ok (record o { amount_offered = left; is_matched = not (left ==ℤ pos 0) })

  unfoldable pub settle_trades :
      Option Text → List SecondaryTradeState → List OrdersState → Result (List OrdersState)
  settle_trades security trades [] = ok []
  settle_trades security trades (o ∷ os) = do
    o' ← settle_trade security o (matched_trade o.order_reference trades)
    rest ← settle_trades security trades os
    ok (o' ∷ rest)

  -- Without trades the orders stay as they were, also those that were edited or cancelled.
  unfoldable pub open_orders :
      Option Text → List SecondaryTradeState → List OrdersState → Result (List OrdersState)
  open_orders security [] os = ok os
  open_orders security (trade ∷ trades) os = do
    settled ← settle_trades security (trade ∷ trades) (priced (first_of_reference [] os))
    ok (offering settled)

  -- The comparators `b - a` and `a - b` of the sorts.
  abbrev pub positive : F → Bool
  positive x = num.less (num.number (pos 0)) x

  abbrev pub older : OrdersState → OrdersState → Bool
  older a b = positive (num.minus (num.number b.timestamp) (num.number a.timestamp))

  abbrev pub cheaper : OrdersState → OrdersState → Bool
  cheaper a b = positive (num.minus (num.number b.price_offered) (num.number a.price_offered))

  abbrev pub dearer : OrdersState → OrdersState → Bool
  dearer a b = positive (num.minus (num.number a.price_offered) (num.number b.price_offered))

  abbrev pub worse : SwapSide → OrdersState → OrdersState → Bool
  worse sell = cheaper
  worse buy = dearer

  -- The open orders of others, before they are sorted by price.
  unfoldable pub open_book :
      Option Text → Option Text → Text → PoolPairData → Result (List OrdersState)
  unfolding foreign_orders sort_orders open_orders
  open_book token security creator d = do
    orders ← defined d.orders
    foreign ← foreign_orders token creator orders
    trades ← defined d.secondary_trades
    open_orders security trades (sort_orders older foreign)

  -- The orders that a quote runs over: of a sale for `security`, of a purchase for `currency`.
  unfoldable pub order_book :
      SwapSide → Option Text → Option Text → Text → PoolPairData → Result (List OrdersState)
  unfolding open_book sort_orders
  order_book side token security creator d = do
    book ← open_book token security creator d
    ok (sort_orders (worse side) book)
