-- ===== src/Tests/Orders.antt =====
-- A secondary issue pool with three open orders; the numbers of the quotes are integers here.
use verified_paraswap.Prelude.{
  ℕ, ◌+◌, ◌*◌, ◌≤◌, ◌≡◌, refl, true, false, none, some, List, [], ◌∷◌, All, map,
}
use verified_paraswap.Prelude.Int.{ℤ, pos, ◌+ℤ◌, ◌-ℤ◌, ◌*ℤ◌, ◌/ℤ◌, ltb_ℤ}
use verified_paraswap.Prelude.Result.{ok, Yields}
use verified_paraswap.Prelude.Text.{to_lower_case, text_eq}
use verified_paraswap.FixedMath.{one, add, mul_down_fixed, div_down_fixed}
use verified_paraswap.Verified.Types.{
  primary_issue_pool, secondary_issue_pool, SubgraphPoolBase, OrdersState, SecondaryTradeState,
  PoolPairData,
}
use verified_paraswap.Verified.Prices.{sell}
use verified_paraswap.Verified.OrderBook.{
  Numbers, foreign_orders, insert_order, sort_orders, first_of_reference, priced, offering,
  matched_trade, settle_trade, settle_trades, open_orders, open_book, order_book,
}
use verified_paraswap.Verified.Secondary.{
  depth, up_scaled, get_secondary_token_amount, quote_book, try_secondary_out,
  get_secondary_token_out,
}
use verified_paraswap.Verified.OrderBook.Selection.{Foreign, order_book-Foreign}
use verified_paraswap.Verified.Secondary.Amounts.{total, get_secondary_token_amount-le-total}
use verified_paraswap.Verified.OnChain.{
  CallData, get_pool_tokens, get_minimum_price, get_minimum_order_size, get_min_order_size, Answer,
  Decoder, get_on_chain_state,
}
use verified_paraswap.Verified.OnChain.Alignment.{read_pools, get_on_chain_state-read_pools}

abbrev pub integers : Numbers ℤ
integers = record {
  number = λ n. n;
  big_int = some;
  plus = ◌+ℤ◌;
  minus = ◌-ℤ◌;
  times = ◌*ℤ◌;
  over = ◌/ℤ◌;
  less = ltb_ℤ;
}

abbrev order : ℕ → ℕ → ℕ → ℕ → OrdersState
order name offered price time = record {
  id = name ∷ [];
  creator = name ∷ [];
  token_in = b'u' ∷ [];
  token_out = b's' ∷ [];
  amount_offered = pos offered;
  price_offered = pos price;
  timestamp = pos time;
  order_reference = name ∷ [];
  is_matched = false;
}

abbrev orders : List OrdersState
orders = order b'a' 10 2 1 ∷ order b'b' 30 3 2 ∷ order b'c' 50 5 3 ∷ []

abbrev trade : SecondaryTradeState
trade = record {
  id = b't' ∷ [];
  party = b'a' ∷ [];
  counterparty = b'x' ∷ [];
  order_type = [];
  price = pos 2;
  currency = b'u' ∷ [];
  amount = pos 5;
  execution_date = pos 4;
  order_reference = b'a' ∷ [];
}

abbrev pair : PoolPairData
pair = record {
  tokens = (b's' ∷ []) ∷ (b'u' ∷ []) ∷ [];
  balances = pos 0 ∷ pos 0 ∷ [];
  decimals = 18 ∷ 18 ∷ [];
  scaling_factors = pos one ∷ pos one ∷ [];
  index_in = 0;
  index_out = 1;
  bpt_index = 0;
  swap_fee = pos 0;
  min_order_size = pos 0;
  min_price = none;
  orders = some orders;
  secondary_trades = some (trade ∷ []);
}

-- The caller's own order and the one that the trade used up are gone; the dearest comes first.
book-run :
    order_book integers sell (some (b's' ∷ [])) (some (b's' ∷ [])) (b'x' ∷ []) pair
    ≡ ok (order b'c' 50 5 3 ∷ order b'b' 30 3 2 ∷ [])
unfolding order_book open_book foreign_orders insert_order sort_orders first_of_reference priced
    offering matched_trade settle_trade settle_trades open_orders to_lower_case text_eq ◌-ℤ◌ ◌*ℤ◌
book-run = refl

-- 12 of the security: 10 pay the whole of the first order, and 2 a part of the second.
out-run : get_secondary_token_out integers pair (pos (12 * one)) (b'x' ∷ []) false ≡ pos (56 * one)
unfolding get_secondary_token_out try_secondary_out quote_book depth up_scaled
    get_secondary_token_amount order_book open_book foreign_orders insert_order sort_orders
    first_of_reference priced offering matched_trade settle_trade settle_trades open_orders
    to_lower_case text_eq add mul_down_fixed div_down_fixed ◌+ℤ◌ ◌-ℤ◌ ◌*ℤ◌ ◌/ℤ◌
out-run = refl

order_book-Foreign_example :
    Yields
      (All (Foreign (b's' ∷ []) (b'c' ∷ [])))
      (order_book integers sell (some (b's' ∷ [])) (some (b's' ∷ [])) (b'c' ∷ []) pair)
order_book-Foreign_example =
    order_book-Foreign (b's' ∷ []) (b'c' ∷ []) integers sell (some (b's' ∷ [])) pair

get_secondary_token_amount-le-total_example :
    Yields
      (λ r.
        (n : ℕ) × (r ≡ pos n)
        × (0 ≤ n)
        × (n ≤ 0 + total integers ((50 * one, 5 * one) ∷ (30 * one, 3 * one) ∷ [])))
      (get_secondary_token_amount integers sell
        (pos (12 * one))
        (pos 0)
        (order b'c' 50 5 3 ∷ order b'b' 30 3 2 ∷ []))
unfolding up_scaled ◌*ℤ◌
get_secondary_token_amount-le-total_example =
    get_secondary_token_amount-le-total integers sell (12 * one) 0
      (order b'c' 50 5 3 ∷ order b'b' 30 3 2 ∷ []) ((50 * one, 5 * one) ∷ (30 * one, 3 * one) ∷ [])
      (refl, refl, (refl, refl, tt))

abbrev decoder : Decoder ℕ
decoder = record { pool_tokens = λ n. ok ((b'S' ∷ []) ∷ [], pos n ∷ []); amount = λ n. ok (pos n) }

abbrev answer : CallData → Answer ℕ
answer c = record {
  success = true;
  return_data = elim c [
    | get_pool_tokens vault id ↦ 9
    | get_minimum_price address ↦ 2
    | get_minimum_order_size address ↦ 3
    | get_min_order_size address ↦ 4
  ];
}

abbrev base : SubgraphPoolBase
base = record {
  id = b'p' ∷ [];
  address = b'p' ∷ [];
  pool_type = primary_issue_pool;
  tokens = [];
  security = [];
  currency = [];
  orders = none;
  secondary_trades = none;
  tokens_map = [];
}

abbrev bases : List SubgraphPoolBase
bases = record base { pool_type = secondary_issue_pool; address = b'q' ∷ [] } ∷ base ∷ []

get_on_chain_state-read_pools_example :
    get_on_chain_state decoder (λ calls. ok (map answer calls)) (b'v' ∷ []) bases
    ≡ read_pools decoder (b'v' ∷ []) answer [] bases
get_on_chain_state-read_pools_example =
    get_on_chain_state-read_pools decoder (b'v' ∷ []) answer bases
