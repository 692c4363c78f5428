-- ===== src/Tests/Pools.antt =====
-- A primary issue pool of 2000 units of a currency with 6 decimals and 500 of a security with 18, at
-- a minimum price of 2.
use verified_paraswap.Prelude.{
  ℕ, ◌*◌, ◌/◌, ◌<◌, ◌≡◌, ◌⊎◌, refl, true, none, some, [], ◌∷◌, map, All,
}
use verified_paraswap.Prelude.Int.{pos, ◌+ℤ◌, ◌*ℤ◌, ◌/ℤ◌, ◌≤ℤ◌}
use verified_paraswap.Prelude.Result.{ok, Yields}
use verified_paraswap.Prelude.Text.{Text, lookup, text_eq, to_lower_case}
use verified_paraswap.FixedMath.{one, add, mul_down_fixed, div_down_fixed}
use verified_paraswap.Verified.Types.{
  primary_issue_pool, PoolState, SubgraphToken, SubgraphPoolBase, PoolPairData,
}
use verified_paraswap.Verified.Primary.{
  get_primary_token_out, get_primary_token_in, try_token_out, scaled_balances, quote_out,
  settle_out, security_out,
}
use verified_paraswap.Verified.Primary.Solvency.{
  get_primary_token_out-le-balance, get_primary_token_in-lt-balance,
}
use verified_paraswap.Verified.Primary.Floors.{DealtAt, get_primary_token_out_floor}
use verified_paraswap.Verified.Parse.{
  parse_token, parse_tokens, scaling_factor, parse_pool_pair_data,
}
use verified_paraswap.Verified.Parse.Missing.{Lacks}
use verified_paraswap.Verified.Parse.Rows.{Parsed, parse_pool_pair_data-Parsed}
use verified_paraswap.Verified.Prices.{Quotes, sell, quote, price_amounts, price_amounts_lem}
use verified_paraswap.Verified.EventPool.Priced.{Within, get_prices_pool-Within}
use verified_paraswap.Tests.Orders.{integers}
use verified_paraswap.Verified.EventPool.{get_prices_pool}

abbrev pub usd : Text
usd = b'u' ∷ []

abbrev pub sec : Text
sec = b's' ∷ []

abbrev pub mixed_case_sec : Text
mixed_case_sec = b'S' ∷ []

abbrev pair : PoolPairData
pair = record {
  tokens = usd ∷ sec ∷ [];
  balances = pos 2_000_000_000 ∷ pos (500 * one) ∷ [];
  decimals = 6 ∷ 18 ∷ [];
  scaling_factors = pos (one * 1_000_000_000_000) ∷ pos one ∷ [];
  index_in = 0;
  index_out = 1;
  bpt_index = 0;
  swap_fee = pos 0;
  min_order_size = pos one;
  min_price = some (pos (2 * one));
  orders = none;
  secondary_trades = none;
}

-- 100 of the currency buy 47.6 of the security.
out-run : get_primary_token_out pair (pos 100_000_000) true ≡ pos 47_619_047_619_047_619_047
unfolding get_primary_token_out try_token_out scaled_balances quote_out security_out settle_out
    mul_down_fixed div_down_fixed add ◌+ℤ◌ ◌*ℤ◌ ◌/ℤ◌
out-run = refl

get_primary_token_out-le-balance_example :
    get_primary_token_out pair (pos 100_000_000) true ≤ℤ pos (500 * one)
get_primary_token_out-le-balance_example =
    get_primary_token_out-le-balance pair (pos 100_000_000) true (500 * one) one refl refl

get_primary_token_in-lt-balance_example :
    (get_primary_token_in pair (pos (40 * one)) true ≡ pos 0) ⊎ (40 * one < 500 * one)
get_primary_token_in-lt-balance_example =
    get_primary_token_in-lt-balance pair (40 * one) true (500 * one) one refl refl

get_primary_token_out_floor_example :
    (get_primary_token_out pair (pos 100_000_000) true ≡ pos 0)
    ⊎ ((a : ℕ) × DealtAt true one (2 * one) (100_000_000 * (one * 1_000_000_000_000) / one) a
        × (get_primary_token_out pair (pos 100_000_000) true ≡ pos (a * one / one)))
get_primary_token_out_floor_example =
    get_primary_token_out_floor pair one (2 * one) refl refl true 100_000_000 2_000_000_000
      (one * 1_000_000_000_000) one refl refl refl

abbrev pub pool : PoolState
pool = record {
  tokens = (usd, pos 2_000_000_000) ∷ (sec, pos 500) ∷ (b'x' ∷ [], pos 1) ∷ [];
  swap_fee = pos 0;
  ordered_tokens = usd ∷ sec ∷ [];
  minimum_order_size = pos one;
  minimum_price = some (pos (2 * one));
}

abbrev usd_token : SubgraphToken
usd_token = record { address = usd; decimals = 6 }

abbrev sec_token : SubgraphToken
sec_token = record { address = sec; decimals = 18 }

abbrev base : SubgraphPoolBase
base = record {
  id = b'p' ∷ [];
  address = b'p' ∷ [];
  pool_type = primary_issue_pool;
  tokens = usd_token ∷ sec_token ∷ [];
  security = sec;
  currency = usd;
  orders = none;
  secondary_trades = none;
  tokens_map = (usd, usd_token) ∷ (sec, sec_token) ∷ [];
}

parse_pool_pair_data-Parsed_example :
    ((d : PoolPairData) × (parse_pool_pair_data base pool usd mixed_case_sec ≡ ok d)
      × Parsed base pool usd mixed_case_sec (usd ∷ sec ∷ []) d)
    ⊎ Lacks base pool 0 (usd ∷ sec ∷ [])
parse_pool_pair_data-Parsed_example = parse_pool_pair_data-Parsed base pool usd mixed_case_sec

abbrev primary : Quotes
primary = record { token_out = get_primary_token_out; token_in = get_primary_token_in }

price_amounts_lem_example :
    let rest = pos 100_000_000 ∷ pos 0 ∷ [] in
    let run = price_amounts primary sell pair true (pos 0 ∷ rest) (pos 1_000_000) in
    (run ≡ ok none) × All (λ a. a ≡ pos 0) rest
    ⊎ (run
        ≡ ok (
            some (record {
              unit = quote primary sell pair true (pos 1_000_000);
              prices = pos 0 ∷ map (quote primary sell pair true) rest;
            })))
      × ¬ All (λ a. a ≡ pos 0) rest
unfolding get_primary_token_out try_token_out
price_amounts_lem_example =
    price_amounts_lem primary sell pair true (pos 0) (pos 100_000_000 ∷ pos 0 ∷ []) (pos 1_000_000)
      refl

abbrev parsed : PoolPairData
parsed = record pair { balances = pos 2_000_000_000 ∷ pos 500 ∷ [] }

get_prices_pool-Within_example : Yields (Within 500) (
    get_prices_pool integers [] usd sec base pool
      (pos 0 ∷ pos 100_000_000 ∷ [])
      (pos 1_000_000)
      sell)
unfolding parse_pool_pair_data parse_tokens parse_token scaling_factor lookup text_eq to_lower_case
get_prices_pool-Within_example =
    get_prices_pool-Within integers [] base pool usd sec parsed 500 (pos 0) (pos 100_000_000 ∷ [])
      (pos 1_000_000) refl refl refl
