-- ===== src/Verified/EventPool.antt =====
-- `VerifiedEventPool` of src/dex/verified/verified-pool.ts: the handlers of its events, `processLog` and
-- `getPricesPool`, and the subscriber that they make.
pub mod Balances
pub mod Updates
pub mod Priced
use verified_paraswap.Prelude.{
  ℕ, zero, suc, Bool, Option, none, some, List, [], ◌∷◌, map, take, if◌then◌else◌,
}
use verified_paraswap.Prelude.Int.{ℤ, pos, ◌+ℤ◌, ◌-ℤ◌}
use verified_paraswap.Prelude.Result.{Result, ok, err, type_error, ◌>>=◌}
use verified_paraswap.Prelude.Text.{Text, Dict, lookup, insert, text_eq, to_lower_case}
use verified_paraswap.Subscriber.Updates.{Log, Subclass}
use verified_paraswap.Verified.Types.{
  VerifiedPoolType, primary_issue_pool, PoolState, SubgraphPoolBase, PoolPairData,
}
use verified_paraswap.Verified.Primary.{get_primary_token_out, get_primary_token_in}
use verified_paraswap.Verified.Parse.{defined, parse_pool_pair_data}
use verified_paraswap.Verified.OrderBook.{Numbers}
use verified_paraswap.Verified.Secondary.{
  parse_secondary_pair_data, get_secondary_token_out, get_secondary_token_in,
}
use verified_paraswap.Verified.Prices.{Quotes, SwapSide, Prices, is_supported_pool, price_amounts}

-- A decoded event; `other` is one that has no handler.
pub data EventArgs : Type 0 where
  swap : Text → Text → ℤ → ℤ → EventArgs
  pool_balance_changed : List Text → List ℤ → List ℤ → EventArgs
  other : EventArgs

pub record Event : Type 0 where
  pub pool_id : Text
  pub args : EventArgs

-- `pool.tokens[token].balance += delta`.
unfoldable pub add_balance : Text → ℤ → Dict ℤ → Result (Dict ℤ)
add_balance token delta tokens = do
  balance ← defined (lookup token tokens)
  ok (insert token (balance +ℤ delta) tokens)

-- `pool.tokens[token].balance -= delta`.
unfoldable pub sub_balance : Text → ℤ → Dict ℤ → Result (Dict ℤ)
sub_balance token delta tokens = do
  balance ← defined (lookup token tokens)
  ok (insert token (balance -ℤ delta) tokens)

unfoldable pub handle_swap : Text → Text → ℤ → ℤ → PoolState → Result PoolState
handle_swap token_in token_out amount_in amount_out pool = do
  paid ← add_balance (to_lower_case token_in) amount_in pool.tokens
  taken ← sub_balance (to_lower_case token_out) amount_out paid
  ok (record pool { tokens = taken })

-- The `forEach` of `handlePoolBalanceChanged`; a delta or a fee that is missing throws.
unfoldable pub add_deltas : List Text → List ℤ → List ℤ → Dict ℤ → Result (Dict ℤ)
add_deltas [] deltas fees tokens = ok tokens
add_deltas (t ∷ ts) [] fees tokens = err type_error
add_deltas (t ∷ ts) (d ∷ deltas) [] tokens = err type_error
add_deltas (t ∷ ts) (d ∷ deltas) (f ∷ fees) tokens = do
  changed ← add_balance t (d -ℤ f) tokens
  add_deltas ts deltas fees changed

unfoldable pub handle_pool_balance_changed :
    List Text → List ℤ → List ℤ → PoolState → Result PoolState
handle_pool_balance_changed tokens deltas fees pool = do
  changed ← add_deltas (map to_lower_case tokens) deltas fees pool.tokens
  ok (record pool { tokens = changed })

-- The handler of an event that has one.
unfoldable pub handle : EventArgs → PoolState → Result PoolState
unfolding handle_swap handle_pool_balance_changed
handle (swap token_in token_out amount_in amount_out) pool =
    handle_swap token_in token_out amount_in amount_out pool
handle (pool_balance_changed tokens deltas fees) pool =
    handle_pool_balance_changed tokens deltas fees pool
handle other pool = ok pool

-- `event.args.poolId.slice(0, 42).toLowerCase()`: a pool's id begins with its address.
abbrev pub pool_address : Event → Text
pool_address event = to_lower_case (take 42 event.pool_id)

-- The new state of the pool of an event, if it is tracked.
abbrev pub apply_tracked :
    Text → EventArgs → Option PoolState → Dict PoolState → Result (Dict PoolState)
apply_tracked address args none state = ok state
apply_tracked address args (some pool) state = do
  pool' ← handle args pool
  ok (insert address pool' state)

-- `processLog`; an exception of the decoder or of a handler is caught, and the log is ignored. The
-- state is cloned first, so that nothing is left half done.
abbrev pub caught : Result (Dict PoolState) → Option (Dict PoolState)
caught (ok state) = some state
caught (err e) = none

unfoldable pub process_event : Result Event → Dict PoolState → Option (Dict PoolState)
process_event decoded state = caught (do
  event ← decoded
  apply_tracked (pool_address event) event.args (lookup (pool_address event) state) state)

-- The subscriber of the pools. `decode` is the contract interface's `parseLog`, and `generate` reads
-- the chain.
unfoldable pub event_pool :
    {P H : Type 0}
    → (Log P → Result Event)
    → (ℕ → Result (Dict PoolState))
    → Subclass (Dict PoolState) P H
event_pool decode generate = record {
  process_log = λ state log header. ok (process_event (decode log) state);
  generate_state = generate;
}

-- The pool classes by type: how they parse a pool, and what they quote.
module _ {F : Type 0} (num : Numbers F) (creator : Text) where
  unfoldable pub parse_pair_of :
      VerifiedPoolType → SubgraphPoolBase → PoolState → Text → Text → Result PoolPairData
  unfolding parse_pool_pair_data parse_secondary_pair_data
  parse_pair_of primary_issue_pool pool state from to = parse_pool_pair_data pool state from to
  parse_pair_of other_type pool state from to = parse_secondary_pair_data pool state from to

  unfoldable pub quotes_of : VerifiedPoolType → Quotes
  quotes_of primary_issue_pool = record {
    token_out = get_primary_token_out;
    token_in = get_primary_token_in;
  }
  quotes_of other_type = record {
    token_out = λ d amount c. get_secondary_token_out num d amount creator c;
    token_in = λ d amount c. get_secondary_token_in num d amount creator c;
  }

  unfoldable pub get_prices_pool :
      Text → Text → SubgraphPoolBase → PoolState → List ℤ → ℤ → SwapSide → Result (Option Prices)
  unfolding parse_pair_of quotes_of
  get_prices_pool from to pool state amounts unit_volume side =
      if is_supported_pool pool.pool_type
      then (do
        d ← parse_pair_of pool.pool_type pool state from to
        price_amounts (quotes_of pool.pool_type) side d (text_eq from pool.currency) amounts
            unit_volume)
      else ok none
