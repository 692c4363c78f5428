-- ===== src/Verified/Types.antt =====
-- The data of the Verified pools: src/dex/verified/types.ts.
use verified_paraswap.Prelude.{ℕ, Bool, Option, List}
use verified_paraswap.Prelude.Int.{ℤ}
use verified_paraswap.Prelude.Text.{Text, Dict}

pub data VerifiedPoolType : Type 0 where
  primary_issue_pool secondary_issue_pool : VerifiedPoolType
  -- Any other string that the subgraph delivers.
  unsupported : Text → VerifiedPoolType

-- A map `{ [address]: TokenState }`; a token's state is its balance.
pub record PoolState : Type 0 where
  pub tokens : Dict ℤ
  pub swap_fee : ℤ
  pub ordered_tokens : List Text
  pub minimum_order_size : ℤ
  pub minimum_price : Option ℤ

pub record SubgraphToken : Type 0 where
  pub address : Text
  pub decimals : ℕ

-- `tokenIn` and `tokenOut` are objects with the one field `id`; a missing `isMatched` is false.
pub record OrdersState : Type 0 where
  pub id : Text
  pub creator : Text
  pub token_in : Text
  pub token_out : Text
  pub amount_offered : ℤ
  pub price_offered : ℤ
  pub timestamp : ℤ
  pub order_reference : Text
  pub is_matched : Bool

pub record SecondaryTradeState : Type 0 where
  pub id : Text
  pub party : Text
  pub counterparty : Text
  pub order_type : Text
  pub price : ℤ
  pub currency : Text
  pub amount : ℤ
  pub execution_date : ℤ
  pub order_reference : Text

pub record SubgraphPoolBase : Type 0 where
  pub id : Text
  pub address : Text
  pub pool_type : VerifiedPoolType
  pub tokens : List SubgraphToken
  pub security : Text
  pub currency : Text
  pub orders : Option (List OrdersState)
  pub secondary_trades : Option (List SecondaryTradeState)
  pub tokens_map : Dict SubgraphToken

pub record PoolPairData : Type 0 where
  pub tokens : List Text
  pub balances : List ℤ
  pub decimals : List ℕ
  pub scaling_factors : List ℤ
  pub index_in : ℕ
  pub index_out : ℕ
  pub bpt_index : ℕ
  pub swap_fee : ℤ
  pub min_order_size : ℤ
  pub min_price : Option ℤ
  pub orders : Option (List OrdersState)
  pub secondary_trades : Option (List SecondaryTradeState)
