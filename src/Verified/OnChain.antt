-- ===== src/Verified/OnChain.antt =====
-- Reading the pools from the chain: `getOnChainCalls` and `decodeOnChainCalls` of the two pool classes,
-- and `getOnChainState` and `generateState` of src/dex/verified/verified-pool.ts. The answers to the
-- calls and their decoder are parameters.
pub mod Alignment
use verified_paraswap.Prelude.{
  ℕ, ◌+◌, Bool, Option, none, some, List, [], ◌∷◌, ◌++◌, get_elem?, if◌then◌else◌,
}
use verified_paraswap.Prelude.Int.{ℤ, pos}
use verified_paraswap.Prelude.Result.{Result, ok, err, type_error, assertion, ◌>>=◌, ◌>>◌, require}
use verified_paraswap.Prelude.Text.{Text, Dict, insert, to_lower_case}
use verified_paraswap.Verified.Types.{
  VerifiedPoolType, primary_issue_pool, secondary_issue_pool, unsupported, PoolState,
  SubgraphPoolBase,
}
use verified_paraswap.Verified.Parse.{defined}
use verified_paraswap.Verified.Prices.{is_supported_pool}

-- A call: the contract, and the function with its argument.
pub data CallData : Type 0 where
  get_pool_tokens : Text → Text → CallData
  get_minimum_price get_minimum_order_size get_min_order_size : Text → CallData

-- One answer of `tryAggregate`.
pub record Answer (D : Type 0) : Type 0 where
  pub success : Bool
  pub return_data : D

-- The contract interfaces' `decodeFunctionResult`.
pub record Decoder (D : Type 0) : Type 0 where
  pub pool_tokens : D → Result (List Text × List ℤ)
  pub amount : D → Result ℤ

unfoldable pub get_on_chain_calls : Text → SubgraphPoolBase → List CallData
get_on_chain_calls vault pool = elim pool.pool_type [
  | primary_issue_pool ↦
      get_pool_tokens vault pool.id
      ∷ get_minimum_price pool.address
      ∷ get_minimum_order_size pool.address
      ∷ []
  | secondary_issue_pool ↦ get_pool_tokens vault pool.id ∷ get_min_order_size pool.address ∷ []
  | unsupported t ↦ []
]

-- The calls of all pools, in one list.
unfoldable pub multi_call_data : Text → List SubgraphPoolBase → List CallData
unfolding get_on_chain_calls
multi_call_data vault [] = []
multi_call_data vault (p ∷ ps) = get_on_chain_calls vault p ++ multi_call_data vault ps

-- The `reduce` over the tokens with their balances.
unfoldable pub token_states : List Text → List ℤ → Dict ℤ → Result (Dict ℤ)
token_states [] balances acc = ok acc
token_states (t ∷ ts) [] acc = err type_error
token_states (t ∷ ts) (b ∷ balances) acc = token_states ts balances (insert (to_lower_case t) b acc)

-- `{ ...acc, ...decoded }`.
abbrev pub spread : Dict PoolState → Dict PoolState → Dict PoolState
spread acc [] = acc
spread acc ((address, state) ∷ decoded) = spread (insert address state acc) decoded

module _ {D : Type 0} (decoder : Decoder D) where
  unfoldable pub decode_throw_error : {A : Type 0} → (D → Result A) → Option (Answer D) → Result A
  decode_throw_error decode entry = do
    e ← defined entry
    require e.success (assertion 1)
    decode e.return_data

  -- The state that both classes build.
  abbrev pub decoded_state :
      SubgraphPoolBase → List Text × List ℤ → ℤ → Option ℤ → Result (Dict PoolState)
  decoded_state pool (tokens, balances) size price = do
    states ← token_states tokens balances []
    ok (
        (
          pool.address,
          record {
            tokens = states;
            swap_fee = pos 0;
            ordered_tokens = tokens;
            minimum_order_size = size;
            minimum_price = price;
          },
        )
        ∷ [])

  unfoldable pub decode_primary :
      SubgraphPoolBase → List (Answer D) → ℕ → Result (Dict PoolState × ℕ)
  unfolding decode_throw_error token_states
  decode_primary pool answers i = do
    pool_tokens ← decode_throw_error decoder.pool_tokens (get_elem? answers i)
    price ← decode_throw_error decoder.amount (get_elem? answers (i + 1))
    size ← decode_throw_error decoder.amount (get_elem? answers (i + 2))
    pools ← decoded_state pool pool_tokens size (some price)
    ok (pools, i + 3)

  unfoldable pub decode_secondary :
      SubgraphPoolBase → List (Answer D) → ℕ → Result (Dict PoolState × ℕ)
  unfolding decode_throw_error token_states
  decode_secondary pool answers i = do
    pool_tokens ← decode_throw_error decoder.pool_tokens (get_elem? answers i)
    size ← decode_throw_error decoder.amount (get_elem? answers (i + 1))
    pools ← decoded_state pool pool_tokens size none
    ok (pools, i + 2)

  -- One round of the `reduce` of `getOnChainState`: its index only moves on for a supported pool.
  unfoldable pub decode_on_chain_calls :
      SubgraphPoolBase → List (Answer D) → ℕ → Result (Dict PoolState × ℕ)
  unfolding decode_primary decode_secondary
  decode_on_chain_calls pool answers i = elim pool.pool_type [
    | primary_issue_pool ↦ decode_primary pool answers i
    | secondary_issue_pool ↦ decode_secondary pool answers i
    | unsupported t ↦ ok ([], i)
  ]

  unfoldable pub on_chain_states :
      List SubgraphPoolBase → List (Answer D) → ℕ → Dict PoolState → Result (Dict PoolState)
  unfolding decode_on_chain_calls
  on_chain_states [] answers i acc = ok acc
  on_chain_states (p ∷ ps) answers i acc = do
    decoded ← decode_on_chain_calls p answers i
    on_chain_states ps answers decoded.1 (spread acc decoded.0)

  -- `aggregate` is what the chain answers; it is asked in slices, whose answers are joined again.
  unfoldable pub get_on_chain_state :
      (List CallData → Result (List (Answer D)))
      → Text
      → List SubgraphPoolBase
      → Result (Dict PoolState)
  unfolding on_chain_states multi_call_data
  get_on_chain_state aggregate vault pools = do
    answers ← aggregate (multi_call_data vault pools)
    on_chain_states pools answers 0 []

  abbrev pub supported : List SubgraphPoolBase → List SubgraphPoolBase
  supported [] = []
  supported (p ∷ ps) = if is_supported_pool p.pool_type then p ∷ supported ps else supported ps

  -- `generateState`; `all_pools` is what the subgraph or the cache delivers.
  unfoldable pub generate_pools :
      (List CallData → Result (List (Answer D)))
      → Text
      → Result (List SubgraphPoolBase)
      → Result (Dict PoolState)
  unfolding get_on_chain_state
  generate_pools aggregate vault all_pools = do
    pools ← all_pools
    get_on_chain_state aggregate vault (supported pools)
