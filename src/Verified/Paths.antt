-- ===== src/Verified/Paths.antt =====
-- The main tokens of a Verified pool and the paths through nested pools: src/dex/verified/utils.ts.
pub mod Nested
use verified_paraswap.Prelude.{
  ℕ, ◌≡◌, refl, Bool, true, false, Option, none, some, List, [], ◌∷◌, ◌++◌, map, if◌then◌else◌,
}
use mathlib.Core.List.{reverse}
use verified_paraswap.Prelude.Int.{ℤ, pos, leb_ℤ}
use verified_paraswap.Prelude.Result.{Result, ok, err, type_error, missing_main_token, ◌>>=◌}
use verified_paraswap.Prelude.Text.{Text, Dict, text_eq, to_lower_case, lookup, insert}
use verified_paraswap.Verified.Types.{SubgraphToken, SubgraphPoolBase}
use verified_paraswap.Verified.Prices.{SwapSide, sell, buy, is_supported_pool}

-- An entry of `pathToToken`; its token may be `undefined`.
pub record PathToToken : Type 0 where
  pub pool_id : Text
  pub pool_address : Text
  pub token : Option SubgraphToken

-- A main token: the fields that it takes over from a token, if there is one, and its own;
-- `isDeeplyNested` is always `undefined`.
pub record SubgraphMainToken : Type 0 where
  pub own : Option SubgraphToken
  pub pool_token : SubgraphToken
  pub path_to_token : List PathToToken

-- A pool with its field `mainTokens`.
pub record MainPool : Type 0 where
  pub base : SubgraphPoolBase
  pub main_tokens : List SubgraphMainToken

-- `pools.find(f)`.
pub find_token : (SubgraphToken → Bool) → List SubgraphToken → Option SubgraphToken
find_token f [] = none
find_token f (t ∷ ts) = let rest = find_token f ts in if f t then some t else rest

-- The callback of `find` has a block body without `return`: `undefined` counts as false.
pub nested_main_token : List SubgraphToken → SubgraphToken → SubgraphPoolBase → SubgraphMainToken
unfolding find_token
nested_main_token tokens token token_pool =
    let security_token = find_token (λ t. false) tokens in
    record {
      own = security_token;
      pool_token = token;
      path_to_token =
          record {
            pool_id = token_pool.id;
            pool_address = token_pool.address;
            token = security_token;
          }
          ∷ [];
    }

pub main_token : List SubgraphToken → Dict SubgraphPoolBase → SubgraphToken → SubgraphMainToken
unfolding nested_main_token
main_token tokens pools_map token =
    let plain : SubgraphMainToken = record {
      own = some token;
      pool_token = token;
      path_to_token = [];
    } in
    elim (lookup token.address pools_map) [
      | none ↦ plain
      | some token_pool ↦
          if is_supported_pool token_pool.pool_type
          then nested_main_token tokens token token_pool
          else plain
    ]

-- The loop of `poolGetMainTokens`, which leaves out the pool's own token.
pub main_tokens_of :
    Text → List SubgraphToken → Dict SubgraphPoolBase → List SubgraphToken → List SubgraphMainToken
unfolding main_token
main_tokens_of address tokens pools_map [] = []
main_tokens_of address tokens pools_map (token ∷ rest) =
    let others = main_tokens_of address tokens pools_map rest in
    if text_eq token.address address then others else main_token tokens pools_map token ∷ others

unfoldable pub pool_get_main_tokens :
    SubgraphPoolBase → Dict SubgraphPoolBase → List SubgraphMainToken
unfolding main_tokens_of
pool_get_main_tokens pool pools_map = main_tokens_of pool.address pool.tokens pools_map pool.tokens

-- `findRequiredMainTokenInPool`: a main token without an address throws where it is read.
pub find_required_main_token : Text → List SubgraphMainToken → Result SubgraphMainToken
find_required_main_token token_to_find [] = err missing_main_token
find_required_main_token token_to_find (t ∷ ts) =
    let rest = find_required_main_token token_to_find ts in
    elim t.own [
      | none ↦ err type_error
      | some own ↦
          if text_eq (to_lower_case own.address) (to_lower_case token_to_find) then ok t else rest
    ]

pub record VerifiedPathHop : Type 0 where
  pub pool : Option MainPool
  pub token_in : Option SubgraphToken
  pub token_out : Option SubgraphToken

-- The pool's token of a nested pool.
pub pool_token_of : Text → SubgraphToken
pool_token_of address = record { address = address; decimals = 18 }

pub hop_in : Dict MainPool → PathToToken → VerifiedPathHop
unfolding pool_token_of
hop_in pools_map hop = record {
  pool = lookup hop.pool_address pools_map;
  token_in = hop.token;
  token_out = some (pool_token_of hop.pool_address);
}

pub hop_out : Dict MainPool → PathToToken → VerifiedPathHop
unfolding pool_token_of
hop_out pools_map hop = record {
  pool = lookup hop.pool_address pools_map;
  token_in = some (pool_token_of hop.pool_address);
  token_out = hop.token;
}

-- The hops between two main tokens, of which these are the pool's tokens and the paths.
pub path_between :
    MainPool
    → Dict MainPool
    → SwapSide
    → SubgraphToken
    → List PathToToken
    → SubgraphToken
    → List PathToToken
    → List VerifiedPathHop
unfolding hop_in hop_out
path_between pool pools_map side token_in path_in token_out path_out =
    let middle : VerifiedPathHop = record {
      pool = some pool;
      token_in = some token_in;
      token_out = some token_out;
    } in
    let result =
      map (hop_in pools_map) (reverse path_in) ++ (middle ∷ map (hop_out pools_map) path_out) in
    elim side [ sell ↦ result | buy ↦ reverse result ]

unfoldable pub pool_get_path_for_token_in_out :
    Text → Text → MainPool → Dict MainPool → SwapSide → Result (List VerifiedPathHop)
unfolding find_required_main_token path_between
pool_get_path_for_token_in_out token_in_address token_out_address pool pools_map side = do
  token_in ← find_required_main_token token_in_address pool.main_tokens
  token_out ← find_required_main_token token_out_address pool.main_tokens
  ok (
      path_between pool pools_map side token_in.pool_token token_in.path_to_token
        token_out.pool_token token_out.path_to_token)

-- `uniqBy(pools, 'address')`: of pools with one address the first is kept; those that are
-- `undefined` have one key.
pub same_address : Option MainPool → Option MainPool → Bool
same_address none none = true
same_address none (some q) = false
same_address (some p) none = false
same_address (some p) (some q) = text_eq p.base.address q.base.address

pub is_seen : Option MainPool → List (Option MainPool) → Bool
unfolding same_address
is_seen p [] = false
is_seen p (q ∷ qs) = let rest = is_seen p qs in if same_address p q then true else rest

pub unique_pools : List (Option MainPool) → List (Option MainPool) → List (Option MainPool)
unfolding is_seen
unique_pools seen [] = []
unique_pools seen (p ∷ ps) =
    let kept = unique_pools (p ∷ seen) ps in
    let dropped = unique_pools seen ps in if is_seen p seen then dropped else p ∷ kept

-- The pools of the paths through each pool, one after another.
pub pools_in_paths :
    Text → Text → List MainPool → Dict MainPool → SwapSide → Result (List (Option MainPool))
pools_in_paths from to [] pools_map side = ok []
pools_in_paths from to (pool ∷ pools) pools_map side = do
  path ← pool_get_path_for_token_in_out (to_lower_case from) (to_lower_case to) pool pools_map side
  rest ← pools_in_paths from to pools pools_map side
  ok (map (λ (hop : VerifiedPathHop). hop.pool) path ++ rest)

unfoldable pub get_all_pools_used_in_paths :
    Text → Text → List MainPool → Dict MainPool → SwapSide → Result (List (Option MainPool))
unfolding pools_in_paths unique_pools
get_all_pools_used_in_paths from to allowed_pools pools_map side = do
  pools ← pools_in_paths from to allowed_pools pools_map side
  ok (unique_pools [] pools)

-- `keyBy(pools, mapper)`, with the property that the mapper names: the last pool of a key stays.
pub keyed :
    (SubgraphPoolBase → Text)
    → Dict SubgraphPoolBase
    → List SubgraphPoolBase
    → Dict SubgraphPoolBase
keyed mapper found [] = found
keyed mapper found (pool ∷ pools) = keyed mapper (insert (mapper pool) pool found) pools

unfoldable pub map_pools_by :
    List SubgraphPoolBase → (SubgraphPoolBase → Text) → Dict SubgraphPoolBase
unfolding keyed
map_pools_by pools mapper = keyed mapper [] pools

unfoldable pub get_new_amount : ℤ → ℤ → ℤ
get_new_amount max num = if leb_ℤ num max then num else pos 0
