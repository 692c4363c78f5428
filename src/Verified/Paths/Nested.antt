-- ===== src/Verified/Paths/Nested.antt =====
-- The paths of src/dex/verified/utils.ts through the main tokens that `poolGetMainTokens` builds.
use verified_paraswap.Prelude.{
  ◌≡◌, refl, false, Bool-cases, Option-cases, none, some, List, [], ◌∷◌, inl, inr,
}
use verified_paraswap.Prelude.Result.{Yields, Yields-then}
use verified_paraswap.Prelude.Text.{Text, Dict, text_eq, to_lower_case, lookup}
use verified_paraswap.Verified.Types.{SubgraphToken, SubgraphPoolBase}
use verified_paraswap.Verified.Prices.{SwapSide, sell, buy, is_supported_pool}
use verified_paraswap.Verified.Paths.{
  PathToToken, SubgraphMainToken, MainPool, path_between, VerifiedPathHop, find_token,
  nested_main_token, main_token, main_tokens_of, pool_get_main_tokens, find_required_main_token,
  pool_get_path_for_token_in_out,
}

-- A main token with an address has no path behind it.
abbrev pub IsFlat : SubgraphMainToken → Type 0
IsFlat t = (own : SubgraphToken) → t.own ≡ some own → t.path_to_token ≡ []

abbrev pub AllFlat : List SubgraphMainToken → Type 0
AllFlat [] = Unit {0}
AllFlat (t ∷ ts) = IsFlat t × AllFlat ts

nothing_found : (tokens : List SubgraphToken) → find_token (λ t. false) tokens ≡ none
unfolding find_token
nothing_found [] = refl
nothing_found (t ∷ ts) = nothing_found ts

nested_main_token-IsFlat :
    (tokens : List SubgraphToken) (token : SubgraphToken) (pool : SubgraphPoolBase)
    → IsFlat (nested_main_token tokens token pool)
unfolding nested_main_token
nested_main_token-IsFlat tokens token pool = rw (nothing_found tokens) λ own e. cc

main_token-IsFlat :
    (tokens : List SubgraphToken) (pools : Dict SubgraphPoolBase) (token : SubgraphToken)
    → IsFlat (main_token tokens pools token)
unfolding main_token
main_token-IsFlat tokens pools token = elim (Option-cases (lookup token.address pools)) [
  | inl missing ↦ rw (missing, main_token) λ own e. refl
  | inr (pool, here) ↦
      rw (here, main_token)
        (elim (Bool-cases (is_supported_pool pool.pool_type)) [
          | inl nested ↦ rw nested (nested_main_token-IsFlat tokens token pool)
          | inr flat ↦ rw flat λ own e. refl
        ])
]

main_tokens_of-AllFlat :
    (address : Text) (tokens : List SubgraphToken) (pools : Dict SubgraphPoolBase)
    (ts : List SubgraphToken)
    → AllFlat (main_tokens_of address tokens pools ts)
unfolding main_tokens_of
main_tokens_of-AllFlat address tokens pools [] = tt
main_tokens_of-AllFlat address tokens pools (t ∷ ts) =
    let rest = main_tokens_of-AllFlat address tokens pools ts in
    elim (Bool-cases (text_eq t.address address)) [
      | inl same ↦ rw same rest
      | inr other ↦ rw other (main_token-IsFlat tokens pools t, rest)
    ]

find_required_main_token-IsFlat :
    (address : Text) (ts : List SubgraphMainToken)
    → AllFlat ts
    → Yields (λ (t : SubgraphMainToken). t.path_to_token ≡ []) (find_required_main_token address ts)
unfolding find_required_main_token
find_required_main_token-IsFlat address [] flat = tt
find_required_main_token-IsFlat address (t ∷ ts) (flat, rest) = elim (Option-cases t.own) [
  | inl missing ↦ rw (missing, Yields) tt
  | inr (own, here) ↦
      rw here (elim (Bool-cases (text_eq (to_lower_case own.address) (to_lower_case address))) [
        | inl same ↦ rw same (flat own here)
        | inr other ↦ rw other (find_required_main_token-IsFlat address ts rest)
      ])
]

pub OneHop : MainPool → List VerifiedPathHop → Type 0
OneHop main path = (hop : VerifiedPathHop) × (path ≡ hop ∷ []) × (hop.pool ≡ some main)

path_between-OneHop :
    (main : MainPool) (pools : Dict MainPool) (side : SwapSide) (token_in token_out : SubgraphToken)
    (path_in path_out : List PathToToken)
    → path_in ≡ []
    → path_out ≡ []
    → OneHop main (path_between main pools side token_in path_in token_out path_out)
unfolding path_between OneHop
path_between-OneHop main pools sell token_in token_out path_in path_out e f =
    rw (e, f, path_between) (_, refl, refl)
path_between-OneHop main pools buy token_in token_out path_in path_out e f =
    rw (e, f, path_between) (_, refl, refl)

-- With the main tokens that `poolGetMainTokens` builds, a path that does not throw is the one hop
-- through the pool itself, for a sale and for a purchase.
pub pool_get_path_for_token_in_out-OneHop :
    (from to : Text) (pool : SubgraphPoolBase) (pools : Dict SubgraphPoolBase)
    (main_pools : Dict MainPool) (side : SwapSide)
    → let main : MainPool = record { base = pool; main_tokens = pool_get_main_tokens pool pools } in
      Yields (OneHop main) (pool_get_path_for_token_in_out from to main main_pools side)
unfolding pool_get_path_for_token_in_out pool_get_main_tokens
pool_get_path_for_token_in_out-OneHop from to pool pools main_pools side =
    let flat = main_tokens_of-AllFlat pool.address pool.tokens pools pool.tokens in
    Yields-then _ _ (find_required_main_token from _) _
      (find_required_main_token-IsFlat from _ flat)
      λ token_in in_flat.
        Yields-then _ _ (find_required_main_token to _) _
          (find_required_main_token-IsFlat to _ flat)
          λ token_out out_flat. path_between-OneHop _ main_pools side _ _ _ _ in_flat out_flat
