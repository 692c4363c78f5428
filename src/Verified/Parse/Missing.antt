-- ===== src/Verified/Parse/Missing.antt =====
-- Where `parsePoolPairData` of src/dex/verified/pools/primary/primaryPool.ts throws.
use verified_paraswap.Prelude.{
  ℕ, ◌+◌, ◌≡◌, ◌<◌, refl, Option, none, some, List, [], ◌∷◌, leb, get_elem?, Bool-cases, inl, inr,
  not-leb→lt,
}
use verified_paraswap.Prelude.Result.{Error, err, >>=-eq-err}
use verified_paraswap.Prelude.Text.{Text, lookup, to_lower_case}
use verified_paraswap.Verified.Types.{PoolState, SubgraphPoolBase, SubgraphToken, PoolPairData}
use verified_paraswap.Verified.Parse.{
  defined, defined-ok, scaling_factor, parse_token, parse_tokens,
}

defined-err {ℓ} : {A : Type ℓ} (o : Option A) (e : Error) → defined o ≡ err e → o ≡ none
defined-err none e h = refl
defined-err (some a) e h = cc

scaling_factor-err : (decimals : ℕ) (e : Error) → scaling_factor decimals ≡ err e → 18 < decimals
unfolding scaling_factor
scaling_factor-err decimals e h = elim (Bool-cases (leb decimals 18)) [
  | inl fits ↦ let h' = rw fits at h in cc
  | inr large ↦ not-leb→lt _ _ large
]

module _ (pool : SubgraphPoolBase) (state : PoolState) where
  -- What the ordered token at `i` lacks: a token of the map, a tracked balance, a token that the
  -- pool lists at `i`, or decimals up to 18.
  pub data Missing (i : ℕ) (token : Text) : Type 0 where
    unmapped : lookup (to_lower_case token) pool.tokens_map ≡ none → Missing i token
    untracked :
        (t : SubgraphToken)
        → lookup (to_lower_case token) pool.tokens_map ≡ some t
        → lookup (to_lower_case t.address) state.tokens ≡ none
        → Missing i token
    unlisted : get_elem? pool.tokens i ≡ none → Missing i token
    unscaled :
        (t : SubgraphToken) → get_elem? pool.tokens i ≡ some t → 18 < t.decimals → Missing i token

  -- One of the ordered tokens, from `i` on, lacks something.
  pub data Lacks : ℕ → List Text → Type 0 where
    here : {i : ℕ} {token : Text} {tokens : List Text} → Missing i token → Lacks i (token ∷ tokens)
    later :
        {i : ℕ} {token : Text} {tokens : List Text}
        → Lacks (i + 1) tokens
        → Lacks i (token ∷ tokens)

  module _ (token_in token_out : Text) where
    parse_token-err :
        (i : ℕ) (token : Text) (d : PoolPairData) (e : Error)
        → parse_token pool state token_in token_out i token d ≡ err e
        → Missing i token
    unfolding parse_token
    parse_token-err i token d e h =
        elim (>>=-eq-err (defined (lookup (to_lower_case token) pool.tokens_map)) _ h) [
          | inl h1 ↦ unmapped (defined-err _ e h1)
          | inr (t, mapped, h2) ↦
              elim (>>=-eq-err (defined (lookup (to_lower_case t.address) state.tokens)) _ h2) [
                | inl h3 ↦ untracked t (defined-ok _ t mapped) (defined-err _ e h3)
                | inr (balance, tracked, h4) ↦
                    elim (>>=-eq-err (defined (get_elem? pool.tokens i)) _ h4) [
                      | inl h5 ↦ unlisted (defined-err _ e h5)
                      | inr (st, listed, h6) ↦ elim (>>=-eq-err (scaling_factor st.decimals) _ h6) [
                        | inl h7 ↦ unscaled st (defined-ok _ st listed) (scaling_factor-err _ e h7)
                        | inr (factor, scaled, h8) ↦ cc
                      ]
                    ]
              ]
        ]

    pub parse_tokens-err :
        (i : ℕ) (tokens : List Text) (d : PoolPairData) (e : Error)
        → parse_tokens pool state token_in token_out i tokens d ≡ err e
        → Lacks i tokens
    unfolding parse_tokens
    parse_tokens-err i [] d e h = cc
    parse_tokens-err i (token ∷ tokens) d e h =
        elim (>>=-eq-err (parse_token pool state token_in token_out i token d) _ h) [
          | inl h1 ↦ here (parse_token-err i token d e h1)
          | inr (d', _, h2) ↦ later (parse_tokens-err (i + 1) tokens d' e h2)
        ]
