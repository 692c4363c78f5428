-- ===== src/Verified/Parse.antt =====
-- `parsePoolPairData` of src/dex/verified/pools/primary/primaryPool.ts: from the subgraph's pool and the
-- tracked state to the lists that a quote reads.
pub mod Missing
pub mod Rows
use verified_paraswap.Prelude.{
  ℕ, suc, ◌+◌, ◌-◌, ◌*◌, ◌^◌, ◌≡◌, refl, Option, none, some, List, [], ◌∷◌, ◌++◌, arith, leb,
  if◌then◌else◌, length, length-append, get_elem?, All, All-snoc, Bool-cases, inl, inr, ◌≤◌,
}
use verified_paraswap.Prelude.Int.{ℤ, pos}
use verified_paraswap.Prelude.Result.{
  Result, ok, err, type_error, range_error, ◌>>=◌, Yields, Yields-bind, Yields-then,
}
use verified_paraswap.Prelude.Text.{Text, lookup, text_eq, to_lower_case}
use mathlib.Core.Path.{subst}
use native.Mathlib.Nat.{add-zero, zero-add}
use verified_paraswap.FixedMath.{one}
use verified_paraswap.Verified.Types.{PoolState, SubgraphPoolBase, PoolPairData}

-- Reading a property of `undefined` throws.
abbrev pub defined {ℓ} : {A : Type ℓ} → Option A → Result A
defined none = err type_error
defined (some a) = ok a

pub defined-ok {ℓ} : {A : Type ℓ} (o : Option A) (a : A) → defined o ≡ ok a → o ≡ some a
defined-ok none a e = cc
defined-ok (some b) a e = cc

-- `BigInt(10 ** 18) * BigInt(10 ** (18 - decimals))`; `BigInt` of a fraction throws. (Decimals are a
-- byte, so that the power does not vanish.)
unfoldable pub scaling_factor : ℕ → Result ℤ
scaling_factor decimals =
    if leb decimals 18 then ok (pos (one * 10 ^ (18 - decimals))) else err range_error

-- A factor that shifts a token's decimals to 18.
abbrev pub IsScale : ℤ → Type 0
IsScale f = (k : ℕ) × (k ≤ 18) × (f ≡ pos (one * 10 ^ k))

scaling_factor-IsScale : (decimals : ℕ) → Yields IsScale (scaling_factor decimals)
unfolding scaling_factor
scaling_factor-IsScale decimals = elim (Bool-cases (leb decimals 18)) [
  | inl fits ↦ rw fits (18 - decimals, omega arith, refl)
  | inr large ↦ rw large tt
]

module _ (pool : SubgraphPoolBase) (state : PoolState) (token_in token_out : Text) where
  abbrev pub index_if : Text → Text → ℕ → ℕ → ℕ
  index_if address wanted i old =
      if text_eq (to_lower_case address) (to_lower_case wanted) then i else old

  -- The round of `orderedTokens.map` for the token at `i`.
  unfoldable pub parse_token : ℕ → Text → PoolPairData → Result PoolPairData
  unfolding scaling_factor
  parse_token i token_address d = do
    t ← defined (lookup (to_lower_case token_address) pool.tokens_map)
    balance ← defined (lookup (to_lower_case t.address) state.tokens)
    token ← defined (get_elem? pool.tokens i)
    factor ← scaling_factor token.decimals
    ok (record d {
      tokens = d.tokens ++ t.address ∷ [];
      balances = d.balances ++ balance ∷ [];
      decimals = d.decimals ++ token.decimals ∷ [];
      scaling_factors = d.scaling_factors ++ factor ∷ [];
      index_in = index_if t.address token_in i d.index_in;
      index_out = index_if t.address token_out i d.index_out;
      bpt_index = index_if t.address pool.address i d.bpt_index;
    })

  unfoldable pub parse_tokens : ℕ → List Text → PoolPairData → Result PoolPairData
  parse_tokens i [] d = ok d
  parse_tokens i (token ∷ tokens) d = do d' ← parse_token i token d; parse_tokens (i + 1) tokens d'

  abbrev pub no_data : PoolPairData
  no_data = record {
    tokens = [];
    balances = [];
    decimals = [];
    scaling_factors = [];
    index_in = 0;
    index_out = 0;
    bpt_index = 0;
    swap_fee = state.swap_fee;
    min_order_size = state.minimum_order_size;
    min_price = state.minimum_price;
    orders = none;
    secondary_trades = none;
  }

  unfoldable pub parse_pool_pair_data : Result PoolPairData
  unfolding parse_tokens parse_token
  parse_pool_pair_data = parse_tokens 0 state.ordered_tokens no_data

  -- A balance, its decimals and its scaling factor for each of `n` tokens.
  pub record Aligned (n : ℕ) (d : PoolPairData) : Type 0 where
    pub tokens_length : length d.tokens ≡ n
    pub balances_length : length d.balances ≡ n
    pub decimals_length : length d.decimals ≡ n
    pub factors_length : length d.scaling_factors ≡ n
    pub factors_scale : All IsScale d.scaling_factors
    pub size_same : d.min_order_size ≡ state.minimum_order_size
    pub price_same : d.min_price ≡ state.minimum_price

  parse_token-Aligned :
      (i n : ℕ) (token : Text) (d : PoolPairData)
      → Aligned n d
      → Yields (Aligned (n + 1)) (parse_token i token d)
  unfolding parse_token
  parse_token-Aligned i n token d a =
      Yields-bind _ (defined (lookup (to_lower_case token) pool.tokens_map)) _ (λ t _.
        Yields-bind _ (defined (lookup (to_lower_case t.address) state.tokens)) _ (λ balance _.
          Yields-bind _ (defined (get_elem? pool.tokens i)) _ (λ st _.
            Yields-then _ _ (scaling_factor st.decimals) _ (scaling_factor-IsScale st.decimals)
              (λ factor f. record {
                tokens_length =
                    omega (arith, length-append d.tokens (t.address ∷ []), a.tokens_length);
                balances_length =
                    omega (arith, length-append d.balances (balance ∷ []), a.balances_length);
                decimals_length =
                    omega (arith, length-append d.decimals (st.decimals ∷ []), a.decimals_length);
                factors_length =
                    omega (arith, length-append d.scaling_factors (factor ∷ []), a.factors_length);
                factors_scale = All-snoc IsScale d.scaling_factors factor a.factors_scale f;
                size_same = a.size_same;
                price_same = a.price_same;
              }))))

  parse_tokens-Aligned :
      (i n : ℕ) (tokens : List Text) (d : PoolPairData)
      → Aligned n d
      → Yields (Aligned (n + length tokens)) (parse_tokens i tokens d)
  unfolding parse_tokens
  parse_tokens-Aligned i n [] d a = rw add-zero a
  parse_tokens-Aligned i n (token ∷ tokens) d a =
      let e : n + suc (length tokens) ≡ n + 1 + length tokens = omega arith in
      rw e (
        Yields-then _ _ (parse_token i token d) _ (parse_token-Aligned i n token d a)
          (λ d' a'. parse_tokens-Aligned (i + 1) (n + 1) tokens d' a'))

  -- The lists are of one length, and each factor is a power of ten from 18 decimals on.
  pub parse_pool_pair_data-Aligned :
      Yields (Aligned (length state.ordered_tokens)) parse_pool_pair_data
  unfolding parse_pool_pair_data
  parse_pool_pair_data-Aligned =
      subst (λ m. Yields (Aligned m) (parse_tokens 0 state.ordered_tokens no_data))
        (zero-add (length state.ordered_tokens))
        (parse_tokens-Aligned 0 0 state.ordered_tokens no_data (record {
          tokens_length = refl;
          balances_length = refl;
          decimals_length = refl;
          factors_length = refl;
          factors_scale = tt;
          size_same = refl;
          price_same = refl;
        }))
