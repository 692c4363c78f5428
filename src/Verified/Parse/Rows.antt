-- ===== src/Verified/Parse/Rows.antt =====
-- What `parsePoolPairData` of src/dex/verified/pools/primary/primaryPool.ts reads for each token.
use verified_paraswap.Prelude.{
  ℕ, zero, suc, ◌+◌, ◌-◌, ◌*◌, ◌^◌, ◌≡◌, ◌≤◌, ◌⊎◌, refl, true, false, some, List, [], ◌∷◌, ◌++◌,
  arith, leb, length, length-append, get_elem?, All, All-snoc, Bool-cases, inl, inr, leb→le,
}
use mathlib.Core.Path.{subst}
use mathlib.Core.List.{append_assoc, append-nil}
use verified_paraswap.Prelude.Int.{ℤ, pos}
use verified_paraswap.Prelude.Result.{ok, Result-cases, Yields, Yields-bind, Yields-then}
use verified_paraswap.Prelude.Text.{Text, lookup, text_eq, to_lower_case}
use verified_paraswap.FixedMath.{one}
use verified_paraswap.Verified.Types.{PoolState, SubgraphPoolBase, SubgraphToken, PoolPairData}
use verified_paraswap.Verified.Parse.{
  defined, defined-ok, scaling_factor, index_if, parse_token, parse_tokens, no_data,
  parse_pool_pair_data,
}
use verified_paraswap.Verified.Parse.Missing.{Lacks, parse_tokens-err}

scaling_factor-ok :
    (decimals : ℕ) (f : ℤ)
    → scaling_factor decimals ≡ ok f
    → (decimals ≤ 18) × (f ≡ pos (one * 10 ^ (18 - decimals)))
unfolding scaling_factor
scaling_factor-ok decimals f e = elim (Bool-cases (leb decimals 18)) [
  | inl fits ↦ (leb→le _ _ fits, let e' = rw fits at e in cc)
  | inr large ↦ let e' = rw large at e in cc
]

get_elem-append {ℓ} :
    {A : Type ℓ} (xs : List A) (y a : A) (i : ℕ)
    → get_elem? xs i ≡ some a
    → get_elem? (xs ++ y ∷ []) i ≡ some a
get_elem-append [] y a i e = cc
get_elem-append (x ∷ xs) y a zero e = e
get_elem-append (x ∷ xs) y a (suc i) e = get_elem-append xs y a i e

get_elem-last {ℓ} :
    {A : Type ℓ} (xs : List A) (y : A) → get_elem? (xs ++ y ∷ []) (length xs) ≡ some y
get_elem-last [] y = refl
get_elem-last (x ∷ xs) y = get_elem-last xs y

-- The index is that of an address which is the wanted one up to case; it is 0 if there is none.
abbrev pub Points : Text → List Text → ℕ → Type 0
Points wanted addresses index =
    ((index ≡ 0) × All (λ a. text_eq (to_lower_case a) (to_lower_case wanted) ≡ false) addresses)
    ⊎ ((a : Text) × (get_elem? addresses index ≡ some a)
        × (text_eq (to_lower_case a) (to_lower_case wanted) ≡ true))

module _ (pool : SubgraphPoolBase) (state : PoolState) where
  -- What stands at `i`: the token of the map under the ordered token, its tracked balance, and the
  -- decimals of the token that the pool lists at `i`, with the factor that shifts them to 18.
  pub record Row (i : ℕ) (token address : Text) (balance : ℤ) (decimals : ℕ) (factor : ℤ)
      : Type 0 where
    pub known : SubgraphToken
    pub listed : SubgraphToken
    pub known_is : lookup (to_lower_case token) pool.tokens_map ≡ some known
    pub address_is : address ≡ known.address
    pub balance_is : lookup (to_lower_case address) state.tokens ≡ some balance
    pub listed_is : get_elem? pool.tokens i ≡ some listed
    pub decimals_is : decimals ≡ listed.decimals
    pub decimals_fit : decimals ≤ 18
    pub factor_is : factor ≡ pos (10 ^ 18 * 10 ^ (18 - decimals))

  -- A row for each ordered token, from `i` on.
  pub data Rows : ℕ → List Text → List Text → List ℤ → List ℕ → List ℤ → Type 0 where
    done : {i : ℕ} → Rows i [] [] [] [] []
    row :
        {i : ℕ} {token address : Text} {balance : ℤ} {decimals : ℕ} {factor : ℤ}
        {tokens addresses : List Text} {balances : List ℤ} {all_decimals : List ℕ}
        {factors : List ℤ}
        → Row i token address balance decimals factor
        → Rows (suc i) tokens addresses balances all_decimals factors
        → Rows i
            (token ∷ tokens)
            (address ∷ addresses)
            (balance ∷ balances)
            (decimals ∷ all_decimals)
            (factor ∷ factors)

  Rows-snoc :
      {i : ℕ} {tokens addresses : List Text} {balances : List ℤ} {all_decimals : List ℕ}
      {factors : List ℤ} (n : ℕ) (token address : Text) (balance : ℤ) (decimals : ℕ) (factor : ℤ)
      → Rows i tokens addresses balances all_decimals factors
      → n ≡ i + length tokens
      → Row n token address balance decimals factor
      → Rows i
          (tokens ++ token ∷ [])
          (addresses ++ address ∷ [])
          (balances ++ balance ∷ [])
          (all_decimals ++ decimals ∷ [])
          (factors ++ factor ∷ [])
  Rows-snoc {i} n token address balance decimals factor done e r =
      let e' : n ≡ i = omega arith in
      row (subst (λ m. Row m token address balance decimals factor) e' r) done
  Rows-snoc n token address balance decimals factor (row r rs) e last =
      row r (Rows-snoc n token address balance decimals factor rs (omega arith) last)

  module _ (token_in token_out : Text) where
    -- Pair data that hold these ordered tokens.
    pub record Parsed (tokens : List Text) (d : PoolPairData) : Type 0 where
      pub rows : Rows 0 tokens d.tokens d.balances d.decimals d.scaling_factors
      pub count : length d.tokens ≡ length tokens
      pub in_is : Points token_in d.tokens d.index_in
      pub out_is : Points token_out d.tokens d.index_out
      pub bpt_is : Points pool.address d.tokens d.bpt_index
      pub fee_same : d.swap_fee ≡ state.swap_fee
      pub size_same : d.min_order_size ≡ state.minimum_order_size
      pub price_same : d.min_price ≡ state.minimum_price

    index_if-Points :
        (wanted address : Text) (addresses : List Text) (old i : ℕ)
        → i ≡ length addresses
        → Points wanted addresses old
        → Points wanted
            (addresses ++ address ∷ [])
            (index_if pool state token_in token_out address wanted i old)
    index_if-Points wanted address addresses old i e p =
        elim (Bool-cases (text_eq (to_lower_case address) (to_lower_case wanted))) [
          | inl here ↦ rw here (inr (address, rw e (get_elem-last addresses address), here))
          | inr other ↦ rw other (elim p [
            | inl (first, absent) ↦ inl (first, All-snoc _ addresses address absent other)
            | inr (a, found, same) ↦ inr (a, get_elem-append addresses address a old found, same)
          ])
        ]

    parse_token-Parsed :
        (i : ℕ) (tokens : List Text) (token : Text) (d : PoolPairData)
        → i ≡ length tokens
        → Parsed tokens d
        → Yields
            (Parsed (tokens ++ token ∷ []))
            (parse_token pool state token_in token_out i token d)
    unfolding parse_token
    parse_token-Parsed i tokens token d e p =
        Yields-bind _ (defined (lookup (to_lower_case token) pool.tokens_map)) _ (λ t known.
          Yields-bind _ (defined (lookup (to_lower_case t.address) state.tokens)) _ (λ balance held.
            Yields-bind _ (defined (get_elem? pool.tokens i)) _ (λ st listed.
              Yields-bind _ (scaling_factor st.decimals) _ (λ factor scaled.
                let (fit, factor_is) = scaling_factor-ok st.decimals factor scaled in
                let here : i ≡ length d.tokens = omega (arith, p.count) in
                record {
                  rows =
                      Rows-snoc i token t.address balance st.decimals factor p.rows
                        (omega (arith, e))
                        (record {
                          known = t;
                          listed = st;
                          known_is = defined-ok _ t known;
                          address_is = refl;
                          balance_is = defined-ok _ balance held;
                          listed_is = defined-ok _ st listed;
                          decimals_is = refl;
                          decimals_fit = fit;
                          factor_is = factor_is;
                        });
                  count = omega (
                    arith,
                    p.count,
                    length-append d.tokens (t.address ∷ []),
                    length-append tokens (token ∷ []),
                  );
                  in_is = index_if-Points token_in t.address d.tokens d.index_in i here p.in_is;
                  out_is = index_if-Points token_out t.address d.tokens d.index_out i here p.out_is;
                  bpt_is =
                      index_if-Points pool.address t.address d.tokens d.bpt_index i here p.bpt_is;
                  fee_same = p.fee_same;
                  size_same = p.size_same;
                  price_same = p.price_same;
                }))))

    parse_tokens-Parsed :
        (i : ℕ) (before tokens : List Text) (d : PoolPairData)
        → i ≡ length before
        → Parsed before d
        → Yields (Parsed (before ++ tokens)) (parse_tokens pool state token_in token_out i tokens d)
    unfolding parse_tokens
    parse_tokens-Parsed i before [] d e p = rw (append-nil before) p
    parse_tokens-Parsed i before (token ∷ tokens) d e p =
        Yields-then _ _ (parse_token pool state token_in token_out i token d) _
          (parse_token-Parsed i before token d e p)
          (λ d' p'.
            subst
              (λ ts.
                Yields (Parsed ts) (parse_tokens pool state token_in token_out (i + 1) tokens d'))
              (append_assoc before (token ∷ []) tokens)
              (parse_tokens-Parsed (i + 1) (before ++ token ∷ []) tokens d'
                (omega (arith, length-append before (token ∷ []))) p'))

    read_pool_pair_data-Parsed :
        Yields (Parsed state.ordered_tokens) (parse_pool_pair_data pool state token_in token_out)
    unfolding parse_pool_pair_data
    read_pool_pair_data-Parsed =
        parse_tokens-Parsed 0 [] state.ordered_tokens (no_data pool state token_in token_out) refl
          (record {
            rows = done;
            count = refl;
            in_is = inl (refl, tt);
            out_is = inl (refl, tt);
            bpt_is = inl (refl, tt);
            fee_same = refl;
            size_same = refl;
            price_same = refl;
          })

    -- Either the parsing returns, or one of the ordered tokens lacks something: it is not in the
    -- map under its lower case, or the address of the token there has no tracked balance, or the
    -- pool lists no token at its place, or the token listed there has more than 18 decimals. What
    -- is returned holds, for each ordered token in turn, the address of the token of the map under
    -- its lower case, the tracked balance of that address, the decimals, at most 18, of the token
    -- that the pool lists at that place, and 10 ** 18 times 10 ** (18 - decimals) as scaling
    -- factor; each of the three indices is that of an address which is the wanted one up to case,
    -- or 0 if there is none; and the fee, the order size and the price are those of the state.
    pub parse_pool_pair_data-Parsed :
        ((d : PoolPairData) × (parse_pool_pair_data pool state token_in token_out ≡ ok d)
          × Parsed state.ordered_tokens d)
        ⊎ Lacks pool state 0 state.ordered_tokens
    unfolding parse_pool_pair_data
    parse_pool_pair_data-Parsed =
        elim (Result-cases (parse_pool_pair_data pool state token_in token_out)) [
          | inl (d, e) ↦ inl (d, e, let p = rw e at read_pool_pair_data-Parsed in p)
          | inr (thrown, e) ↦ inr (parse_tokens-err pool state token_in token_out 0 _ _ thrown e)
        ]
