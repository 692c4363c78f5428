-- ===== src/Verified/OnChain/Alignment.antt =====
-- The index into the answers, in `getOnChainState` of src/dex/verified/verified-pool.ts.
use verified_paraswap.Prelude.{
  ℕ, suc, ◌+◌, ◌≡◌, refl, ap, ◌∙◌, none, some, List, [], ◌∷◌, ◌++◌, map, arith, length, get_elem?,
  length-append, length-map, ◌⊎◌, inl, inr,
}
use native.Mathlib.Nat.{zero-add, add-zero}
use mathlib.Core.List.{map-append, append_assoc}
use verified_paraswap.Prelude.Result.{Result, ok, err, ◌>>=◌}
use verified_paraswap.Prelude.Text.{Text, Dict}
use verified_paraswap.Verified.Types.{
  VerifiedPoolType, primary_issue_pool, secondary_issue_pool, unsupported, PoolState,
  SubgraphPoolBase,
}
use verified_paraswap.Verified.OnChain.{
  CallData, get_pool_tokens, get_minimum_price, get_minimum_order_size, get_min_order_size, Answer,
  Decoder, get_on_chain_calls, multi_call_data, spread, decode_throw_error, decoded_state,
  decode_primary, decode_secondary, decode_on_chain_calls, on_chain_states, get_on_chain_state,
}

module _ {A : Type 0} where
  get_elem?-skip :
      (pre xs : List A) (k : ℕ) → get_elem? (pre ++ xs) (length pre + k) ≡ get_elem? xs k
  get_elem?-skip [] xs k = rw zero-add refl
  get_elem?-skip (p ∷ pre) xs k =
      let e : suc (length pre) + k ≡ suc (length pre + k) = omega arith in
      rw e (get_elem?-skip pre xs k)

  get_elem?-skip_zero : (pre xs : List A) → get_elem? (pre ++ xs) (length pre) ≡ get_elem? xs 0
  get_elem?-skip_zero [] xs = refl
  get_elem?-skip_zero (p ∷ pre) xs = get_elem?-skip_zero pre xs

-- A result with an index, and without it again.
abbrev indexed {ℓ} : {A : Type ℓ} → ℕ → Result A → Result (A × ℕ)
indexed n r = do p ← r; ok (p, n)

abbrev unindexed {ℓ} : {A : Type ℓ} → Result (A × ℕ) → Result A
unindexed r = do decoded ← r; ok decoded.0

-- The index that a decoder returns does not depend on what it decodes.
module _ {Z : Type 0} where
  relabel : (m n : ℕ) (r : Result Z) → indexed n r ≡ indexed n (unindexed (indexed m r))
  relabel m n (ok p) = refl
  relabel m n (err e) = refl

module _ {X Y Z : Type 0} where
  relabel_two :
      (m n : ℕ) (r : Result X) (q : Result Y) (f : X → Y → Result Z)
      → (do x ← r; y ← q; indexed n (f x y))
        ≡ indexed n (unindexed (do x ← r; y ← q; indexed m (f x y)))
  relabel_two m n (ok x) (ok y) f = relabel m n (f x y)
  relabel_two m n (ok x) (err e) f = refl
  relabel_two m n (err e) q f = refl

  relabel_three :
      (m n : ℕ) (r : Result X) (q s : Result Y) (f : X → Y → Y → Result Z)
      → (do x ← r; y ← q; z ← s; indexed n (f x y z))
        ≡ indexed n (unindexed (do x ← r; y ← q; z ← s; indexed m (f x y z)))
  relabel_three m n (ok x) (ok y) (ok z) f = relabel m n (f x y z)
  relabel_three m n (ok x) (ok y) (err e) f = refl
  relabel_three m n (ok x) (err e) s f = refl
  relabel_three m n (err e) q s f = refl

type-cases :
    (t : VerifiedPoolType)
    → (t ≡ primary_issue_pool) ⊎ (t ≡ secondary_issue_pool) ⊎ ((x : Text) × (t ≡ unsupported x))
type-cases primary_issue_pool = inl refl
type-cases secondary_issue_pool = inr (inl refl)
type-cases (unsupported x) = inr (inr (x, refl))

module _ {D : Type 0} (decoder : Decoder D) (vault : Text) (answer : CallData → Answer D) where
  -- A pool read from the answers to its own calls, and the pools one after another.
  unfoldable pub read_pool : SubgraphPoolBase → Result (Dict PoolState)
  read_pool pool = do
    decoded ← decode_on_chain_calls decoder pool (map answer (get_on_chain_calls vault pool)) 0
    ok decoded.0

  unfoldable pub read_pools : Dict PoolState → List SubgraphPoolBase → Result (Dict PoolState)
  read_pools acc [] = ok acc
  read_pools acc (p ∷ ps) = do states ← read_pool p; read_pools (spread acc states) ps

  module _ (pool : SubgraphPoolBase) (pre rest : List (Answer D)) where
    primary-aligned :
        (a b c : Answer D)
        → decode_primary decoder pool (pre ++ (a ∷ b ∷ c ∷ rest)) (length pre)
          ≡ indexed (length pre + 3) (unindexed (decode_primary decoder pool (a ∷ b ∷ c ∷ []) 0))
    unfolding decode_primary
    primary-aligned a b c =
        rw
          (
            get_elem?-skip_zero pre (a ∷ b ∷ c ∷ rest),
            get_elem?-skip pre (a ∷ b ∷ c ∷ rest) 1,
            get_elem?-skip pre (a ∷ b ∷ c ∷ rest) 2,
          )
          (relabel_three 3 (length pre + 3)
            (decode_throw_error decoder decoder.pool_tokens (some a))
            (decode_throw_error decoder decoder.amount (some b))
            (decode_throw_error decoder decoder.amount (some c))
            (λ tokens price size. decoded_state decoder pool tokens size (some price)))

    secondary-aligned :
        (a b : Answer D)
        → decode_secondary decoder pool (pre ++ (a ∷ b ∷ rest)) (length pre)
          ≡ indexed (length pre + 2) (unindexed (decode_secondary decoder pool (a ∷ b ∷ []) 0))
    unfolding decode_secondary
    secondary-aligned a b =
        rw (get_elem?-skip_zero pre (a ∷ b ∷ rest), get_elem?-skip pre (a ∷ b ∷ rest) 1)
          (relabel_two 2 (length pre + 2) (decode_throw_error decoder decoder.pool_tokens (some a))
            (decode_throw_error decoder decoder.amount (some b))
            (λ tokens size. decoded_state decoder pool tokens size none))

  module _ (pool : SubgraphPoolBase) (pre rest : List (Answer D)) where
    decode-aligned :
        decode_on_chain_calls decoder pool
          (pre ++ (map answer (get_on_chain_calls vault pool) ++ rest))
          (length pre)
        ≡ indexed (length pre + length (get_on_chain_calls vault pool)) (read_pool pool)
    unfolding decode_on_chain_calls read_pool get_on_chain_calls
    decode-aligned = elim (type-cases pool.pool_type) [
      | inl e ↦ rw e (
          primary-aligned (record pool { pool_type = primary_issue_pool }) pre rest
            (answer (get_pool_tokens vault pool.id)) (answer (get_minimum_price pool.address))
            (answer (get_minimum_order_size pool.address)))
      | inr (inl e) ↦ rw e (
          secondary-aligned (record pool { pool_type = secondary_issue_pool }) pre rest
            (answer (get_pool_tokens vault pool.id)) (answer (get_min_order_size pool.address)))
      | inr (inr (x, e)) ↦ rw (e, add-zero) refl
    ]

  length-calls :
      (pre : List (Answer D)) (pool : SubgraphPoolBase)
      → length (pre ++ map answer (get_on_chain_calls vault pool))
        ≡ length pre + length (get_on_chain_calls vault pool)
  length-calls pre pool =
      length-append pre _
      ∙ ap (λ (n : ℕ). length pre + n) (length-map answer (get_on_chain_calls vault pool))

  on_chain_states-aligned :
      (pools : List SubgraphPoolBase) (pre : List (Answer D)) (acc : Dict PoolState)
      → on_chain_states decoder pools
          (pre ++ map answer (multi_call_data vault pools))
          (length pre)
          acc
        ≡ read_pools acc pools
  unfolding on_chain_states multi_call_data read_pools
  on_chain_states-aligned [] pre acc = refl
  on_chain_states-aligned (p ∷ ps) pre acc =
      let own = map answer (get_on_chain_calls vault p) in
      let rest = map answer (multi_call_data vault ps) in
      rw
        (
          map-append answer (get_on_chain_calls vault p) (multi_call_data vault ps),
          decode-aligned p pre rest,
        )
        (carried (read_pool p) (length pre + length (get_on_chain_calls vault p))
          (λ decoded.
            on_chain_states decoder ps (pre ++ (own ++ rest)) decoded.1 (spread acc decoded.0))
          (λ states. read_pools (spread acc states) ps)
          (λ states.
            rw (← length-calls pre p, ← append_assoc pre own rest)
              (on_chain_states-aligned ps (pre ++ own) (spread acc states))))
    where
      carried :
          (r : Result (Dict PoolState)) (n : ℕ) (g : Dict PoolState × ℕ → Result (Dict PoolState))
          (k : Dict PoolState → Result (Dict PoolState))
          → ((states : Dict PoolState) → g (states, n) ≡ k states)
          → ((r >>= λ states. ok (states, n)) >>= g) ≡ (r >>= k)
      carried (ok states) n g k h = h states
      carried (err e) n g k h = refl

  -- Where the chain answers each call, reading all pools from one joined list of answers is reading
  -- each pool from the answers to its own calls, one pool after another, with the same exceptions.
  pub get_on_chain_state-read_pools :
      (pools : List SubgraphPoolBase)
      → get_on_chain_state decoder (λ calls. ok (map answer calls)) vault pools
        ≡ read_pools [] pools
  unfolding get_on_chain_state
  get_on_chain_state-read_pools pools = on_chain_states-aligned pools [] []
