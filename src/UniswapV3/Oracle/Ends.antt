-- ===== src/UniswapV3/Oracle/Ends.antt =====
-- The binary search of src/dex/uniswap-v3/contract-math/Oracle.ts ends.
use verified_paraswap.Prelude.{
  ℕ, zero, suc, ◌+◌, ◌-◌, ◌%◌, ◌≤◌, ◌<◌, ◌≡◌, ◌≢◌, none, arith, inl, inr,
}
use verified_paraswap.Prelude.Int.{ℤ}
use verified_paraswap.Prelude.Result.{ok, err, type_error, Result-cases}
use verified_paraswap.UniswapV3.Types.{PoolState}
use verified_paraswap.UniswapV3.Oracle.{
  Probe, higher, lower, found, probe, search_loop, binary_search,
}

-- What an index of the search leaves to search.
abbrev Narrower : ℕ → ℕ → Probe → Type 0
Narrower l r_suc (higher l') = (l < l') × (l' ≤ r_suc)
Narrower l r_suc (lower r') = (l ≤ r') × (r' < r_suc)
Narrower l r_suc (found a b) = Unit

module _ (state : PoolState) (time target : ℤ) (cardinality : ℕ) where
  probe-Narrower :
      (l r_suc : ℕ) (p : Probe)
      → l ≤ r_suc
      → probe state time target cardinality l r_suc ≡ ok p
      → Narrower l r_suc p
  unfolding probe
  probe-Narrower l r_suc (higher l') h e = ground arith
  probe-Narrower l r_suc (lower r') h e = ground arith
  probe-Narrower l r_suc (found a b) h e = tt

  search_loop-ends :
      (fuel l r_suc : ℕ)
      → l ≤ r_suc
      → r_suc - l < fuel
      → search_loop fuel state time target cardinality l r_suc ≢ ok none
  unfolding search_loop
  search_loop-ends zero l r_suc h f = absurd (omega arith)
  search_loop-ends (suc fuel) l r_suc h f =
      elim (Result-cases (probe state time target cardinality l r_suc)) [
        | inl (higher l', e) ↦
            let n = probe-Narrower l r_suc (higher l') h e in
            rw e (search_loop-ends fuel l' r_suc n.1 (omega arith))
        | inl (lower r', e) ↦
            let n = probe-Narrower l r_suc (lower r') h e in
            rw e (search_loop-ends fuel l r' n.0 (omega arith))
        | inl (found a b, e) ↦ rw e (λ p. cc)
        | inr (x, e) ↦ rw e (λ p. cc)
      ]

  -- The search ends: the fuel is more than the cardinality.
  pub binary_search-ends :
      (fuel index : ℕ)
      → cardinality < fuel
      → binary_search fuel state time target index cardinality ≢ ok none
  unfolding binary_search
  binary_search-ends fuel index h =
      search_loop-ends fuel ((index + 1) % cardinality) ((index + 1) % cardinality + cardinality)
        (omega arith) (omega arith)

  -- With an even cardinality the first index is a fraction, and the search throws.
  pub binary_search_even :
      (fuel index : ℕ)
      → cardinality % 2 ≡ 0
      → binary_search (suc fuel) state time target index cardinality ≡ err type_error
  unfolding binary_search search_loop probe
  binary_search_even fuel index h = ground arith
