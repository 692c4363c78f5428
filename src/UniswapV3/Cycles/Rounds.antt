-- ===== src/UniswapV3/Cycles/Rounds.antt =====
-- How many rounds `_priceComputationCycles` of
-- src/dex/uniswap-v3/contract-math/uniswap-v3-math.ts makes.
use verified_paraswap.Prelude.{
  ℕ, zero, suc, ◌+◌, ◌-◌, ◌≤◌, ◌<◌, ◌≡◌, ◌∙◌, refl, Bool, ◌||◌, Option, none, some, ltb, ◌==◌,
  if◌then◌else◌, Bool-cases, inl, inr, arith, ltb→lt, not-ltb→le,
}
use verified_paraswap.Prelude.Int.{ℤ, pos, ◌==ℤ◌}
use verified_paraswap.Prelude.Result.{
  Result, ok, err, word_out_of_range, Yields, Yields-bind, Yields-then, Result-cases, ◌>>=◌,
}
use verified_paraswap.UniswapV3.Types.{PoolState, Slot0, max_pricing_computation_steps_allowed}
use verified_paraswap.UniswapV3.TickMath.{get_sqrt_ratio_at_tick}
use verified_paraswap.UniswapV3.SwapStep.{compute_swap_step}
use verified_paraswap.UniswapV3.Crossing.{
  PriceComputationState, PriceComputationCache, Ticks, move_tick, clamp_tick, after_step,
}
use verified_paraswap.UniswapV3.Cycles.{
  Loop, Exit, stop, again, close_round, round, after_search, body, loop, settle,
  price_computation_cycles,
}
use verified_paraswap.UniswapV3.Crossing.Counts.{move_tick-count}

-- A run that does not run out of fuel; its result, if it does not throw, satisfies `P`.
abbrev pub Finishes {ℓ} : {A : Type ℓ} → (A → Type 0) → Result (Option A) → Type 0
Finishes P (ok none) = ⊥
Finishes P (ok (some a)) = P a
Finishes P (err e) = Unit

pub Finishes-bind {ℓ κ} :
    {A : Type ℓ} {B : Type κ} (P : B → Type 0) (Q : A → Type 0) (m : Result (Option A))
    (k : Option A → Result (Option B))
    → Finishes Q m
    → ((a : A) → Q a → Finishes P (k (some a)))
    → Finishes P (m >>= k)
Finishes-bind P Q (ok none) k f g = absurd f
Finishes-bind P Q (ok (some a)) k f g = g a f
Finishes-bind P Q (err e) k f g = tt

-- The tick count stays, and a round is counted.
pub record Counted (t : ℕ) (lp : Loop) : Type 0 where
  pub count_is : lp.cache.tick_count ≡ t
  pub latest_count_is : lp.latest_cache.tick_count ≡ t
  pub within : t + lp.rounds ≤ 129

module _ (pool : PoolState) (slot : Slot0) (limit : ℤ) (zero_for_one exact_input : Bool)
    (t : ℕ) where
  close_round-Counted :
      (lp : Loop) (m : PriceComputationState × PriceComputationCache × Ticks)
      → Counted t lp
      → t + lp.rounds ≤ 128
      → m.1.tick_count ≡ lp.cache.tick_count
      → Counted t (close_round lp lp.ticks m)
  unfolding close_round
  close_round-Counted lp m c h e = elim (Bool-cases (m.0.amount_specified_remaining ==ℤ pos 0)) [
    | inl last ↦ rw last record {
      count_is = e ∙ c.count_is;
      latest_count_is = c.latest_count_is;
      within = omega arith;
    }
    | inr more ↦
        rw more record {
          count_is = e ∙ c.count_is;
          latest_count_is = e ∙ c.count_is;
          within = omega arith;
        }
  ]

  abbrev Next : Loop → Loop → Type 0
  Next lp lp' = Counted t lp' × (lp'.rounds ≡ suc lp.rounds)

  close_round-rounds :
      (lp : Loop) (m : PriceComputationState × PriceComputationCache × Ticks)
      → (close_round lp lp.ticks m).rounds ≡ suc lp.rounds
  unfolding close_round
  close_round-rounds lp m = omega arith

  round-Next :
      (lp : Loop) (next : ℤ × Bool)
      → Counted t lp
      → t + lp.rounds ≤ 128
      → Yields (Next lp) (round pool slot limit zero_for_one exact_input lp next)
  unfolding round
  round-Next lp (found, initialized) c h =
      Yields-bind _ (get_sqrt_ratio_at_tick (clamp_tick found)) _ λ price_next _.
        Yields-bind _ (compute_swap_step _ _ _ _ _) _ λ step _.
          Yields-then (Next lp) _
            (move_tick pool slot zero_for_one (clamp_tick found) initialized lp.state.sqrt_price_x96
              price_next (after_step exact_input step lp.cache.fee_protocol lp.state) lp.cache
              lp.ticks)
            (λ m. ok (close_round lp lp.ticks m))
            (move_tick-count pool slot zero_for_one (clamp_tick found) initialized
              lp.state.sqrt_price_x96 price_next
              (after_step exact_input step lp.cache.fee_protocol lp.state) lp.cache lp.ticks)
            λ m e. (close_round-Counted lp m c h e, close_round-rounds lp m)

  -- What one turn of the loop leaves.
  abbrev Turned : Loop → Exit → Type 0
  Turned lp (stop state) = Unit {0}
  Turned lp (again lp') = (t + lp.rounds ≤ 128) × Next lp lp'

  searched :
      (lp : Loop) (r : Result (ℤ × Bool))
      → Counted t lp
      → t + lp.rounds ≤ 128
      → Yields (Turned lp) (after_search pool slot limit zero_for_one exact_input lp r)
  unfolding after_search
  searched lp (ok next) c h =
      Yields-then (Turned lp) (Next lp) (round pool slot limit zero_for_one exact_input lp next)
        (λ lp'. ok (again lp')) (round-Next lp next c h) λ lp' n. (h, n)
  searched lp (err word_out_of_range) c h = tt
  searched lp (err e) c h = tt

  body-Turned :
      (lp : Loop)
      → Counted t lp
      → Yields (Turned lp) (body pool slot limit zero_for_one exact_input lp)
  unfolding body
  body-Turned lp c =
      elim (Bool-cases
        (lp.state.amount_specified_remaining ==ℤ pos 0 || lp.state.sqrt_price_x96 ==ℤ limit)) [
          | inl done ↦ rw done tt
          | inr more ↦
              rw more
                (elim (Bool-cases (
                  ltb max_pricing_computation_steps_allowed
                    (lp.latest_cache.tick_count + lp.rounds))) [
                      | inl many ↦ rw many tt
                      | inr few ↦
                          rw few
                            (searched lp _ c (omega (arith, not-ltb→le _ _ few, c.latest_count_is)))
                    ])
        ]

  loop-Finishes :
      (fuel : ℕ) (lp : Loop)
      → Counted t lp
      → 129 - (t + lp.rounds) < fuel
      → Finishes (Counted t) (loop fuel pool slot limit zero_for_one exact_input lp)
  unfolding loop
  loop-Finishes zero lp c h = absurd (omega arith)
  loop-Finishes (suc fuel) lp c h =
      elim (Result-cases (body pool slot limit zero_for_one exact_input lp)) [
        | inl (stop state, e) ↦
            rw e record {
              count_is = c.count_is;
              latest_count_is = c.latest_count_is;
              within = c.within;
            }
        | inl (again lp', e) ↦
            let (few, (next, counted)) = rw e at (body-Turned lp c) in
            rw e (loop-Finishes fuel lp' next (omega arith))
        | inr (x, e) ↦ rw e tt
      ]

-- The tick count of a settled run: that of the whole computation so far.
abbrev pub CountFits : Loop → Type 0
CountFits lp = (1 ≤ lp.latest_cache.tick_count) × (lp.latest_cache.tick_count ≤ 128)

settle-CountFits : (t : ℕ) (lp : Loop) → 1 ≤ t → t ≤ 128 → Counted t lp → CountFits (settle lp)
unfolding settle
settle-CountFits t lp low high c = elim (Bool-cases (ltb 1 lp.rounds)) [
  | inl many ↦ rw many (omega (arith, c.latest_count_is, c.within, ltb→lt _ _ many))
  | inr few ↦ rw few (omega (arith, c.latest_count_is))
]

-- The fuel of 129 rounds does not run out, and the tick count stays within its limit.
pub price_computation_cycles-Finishes :
    (fuel : ℕ) (pool : PoolState) (ticks : Ticks) (slot : Slot0) (state : PriceComputationState)
    (cache : PriceComputationCache) (limit : ℤ) (zero_for_one exact_input : Bool)
    → cache.tick_count ≤ 128
    → 128 < fuel
    → Finishes CountFits
        (price_computation_cycles fuel pool ticks slot state cache limit zero_for_one exact_input)
unfolding price_computation_cycles
price_computation_cycles-Finishes fuel pool ticks slot state cache limit zero_for_one exact_input h
      k =
    Finishes-bind CountFits (Counted t) (loop fuel pool slot limit zero_for_one exact_input start) _
      (loop-Finishes pool slot limit zero_for_one exact_input t fuel start
        record { count_is = refl; latest_count_is = refl; within = omega (arith, bounds) }
        (omega (arith, bounds)))
      λ lp c. settle-CountFits t lp bounds.0 bounds.1 c
  where
    t : ℕ
    t = if cache.tick_count == 0 then 1 else cache.tick_count

    bounds : (1 ≤ t) × (t ≤ 128)
    bounds = ground arith

    started : PriceComputationCache
    started = record cache { tick_count = t }

    start : Loop
    start = record {
      state = state;
      cache = started;
      ticks = ticks;
      latest_state = state;
      latest_cache = started;
      rounds = 0;
    }
