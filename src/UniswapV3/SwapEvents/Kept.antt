-- ===== src/UniswapV3/SwapEvents/Kept.antt =====
-- The replay of a swap in src/dex/uniswap-v3/contract-math/uniswap-v3-math.ts and the match of the
-- tick bitmap and the ticks.
use verified_paraswap.Prelude.{
  ℕ, zero, suc, refl, ◌∙◌, Bool, false, ◌||◌, Option, none, some, Bool-cases, inl, inr,
}
use verified_paraswap.Prelude.Int.{ℤ, ◌==ℤ◌}
use verified_paraswap.Prelude.Result.{Yields, Yields-bind, Yields-then, Yields-weaken}
use verified_paraswap.UniswapV3.Types.{PoolState, Slot0}
use verified_paraswap.UniswapV3.TickBitmap.{next_initialized_tick_within_one_word}
use verified_paraswap.UniswapV3.SwapStep.{compute_swap_step}
use verified_paraswap.UniswapV3.TickMath.{get_sqrt_ratio_at_tick}
use verified_paraswap.UniswapV3.Positions.{write_observation}
use verified_paraswap.UniswapV3.Positions.Matching.{Matched}
use verified_paraswap.UniswapV3.Positions.Kept.{
  SameTicks, SameTicks-Matched, write_observation-SameTicks, Matched-still,
}
use verified_paraswap.UniswapV3.Crossing.{clamp_tick, step_target, move_tick}
use verified_paraswap.UniswapV3.Crossing.Liquidity.{SameLiquidity, move_tick-SameLiquidity}
use verified_paraswap.UniswapV3.SwapEvents.{
  Replay, replay_round, replay, replay_start, settle_swap, settle_replay, swap_from_event,
}

-- What a run leaves satisfies `P`, if it neither throws nor runs out of fuel.
abbrev pub Known {ℓ} : {A : Type ℓ} → (A → Type 0) → Option A → Type 0
Known P none = Unit {0}
Known P (some a) = P a

pub Known-weaken {ℓ} :
    {A : Type ℓ} (P Q : A → Type 0) (o : Option A) → ((a : A) → Q a → P a) → Known Q o → Known P o
Known-weaken P Q none h k = tt
Known-weaken P Q (some a) h k = h a k

module _ (pool : PoolState) (slot : Slot0) (price tick : ℤ) (zero_for_one : Bool) where
  replay_round-SameLiquidity :
      (r : Replay)
      → Yields
          (λ (r' : Replay). SameLiquidity r.ticks r'.ticks)
          (replay_round pool slot price zero_for_one r)
  unfolding replay_round
  replay_round-SameLiquidity r =
      Yields-bind _
        (next_initialized_tick_within_one_word pool r.state.tick pool.tick_spacing zero_for_one
          false)
        _
        λ next _. Yields-bind _ (get_sqrt_ratio_at_tick (clamp_tick next.0)) _ λ price_next _.
          Yields-bind _
            (compute_swap_step r.state.sqrt_price_x96 (step_target zero_for_one price_next price)
              r.state.liquidity r.state.amount_specified_remaining pool.fee)
            _
            λ step _.
              Yields-then _ _
                (move_tick pool slot zero_for_one (clamp_tick next.0) next.1 r.state.sqrt_price_x96
                  price_next _ r.cache r.ticks)
                _
                (move_tick-SameLiquidity pool slot zero_for_one (clamp_tick next.0) next.1
                  r.state.sqrt_price_x96 price_next _ r.cache r.ticks)
                λ moved same. same

  replay-SameLiquidity :
      (fuel : ℕ) (r : Replay)
      → Yields
          (Known λ (r' : Replay). SameLiquidity r.ticks r'.ticks)
          (replay fuel pool slot price tick zero_for_one r)
  unfolding replay
  replay-SameLiquidity zero r = tt
  replay-SameLiquidity (suc fuel) r =
      elim (Bool-cases (r.state.tick ==ℤ tick || r.state.sqrt_price_x96 ==ℤ price)) [
        | inl done ↦ rw done λ k. refl
        | inr more ↦ rw more (
            Yields-then _ _ (replay_round pool slot price zero_for_one r) _
              (replay_round-SameLiquidity r)
              λ r' one.
                Yields-weaken _ _ (replay fuel pool slot price tick zero_for_one r')
                  (λ ended two. Known-weaken _ _ ended (λ r'' rest k. rest k ∙ one k) two)
                  (replay-SameLiquidity fuel r'))
      ]

settle_swap-SameTicks :
    (pool : PoolState) (price tick liquidity : ℤ)
    → Yields (SameTicks pool) (settle_swap pool price tick liquidity)
unfolding settle_swap
settle_swap-SameTicks pool price tick liquidity = elim (Bool-cases (pool.slot0.tick ==ℤ tick)) [
  | inl still ↦ rw still record { same_bitmap = refl; same_ticks = refl; same_spacing = refl }
  | inr moved ↦ rw moved (
      Yields-then _ _ (write_observation pool pool.slot0.tick pool.liquidity) _
        (write_observation-SameTicks pool pool.slot0.tick pool.liquidity)
        λ written same. record {
          same_bitmap = same.same_bitmap;
          same_ticks = same.same_ticks;
          same_spacing = same.same_spacing;
        })
]

settle_replay-Matched :
    (s : ℕ) (pool : PoolState) (price tick liquidity : ℤ) (ended : Option Replay)
    → Matched s pool
    → Known (λ (r : Replay). SameLiquidity pool.ticks r.ticks) ended
    → Yields (Known (Matched s)) (settle_replay pool price tick liquidity ended)
unfolding settle_replay
settle_replay-Matched s pool price tick liquidity none matched same = tt
settle_replay-Matched s pool price tick liquidity (some r) matched same =
    let replayed = record pool { ticks = r.ticks } in
    Yields-then _ _ (settle_swap replayed price tick liquidity) _
      (settle_swap-SameTicks replayed price tick liquidity)
      λ pool' settled.
        SameTicks-Matched s replayed pool' settled
          (Matched-still s pool replayed refl same refl matched)

pub swap_from_event-Matched :
    (s fuel : ℕ) (pool : PoolState) (price tick liquidity : ℤ) (zero_for_one : Bool)
    → Matched s pool
    → Yields (Known (Matched s)) (swap_from_event fuel pool price tick liquidity zero_for_one)
unfolding swap_from_event replay_start
swap_from_event-Matched s fuel pool price tick liquidity zero_for_one matched =
    Yields-then _ _ (replay fuel pool pool.slot0 price tick zero_for_one (replay_start pool)) _
      (replay-SameLiquidity pool pool.slot0 price tick zero_for_one fuel (replay_start pool))
      λ ended same. settle_replay-Matched s pool price tick liquidity ended matched same
