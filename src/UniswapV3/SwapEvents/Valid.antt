-- ===== src/UniswapV3/SwapEvents/Valid.antt =====
-- The replay of a swap in src/dex/uniswap-v3/contract-math/uniswap-v3-math.ts and the pool's mark that
-- it is valid.
use verified_paraswap.Prelude.{ℕ, refl, Bool, Option, none, some, Bool-cases, inl, inr}
use verified_paraswap.Prelude.Int.{ℤ, ◌==ℤ◌}
use verified_paraswap.Prelude.Result.{Yields, Yields-bind, Yields-then}
use verified_paraswap.UniswapV3.Types.{PoolState}
use verified_paraswap.UniswapV3.Positions.{write_observation}
use verified_paraswap.UniswapV3.Positions.Valid.{SameValid, write_observation-SameValid}
use verified_paraswap.UniswapV3.SwapEvents.{
  Replay, replay, replay_start, settle_swap, settle_replay, swap_from_event,
}
use verified_paraswap.UniswapV3.SwapEvents.Kept.{Known}

settle_swap-SameValid :
    (pool : PoolState) (price tick liquidity : ℤ)
    → Yields (SameValid pool) (settle_swap pool price tick liquidity)
unfolding settle_swap
settle_swap-SameValid pool price tick liquidity = elim (Bool-cases (pool.slot0.tick ==ℤ tick)) [
  | inl still ↦ rw still refl
  | inr moved ↦ rw moved (
      Yields-then _ _ (write_observation pool pool.slot0.tick pool.liquidity) _
        (write_observation-SameValid pool pool.slot0.tick pool.liquidity) λ written same. same)
]

settle_replay-SameValid :
    (pool : PoolState) (price tick liquidity : ℤ) (ended : Option Replay)
    → Yields (Known (SameValid pool)) (settle_replay pool price tick liquidity ended)
unfolding settle_replay
settle_replay-SameValid pool price tick liquidity none = tt
settle_replay-SameValid pool price tick liquidity (some r) =
    let replayed = record pool { ticks = r.ticks } in
    Yields-then _ _ (settle_swap replayed price tick liquidity) _
      (settle_swap-SameValid replayed price tick liquidity) λ pool' same. same

pub swap_from_event-SameValid :
    (fuel : ℕ) (pool : PoolState) (price tick liquidity : ℤ) (zero_for_one : Bool)
    → Yields (Known (SameValid pool)) (swap_from_event fuel pool price tick liquidity zero_for_one)
unfolding swap_from_event
swap_from_event-SameValid fuel pool price tick liquidity zero_for_one =
    Yields-bind _ (replay fuel pool pool.slot0 price tick zero_for_one (replay_start pool)) _
      λ ended _. settle_replay-SameValid pool price tick liquidity ended
