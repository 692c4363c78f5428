-- ===== src/UniswapV3/Pool/Invariant.antt =====
-- The blocks of src/dex/uniswap-v3/uniswap-v3-pool.ts and the match of the tick bitmap and the
-- ticks.
use verified_paraswap.Prelude.{
  ℕ, ◌<◌, ◌≡◌, Bool, true, false, Option, none, some, List, [], ◌∷◌, inl, inr, if◌then◌else◌,
}
use verified_paraswap.Prelude.Int.{ℤ}
use verified_paraswap.Prelude.Result.{Result, ok, err, Yields, Result-cases}
use verified_paraswap.UniswapV3.Types.{PoolState}
use verified_paraswap.UniswapV3.Positions.Matching.{Matched}
use verified_paraswap.UniswapV3.SwapEvents.Kept.{Known}
use verified_paraswap.UniswapV3.Pool.{Event, handle, process_block_logs}
use verified_paraswap.UniswapV3.Pool.Matching.{EventFits, handle-Matched}
use verified_paraswap.UniswapV3.Pool.Blocks.{decoded, play, block_state, process_block_logs-play}

-- Each event fits the pool that the events before it leave.
unfoldable pub EventsFit : ℕ → ℕ → ℤ → PoolState → List Event → Type 0
EventsFit s fuel time pool [] = Unit {0}
EventsFit s fuel time pool (event ∷ events) =
    EventFits s pool event
    × ((pool' : PoolState)
        → handle fuel time event pool ≡ ok (some pool')
        → EventsFit s fuel time pool' events)

module _ (s : ℕ) (fuel : ℕ) (time : ℤ) (spaced : 0 < s) where
  play-Matched :
      (pool : PoolState) (events : List Event)
      → Matched s pool
      → EventsFit s fuel time pool events
      → Yields (Known (Matched s)) (play fuel time pool events)
  unfolding play EventsFit
  play-Matched pool [] matched fit = matched
  play-Matched pool (event ∷ events) matched (fits, later) =
      elim (Result-cases (handle fuel time event pool)) [
        | inl (none, handled) ↦ rw (handled, Yields) tt
        | inl (some pool', handled) ↦ rw handled (
            play-Matched pool' events
              (rw handled at (handle-Matched s time pool spaced matched fuel event fits))
              (later pool' handled))
        | inr (e, thrown) ↦ rw (thrown, Yields) tt
      ]

  either_way :
      (pool generated : PoolState) (valid : Bool)
      → Matched s pool
      → Matched s generated
      → Matched s (if valid then pool else generated)
  either_way pool generated true kept fresh = kept
  either_way pool generated false kept fresh = fresh

  block_state-Matched :
      (generated : PoolState) (events : List Event) (played : Result (Option PoolState))
      → Matched s generated
      → Yields (Known (Matched s)) played
      → Known (Known (Matched s)) (block_state generated events played)
  unfolding block_state
  block_state-Matched generated [] played fresh kept = tt
  block_state-Matched generated (event ∷ events) (ok none) fresh kept = tt
  block_state-Matched generated (event ∷ events) (ok (some pool)) fresh kept =
      either_way pool generated pool.is_valid kept fresh
  block_state-Matched generated (event ∷ events) (err e) fresh kept = fresh

  -- Where a pool, and the state that may be generated in its place, have the given positive
  -- spacing, and each bit of their tick bitmap says whether its tick has liquidity, the state after
  -- the logs of a block, if there is one and the fuel is enough, has that spacing, and its bits say
  -- the same: swaps may cross any ticks, and each mint or burn, on the pool that it meets, is
  -- between two different ticks of the bitmap, for a burn with liquidity at those of the two that
  -- the pool knows.
  pub process_block_logs-Matched :
      (generated pool : PoolState) (logs : List (Option Event))
      → Matched s generated
      → Matched s pool
      → EventsFit s fuel time pool (decoded logs)
      → Known (Known (Matched s)) (process_block_logs fuel generated pool time logs)
  process_block_logs-Matched generated pool logs fresh matched fit =
      elim (process_block_logs-play fuel generated pool time logs) [
        | inl played ↦ rw played (
            block_state-Matched generated (decoded logs) (play fuel time pool (decoded logs)) fresh
              (play-Matched pool (decoded logs) matched fit))
        | inr (e, thrown, out) ↦ rw out tt
      ]
