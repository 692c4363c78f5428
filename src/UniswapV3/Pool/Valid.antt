-- ===== src/UniswapV3/Pool/Valid.antt =====
-- No event of src/dex/uniswap-v3/uniswap-v3-pool.ts makes a pool valid again that is marked invalid.
use verified_paraswap.Prelude.{
  ℕ, ◌≡◌, refl, ◌∙◌, Bool, true, false, ◌&&◌, Option, none, some, Bool-cases, inl, inr,
}
use verified_paraswap.Prelude.Int.{ℤ, pos, leb_ℤ}
use verified_paraswap.Prelude.Result.{Yields, Yields-then}
use verified_paraswap.UniswapV3.Types.{PoolState}
use verified_paraswap.UniswapV3.Positions.{modify_position}
use verified_paraswap.UniswapV3.Positions.Valid.{SameValid, modify_position-SameValid}
use verified_paraswap.UniswapV3.SwapEvents.{swap_from_event}
use verified_paraswap.UniswapV3.SwapEvents.Kept.{Known}
use verified_paraswap.UniswapV3.SwapEvents.Valid.{swap_from_event-SameValid}
use verified_paraswap.UniswapV3.Pool.{
  Event, swap, burn, mint, set_fee_protocol, collect, flash, increase_observation_cardinality_next,
  at_block, swap_balances, handle_swap_event, handle_burn_event, handle_mint_event,
  handle_set_fee_protocol_event, handle_collect_event, handle_flash_event,
  handle_increase_observation_cardinality_next_event, handle,
}

abbrev pub IsInvalid : PoolState → Type 0
IsInvalid pool = pool.is_valid ≡ false

swap_balances-IsInvalid :
    (zero_for_one : Bool) (amount0 amount1 : ℤ) (pool : PoolState)
    → IsInvalid pool
    → IsInvalid (swap_balances zero_for_one amount0 amount1 pool)
unfolding swap_balances
swap_balances-IsInvalid true amount0 amount1 pool invalid = rw invalid refl
swap_balances-IsInvalid false amount0 amount1 pool invalid = rw invalid refl

module _ (time : ℤ) (pool : PoolState) (invalid : IsInvalid pool) where
  balanced :
      (zero_for_one : Bool) (amount0 amount1 : ℤ) (swapped : Option PoolState)
      → Known (SameValid pool) swapped
      → Known IsInvalid (elim swapped [
        | none ↦ none
        | some pool' ↦ some (swap_balances zero_for_one amount0 amount1 pool')
      ])
  balanced zero_for_one amount0 amount1 none same = tt
  balanced zero_for_one amount0 amount1 (some pool') same =
      swap_balances-IsInvalid zero_for_one amount0 amount1 pool' (same ∙ invalid)

  handle_swap_event-IsInvalid :
      (fuel : ℕ) (price amount0 amount1 tick liquidity : ℤ)
      → Yields
          (Known IsInvalid)
          (handle_swap_event fuel time price amount0 amount1 tick liquidity pool)
  unfolding handle_swap_event at_block
  handle_swap_event-IsInvalid fuel price amount0 amount1 tick liquidity =
      elim (Bool-cases (leb_ℤ amount0 (pos 0) && leb_ℤ amount1 (pos 0))) [
        | inl wrong ↦ rw wrong refl
        | inr right ↦ rw right (
            Yields-then _ _ (swap_from_event fuel (at_block time pool) price tick liquidity _) _
              (swap_from_event-SameValid fuel (at_block time pool) price tick liquidity _)
              λ swapped same. balanced _ amount0 amount1 swapped same)
      ]

  pub handle-IsInvalid :
      (fuel : ℕ) (event : Event) → Yields (Known IsInvalid) (handle fuel time event pool)
  unfolding handle handle_burn_event handle_mint_event handle_set_fee_protocol_event
      handle_collect_event handle_flash_event handle_increase_observation_cardinality_next_event
      at_block
  handle-IsInvalid fuel (swap price amount0 amount1 tick liquidity) =
      handle_swap_event-IsInvalid fuel price amount0 amount1 tick liquidity
  handle-IsInvalid fuel (burn amount low high) =
      Yields-then _ IsInvalid (handle_burn_event time amount low high pool) _
        (Yields-then _ _ (modify_position (at_block time pool) low high _) _
          (modify_position-SameValid (at_block time pool) low high _)
          λ changed same. same ∙ invalid)
        λ pool' still. still
  handle-IsInvalid fuel (mint amount low high amount0 amount1) =
      Yields-then _ IsInvalid (handle_mint_event time amount low high amount0 amount1 pool) _
        (Yields-then _ _ (modify_position (at_block time pool) low high amount) _
          (modify_position-SameValid (at_block time pool) low high amount)
          λ changed same. same ∙ invalid)
        λ pool' still. still
  handle-IsInvalid fuel (set_fee_protocol fee0 fee1) = invalid
  handle-IsInvalid fuel (collect amount0 amount1) = invalid
  handle-IsInvalid fuel (flash paid0 paid1) = invalid
  handle-IsInvalid fuel (increase_observation_cardinality_next next) = invalid
