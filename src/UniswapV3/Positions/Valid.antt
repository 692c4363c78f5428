-- ===== src/UniswapV3/Positions/Valid.antt =====
-- Changing a position in src/dex/uniswap-v3/contract-math/uniswap-v3-math.ts and the pool's mark that
-- it is valid.
use verified_paraswap.Prelude.{◌≡◌, refl, ◌∙◌, Bool, true, false, ◌&&◌, Bool-cases, inl, inr}
use verified_paraswap.Prelude.Int.{ℤ, pos, ltb_ℤ, leb_ℤ, ◌==ℤ◌, ◌/ℤ◌}
use verified_paraswap.Prelude.Words.{remainder}
use verified_paraswap.Prelude.Result.{
  Yields, Yields-bind, Yields-then, Yields-weaken, require, liquidity_over, unnamed_check,
}
use verified_paraswap.UniswapV3.Types.{PoolState, Slot0}
use verified_paraswap.UniswapV3.TickBitmap.{flip_tick, position, is_word_pos_out}
use verified_paraswap.UniswapV3.FullMath.{add_delta}
use verified_paraswap.UniswapV3.SqrtPrice.{get_amount0_delta_o, get_amount1_delta_o}
use verified_paraswap.UniswapV3.TickMath.{get_sqrt_ratio_at_tick}
use verified_paraswap.UniswapV3.Oracle
use verified_paraswap.UniswapV3.Oracle.{observation_at}
use verified_paraswap.UniswapV3.Ticks.{Accumulators, info_or_zero, update, clear}
use verified_paraswap.UniswapV3.Positions.{
  is_tick_to_process, update_end, flip_end, clear_end, observed, change_ends, update_position,
  write_observation, position_amounts, modify_position,
}

abbrev pub SameValid : PoolState → PoolState → Type 0
SameValid state state' = state'.is_valid ≡ state.is_valid

module _ (state : PoolState) where
  update_end-SameValid :
      (e tick delta : ℤ) (seen : Accumulators) (upper : Bool)
      → Yields
          (λ (m : PoolState × Bool). SameValid state m.0)
          (update_end state e tick delta seen upper)
  unfolding update_end update
  update_end-SameValid e tick delta seen upper = elim (Bool-cases (is_tick_to_process state e)) [
    | inl known ↦ rw known (
        Yields-bind _ (add_delta (info_or_zero (state.ticks e)).liquidity_gross delta) _ λ after _.
          Yields-bind _ (require (leb_ℤ after state.max_liquidity_per_tick) liquidity_over) _
            λ _ _. refl)
    | inr far ↦ rw far refl
  ]

  flip_end-SameValid :
      (tick : ℤ) (flip : Bool) → Yields (SameValid state) (flip_end state tick flip)
  unfolding flip_end flip_tick
  flip_end-SameValid tick true = Yields-bind _ (remainder tick state.tick_spacing) _ λ rest _.
      Yields-bind _ (require (rest ==ℤ pos 0) unnamed_check) _ λ _ _.
        Yields-bind _
          (is_word_pos_out (position (tick /ℤ state.tick_spacing)).0 state.start_tick_bitmap false)
          _ λ _ _. refl
  flip_end-SameValid tick false = refl

  clear_end-SameValid : (tick : ℤ) (flip : Bool) → SameValid state (clear_end state tick flip)
  unfolding clear_end clear
  clear_end-SameValid tick true = refl
  clear_end-SameValid tick false = refl

  pub write_observation-SameValid :
      (tick liquidity : ℤ) → Yields (SameValid state) (write_observation state tick liquidity)
  unfolding write_observation Oracle.write
  write_observation-SameValid tick liquidity =
      Yields-then _ (λ m. SameValid state m.0) (Oracle.write state _ _ tick liquidity _ _) _
        (Yields-bind _ (observation_at state _) _ λ last _.
          elim (Bool-cases (last.block_timestamp ==ℤ state.block_timestamp)) [
            | inl now ↦ rw now refl
            | inr before ↦ rw before refl
          ])
        λ m same. same

change_ends-SameValid :
    (state : PoolState) (lower upper delta tick : ℤ) (seen : Accumulators)
    → Yields (SameValid state) (change_ends state lower upper delta tick seen)
unfolding change_ends
change_ends-SameValid state low high delta tick seen =
    Yields-then _ _ (update_end state low tick delta seen false) _
      (update_end-SameValid state low tick delta seen false)
      λ lower one.
        Yields-then _ _ (update_end lower.0 high tick delta seen true) _
          (update_end-SameValid lower.0 high tick delta seen true)
          λ upper two.
            Yields-then _ _ (flip_end upper.0 low lower.1) _
              (flip_end-SameValid upper.0 low lower.1)
              λ s3 three.
                Yields-then _ _ (flip_end s3 high upper.1) _ (flip_end-SameValid s3 high upper.1)
                  λ s4 four.
                    clear_end-SameValid (clear_end s4 low (ltb_ℤ delta (pos 0) && lower.1)) high _
                    ∙ clear_end-SameValid s4 low _
                    ∙ four
                    ∙ three
                    ∙ two
                    ∙ one

update_position-SameValid :
    (state : PoolState) (lower upper delta tick : ℤ)
    → Yields (SameValid state) (update_position state lower upper delta tick)
unfolding update_position
update_position-SameValid state lower upper delta tick = elim (Bool-cases (delta ==ℤ pos 0)) [
  | inl none_changed ↦ rw none_changed refl
  | inr changed ↦ rw changed (
      Yields-bind _ (observed state) _
        λ seen _. change_ends-SameValid state lower upper delta tick seen)
]

position_amounts-SameValid :
    (state : PoolState) (lower upper delta : ℤ) (slot : Slot0)
    → Yields
        (λ (m : PoolState × ℤ × ℤ). SameValid state m.0)
        (position_amounts state lower upper delta slot)
unfolding position_amounts
position_amounts-SameValid state lower upper delta slot =
    elim (Bool-cases (ltb_ℤ slot.tick lower)) [
      | inl left ↦ rw left (
          Yields-bind _ (get_sqrt_ratio_at_tick lower) _ λ l _.
            Yields-bind _ (get_sqrt_ratio_at_tick upper) _
              λ u _. Yields-bind _ (get_amount0_delta_o l u delta) _ λ _ _. refl)
      | inr right ↦ rw right (elim (Bool-cases (ltb_ℤ slot.tick upper)) [
        | inl inside ↦ rw inside (
            Yields-then _ _ (write_observation state slot.tick state.liquidity) _
              (write_observation-SameValid state slot.tick state.liquidity)
              λ written same. Yields-bind _ (get_sqrt_ratio_at_tick upper) _ λ u _.
                Yields-bind _ (get_amount0_delta_o slot.sqrt_price_x96 u delta) _ λ _ _.
                  Yields-bind _ (get_sqrt_ratio_at_tick lower) _ λ l _.
                    Yields-bind _ (get_amount1_delta_o l slot.sqrt_price_x96 delta) _
                      λ _ _. Yields-bind _ (add_delta state.liquidity delta) _ λ _ _. same)
        | inr outside ↦ rw outside (
            Yields-bind _ (get_sqrt_ratio_at_tick lower) _ λ l _.
              Yields-bind _ (get_sqrt_ratio_at_tick upper) _
                λ u _. Yields-bind _ (get_amount1_delta_o l u delta) _ λ _ _. refl)
      ])
    ]

pub modify_position-SameValid :
    (state : PoolState) (lower upper delta : ℤ)
    → Yields
        (λ (m : PoolState × ℤ × ℤ). SameValid state m.0)
        (modify_position state lower upper delta)
unfolding modify_position
modify_position-SameValid state lower upper delta =
    Yields-then _ _ (update_position state lower upper delta state.slot0.tick) _
      (update_position-SameValid state lower upper delta state.slot0.tick)
      λ state' one. elim (Bool-cases (delta ==ℤ pos 0)) [
        | inl none_changed ↦ rw none_changed one
        | inr changed ↦ rw changed (
            Yields-weaken _ _ (position_amounts state' lower upper delta state.slot0)
              (λ m two. two ∙ one)
              (position_amounts-SameValid state' lower upper delta state.slot0))
      ]
