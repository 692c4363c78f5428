-- ===== src/UniswapV3/Positions/Kept.antt =====
-- `_modifyPosition` of src/dex/uniswap-v3/contract-math/uniswap-v3-math.ts and the match of the tick
-- bitmap and the ticks.
use verified_paraswap.Prelude.{
  ℕ, ◌<◌, ◌≡◌, ◌≢◌, refl, sym, ap, ◌∙◌, true, Option, Bool-cases, inl, inr,
}
use verified_paraswap.Prelude.Int.{ℤ, pos, ◌*ℤ◌, ltb_ℤ, ◌==ℤ◌}
use verified_paraswap.Prelude.Result.{Yields, Yields-bind, Yields-then, Yields-weaken}
use verified_paraswap.UniswapV3.Types.{PoolState, Slot0, TickInfo}
use verified_paraswap.UniswapV3.TickBitmap.{bit}
use verified_paraswap.UniswapV3.TickBitmap.Place.{tick_of, IsWordPos}
use verified_paraswap.UniswapV3.FullMath.{add_delta}
use verified_paraswap.UniswapV3.SqrtPrice.{get_amount0_delta_o, get_amount1_delta_o}
use verified_paraswap.UniswapV3.TickMath.{get_sqrt_ratio_at_tick}
use verified_paraswap.UniswapV3.Oracle
use verified_paraswap.UniswapV3.Oracle.{observation_at}
use verified_paraswap.UniswapV3.Ticks.Flipped.{has_liquidity}
use verified_paraswap.UniswapV3.Crossing.Liquidity.{SameLiquidity}
use verified_paraswap.UniswapV3.Positions.{
  is_tick_to_process, update_position, write_observation, position_amounts, modify_position,
}
use verified_paraswap.UniswapV3.Positions.Ends.{word_at_cong}
use verified_paraswap.UniswapV3.Positions.Matching.{Matched, update_position-Matched}

-- The bitmap and the ticks are untouched.
pub record SameTicks (state state' : PoolState) : Type 0 where
  pub same_bitmap : state'.tick_bitmap ≡ state.tick_bitmap
  pub same_ticks : state'.ticks ≡ state.ticks
  pub same_spacing : state'.tick_spacing ≡ state.tick_spacing

pub Matched-still :
    (s : ℕ) (state state' : PoolState)
    → state'.tick_bitmap ≡ state.tick_bitmap
    → SameLiquidity state.ticks state'.ticks
    → state'.tick_spacing ≡ state.tick_spacing
    → Matched s state
    → Matched s state'
Matched-still s state state' bitmap same spacing matched = record {
  bits_match = λ w b word_ok bit_ok.
      ap (bit b) (word_at_cong state' state w bitmap)
      ∙ matched.bits_match w b word_ok bit_ok
      ∙ sym (same (tick_of w b *ℤ pos s));
  spacing_is = spacing ∙ matched.spacing_is;
}

pub SameTicks-Matched :
    (s : ℕ) (state state' : PoolState) → SameTicks state state' → Matched s state → Matched s state'
SameTicks-Matched s state state' same =
    Matched-still s state state' same.same_bitmap
      (λ k. ap (λ (ticks : ℤ → Option TickInfo). has_liquidity (ticks k)) same.same_ticks)
      same.same_spacing

write-SameTicks :
    (state : PoolState) (index : ℕ) (time tick liquidity : ℤ) (cardinality next : ℕ)
    → Yields
        (λ (m : PoolState × ℕ × ℕ). SameTicks state m.0)
        (Oracle.write state index time tick liquidity cardinality next)
unfolding Oracle.write
write-SameTicks state index time tick liquidity cardinality next =
    Yields-bind _ (observation_at state index) _ λ last _.
      elim (Bool-cases (last.block_timestamp ==ℤ state.block_timestamp)) [
        | inl now ↦ rw now record { same_bitmap = refl; same_ticks = refl; same_spacing = refl }
        | inr before ↦
            rw before record { same_bitmap = refl; same_ticks = refl; same_spacing = refl }
      ]

pub write_observation-SameTicks :
    (state : PoolState) (tick liquidity : ℤ)
    → Yields (SameTicks state) (write_observation state tick liquidity)
unfolding write_observation
write_observation-SameTicks state tick liquidity =
    Yields-then _ _ (Oracle.write state _ _ tick liquidity _ _) _
      (write-SameTicks state _ _ tick liquidity _ _)
      λ m same. record {
        same_bitmap = same.same_bitmap;
        same_ticks = same.same_ticks;
        same_spacing = same.same_spacing;
      }

position_amounts-SameTicks :
    (state : PoolState) (lower upper delta : ℤ) (slot : Slot0)
    → Yields
        (λ (m : PoolState × ℤ × ℤ). SameTicks state m.0)
        (position_amounts state lower upper delta slot)
unfolding position_amounts
position_amounts-SameTicks state lower upper delta slot =
    elim (Bool-cases (ltb_ℤ slot.tick lower)) [
      | inl left ↦ rw left (
          Yields-bind _ (get_sqrt_ratio_at_tick lower) _ λ l _.
            Yields-bind _ (get_sqrt_ratio_at_tick upper) _ λ u _.
              Yields-bind _ (get_amount0_delta_o l u delta) _
                λ _ _. record { same_bitmap = refl; same_ticks = refl; same_spacing = refl })
      | inr right ↦ rw right (elim (Bool-cases (ltb_ℤ slot.tick upper)) [
        | inl inside ↦ rw inside (
            Yields-then _ _ (write_observation state slot.tick state.liquidity) _
              (write_observation-SameTicks state slot.tick state.liquidity)
              λ written same. Yields-bind _ (get_sqrt_ratio_at_tick upper) _ λ u _.
                Yields-bind _ (get_amount0_delta_o slot.sqrt_price_x96 u delta) _ λ _ _.
                  Yields-bind _ (get_sqrt_ratio_at_tick lower) _ λ l _.
                    Yields-bind _ (get_amount1_delta_o l slot.sqrt_price_x96 delta) _ λ _ _.
                      Yields-bind _ (add_delta state.liquidity delta) _ λ _ _. record {
                        same_bitmap = same.same_bitmap;
                        same_ticks = same.same_ticks;
                        same_spacing = same.same_spacing;
                      })
        | inr outside ↦ rw outside (
            Yields-bind _ (get_sqrt_ratio_at_tick lower) _ λ l _.
              Yields-bind _ (get_sqrt_ratio_at_tick upper) _ λ u _.
                Yields-bind _ (get_amount1_delta_o l u delta) _
                  λ _ _. record { same_bitmap = refl; same_ticks = refl; same_spacing = refl })
      ])
    ]

-- A change of a position's liquidity fits the pool: its ticks are two different ticks of the bitmap,
-- and where liquidity is taken away, those that the pool knows have some.
pub record PositionFits (s : ℕ) (state : PoolState) (low high delta : ℤ) : Type 0 where
  pub lower_word : ℤ
  pub lower_bit : ℕ
  pub upper_word : ℤ
  pub upper_bit : ℕ
  pub lower_word_ok : IsWordPos lower_word
  pub lower_bit_ok : lower_bit < 256
  pub upper_word_ok : IsWordPos upper_word
  pub upper_bit_ok : upper_bit < 256
  pub lower_is : low ≡ tick_of lower_word lower_bit *ℤ pos s
  pub upper_is : high ≡ tick_of upper_word upper_bit *ℤ pos s
  pub apart : low ≢ high
  pub held_low :
      ltb_ℤ delta (pos 0) ≡ true
      → is_tick_to_process state low ≡ true
      → has_liquidity (state.ticks low) ≡ true
  pub held_high :
      ltb_ℤ delta (pos 0) ≡ true
      → is_tick_to_process state high ≡ true
      → has_liquidity (state.ticks high) ≡ true

module _ (s : ℕ) (spaced : 0 < s) (state : PoolState) (low high delta : ℤ)
    (fits : PositionFits s state low high delta) (matched : Matched s state) where
  update_fitting : (tick : ℤ) → Yields (Matched s) (update_position state low high delta tick)
  update_fitting tick =
      rw (fits.lower_is, fits.upper_is)
        (update_position-Matched s spaced fits.lower_word fits.lower_bit fits.upper_word
          fits.upper_bit fits.lower_word_ok fits.lower_bit_ok fits.upper_word_ok fits.upper_bit_ok
          state delta tick matched.spacing_is (rw (fits.lower_is, fits.upper_is) at fits.apart)
          matched.bits_match (rw fits.lower_is at fits.held_low)
          (rw fits.upper_is at fits.held_high))

  pub modify_position-Matched :
      Yields (λ (m : PoolState × ℤ × ℤ). Matched s m.0) (modify_position state low high delta)
  unfolding modify_position
  modify_position-Matched =
      Yields-then _ (Matched s) (update_position state low high delta state.slot0.tick) _
        (update_fitting state.slot0.tick)
        λ state' still. elim (Bool-cases (delta ==ℤ pos 0)) [
          | inl none_changed ↦ rw none_changed still
          | inr changed ↦ rw changed (
              Yields-weaken _ _ (position_amounts state' low high delta state.slot0)
                (λ m same. SameTicks-Matched s state' m.0 same still)
                (position_amounts-SameTicks state' low high delta state.slot0))
        ]
