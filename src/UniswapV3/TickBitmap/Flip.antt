-- ===== src/UniswapV3/TickBitmap/Flip.antt =====
-- What `flipTick` of src/dex/uniswap-v3/contract-math/TickBitMap.ts changes.
use verified_paraswap.Prelude.{
  ℕ, zero, suc, ◌-◌, ◌*◌, ◌^◌, ◌<◌, ◌≡◌, refl, ap, ◌∙◌, false, not, ◌&&◌, some, ◌==◌, if◌then◌else◌,
  Bool-cases, inl, inr, arith,
}
use native.Mathlib.Nat.{mul-div_cancel, mul-mod_left}
use verified_paraswap.Prelude.Int.{ℤ, pos, negsuc, neg, ◌*ℤ◌, ◌/ℤ◌, ◌==ℤ◌, ==ℤ→eq}
use verified_paraswap.Prelude.Result.{ok, ◌>>◌}
use verified_paraswap.Prelude.Words.{remainder, remainder-pos, %ℤ-negsuc, %ℤ-pos}
use verified_paraswap.UniswapV3.Types.{PoolState, write}
use verified_paraswap.UniswapV3.TickBitmap.{bit, flip_bit, is_word_pos_out, word_at, flip_tick}
use verified_paraswap.UniswapV3.TickBitmap.Word.{bit-flip_bit, flip_bit-lt}
use verified_paraswap.UniswapV3.TickBitmap.Place.{tick_of, IsWordPos, position-tick_of}

neg_pos : (m : ℕ) → 0 < m → neg m ≡ negsuc (m - 1)
neg_pos zero h = elim h [ ]
neg_pos (suc m) h = ground arith

-- A multiple of the spacing has no rest, and its quotient is the multiplier.
multiple_rest : (c : ℤ) (s : ℕ) → 0 < s → remainder (c *ℤ pos s) (pos s) ≡ ok (pos 0)
unfolding ◌*ℤ◌
multiple_rest (pos c) s h =
    remainder-pos _ s h ∙ ap ok (%ℤ-pos (c * s) s ∙ ap pos (mul-mod_left c s))
multiple_rest (negsuc c) s h =
    let p : 0 < suc c * s = grind arith in
    let m : suc (suc c * s - 1) ≡ suc c * s = omega arith in
    remainder-pos _ s h
    ∙ rw (neg_pos (suc c * s) p, %ℤ-negsuc (suc c * s - 1) s, m, mul-mod_left (suc c) s) refl

pub multiple_quotient : (c : ℤ) (s : ℕ) → 0 < s → c *ℤ pos s /ℤ pos s ≡ c
unfolding ◌*ℤ◌ ◌/ℤ◌
multiple_quotient (pos c) s h = ap pos (mul-div_cancel c h)
multiple_quotient (negsuc c) s h =
    let p : 0 < suc c * s = grind arith in
    let m : suc (suc c * s - 1) ≡ suc c * s = omega arith in
    rw (neg_pos (suc c * s) p, m, mul-div_cancel (suc c) h) refl

-- The word that the flip writes.
abbrev pub flipped : PoolState → ℤ → ℕ → PoolState
flipped state w b = record state {
  tick_bitmap = write state.tick_bitmap w (some (flip_bit b (word_at state w)));
}

module _ (state : PoolState) (w : ℤ) (b s : ℕ) (word_ok : IsWordPos w) (bit_ok : b < 256)
    (spaced : 0 < s) where
  -- All that can go wrong is that the word lies too far off.
  pub flip_tick_lem :
      flip_tick state (tick_of w b *ℤ pos s) (pos s)
      ≡ (is_word_pos_out w state.start_tick_bitmap false >> ok (flipped state w b))
  unfolding flip_tick
  flip_tick_lem =
      rw (multiple_rest (tick_of w b) s spaced, multiple_quotient (tick_of w b) s spaced)
        (ground (arith, position-tick_of w b word_ok bit_ok))

word_at-flipped :
    (state : PoolState) (w : ℤ) (b : ℕ) (v : ℤ)
    → word_at (flipped state w b) v
      ≡ (if v ==ℤ w then flip_bit b (word_at state w) else word_at state v)
unfolding word_at
word_at-flipped state w b v = ground arith

-- Afterwards that one bit is turned over, and no other.
pub bit-flipped :
    (state : PoolState) (w : ℤ) (b : ℕ) (w' : ℤ) (b' : ℕ)
    → bit b' (word_at (flipped state w b) w')
      ≡ (if w' ==ℤ w && b' == b then not (bit b (word_at state w)) else bit b' (word_at state w'))
bit-flipped state w b w' b' = rw (word_at-flipped state w b w') (elim (Bool-cases (w' ==ℤ w)) [
  | inl same ↦ rw (same, bit-flip_bit b b' (word_at state w), ==ℤ→eq w' w same) refl
  | inr other ↦ rw other refl
])

pub word_at-flipped-lt :
    (state : PoolState) (w : ℤ) (b : ℕ)
    → b < 256
    → ((v : ℤ) → word_at state v < 2 ^ 256)
    → (v : ℤ) → word_at (flipped state w b) v < 2 ^ 256
word_at-flipped-lt state w b h fits v =
    rw (word_at-flipped state w b v) (elim (Bool-cases (v ==ℤ w)) [
      | inl same ↦ rw same (flip_bit-lt b _ h (fits w))
      | inr other ↦ rw other (fits v)
    ])

-- For a positive spacing and a multiple of it whose word fits 16 bits and is within the limit,
-- flipping the tick does not throw, turns over its bit, and leaves every other bit of the bitmap.
pub bit-flip_tick :
    (state : PoolState) (w : ℤ) (b s : ℕ)
    → IsWordPos w
    → b < 256
    → 0 < s
    → is_word_pos_out w state.start_tick_bitmap false ≡ ok tt
    → (state' : PoolState) × (flip_tick state (tick_of w b *ℤ pos s) (pos s) ≡ ok state')
      × ((w' : ℤ) (b' : ℕ)
          → bit b' (word_at state' w') ≡ (
              if w' ==ℤ w && b' == b
              then not (bit b (word_at state w))
              else bit b' (word_at state w')))
bit-flip_tick state w b s word_ok bit_ok spaced inside =
    let e = flip_tick_lem state w b s word_ok bit_ok spaced in
    (flipped state w b, rw inside at e, bit-flipped state w b)
