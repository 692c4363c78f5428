-- ===== src/UniswapV3/TickBitmap/Next.antt =====
-- What `nextInitializedTickWithinOneWord` of src/dex/uniswap-v3/contract-math/TickBitMap.ts finds.
use verified_paraswap.Prelude.{
  ℕ, ◌+◌, ◌-◌, ◌*◌, ◌/◌, ◌%◌, ◌^◌, ◌≤◌, ◌<◌, ◌≡◌, ◌≢◌, refl, sym, ap, ◌∙◌, Bool, true, false, ltb,
  leb, ◌==◌, Bool-cases, inl, inr, arith, ==→eq, not-==→ne, leb→le, not-leb→lt, ltb→lt, not-ltb→le,
}
use native.Mathlib.Nat.{
  one-le-pow, mul_assoc, mul_comm, mul-div_cancel, div-mul-le_self, sub_self, mod-le,
  div-div-eq-div-mul,
}
use verified_paraswap.Prelude.Int.{ℤ, pos, ◌+ℤ◌, ◌-ℤ◌, ◌*ℤ◌, int_laws}
use verified_paraswap.Prelude.Result.{ok}
use verified_paraswap.Prelude.Words.{as_int_n, residue}
use verified_paraswap.UniswapV3.Types.{PoolState}
use verified_paraswap.UniswapV3.Bits.Search.{
  pow_add, most_significant_bit_lem, least_significant_bit_lem,
}
use verified_paraswap.UniswapV3.TickBitmap.{
  bit, is_word_pos_out, word_at, below_in_word, above_in_word, next_at_or_below, next_above,
  next_initialized_tick_within_one_word,
}
use verified_paraswap.UniswapV3.TickBitmap.Place.{
  tick_of, IsWordPos, position-tick_of, tick_of-sub, tick_of-add, compress_lem,
}
use verified_paraswap.UniswapV3.TickBitmap.Masks.{bit-mod, bit_of_lt, highest_lem, split_pow}

-- The search downwards.
abbrev pub NextBelow : ℤ → ℕ → ℕ → ℤ → ℤ × Bool → Type 0
NextBelow w b word s r =
    (b' : ℕ) × (b' ≤ b)
    × (r ≡ (tick_of w b' *ℤ s, bit b' word))
    × ((j : ℕ) → b' < j → j ≤ b → bit j word ≡ false)
    × (bit b' word ≡ false → b' ≡ 0)

small_fits : (n : ℕ) → n < 256 → as_int_n 24 (pos n) ≡ pos n
unfolding as_int_n residue
small_fits n h = ground arith

sub-pos : (a b : ℕ) → b ≤ a → pos a -ℤ pos b ≡ pos (a - b)
sub-pos a b h = omega int_laws

true-ne-false : true ≢ false
true-ne-false e = cc

-- The tick that the search downwards returns.
below_lem :
    (w : ℤ) (b d : ℕ) (s : ℤ)
    → b < 256
    → d ≤ b
    → (tick_of w b -ℤ as_int_n 24 (pos d)) *ℤ s ≡ tick_of w (b - d) *ℤ s
below_lem w b d s h k = rw (small_fits d (omega arith), tick_of-sub w b d k h) refl

above_lem :
    (w : ℤ) (b d : ℕ) (s : ℤ)
    → b + d < 256
    → (tick_of w b +ℤ as_int_n 24 (pos d)) *ℤ s ≡ tick_of w (b + d) *ℤ s
above_lem w b d s k = rw (small_fits d (omega arith), tick_of-add w b d k) refl

below_in_word-NextBelow :
    (w : ℤ) (b : ℕ) (s : ℤ) (word : ℕ)
    → b < 256
    → word < 2 ^ 256
    → (r : ℤ × Bool) × (below_in_word (tick_of w b) s b word ≡ ok r) × NextBelow w b word s r
unfolding below_in_word
below_in_word-NextBelow w b s word h fits = elim (Bool-cases (word % 2 ^ (b + 1) == 0)) [
  | inl empty ↦
      let z = ==→eq _ _ empty in
      let clear : (j : ℕ) → j ≤ b → bit j word ≡ false = λ (j : ℕ) k.
        sym (bit-mod word (b + 1) j (omega arith))
        ∙ rw z (bit_of_lt 0 0 j (omega arith) (omega arith)) in
      let a : ((tick_of w b -ℤ as_int_n 24 (pos b)) *ℤ s, false) ≡ (tick_of w 0 *ℤ s, bit 0 word) =
        rw (clear 0 (omega arith))
          (ap (λ (t : ℤ). (t, false)) (below_lem w b b s h (omega arith) ∙ rw (sub_self b) refl)) in
      rw empty (_, refl, (0, omega arith, a, λ (j : ℕ) l k. clear j k, λ e. refl))
  | inr set ↦
      let (r, found, one) =
        most_significant_bit_lem (word % 2 ^ (b + 1)) (omega (arith, not-==→ne _ _ set))
          (omega (arith, mod-le word (2 ^ (b + 1)))) in
      let (low, there, clear) = highest_lem word b r one in
      let e : b - (b - r) ≡ r = omega arith in
      let a : ((tick_of w b -ℤ as_int_n 24 (pos b -ℤ pos r)) *ℤ s, true)
          ≡ (tick_of w r *ℤ s, bit r word) =
        rw (there, sub-pos b r low)
          (ap (λ (t : ℤ). (t, true)) (below_lem w b (b - r) s h (omega arith) ∙ rw e refl)) in
      rw (set, found) (_, refl, (r, low, a, clear, λ f. absurd (true-ne-false (sym there ∙ f))))
]

-- Above `b`, the bits of a word are those of the word with its low bits cleared.
bit-clear_low : (v b j : ℕ) → b ≤ j → bit j (v / 2 ^ b * 2 ^ b) ≡ bit j v
unfolding bit
bit-clear_low v b j h =
    let d = j - b in
    let split : 2 ^ j ≡ 2 ^ b * 2 ^ d =
      ap (λ (t : ℕ). 2 ^ t) {x = j} {y = b + d} (omega arith) ∙ pow_add b d in
    let e : v / 2 ^ b * 2 ^ b / 2 ^ j ≡ v / 2 ^ j = rw split (
      sym (div-div-eq-div-mul (v / 2 ^ b * 2 ^ b) (2 ^ b) (2 ^ d))
      ∙ ap (λ (t : ℕ). t / 2 ^ d) (mul-div_cancel (v / 2 ^ b) (one-le-pow b 2 (omega arith)))
      ∙ div-div-eq-div-mul v (2 ^ b) (2 ^ d)) in
    rw e refl

-- A multiple of `2 ^ k` has no bit below `k`.
bit-multiple : (q k j : ℕ) → j < k → bit j (q * 2 ^ k) ≡ false
unfolding bit
bit-multiple q k j h =
    let d = 2 ^ (k - j - 1) in
    let e : q * 2 ^ k ≡ q * (2 * d) * 2 ^ j =
      ap (λ (t : ℕ). q * t) (split_pow j k h ∙ mul_comm (2 ^ j) (2 * d))
      ∙ sym (mul_assoc q (2 * d) (2 ^ j)) in
    let half : q * (2 * d) ≡ 2 * (q * d) = grind arith in
    rw (e, mul-div_cancel (q * (2 * d)) (one-le-pow j 2 (omega arith)), half) (ground arith)

-- The lowest bit that is set above a mask.
lowest_lem :
    (v b r q : ℕ)
    → q * 2 ^ r ≡ v / 2 ^ b * 2 ^ b
    → q % 2 ≡ 1
    → (b ≤ r) × (bit r v ≡ true) × ((j : ℕ) → b ≤ j → j < r → bit j v ≡ false)
lowest_lem v b r q e odd = (high, there, none_between)
  where
    set : bit r (v / 2 ^ b * 2 ^ b) ≡ true
    set = rw (← e) (unfold bit in rw (mul-div_cancel q (one-le-pow r 2 (omega arith)), odd) refl)

    high : b ≤ r
    high = elim (Bool-cases (leb b r)) [
      | inl h ↦ leb→le _ _ h
      | inr h ↦ absurd (true-ne-false (sym set ∙ bit-multiple (v / 2 ^ b) b r (not-leb→lt _ _ h)))
    ]

    there : bit r v ≡ true
    there = sym (bit-clear_low v b r high) ∙ set

    none_between : (j : ℕ) → b ≤ j → j < r → bit j v ≡ false
    none_between j h k = sym (bit-clear_low v b j h) ∙ ap (bit j) (sym e) ∙ bit-multiple q r j k

-- The search upwards.
abbrev pub NextAbove : ℤ → ℕ → ℕ → ℤ → ℤ × Bool → Type 0
NextAbove w b word s r =
    (b' : ℕ) × (b ≤ b')
    × (b' < 256)
    × (r ≡ (tick_of w b' *ℤ s, bit b' word))
    × ((j : ℕ) → b ≤ j → j < b' → bit j word ≡ false)
    × (bit b' word ≡ false → b' ≡ 255)

above_in_word-NextAbove :
    (w c : ℤ) (b : ℕ) (s : ℤ) (word : ℕ)
    → c +ℤ pos 1 ≡ tick_of w b
    → b < 256
    → word < 2 ^ 256
    → (r : ℤ × Bool) × (above_in_word c s b word ≡ ok r) × NextAbove w b word s r
unfolding above_in_word
above_in_word-NextAbove w c b s word ce h fits =
    rw ce (elim (Bool-cases (word / 2 ^ b * 2 ^ b == 0)) [
      | inl empty ↦
          let z = ==→eq _ _ empty in
          let clear : (j : ℕ) → b ≤ j → bit j word ≡ false = λ (j : ℕ) k.
            sym (bit-clear_low word b j k) ∙ rw z (bit_of_lt 0 0 j (omega arith) (omega arith)) in
          let e : b + (255 - b) ≡ 255 = omega arith in
          let a : ((tick_of w b +ℤ as_int_n 24 (pos 255 -ℤ pos b)) *ℤ s, false)
              ≡ (tick_of w 255 *ℤ s, bit 255 word) =
            rw (clear 255 (omega arith), sub-pos 255 b (omega arith))
              (ap (λ (t : ℤ). (t, false)) (above_lem w b (255 - b) s (omega arith) ∙ rw e refl)) in
          rw empty
            (_, refl, (255, omega arith, omega arith, a, λ (j : ℕ) l k. clear j l, λ f. refl))
      | inr set ↦
          let (r, q, found, whole, odd) =
            least_significant_bit_lem (word / 2 ^ b * 2 ^ b) (omega (arith, not-==→ne _ _ set))
              (omega (arith, div-mul-le_self word (2 ^ b))) in
          let (high, there, clear) = lowest_lem word b r q whole odd in
          let inside : r < 256 = elim (Bool-cases (ltb r 256)) [
            | inl l ↦ ltb→lt _ _ l
            | inr l ↦
                absurd (true-ne-false (sym there ∙ bit_of_lt word 256 r fits (not-ltb→le _ _ l)))
          ] in
          let e : b + (r - b) ≡ r = omega arith in
          let a : ((tick_of w b +ℤ as_int_n 24 (pos r -ℤ pos b)) *ℤ s, true)
              ≡ (tick_of w r *ℤ s, bit r word) =
            rw (there, sub-pos r b high)
              (ap (λ (t : ℤ). (t, true)) (above_lem w b (r - b) s (omega arith) ∙ rw e refl)) in
          rw (set, found)
            (_, refl, (r, high, inside, a, clear, λ f. absurd (true-ne-false (sym there ∙ f))))
    ])

module _ (state : PoolState) (w : ℤ) (b s o : ℕ) (price : Bool) (word_ok : IsWordPos w)
    (bit_ok : b < 256) (fits : word_at state w < 2 ^ 256) (spaced : 0 < s) (rest : o < s)
    (inside : is_word_pos_out w state.start_tick_bitmap price ≡ ok tt) where
  next_at_or_below_lem :
      next_at_or_below state (tick_of w b) (pos s) price
      ≡ below_in_word (tick_of w b) (pos s) b (word_at state w)
  unfolding next_at_or_below
  next_at_or_below_lem = ground (arith, position-tick_of w b word_ok bit_ok, inside)

  -- For a positive spacing, a tick whose word fits 16 bits, holds a number of 256 bits and is
  -- within the limit, the search downwards returns a tick of that word at or below it, with the
  -- flag that its bit is; no bit between the two is set, and if the flag is not set the tick is the
  -- first of the word.
  pub next_initialized_tick_within_one_word-NextBelow :
      (r : ℤ × Bool) × (next_initialized_tick_within_one_word state
          (tick_of w b *ℤ pos s +ℤ pos o)
          (pos s)
          true
          price
        ≡ ok r)
      × NextBelow w b (word_at state w) (pos s) r
  unfolding next_initialized_tick_within_one_word
  next_initialized_tick_within_one_word-NextBelow =
      rw (compress_lem (tick_of w b) s o spaced rest, next_at_or_below_lem)
        (below_in_word-NextBelow w b (pos s) (word_at state w) bit_ok fits)

  module _ (c : ℤ) (after : c +ℤ pos 1 ≡ tick_of w b) where
    next_above_lem : next_above state c (pos s) price ≡ above_in_word c (pos s) b (word_at state w)
    unfolding next_above
    next_above_lem = rw after (ground (arith, position-tick_of w b word_ok bit_ok, inside))

    -- For a positive spacing, a next tick whose word fits 16 bits, holds a number of 256 bits and
    -- is within the limit, the search upwards returns a tick of that word at or above the next
    -- tick, with the flag that its bit is; no bit between the two is set, and if the flag is not
    -- set the tick is the last of the word.
    pub next_initialized_tick_within_one_word-NextAbove :
        (r : ℤ × Bool) × (next_initialized_tick_within_one_word state
            (c *ℤ pos s +ℤ pos o)
            (pos s)
            false
            price
          ≡ ok r)
        × NextAbove w b (word_at state w) (pos s) r
    unfolding next_initialized_tick_within_one_word
    next_initialized_tick_within_one_word-NextAbove =
        rw (compress_lem c s o spaced rest, next_above_lem)
          (above_in_word-NextAbove w c b (pos s) (word_at state w) after bit_ok fits)
