-- ===== src/UniswapV3/Positions/Matching.antt =====
-- The tick bitmap and the ticks agree: `_updatePosition` of
-- src/dex/uniswap-v3/contract-math/uniswap-v3-math.ts.
use verified_paraswap.Prelude.{
  ℕ, ◌<◌, ◌≡◌, ◌≢◌, refl, sym, ap, ◌∙◌, Bool, true, false, ◌&&◌, Option, ◌==◌, if◌then◌else◌,
  Bool-cases, inl, inr,
}
use verified_paraswap.Prelude.Int.{ℤ, pos, ◌*ℤ◌, ltb_ℤ, ◌==ℤ◌, ==ℤ→eq}
use verified_paraswap.Prelude.Result.{Yields, Yields-bind, Yields-then}
use verified_paraswap.UniswapV3.Types.{PoolState, TickInfo}
use verified_paraswap.UniswapV3.TickBitmap.{bit, word_at}
use verified_paraswap.UniswapV3.TickBitmap.Place.{tick_of, IsWordPos}
use verified_paraswap.UniswapV3.Ticks.Flipped.{has_liquidity, EndUpdated}
use verified_paraswap.UniswapV3.Ticks.{Accumulators, differ}
use verified_paraswap.UniswapV3.Positions.{
  is_tick_to_process, update_end, flip_end, clear_end, change_ends, observed, update_position,
}
use verified_paraswap.UniswapV3.Positions.Places.{same_place}
use verified_paraswap.UniswapV3.Positions.Ends.{
  EndFlipped, KnownUpdate, both, clear_end-bitmap, clear_end-spacing, clear_end-liquidity,
  cleared_lem, flip_end-EndFlipped, known_still, update_end-KnownUpdate, word_at_cong,
}

-- The words' bits and the ticks' liquidity say the same.
abbrev pub BitsMatch : ℕ → PoolState → Type 0
BitsMatch s state =
    (w : ℤ) (b : ℕ)
    → IsWordPos w
    → b < 256
    → bit b (word_at state w) ≡ has_liquidity (state.ticks (tick_of w b *ℤ pos s))

-- A pool of that spacing whose bitmap and ticks agree.
pub record Matched (s : ℕ) (state : PoolState) : Type 0 where
  pub bits_match : BitsMatch s state
  pub spacing_is : state.tick_spacing ≡ pos s

-- What the steps of `change_ends` leave, one after another.
module _ (s : ℕ) (spaced : 0 < s) (wl : ℤ) (bl : ℕ) (wu : ℤ) (bu : ℕ) (wl_ok : IsWordPos wl)
    (bl_ok : bl < 256) (wu_ok : IsWordPos wu) (bu_ok : bu < 256) where
  abbrev low : ℤ
  low = tick_of wl bl *ℤ pos s

  abbrev high : ℤ
  high = tick_of wu bu *ℤ pos s

  module _ (state s1 s2 s3 s4 : PoolState) (fl fu burn : Bool) (ends : low ≢ high)
      (matched : BitsMatch s state) (one : EndUpdated state low fl s1)
      (two : EndUpdated s1 high fu s2) (three : EndFlipped s2 wl bl fl s3)
      (four : EndFlipped s3 wu bu fu s4)
      (held_low : (burn && fl) ≡ true → has_liquidity (state.ticks low) ≡ true)
      (held_high : (burn && fu) ≡ true → has_liquidity (state.ticks high) ≡ true) where
    all_steps : BitsMatch s (clear_end (clear_end s4 low (burn && fl)) high (burn && fu))
    all_steps w b word_ok bit_ok = bits_are ∙ sym liquidity_is
      where
        a : Bool
        a = w ==ℤ wl && b == bl

        c : Bool
        c = w ==ℤ wu && b == bu

        had : Bool
        had = has_liquidity (state.ticks (tick_of w b *ℤ pos s))

        at_low : (tick_of w b *ℤ pos s ==ℤ low) ≡ a
        at_low = same_place s spaced wl bl w b wl_ok bl_ok word_ok bit_ok

        at_high : (tick_of w b *ℤ pos s ==ℤ high) ≡ c
        at_high = same_place s spaced wu bu w b wu_ok bu_ok word_ok bit_ok

        changed : Bool
        changed =
            if c
            then differ fu (if a then differ fl had else had)
            else if a
            then differ fl had
            else had

        k : ℤ
        k = tick_of w b *ℤ pos s

        updated : has_liquidity (s4.ticks k) ≡ (
            if k ==ℤ high
            then differ fu (if k ==ℤ low then differ fl had else had)
            else if k ==ℤ low
            then differ fl had
            else had)
        updated =
            ap (λ (ticks : ℤ → Option TickInfo). has_liquidity (ticks k))
              (four.same_ticks ∙ three.same_ticks)
            ∙ two.liquidity k
            ∙ ap (λ (x : Bool). if k ==ℤ high then differ fu x else x) (one.liquidity k)

        is_low : a ≡ true → k ≡ low
        is_low e = ==ℤ→eq k low (at_low ∙ e)

        is_high : c ≡ true → k ≡ high
        is_high e = ==ℤ→eq k high (at_high ∙ e)

        apart : (a && c) ≡ false
        apart = elim (Bool-cases a) [
          | inl p ↦ elim (Bool-cases c) [
            | inl q ↦ absurd (ends (sym (is_low p) ∙ is_high q))
            | inr q ↦ rw (p, q) refl
          ]
          | inr p ↦ rw p refl
        ]

        from_low : (a && (burn && fl)) ≡ true → had ≡ true
        from_low e =
            let (p, q) = both a (burn && fl) e in
            ap (λ (t : ℤ). has_liquidity (state.ticks t)) (is_low p) ∙ held_low q

        from_high : (c && (burn && fu)) ≡ true → had ≡ true
        from_high e =
            let (p, q) = both c (burn && fu) e in
            ap (λ (t : ℤ). has_liquidity (state.ticks t)) (is_high p) ∙ held_high q

        bits_are :
            bit b (word_at (clear_end (clear_end s4 low (burn && fl)) high (burn && fu)) w)
            ≡ changed
        bits_are =
            ap (bit b) (
              word_at_cong _ s4 w (
                clear_end-bitmap (clear_end s4 low (burn && fl)) high (burn && fu)
                ∙ clear_end-bitmap s4 low (burn && fl)))
            ∙ four.bits w b
            ∙ ap (λ (x : Bool). if c then differ fu x else x)
                (three.bits w b
                  ∙ ap (λ (x : Bool). if a then differ fl x else x)
                      (ap (bit b) (word_at_cong s2 state w (two.same_bitmap ∙ one.same_bitmap))
                        ∙ matched w b word_ok bit_ok))

        liquidity_is :
            has_liquidity (
              (clear_end (clear_end s4 low (burn && fl)) high (burn && fu)).ticks
                (tick_of w b *ℤ pos s))
            ≡ changed
        liquidity_is =
            clear_end-liquidity (clear_end s4 low (burn && fl)) high (burn && fu) k
            ∙ ap (λ (x : Bool). if k ==ℤ high && (burn && fu) then false else x)
                (clear_end-liquidity s4 low (burn && fl) k
                  ∙ ap (λ (x : Bool). if k ==ℤ low && (burn && fl) then false else x) updated)
            ∙ rw (at_high, at_low) (cleared_lem a c burn fl fu had apart from_low from_high)

  module _ (state : PoolState) (delta tick : ℤ) (spacing_is : state.tick_spacing ≡ pos s)
      (ends : low ≢ high) (matched : BitsMatch s state)
      (held_low : ltb_ℤ delta (pos 0) ≡ true
        → is_tick_to_process state low ≡ true
        → has_liquidity (state.ticks low) ≡ true)
      (held_high : ltb_ℤ delta (pos 0) ≡ true
        → is_tick_to_process state high ≡ true
        → has_liquidity (state.ticks high) ≡ true) where
    change_ends-Matched :
        (seen : Accumulators) → Yields (Matched s) (change_ends state low high delta tick seen)
    unfolding change_ends
    change_ends-Matched seen =
        let burn = ltb_ℤ delta (pos 0) in
        Yields-then (Matched s) (KnownUpdate state low) (update_end state low tick delta seen false)
          _ (update_end-KnownUpdate state low tick delta seen false)
          λ lower one.
            Yields-then (Matched s) (KnownUpdate lower.0 high)
              (update_end lower.0 high tick delta seen true) _
              (update_end-KnownUpdate lower.0 high tick delta seen true)
              λ upper two.
                Yields-then (Matched s) (EndFlipped upper.0 wl bl lower.1)
                  (flip_end upper.0 low lower.1) _
                  (flip_end-EndFlipped s spaced wl bl wl_ok bl_ok upper.0 lower.1
                    (two.0.same_spacing ∙ one.0.same_spacing ∙ spacing_is))
                  λ s3 three.
                    Yields-then (Matched s) (EndFlipped s3 wu bu upper.1) (flip_end s3 high upper.1)
                      _
                      (flip_end-EndFlipped s spaced wu bu wu_ok bu_ok s3 upper.1
                        (three.same_spacing ∙ two.0.same_spacing ∙ one.0.same_spacing ∙ spacing_is))
                      λ s4 four. record {
                        bits_match =
                            all_steps state lower.0 upper.0 s3 s4 lower.1 upper.1 burn ends matched
                              one.0 two.0 three four
                              (λ e. let (p, q) = both burn lower.1 e in held_low p (one.1 q))
                              (λ e.
                                let (p, q) = both burn upper.1 e in
                                held_high p (known_still state lower.0 high one.0 (two.1 q)));
                        spacing_is =
                            clear_end-spacing _ high (burn && upper.1)
                            ∙ clear_end-spacing s4 low (burn && lower.1)
                            ∙ four.same_spacing
                            ∙ three.same_spacing
                            ∙ two.0.same_spacing
                            ∙ one.0.same_spacing
                            ∙ spacing_is;
                      }

    -- Where each bit of the tick bitmap says whether its tick has liquidity, changing the liquidity
    -- of a position between two different ticks of the bitmap keeps this so, if it does not throw
    -- and, for liquidity that is taken away, the known ones of the two ticks have liquidity.
    pub update_position-Matched : Yields (Matched s) (update_position state low high delta tick)
    unfolding update_position
    update_position-Matched = elim (Bool-cases (delta ==ℤ pos 0)) [
      | inl none_changed ↦ rw none_changed record { bits_match = matched; spacing_is = spacing_is }
      | inr changed ↦
          rw changed (Yields-bind (Matched s) (observed state) _ λ seen _. change_ends-Matched seen)
    ]
