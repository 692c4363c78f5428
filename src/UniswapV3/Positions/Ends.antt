-- ===== src/UniswapV3/Positions/Ends.antt =====
-- The steps of `_updatePosition` in src/dex/uniswap-v3/contract-math/uniswap-v3-math.ts.
use verified_paraswap.Prelude.{
  ℕ, ◌<◌, ◌≡◌, refl, sym, ap, ◌∙◌, Bool, true, false, not, ◌&&◌, ◌==◌, if◌then◌else◌, Bool-cases,
  inl, inr, arith, ==→eq,
}
use mathlib.Core.Path.{subst}
use verified_paraswap.Prelude.Int.{ℤ, pos, ◌*ℤ◌, leb_ℤ, ◌==ℤ◌, ==ℤ→eq}
use verified_paraswap.Prelude.Result.{Yields, Yields-bind, Yields-weaken}
use verified_paraswap.UniswapV3.Types.{PoolState}
use verified_paraswap.UniswapV3.TickBitmap.{bit, word_at, flip_tick, is_word_pos_out}
use verified_paraswap.UniswapV3.TickBitmap.Place.{tick_of, IsWordPos}
use verified_paraswap.UniswapV3.TickBitmap.Flip.{flipped, flip_tick_lem, bit-flipped}
use verified_paraswap.UniswapV3.Ticks.Flipped.{has_liquidity, EndUpdated, update-EndUpdated}
use verified_paraswap.UniswapV3.Ticks.{Accumulators, differ, update, clear}
use verified_paraswap.UniswapV3.Positions.{is_tick_to_process, update_end, flip_end, clear_end}

-- What turning one bit leaves.
pub record EndFlipped (state : PoolState) (w : ℤ) (b : ℕ) (flip : Bool) (state' : PoolState)
    : Type 0 where
  pub same_ticks : state'.ticks ≡ state.ticks
  pub same_spacing : state'.tick_spacing ≡ state.tick_spacing
  pub bits :
      (w' : ℤ) (b' : ℕ)
      → bit b' (word_at state' w') ≡ (
          if w' ==ℤ w && b' == b
          then differ flip (bit b' (word_at state w'))
          else bit b' (word_at state w'))

pub flipped-bits :
    (state : PoolState) (w : ℤ) (b : ℕ) (w' : ℤ) (b' : ℕ)
    → bit b' (word_at (flipped state w b) w')
      ≡ (if w' ==ℤ w && b' == b then not (bit b' (word_at state w')) else bit b' (word_at state w'))
flipped-bits state w b w' b' = bit-flipped state w b w' b' ∙ (elim (Bool-cases (w' ==ℤ w)) [
  | inl same ↦ elim (Bool-cases (b' == b)) [
    | inl here ↦ rw (==ℤ→eq w' w same, ==→eq b' b here) refl
    | inr away ↦ rw (same, away) refl
  ]
  | inr other ↦ rw other refl
])

module _ (s : ℕ) (spaced : 0 < s) (w : ℤ) (b : ℕ) (word_ok : IsWordPos w) (bit_ok : b < 256) where
  pub flip_tick-EndFlipped :
      (state : PoolState)
      → Yields (EndFlipped state w b true) (flip_tick state (tick_of w b *ℤ pos s) (pos s))
  flip_tick-EndFlipped state = rw (flip_tick_lem state w b s word_ok bit_ok spaced) (
      Yields-bind _ (is_word_pos_out w state.start_tick_bitmap false) _
        λ _ _. record { same_ticks = refl; same_spacing = refl; bits = flipped-bits state w b })

  pub flip_end-EndFlipped :
      (state : PoolState) (flip : Bool)
      → state.tick_spacing ≡ pos s
      → Yields (EndFlipped state w b flip) (flip_end state (tick_of w b *ℤ pos s) flip)
  unfolding flip_end
  flip_end-EndFlipped state true e =
      subst
        (λ (t : ℤ). Yields (EndFlipped state w b true) (flip_tick state (tick_of w b *ℤ pos s) t))
        (sym e) (flip_tick-EndFlipped state)
  flip_end-EndFlipped state false e = record {
    same_ticks = refl;
    same_spacing = refl;
    bits = λ (w' : ℤ) (b' : ℕ). elim (Bool-cases (w' ==ℤ w && b' == b)) [
      | inl same ↦ rw same refl
      | inr other ↦ rw other refl
    ];
  }

-- One end updated, and only where the pool knows it.
abbrev pub KnownUpdate : PoolState → ℤ → PoolState × Bool → Type 0
KnownUpdate state e r =
    EndUpdated state e r.1 r.0 × (r.1 ≡ true → is_tick_to_process state e ≡ true)

pub untouched : (state : PoolState) (e : ℤ) → EndUpdated state e false state
untouched state e = record {
  same_bitmap = refl;
  same_spacing = refl;
  same_start = refl;
  same_lowest = refl;
  same_highest = refl;
  liquidity = λ (k : ℤ). elim (Bool-cases (k ==ℤ e)) [
    | inl same ↦ rw same refl
    | inr other ↦ rw other refl
  ];
}

pub update_end-KnownUpdate :
    (state : PoolState) (e tick delta : ℤ) (seen : Accumulators) (upper : Bool)
    → Yields (KnownUpdate state e) (update_end state e tick delta seen upper)
unfolding update_end
update_end-KnownUpdate state e tick delta seen upper =
    elim (Bool-cases (is_tick_to_process state e)) [
      | inl known ↦ rw known (
          Yields-weaken (KnownUpdate state e) (λ (r : PoolState × Bool). EndUpdated state e r.1 r.0)
            (update state e tick delta seen upper state.max_liquidity_per_tick)
            (λ r u. (u, λ _. known))
            (update-EndUpdated tick delta seen upper state e state.max_liquidity_per_tick))
      | inr unknown ↦ rw unknown (untouched state e, λ (f : false ≡ true). cc)
    ]

-- Updating one end leaves the range of known ticks.
pub known_still :
    (state s1 : PoolState) {e : ℤ} {flip : Bool} (k : ℤ)
    → EndUpdated state e flip s1
    → is_tick_to_process s1 k ≡ true
    → is_tick_to_process state k ≡ true
unfolding is_tick_to_process
known_still state s1 k u h =
    ap (λ (t : ℤ). leb_ℤ t k && leb_ℤ k state.highest_known_tick) (sym u.same_lowest)
    ∙ ap (λ (t : ℤ). leb_ℤ s1.lowest_known_tick k && leb_ℤ k t) (sym u.same_highest)
    ∙ h

-- Clearing an end takes its liquidity away.
pub clear_end-liquidity :
    (state : PoolState) (e : ℤ) (gone : Bool) (k : ℤ)
    → has_liquidity ((clear_end state e gone).ticks k)
      ≡ (if k ==ℤ e && gone then false else has_liquidity (state.ticks k))
unfolding clear_end clear has_liquidity
clear_end-liquidity state e true k = ground arith
clear_end-liquidity state e false k = ground arith

pub clear_end-bitmap :
    (state : PoolState) (e : ℤ) (gone : Bool)
    → (clear_end state e gone).tick_bitmap ≡ state.tick_bitmap
unfolding clear_end clear
clear_end-bitmap state e true = refl
clear_end-bitmap state e false = refl

pub clear_end-spacing :
    (state : PoolState) (e : ℤ) (gone : Bool)
    → (clear_end state e gone).tick_spacing ≡ state.tick_spacing
unfolding clear_end clear
clear_end-spacing state e true = refl
clear_end-spacing state e false = refl

pub word_at_cong :
    (state state' : PoolState) (w : ℤ)
    → state.tick_bitmap ≡ state'.tick_bitmap
    → word_at state w ≡ word_at state' w
unfolding word_at
word_at_cong state state' w e = rw e refl

pub both : (a b : Bool) → (a && b) ≡ true → (a ≡ true) × (b ≡ true)
both true b e = (refl, e)
both false b e = cc

-- `a`, `c`: the tick is the lower, the upper end; `had`: it had liquidity.
pub cleared_lem :
    (a c burn fl fu had : Bool)
    → (a && c) ≡ false
    → ((a && (burn && fl)) ≡ true → had ≡ true)
    → ((c && (burn && fu)) ≡ true → had ≡ true)
    → let changed =
        if c
        then differ fu (if a then differ fl had else had)
        else if a
        then differ fl had
        else had in
      (if c && (burn && fu) then false else if a && (burn && fl) then false else changed) ≡ changed
cleared_lem true true burn fl fu had apart la ua = cc
cleared_lem true false true true fu had apart la ua = rw (la refl) refl
cleared_lem true false true false fu had apart la ua = refl
cleared_lem true false false fl fu had apart la ua = refl
cleared_lem false true true fl true had apart la ua = rw (ua refl) refl
cleared_lem false true true fl false had apart la ua = refl
cleared_lem false true false fl fu had apart la ua = refl
cleared_lem false false burn fl fu had apart la ua = refl
