-- ===== src/UniswapV3/Positions/Places.antt =====
-- Two ticks of the map of src/dex/uniswap-v3/contract-math/TickBitMap.ts at one place.
use verified_paraswap.Prelude.{
  ℕ, ◌<◌, ◌≡◌, refl, sym, ap, ◌∙◌, Bool, true, false, ◌&&◌, ◌==◌, Bool-cases, inl, inr, arith,
  ==→eq,
}
use verified_paraswap.Prelude.Int.{ℤ, pos, ◌*ℤ◌, ◌/ℤ◌, ◌==ℤ◌, ==ℤ→eq}
use verified_paraswap.UniswapV3.TickBitmap.{position}
use verified_paraswap.UniswapV3.TickBitmap.Place.{tick_of, IsWordPos, position-tick_of}
use verified_paraswap.UniswapV3.TickBitmap.Flip.{multiple_quotient}

pub bool_eq : (a b : Bool) → (a ≡ true → b ≡ true) → (b ≡ true → a ≡ true) → a ≡ b
bool_eq true b f g = sym (f refl)
bool_eq false true f g = g refl
bool_eq false false f g = refl

-- Two places are the same when their ticks are.
module _ (s : ℕ) (spaced : 0 < s) (w : ℤ) (b : ℕ) (w' : ℤ) (b' : ℕ) (word_ok : IsWordPos w)
    (bit_ok : b < 256) (word_ok' : IsWordPos w') (bit_ok' : b' < 256) where
  pub place_eq : tick_of w' b' *ℤ pos s ≡ tick_of w b *ℤ pos s → ◌≡◌ {A = ℤ × ℕ} (w', b') (w, b)
  place_eq e =
      sym (position-tick_of w' b' word_ok' bit_ok')
      ∙ ap position (
          sym (multiple_quotient (tick_of w' b') s spaced)
          ∙ ap (λ (t : ℤ). t /ℤ pos s) e
          ∙ multiple_quotient (tick_of w b) s spaced)
      ∙ position-tick_of w b word_ok bit_ok

  pub same_place : (tick_of w' b' *ℤ pos s ==ℤ tick_of w b *ℤ pos s) ≡ (w' ==ℤ w && b' == b)
  same_place = bool_eq _ _ there back
    where
      there :
          (tick_of w' b' *ℤ pos s ==ℤ tick_of w b *ℤ pos s) ≡ true → (w' ==ℤ w && b' == b) ≡ true
      there e =
          let p = place_eq (==ℤ→eq _ _ e) in
          rw (ap (λ (t : ℤ × ℕ). t.0) p, ap (λ (t : ℤ × ℕ). t.1) p) (ground arith)

      back : (w' ==ℤ w && b' == b) ≡ true → (tick_of w' b' *ℤ pos s ==ℤ tick_of w b *ℤ pos s) ≡ true
      back e = elim (Bool-cases (w' ==ℤ w)) [
        | inl same ↦
            let p = ==ℤ→eq w' w same in
            let q = ==→eq b' b (rw same at e) in rw (p, q) (ground arith)
        | inr other ↦ let f = rw other at e in cc
      ]
