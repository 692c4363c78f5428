-- ===== src/UniswapV3/TickBitmap/Place.antt =====
-- Where a tick stands in the map: `position` of src/dex/uniswap-v3/contract-math/TickBitMap.ts,
-- and the rounded quotient of `nextInitializedTickWithinOneWord`.
use verified_paraswap.Prelude.{
  ℕ, zero, suc, ◌+◌, ◌-◌, ◌*◌, ◌/◌, ◌%◌, ◌^◌, ◌≤◌, ◌<◌, ◌≡◌, ap, ◌∙◌, ◌==◌, if◌then◌else◌, arith,
}
use native.Mathlib.Nat.{
  mul-add-div_right, div-eq_of_lt, mul-div_cancel, mul-mod_left, mul-add-mod_self_right,
  mod-eq_of_lt,
}
use verified_paraswap.Prelude.Int.{ℤ, pos, negsuc, neg, ◌+ℤ◌, ◌-ℤ◌, ◌*ℤ◌, ◌/ℤ◌, int_laws}
use verified_paraswap.Prelude.Result.{ok}
use verified_paraswap.Prelude.Words.{
  divided, remainder, shr, as_int_n, residue, ◌%ℤ◌, divided-pos, remainder-pos, %ℤ-negsuc,
}
use verified_paraswap.UniswapV3.TickBitmap.{position, compress}

-- The compressed tick of bit `b` of word `w`.
abbrev pub tick_of : ℤ → ℕ → ℤ
tick_of (pos w) b = pos (w * 256 + b)
tick_of (negsuc w) b = negsuc (w * 256 + 255 - b)

-- The words of an int16.
abbrev pub IsWordPos : ℤ → Type 0
IsWordPos (pos w) = w < 2 ^ 15
IsWordPos (negsuc w) = w < 2 ^ 15

word_fits :
    (w : ℕ) → w < 2 ^ 15 → (as_int_n 16 (pos w) ≡ pos w) × (as_int_n 16 (negsuc w) ≡ negsuc w)
unfolding as_int_n residue
word_fits w h = (ground arith, ground arith)

residue-neg : (n b : ℕ) → n < 256 → (n + b) % 256 ≡ 0 → b < 256 → residue 8 (neg n) ≡ b
unfolding residue
residue-neg zero b h e k = omega arith
residue-neg (suc n) b h e k = omega arith

pub position-tick_of : (w : ℤ) (b : ℕ) → IsWordPos w → b < 256 → position (tick_of w b) ≡ (w, b)
unfolding position residue shr ◌%ℤ◌
position-tick_of (pos w) b h k =
    let e : (w * 256 + b) / 256 ≡ w = omega arith in
    let r : (w * 256 + b) % 256 % 256 ≡ b = omega arith in
    rw (e, (word_fits w h).0) (ap (λ (t : ℕ). (pos w, t)) r)
position-tick_of (negsuc w) b h k =
    let e : (w * 256 + 255 - b) / 256 ≡ w = omega arith in
    let r = residue-neg (suc (w * 256 + 255 - b) % 256) b (omega arith) (omega arith) k in
    rw (e, (word_fits w h).1) (ap (λ (t : ℕ). (negsuc w, t)) r)

-- Neighbouring ticks of one word.
pub tick_of-sub : (w : ℤ) (b d : ℕ) → d ≤ b → b < 256 → tick_of w b -ℤ pos d ≡ tick_of w (b - d)
tick_of-sub (pos w) b d h k = omega int_laws
tick_of-sub (negsuc w) b d h k = omega int_laws

pub tick_of-add : (w : ℤ) (b d : ℕ) → b + d < 256 → tick_of w b +ℤ pos d ≡ tick_of w (b + d)
tick_of-add (pos w) b d k = omega int_laws
tick_of-add (negsuc w) b d k = omega int_laws

neg-add : (m o : ℕ) → o < m → neg m +ℤ pos o ≡ negsuc (m - o - 1)
unfolding ◌+ℤ◌
neg-add zero o h = elim h [ ]
neg-add (suc m) o h = ground arith

-- A negative tick `-(n + 1)`, by its quotient and its rest.
compress_negsuc :
    (n s q r : ℕ)
    → 0 < s
    → suc n / s ≡ q
    → suc n % s ≡ r
    → compress (negsuc n) (pos s) ≡ ok (if r == 0 then neg q else negsuc q)
unfolding compress ◌/ℤ◌ ◌-ℤ◌
compress_negsuc n s q zero h e f =
    rw (divided-pos (negsuc n) s h, remainder-pos (negsuc n) s h, %ℤ-negsuc n s, e, f)
      (ground arith)
compress_negsuc n s zero (suc r) h e f =
    rw (divided-pos (negsuc n) s h, remainder-pos (negsuc n) s h, %ℤ-negsuc n s, e, f)
      (ground arith)
compress_negsuc n s (suc q) (suc r) h e f =
    rw (divided-pos (negsuc n) s h, remainder-pos (negsuc n) s h, %ℤ-negsuc n s, e, f)
      (ground arith)

-- The quotient is rounded down: a tick is its compressed tick times the spacing and a rest.
pub compress_lem : (c : ℤ) (s o : ℕ) → 0 < s → o < s → compress (c *ℤ pos s +ℤ pos o) (pos s) ≡ ok c
unfolding ◌*ℤ◌
compress_lem (pos c) s o h k =
    let q : (c * s + o) / s ≡ c = mul-add-div_right h c o ∙ rw (div-eq_of_lt k) (omega arith) in
    unfold compress divided remainder ◌/ℤ◌ ◌%ℤ◌ ◌+ℤ◌ in ground (arith, q)
compress_lem (negsuc c) s zero h k =
    let p : 0 < suc c * s = grind arith in
    let e : suc (suc c * s - 0 - 1) ≡ suc c * s = omega arith in
    rw (neg-add (suc c * s) 0 p) (
      compress_negsuc _ s (suc c) 0 h (ap (λ (t : ℕ). t / s) e ∙ mul-div_cancel (suc c) h)
        (ap (λ (t : ℕ). t % s) e ∙ mul-mod_left (suc c) s))
compress_lem (negsuc c) s (suc o) h k =
    let p : suc o < suc c * s = grind arith in
    let e : suc (suc c * s - suc o - 1) ≡ c * s + (s - suc o) = grind arith in
    let l : s - suc o < s = omega arith in
    rw (neg-add (suc c * s) (suc o) p) (
      compress_negsuc _ s c (s - suc o) h
        (ap (λ (t : ℕ). t / s) e
          ∙ mul-add-div_right h c (s - suc o)
          ∙ rw (div-eq_of_lt l) (omega arith))
        (ap (λ (t : ℕ). t % s) e ∙ mul-add-mod_self_right c s (s - suc o) ∙ mod-eq_of_lt l)
      ∙ ground arith)
