-- ===== src/UniswapV3/TickBitmap/Word.antt =====
-- The bits of a word of `tickBitmap`: src/dex/uniswap-v3/contract-math/TickBitMap.ts.
use verified_paraswap.Prelude.{
  ℕ, ◌+◌, ◌-◌, ◌*◌, ◌/◌, ◌%◌, ◌^◌, ◌≤◌, ◌<◌, ◌≡◌, sym, ap, ◌∙◌, true, false, not, ltb, ◌==◌,
  if◌then◌else◌, Bool-cases, inl, inr, arith, ==→eq, not-==→ne, not-ltb→le, ltb→lt,
}
use native.Mathlib.Nat.{
  one-le-pow, div-lt_iff_lt-mul, le-div_iff_mul-le, div-div-eq-div-mul, add-div_right,
  add-mul-div_left,
}
use verified_paraswap.UniswapV3.Bits.Search.{pow_add}
use verified_paraswap.UniswapV3.TickBitmap.{bit, flip_bit}

-- Adding `2 ^ b` to a word leaves the parity at a lower bit.
add_above : (v b j : ℕ) → j < b → (v + 2 ^ b) / 2 ^ j % 2 ≡ v / 2 ^ j % 2
add_above v b j h =
    let d = b - j - 1 in
    let e : 2 ^ b ≡ 2 ^ j * (2 * 2 ^ d) =
      ap (λ (t : ℕ). 2 ^ t) (omega arith)
      ∙ pow_add j (1 + d)
      ∙ ap (λ (t : ℕ). 2 ^ j * t) (pow_add 1 d) in
    let s = add-mul-div_left v (2 * 2 ^ d) (one-le-pow j 2 (omega arith)) in rw (e, s) (omega arith)

-- Adding `2 ^ b` where that bit is clear sets it.
add_here : (v b : ℕ) → (v + 2 ^ b) / 2 ^ b ≡ v / 2 ^ b + 1
add_here v b = add-div_right v (one-le-pow b 2 (omega arith))

-- ... and leaves every higher bit.
add_below : (v b j : ℕ) → b < j → v / 2 ^ b % 2 ≡ 0 → (v + 2 ^ b) / 2 ^ j ≡ v / 2 ^ j
add_below v b j h e =
    let d = j - b - 1 in
    let split : 2 ^ j ≡ 2 ^ b * (2 * 2 ^ d) =
      ap (λ (t : ℕ). 2 ^ t) (omega arith)
      ∙ pow_add b (1 + d)
      ∙ ap (λ (t : ℕ). 2 ^ b * t) (pow_add 1 d) in
    let halves : (x : ℕ) → x / 2 ^ j ≡ x / 2 ^ b / 2 / 2 ^ d = λ (x : ℕ).
      ap (λ (t : ℕ). x / t) split
      ∙ sym (div-div-eq-div-mul x (2 ^ b) (2 * 2 ^ d))
      ∙ sym (div-div-eq-div-mul (x / 2 ^ b) 2 (2 ^ d)) in
    halves (v + 2 ^ b)
    ∙ ap (λ (t : ℕ). t / 2 / 2 ^ d) (add_here v b)
    ∙ ap (λ (t : ℕ). t / 2 ^ d) (omega (arith, e))
    ∙ sym (halves v)

pub bit→odd : (b v : ℕ) → bit b v ≡ true → v / 2 ^ b % 2 ≡ 1
unfolding bit
bit→odd b v h = ==→eq _ _ h

pub not-bit→even : (b v : ℕ) → bit b v ≡ false → v / 2 ^ b % 2 ≡ 0
unfolding bit
not-bit→even b v h = ground (arith, not-==→ne _ _ h)

bit_cong : (j v w : ℕ) → v / 2 ^ j % 2 ≡ w / 2 ^ j % 2 → bit j v ≡ bit j w
unfolding bit
bit_cong j v w h = rw h

-- Setting a clear bit sets that bit and leaves the others.
bit-add : (v b j : ℕ) → bit b v ≡ false → bit j (v + 2 ^ b) ≡ (if j == b then true else bit j v)
bit-add v b j h = elim (Bool-cases (j == b)) [
  | inl same ↦ rw (same, ==→eq _ _ same) set_here
  | inr other ↦ rw other (elim (Bool-cases (ltb j b)) [
    | inl below ↦ bit_cong j (v + 2 ^ b) v (add_above v b j (ltb→lt _ _ below))
    | inr above ↦ bit_cong j (v + 2 ^ b) v (
        ap (λ (t : ℕ). t % 2)
          (add_below v b j (omega (arith, not-==→ne _ _ other, not-ltb→le _ _ above))
            (not-bit→even b v h)))
  ])
]
  where
    set_here : bit b (v + 2 ^ b) ≡ true
    set_here = unfold bit in ground (arith, add_here v b, not-bit→even b v h)

take_bit : (b w : ℕ) → bit b w ≡ true → (w - 2 ^ b + 2 ^ b ≡ w) × (bit b (w - 2 ^ b) ≡ false)
take_bit b w h =
    let p = one-le-pow b 2 (omega arith) in
    let fits : 1 * 2 ^ b ≤ w = (le-div_iff_mul-le p).0 (omega (arith, bit→odd b w h)) in
    let back : w - 2 ^ b + 2 ^ b ≡ w = omega arith in
    let step : w / 2 ^ b ≡ (w - 2 ^ b) / 2 ^ b + 1 =
      ap (λ (t : ℕ). t / 2 ^ b) (sym back) ∙ add_here (w - 2 ^ b) b in
    (back, unfold bit in ground (arith, bit→odd b w h, step))

-- `^` with one bit turns that bit over and leaves the others.
pub bit-flip_bit : (b j w : ℕ) → bit j (flip_bit b w) ≡ (if j == b then not (bit b w) else bit j w)
unfolding flip_bit
bit-flip_bit b j w = elim (Bool-cases (bit b w)) [
  | inl set ↦
      let (back, clear) = take_bit b w set in
      let whole = ap (bit j) (sym back) ∙ bit-add (w - 2 ^ b) b j clear in
      rw set (elim (Bool-cases (j == b)) [
        | inl same ↦ rw (same, ==→eq _ _ same) clear
        | inr other ↦ rw other (rw other at (sym whole))
      ])
  | inr clear ↦ rw clear (bit-add w b j clear)
]

-- A word stays a word.
pub flip_bit-lt : (b w : ℕ) → b < 256 → w < 2 ^ 256 → flip_bit b w < 2 ^ 256
unfolding flip_bit
flip_bit-lt b w h fits = elim (Bool-cases (bit b w)) [
  | inl set ↦ rw set (omega arith)
  | inr clear ↦
      let p = one-le-pow b 2 (omega arith) in
      let d = 255 - b in
      let split : 2 ^ 256 ≡ 2 * 2 ^ d * 2 ^ b =
        ap (λ (t : ℕ). 2 ^ t) {x = 256} {y = 1 + d + b} (omega arith)
        ∙ pow_add (1 + d) b
        ∙ ap (λ (t : ℕ). t * 2 ^ b) (pow_add 1 d) in
      let below : w / 2 ^ b < 2 * 2 ^ d = (div-lt_iff_lt-mul p).1 (omega (arith, split)) in
      let sum : (w + 2 ^ b) / 2 ^ b < 2 * 2 ^ d =
        omega (arith, add_here w b, not-bit→even b w clear) in
      rw clear (omega (arith, (div-lt_iff_lt-mul p).0 sum, split))
]
