-- ===== src/UniswapV3/TickBitmap/Masks.antt =====
-- The masks of `nextInitializedTickWithinOneWord` in src/dex/uniswap-v3/contract-math/TickBitMap.ts.
use verified_paraswap.Prelude.{
  ℕ, ◌+◌, ◌-◌, ◌*◌, ◌/◌, ◌%◌, ◌^◌, ◌≤◌, ◌<◌, ◌≡◌, refl, sym, ap, ◌∙◌, true, false, leb, Bool-cases,
  inl, inr, arith, leb→le, not-leb→lt,
}
use native.Mathlib.Nat.{
  one-le-pow, div-lt_iff_lt-mul, mul_assoc, mul_comm, div-add-mod', mod-lt, add-mul-div_left,
  div-eq_of_lt, pow-le-pow_right,
}
use verified_paraswap.UniswapV3.Bits.Search.{pow_add}
use verified_paraswap.UniswapV3.TickBitmap.{bit}

-- A low bit of a word is that of the word's remainder.
pub split_pow : (j n : ℕ) → j < n → 2 ^ n ≡ 2 ^ j * (2 * 2 ^ (n - j - 1))
split_pow j n h =
    let d = n - j - 1 in
    ap (λ (t : ℕ). 2 ^ t) {x = n} {y = j + (1 + d)} (omega arith)
    ∙ pow_add j (1 + d)
    ∙ ap (λ (t : ℕ). 2 ^ j * t) (pow_add 1 d)

pub bit-mod : (v n j : ℕ) → j < n → bit j (v % 2 ^ n) ≡ bit j v
unfolding bit
bit-mod v n j h =
    let q = v / 2 ^ n in
    let d = 2 ^ (n - j - 1) in
    let e : v % 2 ^ n + 2 ^ j * (2 * d * q) ≡ v =
      ap (λ (t : ℕ). v % 2 ^ n + t)
        (sym (mul_assoc (2 ^ j) (2 * d) q)
          ∙ ap (λ (t : ℕ). t * q) (sym (split_pow j n h))
          ∙ mul_comm (2 ^ n) q)
      ∙ omega (arith, div-add-mod' v (2 ^ n)) in
    let s : v / 2 ^ j ≡ v % 2 ^ n / 2 ^ j + 2 * d * q =
      ap (λ (t : ℕ). t / 2 ^ j) (sym e)
      ∙ add-mul-div_left (v % 2 ^ n) (2 * d * q) (one-le-pow j 2 (omega arith)) in
    let m = mul_assoc 2 d q in rw s (ground (arith, m))

-- A number below `2 ^ j` has no bit `j`.
pub bit_of_lt : (v n j : ℕ) → v < 2 ^ n → n ≤ j → bit j v ≡ false
unfolding bit
bit_of_lt v n j h k =
    let l : v < 2 ^ j = omega (arith, pow-le-pow_right {n = 2} (omega arith) k) in
    rw (div-eq_of_lt l) refl

-- The highest bit that is set below a mask.
pub highest_lem :
    (v b r : ℕ)
    → v % 2 ^ (b + 1) / 2 ^ r ≡ 1
    → (r ≤ b) × (bit r v ≡ true) × ((j : ℕ) → r < j → j ≤ b → bit j v ≡ false)
highest_lem v b r e = (low, there, none_between)
  where
    m : ℕ
    m = v % 2 ^ (b + 1)

    below : m < 2 ^ (r + 1)
    below = omega (
      arith,
      (div-lt_iff_lt-mul {k = 2 ^ r} {x = m} {y = 2} (one-le-pow r 2 (omega arith))).0
          (omega (arith, e)),
      pow_add r 1,
    )

    low : r ≤ b
    low = elim (Bool-cases (leb r b)) [
      | inl h ↦ leb→le _ _ h
      | inr h ↦
          let l : m < 2 ^ r = omega (
            arith,
            mod-lt v (one-le-pow (b + 1) 2 (omega arith)),
            pow-le-pow_right {n = 2} (omega arith) {i = b + 1} {j = r}
                (omega (arith, not-leb→lt _ _ h)),
          ) in
          absurd (omega (arith, div-eq_of_lt l, e))
    ]

    there : bit r v ≡ true
    there = sym (bit-mod v (b + 1) r (omega (arith, low))) ∙ unfold bit in rw e refl

    none_between : (j : ℕ) → r < j → j ≤ b → bit j v ≡ false
    none_between j h k =
        sym (bit-mod v (b + 1) j (omega arith)) ∙ bit_of_lt m (r + 1) j below (omega arith)
