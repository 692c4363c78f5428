-- ===== src/UniswapV3/Bits/Search.antt =====
-- What the searches of src/dex/uniswap-v3/contract-math/BitMath.ts find.
use verified_paraswap.Prelude.{
  ℕ, zero, suc, ◌+◌, ◌-◌, ◌*◌, ◌/◌, ◌%◌, ◌^◌, ◌<◌, ◌≡◌, ◌≢◌, sym, ap, ◌∙◌, ltb, leb, Bool-cases,
  inl, inr, arith, leb→le, not-leb→lt, ltb→lt, not-ltb→le, lt→ltb,
}
use native.Mathlib.Nat.{
  pow-suc, one-le-pow, div-lt_iff_lt-mul, le-div_iff_mul-le, div-div-eq-div-mul, div-add-mod',
  mul_assoc, mul_comm, zero-add, div-one, mod-mod_of_dvd, dvd-mul_right, mul-mod_left, mod-eq_of_lt,
}
use verified_paraswap.Prelude.Result.{ok}
use verified_paraswap.UniswapV3.Bits.{
  msb_step, msb_last, most_significant_bit, lsb_step, lsb_last, least_significant_bit,
}

pub pow_add : (a b : ℕ) → 2 ^ (a + b) ≡ 2 ^ a * 2 ^ b
pow_add zero b = rw zero-add (omega arith)
pow_add (suc a) b = grind (arith, pow_add a b, pow-suc 2 (a + b), pow-suc 2 a)

abbrev pub Found : ℕ → ℕ → ℕ × ℕ → Type 0
Found x0 k s = (x0 / 2 ^ s.1 ≡ s.0) × (0 < s.0) × (s.0 < 2 ^ k)

msb_step-Found : (k x0 y r : ℕ) → Found x0 (k + k) (y, r) → Found x0 k (msb_step k (y, r))
unfolding msb_step
msb_step-Found k x0 y r (e, p, q) = elim (Bool-cases (leb (2 ^ k) y)) [
  | inl big ↦ rw big (
    ap (λ (t : ℕ). x0 / t) (pow_add r k)
        ∙ sym (div-div-eq-div-mul x0 (2 ^ r) (2 ^ k))
        ∙ ap (λ (t : ℕ). t / 2 ^ k) e,
    (le-div_iff_mul-le (one-le-pow k 2 (omega arith))).1 (omega (arith, leb→le _ _ big)),
    (div-lt_iff_lt-mul (one-le-pow k 2 (omega arith))).1 (rw (← pow_add k k) q),
  )
  | inr small ↦ rw small (e, p, not-leb→lt _ _ small)
]

msb_last-Found : (x0 y r : ℕ) → Found x0 2 (y, r) → x0 / 2 ^ msb_last (y, r) ≡ 1
unfolding msb_last
msb_last-Found x0 y r (e, p, q) = elim (Bool-cases (leb 2 y)) [
  | inl big ↦ rw big (
      ap (λ (t : ℕ). x0 / t) (pow_add r 1)
      ∙ sym (div-div-eq-div-mul x0 (2 ^ r) 2)
      ∙ ap (λ (t : ℕ). t / 2) e
      ∙ omega (arith, leb→le _ _ big))
  | inr small ↦ rw small (e ∙ omega (arith, not-leb→lt _ _ small))
]

-- The search finds the highest bit of a word that is set.
pub most_significant_bit_lem :
    (x : ℕ) → 0 < x → x < 2 ^ 256 → (r : ℕ) × (most_significant_bit x ≡ ok r) × (x / 2 ^ r ≡ 1)
unfolding most_significant_bit
most_significant_bit_lem x p q = (
  msb_last (msb_step 2 s4),
  rw (lt→ltb _ _ p),
  msb_last-Found x _ _ (
      msb_step-Found 2 x _ _ (
        msb_step-Found 4 x _ _ (
          msb_step-Found 8 x _ _ (
            msb_step-Found 16 x _ _ (
              msb_step-Found 32 x _ _
                (msb_step-Found 64 x _ _ (msb_step-Found 128 x x 0 (div-one x, p, q)))))))),
)
  where
    s4 : ℕ × ℕ
    s4 = msb_step 4 (msb_step 8 (msb_step 16 (msb_step 32 (msb_step 64 (msb_step 128 (x, 0))))))

-- The low bits of a remainder.
pub mod-mod_pow : (x a b : ℕ) → x % 2 ^ (a + b) % 2 ^ a ≡ x % 2 ^ a
mod-mod_pow x a b = rw (pow_add a b) (mod-mod_of_dvd (2 ^ a) x (dvd-mul_right (2 ^ a) (2 ^ b)))

-- `x0` is `y` shifted up by `base`; `y` has a bit below 2 * k; `r` is `base + 2 * k - 1`.
abbrev pub Narrowed : ℕ → ℕ → ℕ × ℕ → Type 0
Narrowed x0 k s = (base : ℕ) × (s.0 * 2 ^ base ≡ x0) × (0 < s.0 % 2 ^ k) × (s.1 + 1 ≡ base + k)

-- Where the low `k` bits are clear, they are shifted away.
times_quotient : (y k : ℕ) → y % 2 ^ k ≡ 0 → y / 2 ^ k * 2 ^ k ≡ y
times_quotient y k e = omega (arith, div-add-mod' y (2 ^ k))

shift_shift : (z y x0 base k : ℕ) → z * 2 ^ k ≡ y → y * 2 ^ base ≡ x0 → z * 2 ^ (base + k) ≡ x0
shift_shift z y x0 base k e h =
    ap (λ (t : ℕ). z * t) (pow_add base k ∙ mul_comm (2 ^ base) (2 ^ k))
    ∙ sym (mul_assoc z (2 ^ k) (2 ^ base))
    ∙ ap (λ (t : ℕ). t * 2 ^ base) e
    ∙ h

quotient_ne : (y k : ℕ) → y % 2 ^ k ≡ 0 → 0 < y % 2 ^ (k + k) → y / 2 ^ k % 2 ^ k ≢ 0
quotient_ne y k e p z =
    let w : y ≡ y / 2 ^ k / 2 ^ k * 2 ^ (k + k) =
      sym (times_quotient y k e)
      ∙ ap (λ (t : ℕ). t * 2 ^ k) (sym (times_quotient (y / 2 ^ k) k z))
      ∙ mul_assoc (y / 2 ^ k / 2 ^ k) (2 ^ k) (2 ^ k)
      ∙ ap (λ (t : ℕ). y / 2 ^ k / 2 ^ k * t) (sym (pow_add k k)) in
    omega
      (arith, ap (λ (t : ℕ). t % 2 ^ (k + k)) w, mul-mod_left (y / 2 ^ k / 2 ^ k) (2 ^ (k + k)), p)

lsb_step-Narrowed :
    (k x0 y r : ℕ) → 0 < k → Narrowed x0 (k + k) (y, r) → Narrowed x0 k (lsb_step k (y, r))
unfolding lsb_step
lsb_step-Narrowed k x0 y r h (base, e, p, q) = elim (Bool-cases (ltb 0 (y % 2 ^ k))) [
  | inl low ↦ rw low (base, e, ltb→lt _ _ low, omega arith)
  | inr high ↦
      let z : y % 2 ^ k ≡ 0 = omega (arith, not-ltb→le _ _ high) in
      let eq = shift_shift (y / 2 ^ k) y x0 base k (times_quotient y k z) e in
      rw high (base + k, eq, omega (arith, quotient_ne y k z p), omega arith)
]

lsb_last-Narrowed :
    (x0 y r : ℕ) → Narrowed x0 2 (y, r) → (q : ℕ) × (q * 2 ^ lsb_last (y, r) ≡ x0) × (q % 2 ≡ 1)
unfolding lsb_last
lsb_last-Narrowed x0 y r (base, e, p, q) = elim (Bool-cases (ltb 0 (y % 2))) [
  | inl low ↦
      let b : r - 1 ≡ base = omega arith in rw (low, b) (y, e, omega (arith, ltb→lt _ _ low))
  | inr high ↦
      let b : r ≡ base + 1 = omega arith in
      let n = not-ltb→le _ _ high in
      let half : y / 2 * 2 ≡ y = omega arith in
      let eq = shift_shift (y / 2) y x0 base 1 half e in rw (high, b) (y / 2, eq, omega arith)
]

-- The search finds the lowest bit of a word that is set.
pub least_significant_bit_lem :
    (x : ℕ)
    → 0 < x
    → x < 2 ^ 256
    → (r q : ℕ) × (least_significant_bit x ≡ ok r) × (q * 2 ^ r ≡ x) × (q % 2 ≡ 1)
unfolding least_significant_bit
least_significant_bit_lem x p q = (lsb_last s2, odd.0, rw (lt→ltb _ _ p), odd.1, odd.2)
  where
    s2 : ℕ × ℕ
    s2 =
        lsb_step 2 (
          lsb_step 4 (lsb_step 8 (lsb_step 16 (lsb_step 32 (lsb_step 64 (lsb_step 128 (x, 255)))))))

    start : Narrowed x (128 + 128) (x, 255)
    start = (0, omega arith, rw (mod-eq_of_lt q) p, omega arith)

    odd : (q : ℕ) × (q * 2 ^ lsb_last s2 ≡ x) × (q % 2 ≡ 1)
    odd = lsb_last-Narrowed x _ _ (
        lsb_step-Narrowed 2 x _ _ (omega arith) (
          lsb_step-Narrowed 4 x _ _ (omega arith) (
            lsb_step-Narrowed 8 x _ _ (omega arith) (
              lsb_step-Narrowed 16 x _ _ (omega arith) (
                lsb_step-Narrowed 32 x _ _ (omega arith) (
                  lsb_step-Narrowed 64 x _ _ (omega arith)
                    (lsb_step-Narrowed 128 x x 255 (omega arith) start)))))))
