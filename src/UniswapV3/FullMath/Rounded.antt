-- ===== src/UniswapV3/FullMath/Rounded.antt =====
-- The quotients of src/dex/uniswap-v3/contract-math/FullMath.ts, on unsigned numbers.
use verified_paraswap.Prelude.{ℕ, ◌+◌, ◌-◌, ◌*◌, ◌/◌, ◌^◌, ◌≤◌, ◌<◌, ◌≡◌, refl, arith}
use native.Mathlib.Nat.{div-lt_iff_lt-mul, le-div_iff_mul-le}
use verified_paraswap.Prelude.Int.{pos, ◌+ℤ◌, ◌-ℤ◌, ◌*ℤ◌, ◌/ℤ◌, int_laws}
use verified_paraswap.Prelude.Result.{ok}
use verified_paraswap.Prelude.Words.{divided-pos}
use verified_paraswap.UniswapV3.FullMath.{mul_div, mul_div_rounding_up, div_rounding_up}

-- The quotient rounded up, by the formula of `mulDivRoundingUp`.
abbrev pub ceil : ℕ → ℕ → ℕ
ceil n d = (n + d - 1) / d

pub ceil-le : (n d k : ℕ) → 0 < d → n ≤ k * d → ceil n d ≤ k
ceil-le n d k p h =
    let l : n + d - 1 < (k + 1) * d = grind arith in
    omega (arith, (div-lt_iff_lt-mul {k = d} {x = n + d - 1} {y = k + 1} p).1 l)

pub le-ceil : (n d : ℕ) → 0 < d → n ≤ ceil n d * d
le-ceil n d p =
    let l = (div-lt_iff_lt-mul {k = d} {x = n + d - 1} {y = ceil n d + 1} p).0 (omega arith) in
    grind arith

pub lt-ceil : (n d k : ℕ) → 0 < d → k < ceil n d → k * d < n
lt-ceil n d k p h =
    let l = (le-div_iff_mul-le {k = d} {x = k + 1} {y = n + d - 1} p).0 (omega arith) in grind arith

pub sub-pos : (a b : ℕ) → b ≤ a → pos a -ℤ pos b ≡ pos (a - b)
sub-pos a b h = omega int_laws

pub mul_div-pos :
    (a b d : ℕ)
    → 0 < d
    → a * b / d < 2 ^ 256
    → mul_div (pos a) (pos b) (pos d) ≡ ok (pos (a * b / d))
unfolding mul_div ◌*ℤ◌ ◌/ℤ◌
mul_div-pos a b d p h = rw (divided-pos (pos (a * b)) d p) (ground arith)

pub mul_div_rounding_up-pos :
    (a b d : ℕ)
    → 0 < d
    → ceil (a * b) d < 2 ^ 256
    → mul_div_rounding_up (pos a) (pos b) (pos d) ≡ ok (pos (ceil (a * b) d))
unfolding mul_div_rounding_up ◌*ℤ◌ ◌/ℤ◌ ◌+ℤ◌
mul_div_rounding_up-pos a b d p h =
    rw (sub-pos (a * b + d) 1 (omega arith), divided-pos (pos (a * b + d - 1)) d p) (ground arith)

pub div_rounding_up-pos : (n d : ℕ) → 0 < d → div_rounding_up (pos n) (pos d) ≡ ok (pos (ceil n d))
unfolding div_rounding_up ◌/ℤ◌ ◌+ℤ◌
div_rounding_up-pos n d p =
    rw (sub-pos (n + d) 1 (omega arith), divided-pos (pos (n + d - 1)) d p) refl
