-- ===== src/Prelude/Words.antt =====
-- The other operators of `bigint`: remainder, shifts, and `BigInt.asUintN` and `BigInt.asIntN`.
-- A shift to the right rounds down; `%` has the sign of the dividend.
use verified_paraswap.Prelude.{
  ℕ, suc, ◌+◌, ◌-◌, ◌*◌, ◌/◌, ◌%◌, ◌^◌, ◌<◌, ◌≡◌, not, arith, ltb, if◌then◌else◌,
}
use native.Mathlib.Nat.{add-zero}
use verified_paraswap.Prelude.Int.{ℤ, pos, negsuc, neg, pos_part, neg_part, ◌*ℤ◌, ◌/ℤ◌, ◌==ℤ◌}
use verified_paraswap.Prelude.Result.{Result, ok, range_error, require, ◌>>◌}

abbrev pub magnitude : ℤ → ℕ
magnitude a = pos_part a + neg_part a

-- -a.
unfoldable pub negate : ℤ → ℤ
negate (pos n) = neg n
negate (negsuc n) = pos (suc n)

infixl 70 ◌%ℤ◌
unfoldable pub ◌%ℤ◌ : ℤ → ℤ → ℤ
pos a %ℤ b = pos (a % magnitude b)
negsuc a %ℤ b = neg (suc a % magnitude b)

-- `a / b` and `a % b`, which throw for a divisor of zero.
unfoldable pub divided : ℤ → ℤ → Result ℤ
divided a b = require (not (b ==ℤ pos 0)) range_error >> ok (a /ℤ b)

unfoldable pub remainder : ℤ → ℤ → Result ℤ
remainder a b = require (not (b ==ℤ pos 0)) range_error >> ok (a %ℤ b)

-- `a << k` and `a >> k`.
unfoldable pub shl : ℤ → ℕ → ℤ
shl a k = a *ℤ pos (2 ^ k)

unfoldable pub shr : ℤ → ℕ → ℤ
shr (pos n) k = pos (n / 2 ^ k)
shr (negsuc n) k = negsuc (n / 2 ^ k)

-- The number below 2 ^ w that agrees with an integer on its `w` low bits.
unfoldable pub residue : ℕ → ℤ → ℕ
residue w (pos n) = n % 2 ^ w
residue w (negsuc n) = 2 ^ w - 1 - n % 2 ^ w

unfoldable pub as_uint_n : ℕ → ℤ → ℤ
unfolding residue
as_uint_n w a = pos (residue w a)

-- The integer that a word of `suc h` bits stands for.
abbrev pub signed : ℕ → ℕ → ℤ
signed h r = if ltb r (2 ^ h) then pos r else negsuc (2 ^ h * 2 - 1 - r)

unfoldable pub as_int_n : ℕ → ℤ → ℤ
unfolding residue
as_int_n w a = signed (w - 1) (residue w a)

pub divided-pos : (a : ℤ) (s : ℕ) → 0 < s → divided a (pos s) ≡ ok (a /ℤ pos s)
unfolding divided
divided-pos a s h = ground arith

pub remainder-pos : (a : ℤ) (s : ℕ) → 0 < s → remainder a (pos s) ≡ ok (a %ℤ pos s)
unfolding remainder
remainder-pos a s h = ground arith

pub %ℤ-negsuc : (n s : ℕ) → negsuc n %ℤ pos s ≡ neg (suc n % s)
unfolding ◌%ℤ◌
%ℤ-negsuc n s = rw (add-zero s)

pub %ℤ-pos : (n s : ℕ) → pos n %ℤ pos s ≡ pos (n % s)
unfolding ◌%ℤ◌
%ℤ-pos n s = rw (add-zero s)
