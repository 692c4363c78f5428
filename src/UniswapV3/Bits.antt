-- ===== src/UniswapV3/Bits.antt =====
-- src/dex/uniswap-v3/contract-math/BitMath.ts, on the 256-bit words of the tick bitmap.
pub mod Search
use verified_paraswap.Prelude.{
  ℕ, ◌+◌, ◌-◌, ◌*◌, ◌/◌, ◌%◌, ◌^◌, ◌≡◌, refl, Bool, ltb, leb, if◌then◌else◌,
}
use verified_paraswap.Prelude.Result.{Result, ok, unnamed_check, require, ◌>>=◌, ◌>>◌}

-- `if (x >= 1n << k) { x >>= k; r += k; }`, for k of 128 down to 2.
pub msb_step : ℕ → ℕ × ℕ → ℕ × ℕ
msb_step k (x, r) = if leb (2 ^ k) x then (x / 2 ^ k, r + k) else (x, r)

pub msb_last : ℕ × ℕ → ℕ
msb_last (x, r) = if leb 2 x then r + 1 else r

unfoldable pub most_significant_bit : ℕ → Result ℕ
unfolding msb_step msb_last
most_significant_bit x = do
  require (ltb 0 x) unnamed_check
  let from_128 = msb_step 128 (x, 0)
  let from_64 = msb_step 64 from_128
  let from_32 = msb_step 32 from_64
  let from_16 = msb_step 16 from_32
  let from_8 = msb_step 8 from_16
  let from_4 = msb_step 4 from_8
  ok (msb_last (msb_step 2 from_4))

-- `if ((x & ((1n << k) - 1n)) > 0n) { r -= k; } else { x >>= k; }`, for k of 128 down to 2.
pub lsb_step : ℕ → ℕ × ℕ → ℕ × ℕ
lsb_step k (x, r) = if ltb 0 (x % 2 ^ k) then (x, r - k) else (x / 2 ^ k, r)

pub lsb_last : ℕ × ℕ → ℕ
lsb_last (x, r) = if ltb 0 (x % 2) then r - 1 else r

unfoldable pub least_significant_bit : ℕ → Result ℕ
unfolding lsb_step lsb_last
least_significant_bit x = do
  require (ltb 0 x) unnamed_check
  let from_128 = lsb_step 128 (x, 255)
  let from_64 = lsb_step 64 from_128
  let from_32 = lsb_step 32 from_64
  let from_16 = lsb_step 16 from_32
  let from_8 = lsb_step 8 from_16
  let from_4 = lsb_step 4 from_8
  ok (lsb_last (lsb_step 2 from_4))
