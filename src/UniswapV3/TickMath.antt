-- ===== src/UniswapV3/TickMath.antt =====
-- src/dex/uniswap-v3/contract-math/TickMath.ts.
use verified_paraswap.Prelude.{
  ℕ, zero, suc, ◌+◌, ◌-◌, ◌*◌, ◌/◌, ◌%◌, ◌^◌, ◌&&◌, List, [], ◌∷◌, ltb, leb, ◌==◌, if◌then◌else◌,
}
use verified_paraswap.Prelude.Int.{ℤ, pos, ◌+ℤ◌, ◌-ℤ◌, ◌*ℤ◌, ltb_ℤ, leb_ℤ, ◌==ℤ◌}
use verified_paraswap.Prelude.Result.{
  Result, ok, tick_out, sqrt_price_out, range_error, require, ◌>>=◌, ◌>>◌,
}
use verified_paraswap.Prelude.Words.{residue, as_int_n, negate, shl, shr}
use verified_paraswap.UniswapV3.TickBitmap.{bit}

abbrev pub max_tick : ℕ
max_tick = 887272

abbrev pub min_sqrt_ratio : ℕ
min_sqrt_ratio = 4295128739

abbrev pub max_sqrt_ratio : ℕ
max_sqrt_ratio = 1461446703485210103287273052203988822378723970342

-- 2 ^ 128 / sqrt(1.0001) ^ (2 ^ k) for the bits 1 to 19 of the absolute tick.
abbrev pub factors : List (ℕ × ℕ)
factors =
    (1, 0xfff97272373d413259a46990580e213a)
    ∷ (2, 0xfff2e50f5f656932ef12357cf3c7fdcc)
    ∷ (3, 0xffe5caca7e10e4e61c3624eaa0941cd0)
    ∷ (4, 0xffcb9843d60f6159c9db58835c926644)
    ∷ (5, 0xff973b41fa98c081472e6896dfb254c0)
    ∷ (6, 0xff2ea16466c96a3843ec78b326b52861)
    ∷ (7, 0xfe5dee046a99a2a811c461f1969c3053)
    ∷ (8, 0xfcbe86c7900a88aedcffc83b479aa3a4)
    ∷ (9, 0xf987a7253ac413176f2b074cf7815e54)
    ∷ (10, 0xf3392b0822b70005940c7a398e4b70f3)
    ∷ (11, 0xe7159475a2c29b7443b29c7fa6e889d9)
    ∷ (12, 0xd097f3bdfd2022b8845ad8f792aa5825)
    ∷ (13, 0xa9f746462d870fdf8a65dc1f90e061e5)
    ∷ (14, 0x70d869a156d2a1b890bb3df62baf32f7)
    ∷ (15, 0x31be135f97d08fd981231505542fcfa6)
    ∷ (16, 0x9aa508b5b7a84e1c677de54f3e99bc9)
    ∷ (17, 0x5d6af8dedb81196699c329225ee604)
    ∷ (18, 0x2216e584f5fa1ea926041bedfe98)
    ∷ (19, 0x48a170391f7dc42444e8fa2)
    ∷ []

-- `if ((absTick & (1n << k)) !== 0n) ratio = (ratio * factor) >> 128n`, for each factor.
pub scaled : List (ℕ × ℕ) → ℕ → ℕ → ℕ
unfolding bit
scaled [] abs_tick ratio = ratio
scaled ((k, factor) ∷ rest) abs_tick ratio =
    scaled rest abs_tick (if bit k abs_tick then ratio * factor / 2 ^ 128 else ratio)

pub absolute : ℤ → ℕ
absolute tick =
    let word = as_int_n 256 tick in residue 256 (if ltb_ℤ tick (pos 0) then negate word else word)

-- A `ratio` of 0 would make the division throw.
unfoldable pub get_sqrt_ratio_at_tick : ℤ → Result ℤ
unfolding scaled absolute
get_sqrt_ratio_at_tick tick = do
  let abs_tick = absolute tick
  require (leb abs_tick max_tick) tick_out
  let first = (if bit 0 abs_tick then 0xfffcb933bd6fad37aa2d162d1a594001 else 2 ^ 128)
  let ratio = scaled factors abs_tick first
  require (ltb 0 ratio) range_error
  let turned = (if ltb_ℤ (pos 0) tick then (2 ^ 256 - 1) / ratio else ratio)
  ok (pos ((turned / 2 ^ 32 + (if turned % 2 ^ 32 == 0 then 0 else 1)) % 2 ^ 160))

-- One step of the search for the highest bit: `f = _gt(r, 2 ** k - 1) << log2(k)`. The bits of
-- `msb` that `|` sets are clear, so it adds.
pub log_step : ℕ → ℕ × ℕ → ℕ × ℕ
log_step k (r, msb) = if ltb (2 ^ k - 1) r then (r / 2 ^ k, msb + k) else (r, msb)

pub highest_bit : ℕ → ℕ
unfolding log_step
highest_bit ratio =
    let from_128 = log_step 128 (ratio, 0) in
    let from_64 = log_step 64 from_128 in
    let from_32 = log_step 32 from_64 in
    let from_16 = log_step 16 from_32 in
    let from_8 = log_step 8 from_16 in
    let from_4 = log_step 4 from_8 in let from_2 = log_step 2 from_4 in (log_step 1 from_2).1

-- The rounds for the bits 63 down to 50 of the logarithm: square, and take the bit that overflows.
-- It is 0 or 1, and the bit that `|` sets is clear. What `r` is after the last is not used.
pub log_rounds : ℕ → ℕ → ℕ → ℤ → ℤ
log_rounds zero place r log_2 = log_2
log_rounds (suc left) place r log_2 =
    let squared = r * r / 2 ^ 127 in
    let f = squared / 2 ^ 128 in
    log_rounds left (place - 1) (squared / 2 ^ f) (log_2 +ℤ pos (f * 2 ^ place))

unfoldable pub get_tick_at_sqrt_ratio : ℤ → Result ℤ
unfolding highest_bit log_rounds get_sqrt_ratio_at_tick
get_tick_at_sqrt_ratio sqrt_price = do
  require (leb_ℤ (pos min_sqrt_ratio) sqrt_price && ltb_ℤ sqrt_price (pos max_sqrt_ratio))
      sqrt_price_out
  let ratio = residue 256 sqrt_price * 2 ^ 32
  let msb = highest_bit ratio
  let r = (if leb 128 msb then ratio / 2 ^ (msb - 127) else ratio * 2 ^ (127 - msb))
  let log_2 = log_rounds 14 63 r (shl (as_int_n 256 (pos msb) -ℤ pos 128) 64)
  let log_sqrt10001 = log_2 *ℤ pos 255738958999603826347141
  let tick_low = as_int_n 24 (shr (log_sqrt10001 -ℤ pos 3402992956809132418596140100660247210) 128)
  let tick_hi = as_int_n 24 (shr (log_sqrt10001 +ℤ pos 291339464771989622907027621153398088495) 128)
  if tick_low ==ℤ tick_hi then ok tick_low else do
    price_hi ← get_sqrt_ratio_at_tick tick_hi
    ok (if leb_ℤ price_hi sqrt_price then tick_hi else tick_low)
