-- ===== src/TransferFee.antt =====
-- src/lib/token-transfer-fee.ts: amounts net of the fee that a token takes on each transfer, in basis
-- points. Fees and counts are whole numbers; amounts are unbounded integers.
pub mod RoundTrip
use verified_paraswap.Prelude.{ℕ, zero, suc, Bool, List, [], ◌∷◌, ◌||◌, ◌==◌, not, if◌then◌else◌}
use verified_paraswap.Prelude.Int.{ℤ, pos, ◌-ℤ◌, ◌*ℤ◌, ◌/ℤ◌, ◌==ℤ◌}
use verified_paraswap.Prelude.Result.{Result, ok, range_error, ◌>>=◌, ◌>>◌, require}
use verified_paraswap.Verified.Prices.{SwapSide, sell, buy}

-- `BPS_MAX_VALUE` (src/constants.ts).
abbrev pub bps_max_value : ℤ
bps_max_value = pos 10000

-- One transfer of an amount; `/` on a zero divisor throws.
unfoldable pub transfer_once : SwapSide → ℤ → ℤ → Result ℤ
transfer_once sell fee amount = ok (amount -ℤ amount *ℤ fee /ℤ bps_max_value)
transfer_once buy fee amount = do
  require (not (bps_max_value -ℤ fee ==ℤ pos 0)) range_error
  ok (amount *ℤ bps_max_value /ℤ (bps_max_value -ℤ fee))

-- The loop over the transfers of one amount.
unfoldable pub transfer_times : ℕ → SwapSide → ℤ → ℤ → Result ℤ
transfer_times zero side fee amount = ok amount
transfer_times (suc count) side fee amount = do
  once ← transfer_once side fee amount
  transfer_times count side fee once

unfoldable pub transfer_all : List ℤ → SwapSide → ℤ → ℕ → Result (List ℤ)
transfer_all [] side fee count = ok []
transfer_all (amount ∷ amounts) side fee count = do
  paid ← transfer_times count side fee amount
  rest ← transfer_all amounts side fee count
  ok (paid ∷ rest)

unfoldable pub apply_transfer_fee : List ℤ → SwapSide → ℕ → ℕ → Result (List ℤ)
apply_transfer_fee amounts side fee count =
    if (fee == 0) || (count == 0) then ok amounts else transfer_all amounts side (pos fee) count
