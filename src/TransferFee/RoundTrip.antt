-- ===== src/TransferFee/RoundTrip.antt =====
-- The fees of a purchase and of a sale (src/lib/token-transfer-fee.ts) against each other.
use verified_paraswap.Prelude.{
  ℕ, zero, suc, ◌+◌, ◌-◌, ◌*◌, ◌/◌, ◌≤◌, ◌<◌, ◌≡◌, refl, ap, List, [], ◌∷◌, map, arith, ◌||◌, ◌==◌,
  Bool-cases, inl, inr,
}
use verified_paraswap.Prelude.Int.{ℤ, pos, ◌-ℤ◌, ◌*ℤ◌, ◌/ℤ◌}
use verified_paraswap.Prelude.Result.{ok}
use verified_paraswap.Verified.Prices.{sell, buy}
use verified_paraswap.FixedMath.Rounding.{lt_suc_div}
use verified_paraswap.TransferFee.{transfer_once, transfer_times, transfer_all, apply_transfer_fee}
use native.Mathlib.Nat.{div-mul-le_self, mul-le-mul_left}

-- What one transfer leaves of an amount, and what must be sent so that an amount arrives.
abbrev pub left : ℕ → ℕ → ℕ
left fee n = n - n * fee / 10000

abbrev pub sent : ℕ → ℕ → ℕ
sent fee n = n * 10000 / (10000 - fee)

sell-left : (fee n : ℕ) → fee ≤ 10000 → transfer_once sell (pos fee) (pos n) ≡ ok (pos (left fee n))
unfolding transfer_once ◌-ℤ◌ ◌*ℤ◌ ◌/ℤ◌
sell-left fee n h = ground (arith, mul-le-mul_left n h)

buy-sent : (fee n : ℕ) → fee < 10000 → transfer_once buy (pos fee) (pos n) ≡ ok (pos (sent fee n))
unfolding transfer_once ◌-ℤ◌ ◌*ℤ◌ ◌/ℤ◌
buy-sent fee n h = ground arith

left_exact :
    (a n fee keep : ℕ)
    → keep + fee ≡ 10000
    → a * keep ≤ n * 10000
    → n * 10000 < (a + 1) * keep
    → a - a * fee / 10000 ≡ n
left_exact a n fee keep whole low high = omega (arith, ap (λ (t : ℕ). a * t) whole)

left-sent : (fee n : ℕ) → fee < 10000 → left fee (sent fee n) ≡ n
left-sent fee n h =
    left_exact (sent fee n) n fee (10000 - fee) (omega arith)
      (div-mul-le_self (n * 10000) (10000 - fee))
      (lt_suc_div (n * 10000) (10000 - fee) (omega arith))

-- The amount behind `count` transfers, and its inverse.
sent_times : ℕ → ℕ → ℕ → ℕ
sent_times zero fee n = n
sent_times (suc count) fee n = sent_times count fee (sent fee n)

buy-sent_times :
    (count fee n : ℕ)
    → fee < 10000
    → transfer_times count buy (pos fee) (pos n) ≡ ok (pos (sent_times count fee n))
unfolding transfer_times sent_times
buy-sent_times zero fee n h = refl
buy-sent_times (suc count) fee n h = rw (buy-sent fee n h) (buy-sent_times count fee (sent fee n) h)

sent_times_comm :
    (count fee n : ℕ) → sent_times count fee (sent fee n) ≡ sent fee (sent_times count fee n)
unfolding sent_times
sent_times_comm zero fee n = refl
sent_times_comm (suc count) fee n = sent_times_comm count fee (sent fee n)

sell-sent_times :
    (count fee n : ℕ)
    → fee < 10000
    → transfer_times count sell (pos fee) (pos (sent_times count fee n)) ≡ ok (pos n)
unfolding transfer_times sent_times
sell-sent_times zero fee n h = refl
sell-sent_times (suc count) fee n h =
    rw
      (
        sent_times_comm count fee n,
        sell-left fee (sent fee (sent_times count fee n)) (omega arith),
        left-sent fee (sent_times count fee n) h,
      )
      (sell-sent_times count fee n h)

sell_buy_all :
    (amounts : List ℕ) (fee count : ℕ)
    → fee < 10000
    → (raised : List ℤ) × (transfer_all (map pos amounts) buy (pos fee) count ≡ ok raised)
      × (transfer_all raised sell (pos fee) count ≡ ok (map pos amounts))
unfolding transfer_all
sell_buy_all [] fee count h = ([], refl, refl)
sell_buy_all (n ∷ amounts) fee count h =
    let (raised, eb, es) = sell_buy_all amounts fee count h in
    (
      pos (sent_times count fee n) ∷ raised,
      rw (buy-sent_times count fee n h, eb),
      rw (sell-sent_times count fee n h, es),
    )

-- For a fee below 100 percent and any number of transfers, amounts that are not negative, raised by
-- the fees of a purchase, are exactly the amounts again less the same fees of a sale; neither call
-- throws.
pub apply_transfer_fee_roundtrip :
    (amounts : List ℕ) (fee count : ℕ)
    → fee < 10000
    → (raised : List ℤ) × (apply_transfer_fee (map pos amounts) buy fee count ≡ ok raised)
      × (apply_transfer_fee raised sell fee count ≡ ok (map pos amounts))
unfolding apply_transfer_fee
apply_transfer_fee_roundtrip amounts fee count h = elim (Bool-cases ((fee == 0) || (count == 0))) [
  | inl free ↦ rw free (map pos amounts, refl, refl)
  | inr charged ↦ rw charged (sell_buy_all amounts fee count h)
]
