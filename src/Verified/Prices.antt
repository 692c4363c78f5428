-- ===== src/Verified/Prices.antt =====
-- `getPricesPool` of src/dex/verified/verified-pool.ts: the prices of a list of amounts, whose first entry
-- is a placeholder.
use verified_paraswap.Prelude.{
  ℕ, zero, suc, ◌+◌, ◌≤◌, ◌≡◌, refl, ap, ◌∙◌, Bool, true, false, Option, none, some, List, [], ◌∷◌,
  map, arith, leb, ◌==◌, if◌then◌else◌, length, length-map, take, replicate, set, All, ◌⊎◌,
  not-==→ne, ==→eq, le→leb, Bool-cases, inl, inr,
}
use mathlib.Core.Path.{subst}
use native.Mathlib.Numerals.{add-one}
use verified_paraswap.Prelude.Int.{ℤ, pos, ◌==ℤ◌, ==ℤ→eq}
use verified_paraswap.Prelude.Result.{Result, ok, assertion, ◌>>◌, require}
use verified_paraswap.Verified.Types.{
  VerifiedPoolType, primary_issue_pool, secondary_issue_pool, unsupported, PoolPairData,
}

pub data SwapSide : Type 0 where
  sell buy : SwapSide

-- What a pool class quotes for one amount; `onSell` and `onBuy` map it over the amounts.
pub record Quotes : Type 0 where
  pub token_out : PoolPairData → ℤ → Bool → ℤ
  pub token_in : PoolPairData → ℤ → Bool → ℤ

abbrev pub quote : Quotes → SwapSide → PoolPairData → Bool → ℤ → ℤ
quote q sell d c amount = q.token_out d amount c
quote q buy d c amount = q.token_in d amount c

-- `isSupportedPool`.
unfoldable pub is_supported_pool : VerifiedPoolType → Bool
is_supported_pool primary_issue_pool = true
is_supported_pool secondary_issue_pool = true
is_supported_pool (unsupported t) = false

-- `amounts.slice(1)`.
abbrev pub slice_one : List ℤ → List ℤ
slice_one [] = []
slice_one (a ∷ amounts) = amounts

-- The loop that finds `nonZeroAmountIndex`: one more than the index of the last amount that is not 0.
-- (Its `checkedAmounts` are never read.)
unfoldable pub non_zero_index : ℕ → ℕ → List ℤ → ℕ
non_zero_index i best [] = best
non_zero_index i best (a ∷ amounts) =
    non_zero_index (i + 1) (if a ==ℤ pos 0 then best else i + 1) amounts

-- `prices[i + 1] = output` for each output.
unfoldable pub write_prices : ℕ → List ℤ → List ℤ → List ℤ
write_prices i [] prices = prices
write_prices i (output ∷ outputs) prices = write_prices (i + 1) outputs (set prices (i + 1) output)

pub record Prices : Type 0 where
  pub unit : ℤ
  pub prices : List ℤ

-- The pricing behind the parsed data; `none` where the code returns null.
unfoldable pub price_amounts :
    Quotes → SwapSide → PoolPairData → Bool → List ℤ → ℤ → Result (Option Prices)
price_amounts q side d is_currency_in amounts unit_volume =
    let rest = slice_one amounts in
    let non_zero = non_zero_index 0 0 rest in
    let outputs = map (quote q side d is_currency_in) (take non_zero rest) in
    if non_zero == 0 then ok none else (do
      require (leb (length outputs) (length amounts)) (assertion 0)
      ok (
          some (record {
            unit =
                if unit_volume ==ℤ pos 0 then pos 0 else quote q side d is_currency_in unit_volume;
            prices = write_prices 0 outputs (replicate (length amounts) (pos 0));
          })))

-- The number of amounts up to the last that is not 0.
non_zero_length : List ℤ → ℕ
non_zero_length [] = 0
non_zero_length (a ∷ amounts) =
    let n = non_zero_length amounts in if n == 0 then (if a ==ℤ pos 0 then 0 else 1) else suc n

non_zero_index-length :
    (i best : ℕ) (amounts : List ℤ)
    → non_zero_index i best amounts
      ≡ (if non_zero_length amounts == 0 then best else i + non_zero_length amounts)
unfolding non_zero_index non_zero_length
non_zero_index-length i best [] = refl
non_zero_index-length i best (a ∷ amounts) =
    ground (arith, non_zero_index-length (i + 1) (if a ==ℤ pos 0 then best else i + 1) amounts)

-- Outputs, and zeros up to a length.
pad : ℕ → List ℤ → List ℤ
pad zero outputs = []
pad (suc n) [] = pos 0 ∷ pad n []
pad (suc n) (o ∷ outputs) = o ∷ pad n outputs

pad_trimmed :
    (f : ℤ → ℤ) (amounts : List ℤ)
    → f (pos 0) ≡ pos 0
    → pad (length amounts) (map f (take (non_zero_length amounts) amounts)) ≡ map f amounts
unfolding pad non_zero_length
pad_trimmed f [] z = refl
pad_trimmed f (a ∷ amounts) z = elim (Bool-cases (non_zero_length amounts == 0)) [
  | inr more ↦ rw more (ap (◌∷◌ (f a)) (pad_trimmed f amounts z))
  | inl e ↦
      let rest : pad (length amounts) [] ≡ map f amounts =
        subst (λ n. pad (length amounts) (map f (take n amounts)) ≡ map f amounts) (==→eq _ _ e)
          (pad_trimmed f amounts z) in
      elim (Bool-cases (a ==ℤ pos 0)) [
        | inl za ↦ rw (e, za, rest, ==ℤ→eq a (pos 0) za, z)
        | inr nz ↦ rw (e, nz, rest)
      ]
]

-- `write_prices` behind the placeholder.
write_at : ℕ → List ℤ → List ℤ → List ℤ
write_at i [] ps = ps
write_at i (o ∷ outputs) ps = write_at (suc i) outputs (set ps i o)

write_prices-cons :
    (i : ℕ) (outputs : List ℤ) (p : ℤ) (ps : List ℤ)
    → write_prices i outputs (p ∷ ps) ≡ p ∷ write_at i outputs ps
unfolding write_prices write_at
write_prices-cons i [] p ps = refl
write_prices-cons i (o ∷ outputs) p ps =
    rw add-one (write_prices-cons (suc i) outputs p (set ps i o))

write_at-cons :
    (i : ℕ) (outputs : List ℤ) (p : ℤ) (ps : List ℤ)
    → write_at (suc i) outputs (p ∷ ps) ≡ p ∷ write_at i outputs ps
unfolding write_at
write_at-cons i [] p ps = refl
write_at-cons i (o ∷ outputs) p ps = write_at-cons (suc i) outputs p (set ps i o)

write_at-pad :
    (m : ℕ) (outputs : List ℤ)
    → length outputs ≤ m
    → write_at 0 outputs (replicate m (pos 0)) ≡ pad m outputs
unfolding write_at pad
write_at-pad zero [] h = refl
write_at-pad zero (o ∷ outputs) h = absurd (omega arith)
write_at-pad (suc m) [] h = ap (◌∷◌ (pos 0)) (write_at-pad m [] (omega arith))
write_at-pad (suc m) (o ∷ outputs) h =
    write_at-cons 0 outputs o (replicate m (pos 0))
    ∙ ap (◌∷◌ o) (write_at-pad m outputs (omega arith))

length-take-le : (n : ℕ) (xs : List ℤ) → length (take n xs) ≤ length xs
length-take-le zero xs = omega arith
length-take-le (suc n) [] = omega arith
length-take-le (suc n) (x ∷ xs) = omega (arith, length-take-le n xs)

zero_length→zeros : (amounts : List ℤ) → non_zero_length amounts ≡ 0 → All (λ a. a ≡ pos 0) amounts
unfolding non_zero_length
zero_length→zeros [] h = tt
zero_length→zeros (a ∷ amounts) h = ground (arith, zero_length→zeros amounts, ==ℤ→eq a (pos 0))

zeros→zero_length : (amounts : List ℤ) → All (λ a. a ≡ pos 0) amounts → non_zero_length amounts ≡ 0
unfolding non_zero_length
zeros→zero_length [] h = refl
zeros→zero_length (a ∷ amounts) h = rw (zeros→zero_length amounts h.1, h.0)

non_zero_index_zero : (amounts : List ℤ) → non_zero_index 0 0 amounts ≡ non_zero_length amounts
non_zero_index_zero amounts = non_zero_index-length 0 0 amounts ∙ (ground arith)

unit_quote :
    (f : ℤ → ℤ) (unit_volume : ℤ)
    → f (pos 0) ≡ pos 0
    → (if unit_volume ==ℤ pos 0 then pos 0 else f unit_volume) ≡ f unit_volume
unit_quote f unit_volume z = elim (Bool-cases (unit_volume ==ℤ pos 0)) [
  | inl e ↦ rw (e, ==ℤ→eq unit_volume (pos 0) e, z)
  | inr e ↦ rw e
]

-- Where an amount of 0 is quoted 0, pricing a list returns null exactly if all amounts behind the
-- placeholder are 0, and otherwise the quote of the unit volume and, behind a 0, the own quote of
-- every amount; the length check never fails.
pub price_amounts_lem :
    (q : Quotes) (side : SwapSide) (d : PoolPairData) (c : Bool) (placeholder : ℤ) (rest : List ℤ)
    (unit_volume : ℤ)
    → quote q side d c (pos 0) ≡ pos 0
    → let run = price_amounts q side d c (placeholder ∷ rest) unit_volume in
      (run ≡ ok none) × All (λ a. a ≡ pos 0) rest
      ⊎ (run
          ≡ ok (
              some (record {
                unit = quote q side d c unit_volume;
                prices = pos 0 ∷ map (quote q side d c) rest;
              })))
        × ¬ All (λ a. a ≡ pos 0) rest
unfolding price_amounts
price_amounts_lem q side d c placeholder rest unit_volume z =
    elim (Bool-cases (non_zero_length rest == 0)) [
      | inl e ↦ rw (non_zero_index_zero rest, e) (inl (refl, zero_length→zeros rest (==→eq _ _ e)))
      | inr e ↦
          let f = quote q side d c in
          let outputs = map f (take (non_zero_length rest) rest) in
          let short : length outputs ≤ length rest = omega (
            arith,
            length-map f (take (non_zero_length rest) rest),
            length-take-le (non_zero_length rest) rest,
          ) in
          let fits : leb (length outputs) (suc (length rest)) ≡ true = le→leb _ _ (omega arith) in
          rw
            (
              non_zero_index_zero rest,
              e,
              fits,
              unit_quote f unit_volume z,
              write_prices-cons,
              write_at-pad (length rest) outputs short,
              pad_trimmed f rest z,
            )
            (inr (refl, λ zeros. not-==→ne _ _ e (zeros→zero_length rest zeros)))
    ]
