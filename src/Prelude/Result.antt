-- ===== src/Prelude/Result.antt =====
-- JavaScript's exceptions as values: what a call throws, and `do` over it.
use verified_paraswap.Prelude.{ℕ, ◌≡◌, refl, Bool, true, false, ◌⊎◌, inl, inr}

-- The errors of `_require` and of `assert`, by their messages, and the engine's own.
pub data Error : Type 0 where
  add_overflow sub_overflow mul_overflow zero_division div_internal : Error
  range_error type_error missing_main_token : Error
  assertion : ℕ → Error
  -- Of the Uniswap V3 contract arithmetic: '', 'LS', 'LA', 'LO', 'T', 'R', 'SPL', 'OLD' and the
  -- message that ends in INVALID_TICK_BIT_MAP_RANGES.
  unnamed_check liquidity_sub liquidity_add liquidity_over : Error
  tick_out sqrt_price_out price_limit observation_old word_out_of_range : Error

pub data Result {ℓ} (A : Type ℓ) : Type ℓ where
  ok : A → Result A
  err : Error → Result A

-- `_require(b, message)`.
abbrev pub require : Bool → Error → Result (Unit {0})
require holds e = elim holds [ true ↦ ok tt | false ↦ err e ]

-- `try { return m } catch { return d }`.
abbrev pub catch {ℓ} : {A : Type ℓ} → Result A → A → A
catch (ok a) d = a
catch (err e) d = d

-- A result, if there is one, satisfies `P`.
abbrev pub Yields {ℓ κ} : {A : Type ℓ} → (A → Type κ) → Result A → Type κ
Yields P (ok a) = P a
Yields P (err e) = Unit

infixl 5 ◌>>=◌ ◌>>◌
abbrev pub ◌>>=◌ {ℓ κ} : {A : Type ℓ} {B : Type κ} → Result A → (A → Result B) → Result B
m >>= next = elim m [ ok a ↦ next a | err e ↦ err e ]

abbrev pub ◌>>◌ {ℓ} : {B : Type ℓ} → Result (Unit {0}) → Result B → Result B
checked >> run = checked >>= λ _. run

-- To split on an outcome and keep the equation.
pub Result-cases {ℓ} :
    {A : Type ℓ} (r : Result A) → ((a : A) × (r ≡ ok a)) ⊎ ((e : Error) × (r ≡ err e))
Result-cases (ok a) = inl (a, refl)
Result-cases (err e) = inr (e, refl)

-- What has run to its end has run its first part to its end.
pub >>=-eq-ok {ℓ κ} :
    {A : Type ℓ} {B : Type κ} (first : Result A) (next : A → Result B) {b : B}
    → (first >>= next) ≡ ok b
    → (a : A) × (first ≡ ok a) × (next a ≡ ok b)
>>=-eq-ok (ok a) next h = (a, refl, h)
>>=-eq-ok (err e) next h = cc

-- What has thrown has thrown in its first part or after it.
pub >>=-eq-err {ℓ κ} :
    {A : Type ℓ} {B : Type κ} (first : Result A) (next : A → Result B) {e : Error}
    → (first >>= next) ≡ err e
    → (first ≡ err e) ⊎ ((a : A) × (first ≡ ok a) × (next a ≡ err e))
>>=-eq-err (ok a) next h = inr (a, refl, h)
>>=-eq-err (err e) next h = inl cc

pub Yields-bind {ℓ κ ι} :
    {A : Type ℓ} {B : Type κ} (P : B → Type ι) (m : Result A) (f : A → Result B)
    → ((a : A) → m ≡ ok a → Yields P (f a))
    → Yields P (m >>= f)
Yields-bind P (ok a) f h = h a refl
Yields-bind P (err e) f h = tt

pub Yields-then {ℓ κ ι μ} :
    {A : Type ℓ} {B : Type κ} (P : B → Type ι) (Q : A → Type μ) (m : Result A) (f : A → Result B)
    → Yields Q m
    → ((a : A) → Q a → Yields P (f a))
    → Yields P (m >>= f)
Yields-then P Q (ok a) f q h = h a q
Yields-then P Q (err e) f q h = tt

pub Yields-catch {ℓ κ} :
    {A : Type ℓ} (P : A → Type κ) (m : Result A) (d : A) → Yields P m → P d → P (catch m d)
Yields-catch P (ok a) d h k = h
Yields-catch P (err e) d h k = k

pub Yields-always {ℓ κ} :
    {A : Type ℓ} (P : A → Type κ) (m : Result A) → ((a : A) → P a) → Yields P m
Yields-always P (ok a) h = h a
Yields-always P (err e) h = tt

pub Yields-weaken {ℓ κ ι} :
    {A : Type ℓ} (P : A → Type κ) (Q : A → Type ι) (m : Result A)
    → ((a : A) → Q a → P a)
    → Yields Q m
    → Yields P m
Yields-weaken P Q (ok a) h q = h a q
Yields-weaken P Q (err e) h q = tt

-- What is left where `m` throws, and what its result leads to otherwise.
abbrev pub left_by {ℓ κ} : {A : Type ℓ} {B : Type κ} → Result A → B → (A → B) → B
left_by (ok a) left next = next a
left_by (err e) left next = left
