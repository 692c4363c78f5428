-- ===== src/Verified/EventPool/Balances.antt =====
-- What the handlers of src/dex/verified/verified-pool.ts do to the balances.
use verified_paraswap.Prelude.{
  ◌≡◌, ◌≢◌, refl, ap, ◌∙◌, sym, true, false, Option, none, some, List, [], ◌∷◌, map, if◌then◌else◌,
  Bool-cases, inl, inr,
}
use mathlib.Core.Path.{subst}
use verified_paraswap.Prelude.Int.{ℤ, pos, ◌+ℤ◌, ◌-ℤ◌, int_laws}
use verified_paraswap.Prelude.Result.{Result, ok, err, ◌>>=◌, >>=-eq-ok}
use verified_paraswap.Prelude.Text.{
  Text, Dict, lookup, insert, text_eq, text_eq_refl, text_eq→eq, to_lower_case, lookup-insert_self,
  lookup-insert_ne,
}
use verified_paraswap.Verified.Types.{PoolState}
use verified_paraswap.Verified.Parse.{defined}
use verified_paraswap.Verified.EventPool.{
  add_balance, sub_balance, handle_swap, add_deltas, handle_pool_balance_changed, Event, handle,
  apply_tracked, pool_address, process_event, caught,
}

-- A swap between two different tokens that the pool holds adds what came in, takes what went out,
-- and leaves every other balance and the terms of the pool alone.
pub handle_swap_lem :
    (token_in token_out t : Text) (amount_in amount_out : ℤ) (pool : PoolState) (b_in b_out : ℤ)
    → to_lower_case token_in ≢ to_lower_case token_out
    → lookup (to_lower_case token_in) pool.tokens ≡ some b_in
    → lookup (to_lower_case token_out) pool.tokens ≡ some b_out
    → t ≢ to_lower_case token_in
    → t ≢ to_lower_case token_out
    → (pool' : PoolState) × (handle_swap token_in token_out amount_in amount_out pool ≡ ok pool')
      × (lookup (to_lower_case token_in) pool'.tokens ≡ some (b_in +ℤ amount_in))
      × (lookup (to_lower_case token_out) pool'.tokens ≡ some (b_out -ℤ amount_out))
      × (lookup t pool'.tokens ≡ lookup t pool.tokens)
      × (record pool' { tokens = pool.tokens } ≡ pool)
unfolding handle_swap add_balance sub_balance
handle_swap_lem token_in token_out t amount_in amount_out pool b_in b_out ne hi ho ti to =
    let i = to_lower_case token_in in
    let o = to_lower_case token_out in
    let paid = insert i (b_in +ℤ amount_in) pool.tokens in
    let still : lookup o paid ≡ some b_out =
      lookup-insert_ne o i _ pool.tokens (λ e. ne (sym e)) ∙ ho in
    (
      record pool { tokens = insert o (b_out -ℤ amount_out) paid },
      rw (hi, still),
      lookup-insert_ne i o _ paid ne ∙ lookup-insert_self i _ pool.tokens,
      lookup-insert_self o _ paid,
      lookup-insert_ne t o _ paid to ∙ lookup-insert_ne t i _ pool.tokens ti,
      refl,
    )

-- What an event of balance changes adds to a token, entry by entry.
unfoldable pub net_change : Text → List Text → List ℤ → List ℤ → ℤ
net_change t [] deltas fees = pos 0
net_change t (u ∷ us) [] fees = pos 0
net_change t (u ∷ us) (d ∷ deltas) [] = pos 0
net_change t (u ∷ us) (d ∷ deltas) (f ∷ fees) =
    let rest = net_change t us deltas fees in if text_eq u t then (d -ℤ f) +ℤ rest else rest

lookup-add_balance :
    (u t : Text) (delta b : ℤ) (tokens changed : Dict ℤ)
    → add_balance u delta tokens ≡ ok changed
    → lookup t tokens ≡ some b
    → lookup t changed ≡ some (if text_eq u t then b +ℤ delta else b)
unfolding add_balance
lookup-add_balance u t delta b tokens changed e h =
    let (old, e1, rest) = >>=-eq-ok (defined (lookup u tokens)) _ e in
    let found : lookup u tokens ≡ some old = defined-ok (lookup u tokens) old e1 in
    let same : insert u (old +ℤ delta) tokens ≡ changed = cc in
    elim (Bool-cases (text_eq u t)) [
      | inl own ↦
          let at : u ≡ t = text_eq→eq u t own in
          let both : old ≡ b = cc in rw (own, ← same, at, lookup-insert_self, both)
      | inr foreign ↦
          rw (foreign, ← same)
            (lookup-insert_ne t u _ tokens (λ q. ne_of_text u t foreign (sym q)) ∙ h)
    ]
  where
    defined-ok : (o : Option ℤ) (a : ℤ) → defined o ≡ ok a → o ≡ some a
    defined-ok none a e = cc
    defined-ok (some x) a e = cc

    ne_of_text : (u t : Text) → text_eq u t ≡ false → u ≢ t
    ne_of_text u t f q =
        let r : text_eq u u ≡ true = text_eq_refl u in
        let r' : text_eq u t ≡ true = subst (λ v. text_eq u v ≡ true) q r in cc

add_deltas-net_change :
    (ts : List Text) (deltas fees : List ℤ) (tokens changed : Dict ℤ) (t : Text) (b : ℤ)
    → add_deltas ts deltas fees tokens ≡ ok changed
    → lookup t tokens ≡ some b
    → lookup t changed ≡ some (b +ℤ net_change t ts deltas fees)
unfolding add_deltas net_change
add_deltas-net_change [] deltas fees tokens changed t b e h =
    let same : tokens ≡ changed = cc in rw (← same, h) (ap some (omega int_laws))
add_deltas-net_change (u ∷ us) [] fees tokens changed t b e h = cc
add_deltas-net_change (u ∷ us) (d ∷ deltas) [] tokens changed t b e h = cc
add_deltas-net_change (u ∷ us) (d ∷ deltas) (f ∷ fees) tokens changed t b e h =
    let (first, e1, rest) = >>=-eq-ok (add_balance u (d -ℤ f) tokens) _ e in
    let h1 = lookup-add_balance u t (d -ℤ f) b tokens first e1 h in
    elim (Bool-cases (text_eq u t)) [
      | inl own ↦
          let g : lookup t first ≡ some (b +ℤ (d -ℤ f)) = h1 ∙ (rw own) in
          rw own (
            add_deltas-net_change us deltas fees first changed t (b +ℤ (d -ℤ f)) rest g
            ∙ ap some (omega int_laws))
      | inr foreign ↦
          let g : lookup t first ≡ some b = h1 ∙ (rw foreign) in
          rw foreign (add_deltas-net_change us deltas fees first changed t b rest g)
    ]

-- An event of balance changes that does not throw adds to each token of the pool the sum of the
-- deltas less the fees that it lists for the token, and changes nothing but balances.
pub handle_pool_balance_changed_lem :
    (tokens : List Text) (deltas fees : List ℤ) (pool pool' : PoolState) (t : Text) (b : ℤ)
    → handle_pool_balance_changed tokens deltas fees pool ≡ ok pool'
    → lookup t pool.tokens ≡ some b
    → (lookup t pool'.tokens ≡ some (b +ℤ net_change t (map to_lower_case tokens) deltas fees))
      × (record pool' { tokens = pool.tokens } ≡ pool)
unfolding handle_pool_balance_changed
handle_pool_balance_changed_lem tokens deltas fees pool pool' t b e h =
    let (changed, e1, rest) =
      >>=-eq-ok (add_deltas (map to_lower_case tokens) deltas fees pool.tokens) _ e in
    let same : record pool { tokens = changed } ≡ pool' = cc in
    rw (← same) (
      add_deltas-net_change (map to_lower_case tokens) deltas fees pool.tokens changed t b e1 h,
      refl,
    )

-- A log that is accepted leaves every pool alone but the one that its event names.
pub process_event_others :
    (decoded : Event) (state state' : Dict PoolState) (address : Text)
    → process_event (ok decoded) state ≡ some state'
    → address ≢ pool_address decoded
    → lookup address state' ≡ lookup address state
unfolding process_event
process_event_others decoded state state' address e ne =
    applied (lookup (pool_address decoded) state) e
  where
    applied :
        (pool : Option PoolState)
        → caught (apply_tracked (pool_address decoded) decoded.args pool state) ≡ some state'
        → lookup address state' ≡ lookup address state
    applied none c = let same : state ≡ state' = cc in rw same
    applied (some pool) c = handled (handle decoded.args pool) c
      where
        handled :
            (r : Result PoolState)
            → caught (r >>= λ pool'. ok (insert (pool_address decoded) pool' state)) ≡ some state'
            → lookup address state' ≡ lookup address state
        handled (ok pool') c =
            let same : insert (pool_address decoded) pool' state ≡ state' = cc in
            rw (← same) (lookup-insert_ne address (pool_address decoded) pool' state ne)
        handled (err x) c = cc
