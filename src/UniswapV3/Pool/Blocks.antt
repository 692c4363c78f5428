-- ===== src/UniswapV3/Pool/Blocks.antt =====
-- A block's logs in src/dex/uniswap-v3/uniswap-v3-pool.ts are its events, played in turn.
use verified_paraswap.Prelude.{
  ℕ, ◌≡◌, refl, ◌⊎◌, Bool, false, Option, none, some, List, [], ◌∷◌, inl, inr, if◌then◌else◌,
}
use verified_paraswap.Prelude.Int.{ℤ}
use verified_paraswap.Prelude.Result.{Result, ok, err, Error, Result-cases, ◌>>=◌}
use verified_paraswap.UniswapV3.Types.{PoolState}
use verified_paraswap.UniswapV3.Pool.{
  Event, handle, half_changed, state_or, process_log, process_logs, settle_block,
  process_block_logs,
}
use verified_paraswap.UniswapV3.Pool.Valid.{IsInvalid, handle-IsInvalid}

-- The logs that are decoded and have a handler.
unfoldable pub decoded : List (Option Event) → List Event
decoded [] = []
decoded (none ∷ logs) = decoded logs
decoded (some event ∷ logs) = event ∷ decoded logs

-- The events handled one after another; the first exception ends it.
unfoldable pub play : ℕ → ℤ → PoolState → List Event → Result (Option PoolState)
play fuel time pool [] = ok (some pool)
play fuel time pool (event ∷ events) = do
  handled ← handle fuel time event pool
  elim handled [ none ↦ ok none | some pool' ↦ play fuel time pool' events ]

-- The block's state: `null` without events, a fresh one after an exception or for a state that is
-- marked invalid.
unfoldable pub block_state :
    PoolState → List Event → Result (Option PoolState) → Option (Option PoolState)
block_state generated [] played = some none
block_state generated (event ∷ events) (ok none) = none
block_state generated (event ∷ events) (ok (some pool)) =
    some (some (if pool.is_valid then pool else generated))
block_state generated (event ∷ events) (err e) = some (some generated)

-- What `processLog` after `processLog` holds at the end, where `next` is held at the start.
Holds :
    Option PoolState → List Event → Result (Option PoolState) → Option (Option PoolState) → Type 0
Holds next [] played held = held ≡ some next
Holds next (event ∷ events) (ok none) held = held ≡ none
Holds next (event ∷ events) (ok (some pool)) held = held ≡ some (some pool)
Holds next (event ∷ events) (err e) held =
    (held ≡ none) ⊎ ((pool : PoolState) × (held ≡ some (some pool)) × IsInvalid pool)

-- After an exception, whatever the later handlers do to the copy.
process_logs-IsInvalid :
    (fuel : ℕ) (state : PoolState) (time : ℤ) (logs : List (Option Event)) (copy : PoolState)
    → IsInvalid copy
    → let held = process_logs fuel state time (some copy) logs in
      (held ≡ none) ⊎ ((pool : PoolState) × (held ≡ some (some pool)) × IsInvalid pool)
unfolding process_logs process_log state_or
process_logs-IsInvalid fuel state time [] copy invalid = inr (copy, refl, invalid)
process_logs-IsInvalid fuel state time (none ∷ logs) copy invalid =
    process_logs-IsInvalid fuel state time logs copy invalid
process_logs-IsInvalid fuel state time (some event ∷ logs) copy invalid =
    elim (Result-cases (handle fuel time event copy)) [
      | inl (none, handled) ↦ rw (handled, process_logs) (inl refl)
      | inl (some copy', handled) ↦
          let still : IsInvalid copy' =
            rw handled at (handle-IsInvalid time copy invalid fuel event) in
          rw (handled, process_logs) (process_logs-IsInvalid fuel state time logs copy' still)
      | inr (e, thrown) ↦
          let left = half_changed fuel time event copy in
          rw (thrown, process_logs)
            (process_logs-IsInvalid fuel state time logs (record left { is_valid = false }) refl)
    ]

Holds-still :
    (next held : Option PoolState) (event e : Event) (events : List Event)
    (played : Result (Option PoolState)) (out : Option (Option PoolState))
    → Holds held (e ∷ events) played out
    → Holds next (event ∷ e ∷ events) played out
unfolding Holds
Holds-still next held event e events (ok none) out h = h
Holds-still next held event e events (ok (some pool)) out h = h
Holds-still next held event e events (err x) out h = h

Holds-after :
    (fuel : ℕ) (time : ℤ) (pool : PoolState) (next : Option PoolState) (event : Event)
    (events : List Event) (out : Option (Option PoolState))
    → Holds (some pool) events (play fuel time pool events) out
    → Holds next (event ∷ events) (play fuel time pool events) out
unfolding Holds play
Holds-after fuel time pool next event [] out h = h
Holds-after fuel time pool next event (e ∷ events) out h =
    Holds-still next (some pool) event e events (play fuel time pool (e ∷ events)) out h

process_logs-Holds :
    (fuel : ℕ) (state : PoolState) (time : ℤ) (logs : List (Option Event)) (next : Option PoolState)
    → Holds next
        (decoded logs)
        (play fuel time (state_or state next) (decoded logs))
        (process_logs fuel state time next logs)
unfolding process_logs process_log decoded Holds play
process_logs-Holds fuel state time [] next = refl
process_logs-Holds fuel state time (none ∷ logs) next = process_logs-Holds fuel state time logs next
process_logs-Holds fuel state time (some event ∷ logs) next =
    let pool = state_or state next in
    elim (Result-cases (handle fuel time event pool)) [
      | inl (none, handled) ↦ rw (handled, process_logs) refl
      | inl (some pool', handled) ↦
          rw (handled, process_logs)
            (Holds-after fuel time pool' next event (decoded logs) _
              (unfold state_or in process_logs-Holds fuel state time logs (some pool')))
      | inr (e, thrown) ↦
          let left = half_changed fuel time event pool in
          rw (thrown, process_logs)
            (process_logs-IsInvalid fuel state time logs (record left { is_valid = false }) refl)
    ]

-- The block's state is that of its events; or they throw, and the fuel runs out on what is left.
abbrev pub Settles :
    Option (Option PoolState) → Option (Option PoolState) → Result (Option PoolState) → Type 0
Settles out expected played = (out ≡ expected) ⊎ ((e : Error) × (played ≡ err e) × (out ≡ none))

chosen :
    (generated pool : PoolState) (valid : Bool)
    → valid ≡ false
    → some (some (if valid then pool else generated)) ≡ some (some generated)
chosen generated pool valid invalid = rw invalid refl

settle_block-Settles :
    (generated : PoolState) (events : List Event) (played : Result (Option PoolState))
    (held : Option (Option PoolState))
    → Holds none events played held
    → Settles (settle_block generated held) (block_state generated events played) played
unfolding settle_block Holds block_state
settle_block-Settles generated [] played held h = inl (rw h refl)
settle_block-Settles generated (event ∷ events) (ok none) held h = inl (rw h refl)
settle_block-Settles generated (event ∷ events) (ok (some pool)) held h = inl (rw h refl)
settle_block-Settles generated (event ∷ events) (err e) held (inl out) = inr (e, refl, rw out refl)
settle_block-Settles generated (event ∷ events) (err e) held (inr (pool, h, invalid)) =
    inl (rw h (chosen generated pool pool.is_valid invalid))

pub process_block_logs-play :
    (fuel : ℕ) (generated pool : PoolState) (time : ℤ) (logs : List (Option Event))
    → let played = play fuel time pool (decoded logs) in
      Settles
        (process_block_logs fuel generated pool time logs)
        (block_state generated (decoded logs) played)
        played
unfolding process_block_logs
process_block_logs-play fuel generated pool time logs =
    settle_block-Settles generated (decoded logs) (play fuel time pool (decoded logs)) _
      (unfold state_or in process_logs-Holds fuel pool time logs none)
