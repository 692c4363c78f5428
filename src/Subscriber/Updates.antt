-- ===== src/Subscriber/Updates.antt =====
-- The methods of `StatefulEventSubscriber` that wait: `initialize`, `processBlockLogs`, `update` and
-- the two callbacks that they schedule (src/stateful-event-subscriber.ts). A subclass's
-- `processLog` and `generateState` are parameters, and so is what the cache and the block manager
-- return. An exception leaves the object as far as it had come.
use verified_paraswap.Prelude.{
  ℕ, zero, suc, Bool, true, false, not, ◌&&◌, Option, none, some, List, [], ◌∷◌, ◌==◌, length,
  if◌then◌else◌,
}
use verified_paraswap.Prelude.Result.{Result, ok, err, Error, ◌>>=◌}
use verified_paraswap.Subscriber.History.{state_before}
use verified_paraswap.Subscriber.Object.{
  Config, Subscriber, is_null, emit, set_state, publish_new_pool, subscribe_to_logs, init_callback,
  add_create_new_state,
}

-- A log, with what a subclass reads of it.
pub record Log {ℓ} (P : Type ℓ) : Type ℓ where
  pub block_number : ℕ
  pub log_index : ℕ
  pub payload : P

-- How a call ended, and the object then.
pub data Outcome {ℓ} (S : Type ℓ) : Type ℓ where
  done : Subscriber S → Outcome S
  threw : Error → Subscriber S → Outcome S

abbrev pub object {ℓ} : {S : Type ℓ} → Outcome S → Subscriber S
object (done o) = o
object (threw e o) = o

infixl 5 ◌>>>◌
abbrev pub ◌>>>◌ {ℓ} : {S : Type ℓ} → Outcome S → (Subscriber S → Outcome S) → Outcome S
done o >>> f = f o
threw e o >>> f = threw e o

-- `this.setState(await this.generateState(blockNumber), blockNumber)`.
abbrev pub store {ℓ} : {S : Type ℓ} → Config → Result S → ℕ → Subscriber S → Outcome S
store cfg (ok s) bn o = done (set_state cfg s bn o)
store cfg (err e) bn o = threw e o

-- What a subclass implements; a header is missing where the caller sent none for the block.
pub record Subclass (S P H : Type 0) : Type 0 where
  pub process_log : S → Log P → Option H → Result (Option S)
  pub generate_state : ℕ → Result S

-- What the cache holds under the pool's name, parsed: `{ bn, state }`.
abbrev pub StateCache : Type 0 → Type 0
StateCache S = ℕ × Option S

-- The options of `initialize`: a given state, a forced regeneration, a callback.
pub record Options (S : Type 0) : Type 0 where
  pub given : Option S
  pub force_regenerate : Bool
  pub callback : Bool

-- `next || state`.
abbrev pub over {ℓ} : {S : Type ℓ} → Option S → S → S
over none s = s
over (some n) s = n

-- `if (ret) next = ret`.
abbrev pub merge {ℓ} : {S : Type ℓ} → Option S → Option S → Option S
merge none next = next
merge (some r) next = some r

-- The leading logs of one block, and those behind them.
abbrev pub block_logs {ℓ} : {P : Type ℓ} → ℕ → List (Log P) → List (Log P)
block_logs bn [] = []
block_logs bn (l ∷ ls) = if l.block_number == bn then l ∷ block_logs bn ls else []

abbrev pub after_block {ℓ} : {P : Type ℓ} → ℕ → List (Log P) → List (Log P)
after_block bn [] = []
after_block bn (l ∷ ls) = if l.block_number == bn then after_block bn ls else l ∷ ls

module _ {S P H : Type 0} (sub : Subclass S P H) where
  -- The loop of `processBlockLogs`; `next` is `nextState`.
  unfoldable pub process_logs : S → Option S → List (Log P) → Option H → Result (Option S)
  process_logs s next [] header = ok next
  process_logs s next (l ∷ ls) header = do
    ret ← sub.process_log (over next s) l header
    process_logs s (merge ret next) ls header

  unfoldable pub process_block_logs : S → List (Log P) → Option H → Result (Option S)
  unfolding process_logs
  process_block_logs s ls header = process_logs s none ls header

  module _ (cfg : Config) (headers : ℕ → Option H) where
    abbrev pub store_next : Result (Option S) → ℕ → Subscriber S → Outcome S
    store_next (ok none) bn o = done o
    store_next (ok (some s)) bn o = done (set_state cfg s bn o)
    store_next (err e) bn o = threw e o

    -- The logs of one block are played onto the last state before it; with no such state they are
    -- ignored.
    abbrev pub play : Option S → ℕ → List (Log P) → Subscriber S → Outcome S
    play none bn ls o = done o
    play (some s) bn ls o = store_next (process_block_logs s ls (headers bn)) bn o

    -- `if (!this.state)`: a fresh state is generated at the block of the logs.
    abbrev pub ensure_state : ℕ → Subscriber S → Outcome S
    ensure_state bn o = if is_null o.state then store cfg (sub.generate_state bn) bn o else done o

    -- One round of the outer loop of `update`.
    unfoldable pub update_block : ℕ → List (Log P) → Subscriber S → Outcome S
    update_block bn ls o =
        ensure_state bn o >>> λ o'. play (state_before bn o'.state_history) bn ls o'

    -- The outer loop, on fuel.
    unfoldable pub update_loop : ℕ → List (Log P) → Subscriber S → Outcome S
    update_loop fuel [] o = done o
    update_loop zero (l ∷ ls) o = threw Error.range_error o
    update_loop (suc fuel) (l ∷ ls) o =
        update_block l.block_number (block_logs l.block_number (l ∷ ls)) o >>> λ o'.
        update_loop fuel (after_block l.block_number ls) o'

    -- The end of `update`: a master that shares its pools schedules a job if it has no state.
    abbrev pub finish : Subscriber S → Subscriber S
    finish o =
        let valid = record o { invalid = false } in
        if not cfg.is_slave && cfg.master_pool_needed && is_null valid.state
        then emit add_create_new_state valid
        else valid

    -- `update`: a round consumes a log at least, so the number of logs is fuel enough.
    unfoldable pub update : List (Log P) → Subscriber S → Outcome S
    unfolding update_loop update_block
    update ls o = update_loop (length ls) ls o >>> λ o'. done (finish o')

  module _ (cfg : Config) where
    abbrev pub attempt : Result S → ℕ → Subscriber S → Bool × Subscriber S
    attempt (ok s) latest o = (true, set_state cfg s latest o)
    attempt (err e) latest o = (false, o)

    -- The job `createNewState` of `update`, run later; the block manager returns `latest`. It
    -- catches what `generateState` throws, and reports whether it is done.
    unfoldable pub create_new_state : ℕ → Subscriber S → Bool × Subscriber S
    create_new_state latest o =
        if is_null o.state then attempt (sub.generate_state latest) latest o else (true, o)

    -- The callback of `addBatchHGet` in `_setState`.
    unfoldable pub on_cache_result : Option (StateCache S) → Subscriber S → Bool × Subscriber S
    on_cache_result none o = (false, o)
    on_cache_result (some (bn, none)) o = (false, o)
    on_cache_result (some (bn, some s)) o = (true, set_state cfg s bn o)

    -- How far `initialize` has come: the object, `blockNumber`, and `masterBn` (0 if undefined).
    abbrev pub Start : Type 0
    Start = Outcome S × ℕ × ℕ

    -- A slave that shares its pools takes the state from the cache if there is one.
    unfoldable pub from_cache : ℕ → Option (StateCache S) → Option ℕ → Subscriber S → Start
    from_cache bn none master o =
        (store cfg (sub.generate_state bn) bn o >>> λ o'. done (emit publish_new_pool o'), bn, 0)
    from_cache bn (some (cached_bn, none)) master o =
        (store cfg (sub.generate_state bn) bn o, bn, 0)
    from_cache bn (some (cached_bn, some s)) master o =
        (done (set_state cfg s cached_bn o), cached_bn, elim master [ none ↦ 0 | some m ↦ m ])

    unfoldable pub first_state :
        ℕ → Options S → Option (StateCache S) → Option ℕ → Subscriber S → Start
    unfolding from_cache
    first_state bn opts cached master o = elim opts.given [
      | some s ↦ (done (set_state cfg s bn o), bn, 0)
      | none ↦
          if opts.force_regenerate
          then (store cfg (sub.generate_state bn) bn o, bn, 0)
          else if cfg.is_slave && cfg.master_pool_needed
          then from_cache bn cached master o
          else (store cfg (sub.generate_state bn) bn o, bn, 0)
    ]

    abbrev pub call_back : Bool → Option S → Subscriber S → Subscriber S
    call_back true (some s) o = emit (init_callback s) o
    call_back true none o = o
    call_back false s o = o

    -- The end of `initialize`: the callback, and `subscribeToLogs`.
    abbrev pub subscribed : Bool → ℕ → Subscriber S → Subscriber S
    subscribed callback from o =
        record (emit (subscribe_to_logs from) (call_back callback o.state o)) {
          is_initialized = true;
        }

    -- `initialize`; `cached` and `master` are what the cache returns for the pool and for the
    -- master's block number.
    unfoldable pub initialize :
        ℕ → Options S → Option (StateCache S) → Option ℕ → Subscriber S → Outcome S
    unfolding first_state
    initialize bn opts cached master o =
        let (start, block_number, master_bn) = first_state bn opts cached master o in
        let from = if master_bn == 0 then block_number else master_bn in
        start >>> λ o'. done (subscribed opts.callback from o')
