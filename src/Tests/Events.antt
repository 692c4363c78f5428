-- ===== src/Tests/Events.antt =====
-- Events on the pool of Tests.Pools, and the subscriber that plays them.
use verified_paraswap.Prelude.{
  ℕ, zero, suc, ◌≡◌, ◌≢◌, refl, ap, false, true, Option, none, some, List, [], ◌∷◌, map, arith,
}
use verified_paraswap.Prelude.Int.{pos, ◌+ℤ◌, ◌-ℤ◌}
use verified_paraswap.Prelude.Result.{Result, ok, err, type_error}
use verified_paraswap.Prelude.Text.{Text, Dict, lookup, insert, text_eq, to_lower_case}
use verified_paraswap.Subscriber.Object.{Config, Subscriber}
use verified_paraswap.Subscriber.Updates.{Log, done, update}
use verified_paraswap.Subscriber.Invariant.{IsValid}
use verified_paraswap.Verified.Types.{PoolState}
use verified_paraswap.Verified.EventPool.{
  Event, pool_balance_changed, add_balance, add_deltas, handle, handle_swap,
  handle_pool_balance_changed, process_event, event_pool,
}
use verified_paraswap.Verified.EventPool.Balances.{
  net_change, handle_swap_lem, handle_pool_balance_changed_lem, process_event_others,
}
use verified_paraswap.Verified.EventPool.Updates.{play_events, update-play_events}
use verified_paraswap.Tests.Pools.{usd, sec, mixed_case_sec, pool}

letters_differ : {a b : ℕ} → a ≢ b → ((a ∷ []) ≢ (b ∷ []))
letters_differ n e = n (ap (λ (t : Text). elim t [ [] ↦ 0 | c ∷ cs ↦ c ]) e)

handle_swap_lem_example :
    (pool' : PoolState) × (handle_swap usd mixed_case_sec (pos 100) (pos 40) pool ≡ ok pool')
    × (lookup usd pool'.tokens ≡ some (pos 2_000_000_000 +ℤ pos 100))
    × (lookup sec pool'.tokens ≡ some (pos 500 -ℤ pos 40))
    × (lookup (b'x' ∷ []) pool'.tokens ≡ lookup (b'x' ∷ []) pool.tokens)
    × (record pool' { tokens = pool.tokens } ≡ pool)
unfolding to_lower_case lookup text_eq
handle_swap_lem_example =
    handle_swap_lem usd mixed_case_sec (b'x' ∷ []) (pos 100) (pos 40) pool (pos 2_000_000_000)
      (pos 500) (letters_differ (omega arith)) refl refl (letters_differ (omega arith))
      (letters_differ (omega arith))

abbrev joined : PoolState
joined = record pool {
  tokens = (usd, pos 2_000_000_300) ∷ (sec, pos 490) ∷ (b'x' ∷ [], pos 1) ∷ [];
}

handle_pool_balance_changed_lem_example :
    (lookup usd joined.tokens
      ≡ some (
          pos 2_000_000_000
          +ℤ net_change usd
              (map to_lower_case (usd ∷ mixed_case_sec ∷ []))
              (pos 310 ∷ pos 0 ∷ [])
              (pos 10 ∷ pos 10 ∷ [])))
    × (record joined { tokens = pool.tokens } ≡ pool)
unfolding handle_pool_balance_changed add_deltas add_balance to_lower_case lookup insert text_eq
    ◌+ℤ◌ ◌-ℤ◌
handle_pool_balance_changed_lem_example =
    handle_pool_balance_changed_lem (usd ∷ mixed_case_sec ∷ []) (pos 310 ∷ pos 0 ∷ [])
      (pos 10 ∷ pos 10 ∷ []) pool joined usd (pos 2_000_000_000) refl refl

abbrev joining : Event
joining = record {
  pool_id = b'p' ∷ [];
  args =
      pool_balance_changed (usd ∷ mixed_case_sec ∷ []) (pos 310 ∷ pos 0 ∷ [])
        (pos 10 ∷ pos 10 ∷ []);
}

abbrev pools : Dict PoolState
pools = (b'p' ∷ [], pool) ∷ (b'q' ∷ [], pool) ∷ []

event-run : process_event (ok joining) pools ≡ some ((b'p' ∷ [], joined) ∷ (b'q' ∷ [], pool) ∷ [])
unfolding process_event handle handle_pool_balance_changed add_deltas add_balance to_lower_case
    lookup insert text_eq ◌+ℤ◌ ◌-ℤ◌
event-run = refl

process_event_others_example :
    lookup (b'q' ∷ []) ((b'p' ∷ [], joined) ∷ (b'q' ∷ [], pool) ∷ []) ≡ lookup (b'q' ∷ []) pools
unfolding to_lower_case
process_event_others_example =
    process_event_others joining pools ((b'p' ∷ [], joined) ∷ (b'q' ∷ [], pool) ∷ []) (b'q' ∷ [])
      event-run (letters_differ (omega arith))

abbrev subscriber : Subscriber (Dict PoolState)
subscriber = record {
  state = some pools;
  state_block_number = 5;
  state_history = (5, pools) ∷ [];
  invalid = false;
  is_initialized = true;
  effects = [];
}

-- The first log is not understood.
abbrev decode : Log ℕ → Result Event
decode l = elim l.payload [ zero ↦ err type_error | suc n ↦ ok joining ]

abbrev logs : List (Log ℕ)
logs =
    record { block_number = 6; log_index = 0; payload = 0 }
    ∷ record { block_number = 7; log_index = 0; payload = 1 }
    ∷ []

abbrev cfg : Config
cfg = record { is_slave = false; master_pool_needed = true }

abbrev no_headers : ℕ → Option ℕ
no_headers bn = none

update-play_events_example :
    (o' : Subscriber (Dict PoolState)) × (update
        (event_pool decode (λ bn. err type_error))
        cfg
        no_headers
        logs
        subscriber
      ≡ done o')
    × (o'.state ≡ some (play_events decode pools logs))
    × (o'.invalid ≡ false)
    × IsValid o'
update-play_events_example =
    update-play_events decode (λ bn. err type_error) cfg no_headers logs pools subscriber
      (record { ascending = (omega arith, tt); current = refl }) refl
      (omega arith, (omega arith, tt))
