-- ===== src/Tests/Subscribers.antt =====
-- A subscriber whose state is a sum: each log adds its payload and the number that stands for the
-- header of its block. It runs src/stateful-event-subscriber.ts.
use verified_paraswap.Prelude.{
  ℕ, ◌+◌, ◌≤◌, ◌<◌, ◌⊎◌, ◌≡◌, refl, false, true, Option, none, some, [], ◌∷◌, List, arith, length,
}
use verified_paraswap.Prelude.Result.{ok, err, Error}
use verified_paraswap.Subscriber.History.{
  max_blocks_history, get, put, remove, prune, rollback_loop, find_before,
}
use verified_paraswap.Subscriber.Order.{state_at}
use verified_paraswap.Subscriber.Object.{
  Config, Subscriber, fresh, set_state, rollback, invalidate, subscribe_to_logs,
}
use verified_paraswap.Subscriber.Updates.{
  Log, Subclass, done, object, update, process_block_logs, initialize, update_loop,
}
use verified_paraswap.Subscriber.Fuel.{update_loop-fuel}
use verified_paraswap.Subscriber.Invariant.{IsValid}
use verified_paraswap.Subscriber.Rollback.{rollback_invalid}
use verified_paraswap.Subscriber.Reorg.{keep}
use verified_paraswap.Subscriber.Window.{set_state_window, rollback_undoes}
use verified_paraswap.Subscriber.Replay.{replay, update-replay}
use verified_paraswap.Subscriber.Reach.{here, next, sets, rolls_back, Reach-IsValid, update-IsValid}
use verified_paraswap.Prelude.{leb}

abbrev cfg : Config
cfg = record { is_slave = false; master_pool_needed = false }

abbrev headers : ℕ → Option ℕ
headers bn = some 1

abbrev summing : Subclass ℕ ℕ ℕ
summing = record {
  process_log = λ s l header. elim header [
    | none ↦ err Error.type_error
    | some h ↦ ok (some (s + l.payload + h))
  ];
  generate_state = λ bn. ok (100 + bn);
}

abbrev log : ℕ → ℕ → Log ℕ
log bn amount = record { block_number = bn; log_index = 0; payload = amount }

abbrev current : Subscriber ℕ
current = record {
  state = some 10;
  state_block_number = 5;
  state_history = (3, 7) ∷ (5, 10) ∷ [];
  invalid = false;
  is_initialized = true;
  effects = [];
}

abbrev stale : Subscriber ℕ
stale = record current { invalid = true }

abbrev logs : List (Log ℕ)
logs = log 6 1 ∷ log 6 2 ∷ log 8 4 ∷ []

current-IsValid : IsValid current
current-IsValid = record { ascending = (omega arith, (omega arith, tt)); current = refl }

stale-IsValid : IsValid stale
stale-IsValid = record { ascending = (omega arith, (omega arith, tt)); current = refl }

-- Block 20 leaves the entry that was current at block 13.
prune-run :
    prune {S = ℕ} 20 ((10, 1) ∷ (11, 2) ∷ (14, 3) ∷ (20, 4) ∷ []) ≡ (11, 2) ∷ (14, 3) ∷ (20, 4) ∷ []
unfolding prune remove
prune-run = refl

update-run : (object (update summing cfg headers logs current)).state ≡ some 20
unfolding update process_block_logs set_state put prune remove find_before
update-run = refl

-- The state is kept after a rollback within the history, and lost after one behind it.
rollback-run : ((rollback cfg 4 stale).state ≡ some 7) × ((rollback cfg 2 stale).state ≡ none)
unfolding rollback rollback_loop get remove
rollback-run = (refl, refl)

initialize-run :
    (object (
      initialize summing cfg 9
        (record { given = none; force_regenerate = false; callback = false })
        none
        none
        fresh)).effects
    ≡ subscribe_to_logs 9 ∷ []
unfolding initialize set_state put prune remove
initialize-run = refl

update-replay_example :
    (o' : Subscriber ℕ) × (update summing cfg headers logs current ≡ done o')
    × (o'.state ≡ some 20)
    × (o'.invalid ≡ false)
    × IsValid o'
unfolding replay
update-replay_example =
    update-replay summing cfg headers logs 10 20 current current-IsValid refl
      (omega arith, (omega arith, (omega arith, tt))) refl

rollback_invalid_example :
    let o' = rollback cfg 4 stale in
    IsValid o'
    × (o'.state ≡ state_at 4 stale.state_history)
    × (o'.state_history ≡ keep (λ k. leb k 4) stale.state_history)
    × (o'.invalid ≡ true)
rollback_invalid_example = rollback_invalid cfg 4 stale stale-IsValid refl

set_state_window_example :
    let o' = set_state cfg 12 6 current in
    (length o'.state_history ≤ max_blocks_history + 1)
    × ((b : ℕ)
        → (6 ≤ b)
          ⊎ (b + max_blocks_history < o'.state_block_number)
          ⊎ (state_at b o'.state_history ≡ state_at b current.state_history))
set_state_window_example = set_state_window cfg 12 6 current (omega arith) current-IsValid

rollback_undoes_example : (rollback cfg 4 (invalidate (set_state cfg 12 6 current))).state ≡ some 7
unfolding set_state
rollback_undoes_example =
    rollback_undoes cfg 12 6 4 current current-IsValid (omega arith) (omega arith)

Reach-IsValid_example : IsValid (rollback cfg 4 (set_state cfg 12 6 current))
Reach-IsValid_example =
    Reach-IsValid cfg current-IsValid (next (next here (sets 12 6)) (rolls_back 4))

update-IsValid_example : IsValid (object (update summing cfg headers logs current))
update-IsValid_example = update-IsValid summing cfg headers logs current current-IsValid

update_loop-fuel_example :
    update_loop summing cfg headers 9 logs current ≡ update_loop summing cfg headers 3 logs current
update_loop-fuel_example = update_loop-fuel summing cfg headers 9 logs current (omega arith)
