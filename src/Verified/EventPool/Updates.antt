-- ===== src/Verified/EventPool/Updates.antt =====
-- The event pool (src/dex/verified/verified-pool.ts) under `update` of its subscriber.
use verified_paraswap.Prelude.{ℕ, ◌≡◌, refl, Option, some, List, [], ◌∷◌, false}
use verified_paraswap.Prelude.Result.{Result, ok}
use verified_paraswap.Prelude.Text.{Dict}
use verified_paraswap.Subscriber.Object.{Config, Subscriber}
use verified_paraswap.Subscriber.Updates.{Log, done, update, over}
use verified_paraswap.Subscriber.Invariant.{IsValid}
use verified_paraswap.Subscriber.Replay.{replay, InOrder, update-replay}
use verified_paraswap.Verified.Types.{PoolState}
use verified_paraswap.Verified.EventPool.{Event, process_event, event_pool}

module _ {P : Type 0} (decode : Log P → Result Event) where
  -- The events in turn; one that is not understood changes nothing.
  unfoldable pub play_events : Dict PoolState → List (Log P) → Dict PoolState
  play_events state [] = state
  play_events state (l ∷ ls) = play_events (over (process_event (decode l) state) state) ls

module _ {P H : Type 0} (decode : Log P → Result Event)
    (generate : ℕ → Result (Dict PoolState)) where
  replay-play_events :
      (headers : ℕ → Option H) (state : Dict PoolState) (ls : List (Log P))
      → replay (event_pool decode generate) headers state ls ≡ ok (play_events decode state ls)
  unfolding replay play_events event_pool
  replay-play_events headers state [] = refl
  replay-play_events headers state (l ∷ ls) =
      replay-play_events headers (over (process_event (decode l) state) state) ls

  -- On a valid subscriber of the Verified pools that has a state, logs in ascending blocks behind
  -- it always lead to the state of their events played in turn, whatever the decoder returns:
  -- update ends without an exception, and leaves a valid subscriber that is not marked invalid.
  pub update-play_events :
      (cfg : Config) (headers : ℕ → Option H) (ls : List (Log P)) (state : Dict PoolState)
      (o : Subscriber (Dict PoolState))
      → IsValid o
      → o.state ≡ some state
      → InOrder o.state_block_number ls
      → (o' : Subscriber (Dict PoolState)) × (update (event_pool decode generate) cfg headers ls o
          ≡ done o')
        × (o'.state ≡ some (play_events decode state ls))
        × (o'.invalid ≡ false)
        × IsValid o'
  update-play_events cfg headers ls state o v st q =
      update-replay (event_pool decode generate) cfg headers ls state (play_events decode state ls)
        o v st q (replay-play_events headers state ls)
