-- ===== src/Subscriber/Object.antt =====
-- The object and its methods that do not wait, of src/stateful-event-subscriber.ts. A method returns
-- the new object; the logger and its batching are left out.
use verified_paraswap.Prelude.{
  ℕ, Bool, true, false, not, ◌&&◌, ◌||◌, Option, none, some, List, [], ◌∷◌, ◌++◌, ltb, leb, ◌==◌,
  if◌then◌else◌,
}
use verified_paraswap.Subscriber.History.{
  History, keys, get, put, prune, restart_loop, rollback_loop, forget_loop,
}

-- What the methods read of `dexHelper.config` and of the constructor's arguments.
pub record Config : Type 0 where
  pub is_slave : Bool
  pub master_pool_needed : Bool

-- The calls that leave the object: to the cache, the block manager, the promise scheduler and the
-- caller's callback.
pub data Effect {ℓ} (S : Type ℓ) : Type ℓ where
  hset : ℕ → Option S → Effect S
  batch_hget : Effect S
  publish_new_pool : Effect S
  subscribe_to_logs : ℕ → Effect S
  init_callback : S → Effect S
  add_create_new_state : Effect S

pub record Subscriber {ℓ} (S : Type ℓ) : Type ℓ where
  pub state : Option S
  pub state_block_number : ℕ
  pub state_history : History S
  pub invalid : Bool
  pub is_initialized : Bool
  pub effects : List (Effect S)

module _ {ℓ} {S : Type ℓ} where
  abbrev pub fresh : Subscriber S
  fresh = record {
    state = none;
    state_block_number = 0;
    state_history = [];
    invalid = false;
    is_initialized = false;
    effects = [];
  }

  abbrev pub is_null : Option S → Bool
  is_null none = true
  is_null (some s) = false

  abbrev pub emit : Effect S → Subscriber S → Subscriber S
  emit e o = record o { effects = o.effects ++ e ∷ [] }

  module _ (cfg : Config) where
    -- `_setState`.
    unfoldable pub raw_set_state : Option S → ℕ → Subscriber S → Subscriber S
    raw_set_state s bn o =
        let asked =
          if cfg.is_slave && cfg.master_pool_needed && is_null s then emit batch_hget o else o in
        let stored = record asked { state = s; state_block_number = bn } in
        if cfg.is_slave || not cfg.master_pool_needed then stored else emit (hset bn s) stored

    -- `setState`; a block number of 0 is refused.
    unfoldable pub set_state : S → ℕ → Subscriber S → Subscriber S
    unfolding raw_set_state
    set_state s bn o =
        if bn == 0
        then o
        else (let recorded = record o { state_history = put bn s o.state_history } in
            let moved =
              if is_null o.state || leb o.state_block_number bn
              then record (raw_set_state (some s) bn recorded) { invalid = false }
              else recorded in
            record moved { state_history = prune moved.state_block_number moved.state_history })

    unfoldable pub restart : ℕ → Subscriber S → Subscriber S
    unfolding raw_set_state
    restart bn o =
        let cut = record o {
          state_history = restart_loop bn (keys o.state_history) o.state_history;
        } in
        if not (is_null o.state) && ltb o.state_block_number bn
        then raw_set_state none bn cut
        else cut

    unfoldable pub rollback : ℕ → Subscriber S → Subscriber S
    unfolding raw_set_state
    rollback bn o =
        if o.invalid
        then (let (last, h) = rollback_loop bn (keys o.state_history) 0 o.state_history in
            let cut = record o { state_history = h } in
            if last == 0 then raw_set_state none bn cut else raw_set_state (get last h) last cut)
        else record o {
          state_history =
              forget_loop bn o.state_block_number (keys o.state_history) o.state_history;
        }

  unfoldable pub invalidate : Subscriber S → Subscriber S
  invalidate o = record o { invalid = true }

  -- `getState`; `tracking` is what the callback `isTracking` returns.
  unfoldable pub get_state : Bool → ℕ → Subscriber S → Option S
  get_state tracking min_block_number o =
      if is_null o.state || o.invalid
      then none
      else if tracking || leb min_block_number o.state_block_number
      then o.state
      else none

  unfoldable pub get_stale_state : Subscriber S → Option S
  get_stale_state o = o.state
