-- ===== src/Subscriber/Reach.antt =====
-- The methods of src/stateful-event-subscriber.ts as runs of uninterrupted steps, between which the
-- steps of other calls may fall.
use verified_paraswap.Prelude.{
  Bool-cases, Option-cases, inl, inr, ℕ, refl, Bool, true, false, Option, none, some, List, [], ◌∷◌,
  if◌then◌else◌, ◌&&◌, not, ◌==◌, zero, suc, length,
}
use verified_paraswap.Prelude.Result.{Result, ok, err}
use verified_paraswap.Subscriber.Object.{
  add_create_new_state, publish_new_pool, subscribe_to_logs, init_callback, Config, Effect,
  Subscriber, fresh, is_null, set_state, restart, rollback, invalidate, emit,
}
use verified_paraswap.Subscriber.Updates.{
  Log, Subclass, Outcome, done, threw, object, ◌>>>◌, store, store_next, play, ensure_state, finish,
  subscribed, update_block, update_loop, update, block_logs, after_block, process_block_logs,
  attempt, create_new_state, on_cache_result, StateCache, Options, from_cache, first_state,
  call_back, initialize,
}
use verified_paraswap.Subscriber.History.{state_before}
use verified_paraswap.Subscriber.Invariant.{IsValid, set_state-IsValid}
use verified_paraswap.Subscriber.Rollback.{rollback-IsValid, restart-IsValid}

module _ {S : Type 0} (cfg : Config) where
  -- What one uninterrupted stretch of a method does.
  pub data Step (o : Subscriber S) : Subscriber S → Type 0 where
    sets : (s : S) (bn : ℕ) → Step o (set_state cfg s bn o)
    restarts : (bn : ℕ) → Step o (restart cfg bn o)
    rolls_back : (bn : ℕ) → Step o (rollback cfg bn o)
    invalidates : Step o (invalidate o)
    revalidates : Step o (record o { invalid = false })
    emits : (e : Effect S) → Step o (emit e o)
    initializes : Step o (record o { is_initialized = true })

  pub data Reach (o : Subscriber S) : Subscriber S → Type 0 where
    here : Reach o o
    next : {p q : Subscriber S} → Reach o p → Step p q → Reach o q

  Step-IsValid : {o p : Subscriber S} → Step o p → IsValid o → IsValid p
  unfolding invalidate
  Step-IsValid {o} (sets s bn) v = set_state-IsValid cfg s bn o v
  Step-IsValid {o} (restarts bn) v = restart-IsValid cfg bn o v
  Step-IsValid {o} (rolls_back bn) v = rollback-IsValid cfg bn o v
  Step-IsValid invalidates v = record { ascending = v.ascending; current = v.current }
  Step-IsValid revalidates v = record { ascending = v.ascending; current = v.current }
  Step-IsValid (emits e) v = record { ascending = v.ascending; current = v.current }
  Step-IsValid initializes v = record { ascending = v.ascending; current = v.current }

  -- Whatever sequence of uninterrupted steps of its methods a valid subscriber takes, its history
  -- stays in ascending order and its state stays the newest entry of the history.
  pub Reach-IsValid : {o p : Subscriber S} → IsValid o → Reach o p → IsValid p
  Reach-IsValid v here = v
  Reach-IsValid v (next r st) = Step-IsValid st (Reach-IsValid v r)

  pub fresh-IsValid : IsValid (fresh {S = S})
  fresh-IsValid = record { ascending = tt; current = refl }

  Reach-trans : {o p q : Subscriber S} → Reach o p → Reach p q → Reach o q
  Reach-trans r here = r
  Reach-trans r (next t st) = next (Reach-trans r t) st

module _ {S P H : Type 0} (sub : Subclass S P H) (cfg : Config) where
  store-Reach : (r : Result S) (bn : ℕ) (o : Subscriber S) → Reach cfg o (object (store cfg r bn o))
  store-Reach (ok s) bn o = next here (sets s bn)
  store-Reach (err e) bn o = here

  >>>-Reach :
      (o : Subscriber S) (m : Outcome S) (f : Subscriber S → Outcome S)
      → Reach cfg o (object m)
      → ((p : Subscriber S) → Reach cfg p (object (f p)))
      → Reach cfg o (object (m >>> f))
  >>>-Reach o (done p) f r h = Reach-trans cfg r (h p)
  >>>-Reach o (threw e p) f r h = r

  module _ (headers : ℕ → Option H) where
    play-Reach :
        (s : Option S) (bn : ℕ) (ls : List (Log P)) (o : Subscriber S)
        → Reach cfg o (object (play sub cfg headers s bn ls o))
    play-Reach none bn ls o = here
    play-Reach (some s) bn ls o = stored (process_block_logs sub s ls (headers bn))
      where
        stored : (r : Result (Option S)) → Reach cfg o (object (store_next sub cfg headers r bn o))
        stored (ok none) = here
        stored (ok (some t)) = next here (sets t bn)
        stored (err e) = here

    update_block-Reach :
        (bn : ℕ) (ls : List (Log P)) (o : Subscriber S)
        → Reach cfg o (object (update_block sub cfg headers bn ls o))
    unfolding update_block
    update_block-Reach bn ls o =
        >>>-Reach o (ensure_state sub cfg headers bn o)
          (λ p. play sub cfg headers (state_before bn p.state_history) bn ls p)
          (ensured (is_null o.state)) (λ p. play-Reach (state_before bn p.state_history) bn ls p)
      where
        ensured :
            (b : Bool)
            → Reach cfg o (object (if b then store cfg (sub.generate_state bn) bn o else done o))
        ensured true = store-Reach (sub.generate_state bn) bn o
        ensured false = here

    update_loop-Reach :
        (fuel : ℕ) (ls : List (Log P)) (o : Subscriber S)
        → Reach cfg o (object (update_loop sub cfg headers fuel ls o))
    unfolding update_loop
    update_loop-Reach zero [] o = here
    update_loop-Reach (suc fuel) [] o = here
    update_loop-Reach zero (l ∷ ls) o = here
    update_loop-Reach (suc fuel) (l ∷ ls) o =
        >>>-Reach o
          (update_block sub cfg headers l.block_number (block_logs l.block_number (l ∷ ls)) o)
          (λ p. update_loop sub cfg headers fuel (after_block l.block_number ls) p)
          (update_block-Reach l.block_number (block_logs l.block_number (l ∷ ls)) o)
          (λ p. update_loop-Reach fuel (after_block l.block_number ls) p)

    finish-Reach : (p : Subscriber S) → Reach cfg p (finish sub cfg headers p)
    finish-Reach p = by_test (not cfg.is_slave && cfg.master_pool_needed && is_null p.state)
      where
        by_test :
            (b : Bool)
            → Reach cfg p (
                if b
                then emit add_create_new_state (record p { invalid = false })
                else record p { invalid = false })
        by_test true = next (next here revalidates) (emits add_create_new_state)
        by_test false = next here revalidates

    -- `update` is such a run, also where a log or a fresh state throws.
    pub update-Reach :
        (ls : List (Log P)) (o : Subscriber S) → Reach cfg o (object (update sub cfg headers ls o))
    unfolding update
    update-Reach ls o =
        >>>-Reach o (update_loop sub cfg headers (length ls) ls o)
          (λ p. done (finish sub cfg headers p)) (update_loop-Reach (length ls) ls o) finish-Reach

  emit-Reach :
      (c : Bool) (e : Effect S) (o : Subscriber S) → Reach cfg o (if c then emit e o else o)
  emit-Reach true e o = next here (emits e)
  emit-Reach false e o = here

  -- So are the two callbacks, and `initialize`.
  pub create_new_state-Reach :
      (latest : ℕ) (o : Subscriber S) → Reach cfg o (create_new_state sub cfg latest o).1
  unfolding create_new_state
  create_new_state-Reach latest o = elim (Bool-cases (is_null o.state)) [
    | inl missing ↦ rw missing (attempted (sub.generate_state latest))
    | inr present ↦ rw present here
  ]
    where
      attempted : (r : Result S) → Reach cfg o (attempt sub cfg r latest o).1
      attempted (ok s) = next here (sets s latest)
      attempted (err e) = here

  pub on_cache_result-Reach :
      (r : Option (StateCache S)) (o : Subscriber S) → Reach cfg o (on_cache_result sub cfg r o).1
  unfolding on_cache_result
  on_cache_result-Reach none o = here
  on_cache_result-Reach (some (bn, none)) o = here
  on_cache_result-Reach (some (bn, some s)) o = next here (sets s bn)

  from_cache-Reach :
      (bn : ℕ) (cached : Option (StateCache S)) (master : Option ℕ) (o : Subscriber S)
      → Reach cfg o (object (from_cache sub cfg bn cached master o).0)
  unfolding from_cache
  from_cache-Reach bn none master o =
      >>>-Reach o (store cfg (sub.generate_state bn) bn o) _
        (store-Reach (sub.generate_state bn) bn o) (λ p. next here (emits publish_new_pool))
  from_cache-Reach bn (some (b, none)) master o = store-Reach (sub.generate_state bn) bn o
  from_cache-Reach bn (some (b, some s)) master o = next here (sets s b)

  first_state-Reach :
      (bn : ℕ) (opts : Options S) (cached : Option (StateCache S)) (master : Option ℕ)
      (o : Subscriber S)
      → Reach cfg o (object (first_state sub cfg bn opts cached master o).0)
  unfolding first_state
  first_state-Reach bn opts cached master o = elim (Option-cases opts.given) [
    | inr (s, e) ↦ rw e (next here (sets s bn))
    | inl e ↦ rw e (elim (Bool-cases opts.force_regenerate) [
      | inl f ↦ rw f (store-Reach (sub.generate_state bn) bn o)
      | inr f ↦ rw f (elim (Bool-cases (cfg.is_slave && cfg.master_pool_needed)) [
        | inl shared ↦ rw shared (from_cache-Reach bn cached master o)
        | inr own ↦ rw own (store-Reach (sub.generate_state bn) bn o)
      ])
    ])
  ]

  subscribed-Reach :
      (callback : Bool) (from : ℕ) (o : Subscriber S)
      → Reach cfg o (subscribed sub cfg callback from o)
  subscribed-Reach callback from o =
      next (next (called callback o.state) (emits (subscribe_to_logs from))) initializes
    where
      called : (c : Bool) (s : Option S) → Reach cfg o (call_back sub cfg c s o)
      called true (some s) = next here (emits (init_callback s))
      called true none = here
      called false s = here

  pub initialize-Reach :
      (bn : ℕ) (opts : Options S) (cached : Option (StateCache S)) (master : Option ℕ)
      (o : Subscriber S)
      → Reach cfg o (object (initialize sub cfg bn opts cached master o))
  unfolding initialize
  initialize-Reach bn opts cached master o =
      let (start, block_number, master_bn) = first_state sub cfg bn opts cached master o in
      let from = if master_bn == 0 then block_number else master_bn in
      >>>-Reach o start (λ p. done (subscribed sub cfg opts.callback from p))
        (first_state-Reach bn opts cached master o) (λ p. subscribed-Reach opts.callback from p)

module _ {S P H : Type 0} (sub : Subclass S P H) (cfg : Config) where
  -- Update leaves a valid subscriber valid for any logs, in order or not, also where a log or a
  -- fresh state throws.
  pub update-IsValid :
      (headers : ℕ → Option H) (ls : List (Log P)) (o : Subscriber S)
      → IsValid o
      → IsValid (object (update sub cfg headers ls o))
  update-IsValid headers ls o v = Reach-IsValid cfg v (update-Reach sub cfg headers ls o)

  -- Initialize leaves a fresh subscriber valid whatever the options, the cache and the master
  -- deliver, also where a fresh state throws.
  pub initialize-IsValid :
      (bn : ℕ) (opts : Options S) (cached : Option (StateCache S)) (master : Option ℕ)
      → IsValid (object (initialize sub cfg bn opts cached master fresh))
  initialize-IsValid bn opts cached master =
      Reach-IsValid cfg (fresh-IsValid cfg) (initialize-Reach sub cfg bn opts cached master fresh)
