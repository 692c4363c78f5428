-- ===== src/Subscriber/History.antt =====
-- `stateHistory`, an object whose keys are block numbers: an engine lists such keys in ascending
-- order, so it is a list of entries kept in that order. With the loops of
-- src/stateful-event-subscriber.ts that run over its keys.
use verified_paraswap.Prelude.{
  ℕ, ◌+◌, not, ◌&&◌, Option, none, some, List, [], ◌∷◌, map, ltb, leb, ◌==◌, if◌then◌else◌,
}

abbrev pub History {ℓ} : Type ℓ → Type ℓ
History S = List (ℕ × S)

-- `MAX_BLOCKS_HISTORY` (src/constants.ts).
abbrev pub max_blocks_history : ℕ
max_blocks_history = 7

module _ {ℓ} {S : Type ℓ} where
  -- `Object.keys(history)`.
  abbrev pub keys : History S → List ℕ
  keys = map (λ e. e.0)

  -- `history[bn]`.
  unfoldable pub get : ℕ → History S → Option S
  get bn [] = none
  get bn ((k, s) ∷ h) = if k == bn then some s else get bn h

  -- `history[bn] = s`.
  unfoldable pub put : ℕ → S → History S → History S
  put bn s [] = (bn, s) ∷ []
  put bn s ((k, t) ∷ h) =
      if ltb bn k
      then (bn, s) ∷ (k, t) ∷ h
      else if k == bn
      then (bn, s) ∷ h
      else (k, t) ∷ put bn s h

  -- `delete history[bn]`.
  unfoldable pub remove : ℕ → History S → History S
  remove bn [] = []
  remove bn ((k, s) ∷ h) = if k == bn then h else (k, s) ∷ remove bn h

  -- The loop of `setState` for the current block `top`; `minBlockNumberToKeep` is `top - 7`, and may
  -- be negative. `last` is `lastBlockNumber`; it is tested for truth, and 0 stands for `undefined`.
  unfoldable pub prune_loop : ℕ → ℕ → List ℕ → History S → History S
  prune_loop top last [] h = h
  prune_loop top last (bn ∷ bns) h =
      let h' = if leb (bn + max_blocks_history) top && not (last == 0) then remove last h else h in
      let rest = prune_loop top bn bns h' in if leb top (bn + max_blocks_history) then h' else rest

  unfoldable pub prune : ℕ → History S → History S
  unfolding prune_loop
  prune top h = prune_loop top 0 (keys h) h

  -- The loop of `restart`.
  unfoldable pub restart_loop : ℕ → List ℕ → History S → History S
  restart_loop bn [] h = h
  restart_loop bn (k ∷ ks) h =
      let rest = restart_loop bn ks (remove k h) in if leb bn k then h else rest

  -- The loop of `rollback` on an invalid state: the last key kept (0 if there is none), and what is
  -- left.
  unfoldable pub rollback_loop : ℕ → List ℕ → ℕ → History S → ℕ × History S
  rollback_loop bn [] last h = (last, h)
  rollback_loop bn (k ∷ ks) last h =
      let cut = rollback_loop bn ks last (remove k h) in
      let kept = rollback_loop bn ks k h in if ltb bn k then cut else kept

  -- The loop of `rollback` on a valid state, whose block is `current`.
  unfoldable pub forget_loop : ℕ → ℕ → List ℕ → History S → History S
  forget_loop bn current [] h = h
  forget_loop bn current (k ∷ ks) h =
      forget_loop bn current ks (if ltb bn k && not (k == current) then remove k h else h)

  -- The loop of `update` that finds the last state before a block.
  unfoldable pub find_before : ℕ → Option S → History S → Option S
  find_before bn found [] = found
  find_before bn found ((k, s) ∷ h) =
      let rest = find_before bn (some s) h in if leb bn k then found else rest

  abbrev pub state_before : ℕ → History S → Option S
  state_before bn h = find_before bn none h
