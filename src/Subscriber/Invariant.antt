-- ===== src/Subscriber/Invariant.antt =====
-- The invariant of a subscriber (src/stateful-event-subscriber.ts), and `setState`.
use verified_paraswap.Prelude.{
  ap, ◌∙◌, ℕ, zero, suc, ◌≡◌, ◌≢◌, refl, Bool, false, ◌||◌, Option, none, some, arith, leb,
  if◌then◌else◌,
}
use verified_paraswap.Subscriber.History.{put, prune}
use verified_paraswap.Subscriber.Order.{Ascending, newest, newer, newest-put, put-Ascending}
use verified_paraswap.Subscriber.Pruning.{
  drop_old, prune-drop_old, newest-drop_old, drop_old-Ascending,
}
use verified_paraswap.Subscriber.Object.{Config, Subscriber, is_null, raw_set_state, set_state}

module _ {S : Type 0} where
  abbrev pub stamp : ℕ → Option S → Option (ℕ × S)
  stamp bn none = none
  stamp bn (some s) = some (bn, s)

  -- The block numbers of the history ascend from 1; the last entry is the current state at its
  -- block, and there is no history without a state.
  pub record IsValid (o : Subscriber S) : Type 0 where
    pub ascending : Ascending 0 o.state_history
    pub current : newest o.state_history ≡ stamp o.state_block_number o.state

  module _ (cfg : Config) where
    pub raw_set_state_fields :
        (s : Option S) (bn : ℕ) (o : Subscriber S)
        → let o' = raw_set_state cfg s bn o in
          (o'.state ≡ s)
          × (o'.state_block_number ≡ bn)
          × (o'.state_history ≡ o.state_history)
          × (o'.invalid ≡ o.invalid)
    unfolding raw_set_state
    raw_set_state_fields s bn o = ground arith

    -- Whether `setState` moves the current state.
    abbrev pub moves : ℕ → Subscriber S → Bool
    moves bn o = is_null o.state || leb o.state_block_number bn

    pub set_state_fields :
        (s : S) (bn : ℕ) (o : Subscriber S)
        → bn ≢ 0
        → let o' = set_state cfg s bn o in
          (o'.state ≡ (if moves bn o then some s else o.state))
          × (o'.state_block_number ≡ (if moves bn o then bn else o.state_block_number))
          × (o'.state_history ≡ prune o'.state_block_number (put bn s o.state_history))
          × (o'.invalid ≡ (if moves bn o then false else o.invalid))
    unfolding set_state
    set_state_fields s bn o h = ground (
      arith,
      raw_set_state_fields (some s) bn (record o { state_history = put bn s o.state_history }),
    )

    newest-recorded :
        (s : S) (bn : ℕ) (o : Subscriber S)
        → IsValid o
        → newest (put bn s o.state_history)
          ≡ stamp
              (if moves bn o then bn else o.state_block_number)
              (if moves bn o then some s else o.state)
    newest-recorded s bn o v =
        newest-put 0 bn s o.state_history v.ascending ∙ (rw v.current (newer-stamp o.state))
      where
        newer-stamp :
            (t : Option S)
            → some (newer bn s (stamp o.state_block_number t))
              ≡ stamp
                  (if is_null t || leb o.state_block_number bn then bn else o.state_block_number)
                  (if is_null t || leb o.state_block_number bn then some s else t)
        newer-stamp none = refl
        newer-stamp (some t) = ground arith

    pub set_state-history :
        (s : S) (bn : ℕ) (o : Subscriber S)
        → bn ≢ 0
        → IsValid o
        → (set_state cfg s bn o).state_history
          ≡ drop_old (set_state cfg s bn o).state_block_number (put bn s o.state_history)
    set_state-history s bn o h v =
        (set_state_fields s bn o h).2
        ∙ prune-drop_old _ _ (put-Ascending 0 bn s o.state_history (omega arith) v.ascending)

    set_state_zero : (s : S) (o : Subscriber S) → set_state cfg s 0 o ≡ o
    unfolding set_state
    set_state_zero s o = refl

    -- `setState` keeps the invariant, whatever block it records.
    pub set_state-IsValid :
        (s : S) (bn : ℕ) (o : Subscriber S) → IsValid o → IsValid (set_state cfg s bn o)
    set_state-IsValid s zero o v = rw set_state_zero v
    set_state-IsValid s (suc b) o v =
        let bn : ℕ = suc b in
        let o' = set_state cfg s bn o in
        let (st, sbn, _, _) = set_state_fields s bn o (omega arith) in
        let hist = set_state-history s bn o (omega arith) v in
        record {
          ascending = rw hist (
              drop_old-Ascending 0 _ _
                (put-Ascending 0 bn s o.state_history (omega arith) v.ascending));
          current =
              ap newest hist ∙ newest-drop_old _ _ ∙ newest-recorded s bn o v ∙ (rw (st, sbn));
        }
