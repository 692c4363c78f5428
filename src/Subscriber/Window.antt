-- ===== src/Subscriber/Window.antt =====
-- The window of blocks that the history of src/stateful-event-subscriber.ts covers.
use verified_paraswap.Prelude.{
  ◌∙◌, ℕ, ◌+◌, ◌≤◌, ◌<◌, ◌≡◌, ◌≢◌, refl, true, Option, none, some, [], ◌∷◌, arith, length, All, ◌⊎◌,
  inl, inr, Bool-cases, leb, leb→le, not-leb→lt,
}
use verified_paraswap.Subscriber.History.{History, put, max_blocks_history}
use verified_paraswap.Subscriber.Order.{newest, Ascending, state_at, put-Ascending}
use verified_paraswap.Subscriber.Pruning.{tail, state_at-drop_old, length-drop_old, drop_old-recent}
use verified_paraswap.Subscriber.Object.{Config, Subscriber, set_state, rollback, invalidate}
use verified_paraswap.Subscriber.Invariant.{IsValid, stamp, set_state-history, set_state-IsValid}
use verified_paraswap.Subscriber.Rollback.{rollback_invalid}

module _ {S : Type 0} where
  state_at-put_before :
      (b bn lo : ℕ) (s : S) (h : History S)
      → b < bn
      → Ascending lo h
      → state_at b (put bn s h) ≡ state_at b h
  unfolding put
  state_at-put_before b bn lo s [] p a = ground arith
  state_at-put_before b bn lo s ((k, t) ∷ h) p a =
      ground (arith, state_at-put_before b bn k s h p a.1)

  bounded :
      (top : ℕ) (h : History S) (m : Option S)
      → Ascending 0 h
      → All (λ e. top < e.0 + max_blocks_history) (tail h)
      → newest h ≡ stamp top m
      → length h ≤ max_blocks_history + 1
  bounded top [] m a r e = omega arith
  bounded top (f ∷ h) none a r e = cc
  bounded top (f ∷ h) (some s) a r e = length-drop_old 0 top (f ∷ h) a r s e

  module _ (cfg : Config) where
    set_state-state_at :
        (s : S) (bn b : ℕ) (o : Subscriber S)
        → bn ≢ 0
        → IsValid o
        → b < bn
        → (set_state cfg s bn o).state_block_number ≤ b + max_blocks_history
        → state_at b (set_state cfg s bn o).state_history ≡ state_at b o.state_history
    set_state-state_at s bn b o h v p w = rw (set_state-history cfg s bn o h v) (
        state_at-drop_old 0 (set_state cfg s bn o).state_block_number b _
          (put-Ascending 0 bn s o.state_history (omega arith) v.ascending) w
        ∙ state_at-put_before b bn 0 s o.state_history p v.ascending)

    -- On a valid subscriber, recording a state at a block that is not 0 leaves no more than eight
    -- entries, and keeps what was current after each block that is neither at or behind the
    -- recorded one nor more than seven blocks before the newest one.
    pub set_state_window :
        (s : S) (bn : ℕ) (o : Subscriber S)
        → bn ≢ 0
        → IsValid o
        → let o' = set_state cfg s bn o in
          (length o'.state_history ≤ max_blocks_history + 1)
          × ((b : ℕ)
              → (bn ≤ b)
                ⊎ (b + max_blocks_history < o'.state_block_number)
                ⊎ (state_at b o'.state_history ≡ state_at b o.state_history))
    set_state_window s bn o h v =
        let o' = set_state cfg s bn o in
        let v' = set_state-IsValid cfg s bn o v in
        let asc = put-Ascending 0 bn s o.state_history (omega arith) v.ascending in
        let hist = set_state-history cfg s bn o h v in
        (
          bounded o'.state_block_number o'.state_history o'.state v'.ascending
              (rw hist (drop_old-recent 0 o'.state_block_number _ asc)) v'.current,
          λ (b : ℕ). elim (Bool-cases (leb bn b)) [
            | inl late ↦ inl (leb→le _ _ late)
            | inr early ↦ elim (Bool-cases (leb o'.state_block_number (b + max_blocks_history))) [
              | inl recent ↦
                  inr (
                    inr
                      (set_state-state_at s bn b o h v (not-leb→lt _ _ early) (leb→le _ _ recent)))
              | inr old ↦ inr (inl (not-leb→lt _ _ old))
            ]
          ],
        )

    -- Recording a state on a valid subscriber, invalidating it and rolling back to an earlier block
    -- within seven blocks of the newest one gives the state that was current after that block
    -- before.
    pub rollback_undoes :
        (s : S) (bn b : ℕ) (o : Subscriber S)
        → IsValid o
        → b < bn
        → (set_state cfg s bn o).state_block_number ≤ b + max_blocks_history
        → (rollback cfg b (invalidate (set_state cfg s bn o))).state ≡ state_at b o.state_history
    unfolding invalidate
    rollback_undoes s bn b o v p w =
        let o' = set_state cfg s bn o in
        let v' = set_state-IsValid cfg s bn o v in
        (rollback_invalid cfg b (record o' { invalid = true })
          (record { ascending = v'.ascending; current = v'.current }) refl).1
        ∙ set_state-state_at s bn b o (omega arith) v p w
