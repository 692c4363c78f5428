-- ===== src/Subscriber/Pruning.antt =====
-- The clean-up at the end of `setState` (src/stateful-event-subscriber.ts).
use verified_paraswap.Prelude.{
  length, ℕ, ◌+◌, ◌≤◌, ◌<◌, ◌≡◌, refl, some, [], ◌∷◌, arith, leb, if◌then◌else◌, All,
}
use verified_paraswap.Subscriber.History.{History, keys, prune_loop, prune, max_blocks_history}
use verified_paraswap.Subscriber.Order.{
  Ascending, newest, last_from, state_at, Ascending-weaken, remove_head,
}

module _ {S : Type 0} where
  -- What pruning amounts to: an entry goes if the next one is old enough.
  abbrev pub drop_old : ℕ → History S → History S
  drop_old top [] = []
  drop_old top (e ∷ []) = e ∷ []
  drop_old top (e ∷ f ∷ h) =
      if leb (f.0 + max_blocks_history) top then drop_old top (f ∷ h) else e ∷ f ∷ h

  prune_loop-drop_old :
      (top k : ℕ) (s : S) (h : History S)
      → 0 < k
      → Ascending k h
      → prune_loop top k (keys h) ((k, s) ∷ h) ≡ drop_old top ((k, s) ∷ h)
  unfolding prune_loop
  prune_loop-drop_old top k s [] p a = refl
  prune_loop-drop_old top k s ((j, t) ∷ []) p a = ground (arith, remove_head k s ((j, t) ∷ []))
  prune_loop-drop_old top k s ((j, t) ∷ (i, u) ∷ h) p a =
      ground
        (arith, remove_head k s ((j, t) ∷ (i, u) ∷ h), prune_loop-drop_old top j t ((i, u) ∷ h))

  pub prune-drop_old : (top : ℕ) (h : History S) → Ascending 0 h → prune top h ≡ drop_old top h
  unfolding prune
  prune-drop_old top [] a = refl
  prune-drop_old top ((k, s) ∷ []) a = ground arith
  prune-drop_old top ((k, s) ∷ (j, t) ∷ h) a =
      ground (arith, prune_loop-drop_old top k s ((j, t) ∷ h))

  pub newest-drop_old : (top : ℕ) (h : History S) → newest (drop_old top h) ≡ newest h
  newest-drop_old top [] = refl
  newest-drop_old top (e ∷ []) = refl
  newest-drop_old top (e ∷ f ∷ h) = ground (arith, newest-drop_old top (f ∷ h))

  pub drop_old-Ascending :
      (lo top : ℕ) (h : History S) → Ascending lo h → Ascending lo (drop_old top h)
  drop_old-Ascending lo top [] a = tt
  drop_old-Ascending lo top (e ∷ []) a = a
  drop_old-Ascending lo top (e ∷ f ∷ h) a =
      ground (arith, drop_old-Ascending lo top (f ∷ h), Ascending-weaken lo e.0 (f ∷ h))

  pub state_at-drop_old :
      (lo top bn : ℕ) (h : History S)
      → Ascending lo h
      → top ≤ bn + max_blocks_history
      → state_at bn (drop_old top h) ≡ state_at bn h
  state_at-drop_old lo top bn [] a p = refl
  state_at-drop_old lo top bn (e ∷ []) a p = refl
  state_at-drop_old lo top bn (e ∷ f ∷ h) a p =
      ground (arith, state_at-drop_old e.0 top bn (f ∷ h) a.1)

  abbrev pub tail : History S → History S
  tail [] = []
  tail (e ∷ h) = h

  above_top :
      (top k : ℕ) (h : History S)
      → top < k + max_blocks_history
      → Ascending k h
      → All (λ e. top < e.0 + max_blocks_history) h
  above_top top k [] p a = tt
  above_top top k (e ∷ h) p a = (omega arith, above_top top e.0 h (omega arith) a.1)

  -- All entries but the first are of the last seven blocks.
  pub drop_old-recent :
      (lo top : ℕ) (h : History S)
      → Ascending lo h
      → All (λ e. top < e.0 + max_blocks_history) (tail (drop_old top h))
  drop_old-recent lo top [] a = tt
  drop_old-recent lo top (e ∷ []) a = tt
  drop_old-recent lo top (e ∷ f ∷ h) a =
      ground (arith, drop_old-recent e.0 top (f ∷ h) a.1, above_top top f.0 h)

  last_from-length :
      (k : ℕ) (s : S) (h : History S) → Ascending k h → k + length h ≤ (last_from (k, s) h).0
  last_from-length k s [] a = omega arith
  last_from-length k s ((j, t) ∷ h) a = omega (arith, last_from-length j t h a.1)

  -- Behind a newest entry of block `top` pruning leaves eight entries at most.
  pub length-drop_old :
      (lo top : ℕ) (h : History S)
      → Ascending lo h
      → All (λ e. top < e.0 + max_blocks_history) (tail h)
      → (s : S) → newest h ≡ some (top, s)
      → length h ≤ max_blocks_history + 1
  length-drop_old lo top [] a r s n = omega arith
  length-drop_old lo top (e ∷ []) a r s n = omega arith
  length-drop_old lo top (e ∷ (k, t) ∷ h) a r s n =
      let m : (last_from (k, t) h).0 ≡ top = cc in omega (arith, last_from-length k t h a.1.1)
