-- ===== src/Subscriber/Order.antt =====
-- The order of the entries of `stateHistory` (src/stateful-event-subscriber.ts).
use verified_paraswap.Prelude.{
  ℕ, suc, ◌≤◌, ◌<◌, ◌≡◌, refl, Option, none, some, [], ◌∷◌, arith, leb, if◌then◌else◌,
}
use verified_paraswap.Subscriber.History.{History, put, remove, find_before}

module _ {S : Type 0} where
  -- Every block number is above `lo`, and they ascend.
  abbrev pub Ascending : ℕ → History S → Type 0
  Ascending lo [] = Unit
  Ascending lo ((k, s) ∷ h) = (lo < k) × Ascending k h

  -- The last entry.
  abbrev pub last_from : ℕ × S → History S → ℕ × S
  last_from e [] = e
  last_from e (f ∷ h) = last_from f h

  abbrev pub newest : History S → Option (ℕ × S)
  newest [] = none
  newest (e ∷ h) = some (last_from e h)

  -- The state that was current after block `bn`: that of the last entry up to it.
  abbrev pub state_at : ℕ → History S → Option S
  state_at bn [] = none
  state_at bn ((k, s) ∷ h) =
      if leb k bn then elim (state_at bn h) [ none ↦ some s | some t ↦ some t ] else none

  pub Ascending-weaken : (lo lo' : ℕ) (h : History S) → lo ≤ lo' → Ascending lo' h → Ascending lo h
  Ascending-weaken lo lo' [] le a = tt
  Ascending-weaken lo lo' ((k, s) ∷ h) le a = (omega arith, a.1)

  pub put-Ascending :
      (lo bn : ℕ) (s : S) (h : History S) → lo < bn → Ascending lo h → Ascending lo (put bn s h)
  unfolding put
  put-Ascending lo bn s [] p a = (p, tt)
  put-Ascending lo bn s ((k, t) ∷ h) p a = ground (arith, put-Ascending k bn s h)

  pub le-last_from : (k : ℕ) (s : S) (h : History S) → Ascending k h → k ≤ (last_from (k, s) h).0
  le-last_from k s [] a = omega arith
  le-last_from k s ((j, t) ∷ h) a = omega (arith, le-last_from j t h a.1)

  last_from-put :
      (k bn : ℕ) (t s : S) (h : History S)
      → k < bn
      → Ascending k h
      → last_from (k, t) (put bn s h)
        ≡ (if leb (last_from (k, t) h).0 bn then (bn, s) else last_from (k, t) h)
  unfolding put
  last_from-put k bn t s [] p a = ground arith
  last_from-put k bn t s ((j, u) ∷ []) p a = ground arith
  last_from-put k bn t s ((j, u) ∷ (i, v) ∷ h) p a =
      ground (arith, le-last_from i v h a.1.1, last_from-put j bn u s ((i, v) ∷ h))

  abbrev pub newer : ℕ → S → Option (ℕ × S) → ℕ × S
  newer bn s none = (bn, s)
  newer bn s (some (k, t)) = if leb k bn then (bn, s) else (k, t)

  -- A write leaves the newest entry alone, or is the newest.
  pub newest-put :
      (lo bn : ℕ) (s : S) (h : History S)
      → Ascending lo h
      → newest (put bn s h) ≡ some (newer bn s (newest h))
  unfolding put
  newest-put lo bn s [] a = refl
  newest-put lo bn s ((k, t) ∷ []) a = ground arith
  newest-put lo bn s ((k, t) ∷ (j, u) ∷ h) a =
      ground (arith, le-last_from j u h a.1.1, last_from-put k bn t s ((j, u) ∷ h))

  pub remove_head : (k : ℕ) (s : S) (h : History S) → remove k ((k, s) ∷ h) ≡ h
  unfolding remove
  remove_head k s h = ground arith

  -- Up to a block behind the newest entry, the current state is that of the newest entry.
  pub state_at-newest :
      (k bn : ℕ) (s : S) (h : History S)
      → Ascending k h
      → (last_from (k, s) h).0 ≤ bn
      → state_at bn ((k, s) ∷ h) ≡ some (last_from (k, s) h).1
  state_at-newest k bn s [] a p = ground arith
  state_at-newest k bn s ((j, t) ∷ h) a p =
      ground (arith, le-last_from j t h a.1, state_at-newest j bn t h a.1)

  -- What the loop of `update` finds is the state at the block before.
  abbrev pub or_else : Option S → Option S → Option S
  or_else none d = d
  or_else (some s) d = some s

  pub find_before-state_at :
      (bn : ℕ) (found : Option S) (h : History S)
      → find_before (suc bn) found h ≡ or_else (state_at bn h) found
  unfolding find_before
  find_before-state_at bn found [] = refl
  find_before-state_at bn found ((k, s) ∷ h) = ground (arith, find_before-state_at bn (some s) h)
