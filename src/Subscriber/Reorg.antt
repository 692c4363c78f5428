-- ===== src/Subscriber/Reorg.antt =====
-- What the loops of `restart` and `rollback` (src/stateful-event-subscriber.ts) leave of the history.
use verified_paraswap.Prelude.{
  sym, Bool-cases, inl, inr, ap, ◌∙◌, ℕ, ◌<◌, ◌≡◌, refl, Bool, true, false, not, ◌&&◌, none, some,
  [], ◌∷◌, ◌++◌, arith, ltb, leb, ◌==◌, if◌then◌else◌, All,
}
use verified_paraswap.Subscriber.History.{
  History, keys, remove, restart_loop, rollback_loop, forget_loop,
}
use verified_paraswap.Subscriber.Order.{
  Ascending, newest, last_from, le-last_from, remove_head, Ascending-weaken,
}

module _ {S : Type 0} where
  abbrev pub drop_below : ℕ → History S → History S
  drop_below bn [] = []
  drop_below bn ((k, s) ∷ h) = if leb bn k then (k, s) ∷ h else drop_below bn h

  pub restart_loop-drop_below :
      (bn : ℕ) (h : History S) → restart_loop bn (keys h) h ≡ drop_below bn h
  unfolding restart_loop
  restart_loop-drop_below bn [] = refl
  restart_loop-drop_below bn ((k, s) ∷ h) =
      rw (remove_head k s h) (ground (arith, restart_loop-drop_below bn h))

  pub drop_below-Ascending :
      (lo bn : ℕ) (h : History S) → Ascending lo h → Ascending lo (drop_below bn h)
  drop_below-Ascending lo bn [] a = tt
  drop_below-Ascending lo bn ((k, s) ∷ h) a =
      ground (arith, drop_below-Ascending lo bn h, Ascending-weaken lo k h)

  pub newest-drop_below :
      (k bn : ℕ) (s : S) (h : History S)
      → Ascending k h
      → newest (drop_below bn ((k, s) ∷ h))
        ≡ (if leb bn (last_from (k, s) h).0 then some (last_from (k, s) h) else none)
  newest-drop_below k bn s [] a = ground arith
  newest-drop_below k bn s ((j, t) ∷ h) a =
      ground (arith, le-last_from j t h a.1, newest-drop_below j bn t h a.1)

  -- The entries whose block passes a test.
  abbrev pub keep : (ℕ → Bool) → History S → History S
  keep p [] = []
  keep p ((k, s) ∷ h) = if p k then (k, s) ∷ keep p h else keep p h

  pub keep-Ascending :
      (p : ℕ → Bool) (lo : ℕ) (h : History S) → Ascending lo h → Ascending lo (keep p h)
  keep-Ascending p lo [] a = tt
  keep-Ascending p lo ((k, s) ∷ h) a =
      ground (arith, keep-Ascending p k h a.1, Ascending-weaken lo k (keep p h))

  remove-append :
      (k : ℕ) (s : S) (front h : History S)
      → All (λ e. e.0 < k) front
      → remove k (front ++ (k, s) ∷ h) ≡ front ++ h
  unfolding remove
  remove-append k s [] h b = ground arith
  remove-append k s (e ∷ front) h b = ground (arith, remove-append k s front h b.1)

  below_next :
      (k j : ℕ) (s : S) (front : History S)
      → k < j
      → All (λ e. e.0 < k) front
      → All (λ e. e.0 < j) (front ++ (k, s) ∷ [])
  below_next k j s [] p b = (p, tt)
  below_next k j s (e ∷ front) p b = (omega arith, below_next k j s front p b.1)

  below_weaken :
      (k j : ℕ) (front : History S) → k < j → All (λ e. e.0 < k) front → All (λ e. e.0 < j) front
  below_weaken k j [] p b = tt
  below_weaken k j (e ∷ front) p b = (omega arith, below_weaken k j front p b.1)

  abbrev pub Below : History S → History S → Type 0
  Below front [] = Unit
  Below front ((k, s) ∷ h) = All (λ e. e.0 < k) front

  Below-kept :
      (k : ℕ) (s : S) (front h : History S)
      → Ascending k h
      → All (λ e. e.0 < k) front
      → Below (front ++ (k, s) ∷ []) h
  Below-kept k s front [] a b = tt
  Below-kept k s front ((j, t) ∷ h) a b = below_next k j s front a.0 b

  Below-cut :
      (k : ℕ) (front h : History S) → Ascending k h → All (λ e. e.0 < k) front → Below front h
  Below-cut k front [] a b = tt
  Below-cut k front ((j, t) ∷ h) a b = below_weaken k j front a.0 b

  pub Below-nil : (h : History S) → Below [] h
  Below-nil [] = tt
  Below-nil ((k, s) ∷ h) = tt

  abbrev pub last_key : ℕ → History S → ℕ
  last_key d [] = d
  last_key d (e ∷ h) = last_key e.0 h

  append_snoc : (e : ℕ × S) (front h : History S) → front ++ e ∷ h ≡ (front ++ e ∷ []) ++ h
  append_snoc e [] h = refl
  append_snoc e (f ∷ front) h = ap (◌∷◌ f) (append_snoc e front h)

  pub rollback_loop-keep :
      (bn last : ℕ) (front h : History S) (lo : ℕ)
      → Ascending lo h
      → Below front h
      → rollback_loop bn (keys h) last (front ++ h)
        ≡ (last_key last (keep (λ k. leb k bn) h), front ++ keep (λ k. leb k bn) h)
  unfolding rollback_loop
  rollback_loop-keep bn last front [] lo a b = refl
  rollback_loop-keep bn last front ((k, s) ∷ h) lo a b = elim (Bool-cases (ltb bn k)) [
    | inl beyond ↦
        rw (beyond, remove-append k s front h b)
          (rollback_loop-keep bn last front h k a.1 (Below-cut k front h a.1 b)
            ∙ (let cut : leb k bn ≡ false = ground arith in rw cut))
    | inr upto ↦
        let kept : leb k bn ≡ true = ground arith in
        rw
          (
            upto,
            kept,
            append_snoc (k, s) front h,
            append_snoc (k, s) front (keep (λ j. leb j bn) h),
          )
          (rollback_loop-keep bn k (front ++ (k, s) ∷ []) h k a.1 (Below-kept k s front h a.1 b))
  ]

  pub forget_loop-keep :
      (bn current : ℕ) (front h : History S) (lo : ℕ)
      → Ascending lo h
      → Below front h
      → forget_loop bn current (keys h) (front ++ h)
        ≡ front ++ keep (λ k. not (ltb bn k && not (k == current))) h
  unfolding forget_loop
  forget_loop-keep bn current front [] lo a b = refl
  forget_loop-keep bn current front ((k, s) ∷ h) lo a b =
      elim (Bool-cases (ltb bn k && not (k == current))) [
        | inl gone ↦
            rw (gone, forget_loop, remove-append k s front h b)
              (forget_loop-keep bn current front h k a.1 (Below-cut k front h a.1 b))
        | inr kept ↦
            rw (kept, forget_loop, append_snoc (k, s) front h)
              (forget_loop-keep bn current (front ++ (k, s) ∷ []) h k a.1
                  (Below-kept k s front h a.1 b)
                ∙ sym
                    (append_snoc (k, s) front (keep (λ j. not (ltb bn j && not (j == current))) h)))
      ]
