-- ===== src/Subscriber/Rollback.antt =====
-- The state after `restart` and `rollback` (src/stateful-event-subscriber.ts).
use verified_paraswap.Prelude.{
  sym, Bool-cases, inl, inr, ap, ◌∙◌, ℕ, ◌<◌, ◌≡◌, ◌≢◌, ◌⊎◌, refl, Bool, true, false, not, ◌&&◌,
  Option, none, some, [], ◌∷◌, arith, ltb, leb, ◌==◌, if◌then◌else◌,
}
use verified_paraswap.Subscriber.History.{History, get}
use verified_paraswap.Subscriber.Order.{Ascending, newest, last_from, le-last_from, state_at}
use verified_paraswap.Subscriber.Object.{
  Config, Subscriber, is_null, raw_set_state, restart, rollback,
}
use verified_paraswap.Subscriber.Invariant.{IsValid, stamp, raw_set_state_fields}
use verified_paraswap.Subscriber.Reorg.{
  drop_below, restart_loop-drop_below, drop_below-Ascending, newest-drop_below, keep,
  keep-Ascending, last_key, Below-nil, rollback_loop-keep, forget_loop-keep,
}

module _ {S : Type 0} where
  last_key-last_from : (e : ℕ × S) (h : History S) (d : ℕ) → last_key d (e ∷ h) ≡ (last_from e h).0
  last_key-last_from e [] d = refl
  last_key-last_from e (f ∷ h) d = last_key-last_from f h e.0

  get-last_from :
      (k : ℕ) (s : S) (h : History S)
      → Ascending k h
      → get (last_from (k, s) h).0 ((k, s) ∷ h) ≡ some (last_from (k, s) h).1
  unfolding get
  get-last_from k s [] a = ground arith
  get-last_from k s ((j, t) ∷ h) a = ground (arith, le-last_from j t h a.1, get-last_from j t h a.1)

  -- The state under the last key is the newest entry's.
  restored :
      (h : History S)
      → Ascending 0 h
      → (last_key 0 h ≡ 0) × (newest h ≡ none)
        ⊎ (last_key 0 h ≢ 0) × (newest h ≡ stamp (last_key 0 h) (get (last_key 0 h) h))
  restored [] a = inl (refl, refl)
  restored ((k, s) ∷ h) a =
      rw (last_key-last_from (k, s) h 0, get-last_from k s h a.1)
        (inr ((omega (arith, le-last_from k s h a.1)), refl))

  abbrev pub state_of : Option (ℕ × S) → Option S
  state_of none = none
  state_of (some (k, s)) = some s

  abbrev or_newest : Option (ℕ × S) → ℕ × S → Option (ℕ × S)
  or_newest none e = some e
  or_newest (some f) e = some f

  newest-cons : (e : ℕ × S) (h : History S) → newest (e ∷ h) ≡ or_newest (newest h) e
  newest-cons e [] = refl
  newest-cons e (f ∷ h) = refl

  keep_beyond : (bn k : ℕ) (h : History S) → bn < k → Ascending k h → keep (λ j. leb j bn) h ≡ []
  keep_beyond bn k [] b a = refl
  keep_beyond bn k ((j, t) ∷ h) b a = ground (arith, keep_beyond bn j h)

  newest-keep_upto :
      (bn : ℕ) (h : History S) (lo : ℕ)
      → Ascending lo h
      → state_of (newest (keep (λ k. leb k bn) h)) ≡ state_at bn h
  newest-keep_upto bn [] lo a = refl
  newest-keep_upto bn ((k, s) ∷ h) lo a = elim (Bool-cases (leb k bn)) [
    | inl upto ↦
        let kept = keep (λ j. leb j bn) h in
        rw upto (
          ap state_of (newest-cons (k, s) kept)
          ∙ state_or (newest kept) k s
          ∙ (rw (newest-keep_upto bn h k a.1)))
    | inr beyond ↦ rw (beyond, keep_beyond bn k h (ground arith) a.1)
  ]
    where
      state_or :
          (n : Option (ℕ × S)) (k : ℕ) (s : S)
          → state_of (or_newest n (k, s)) ≡ elim (state_of n) [ none ↦ some s | some t ↦ some t ]
      state_or none k s = refl
      state_or (some f) k s = refl

  newest-keep :
      (p : ℕ → Bool) (k : ℕ) (s : S) (h : History S)
      → p (last_from (k, s) h).0 ≡ true
      → newest (keep p ((k, s) ∷ h)) ≡ newest ((k, s) ∷ h)
  newest-keep p k s [] q = rw q
  newest-keep p k s ((j, t) ∷ h) q = elim (Bool-cases (p k)) [
    | inl kept ↦ rw (kept, newest-cons (k, s) (keep p ((j, t) ∷ h)), newest-keep p j t h q)
    | inr gone ↦ rw gone (newest-keep p j t h q)
  ]

  module _ (cfg : Config) where
    rollback_eq :
        (bn : ℕ) (o : Subscriber S)
        → IsValid o
        → o.invalid ≡ true
        → let left = keep (λ k. leb k bn) o.state_history in
          let last = last_key 0 left in
          let cut = record o { state_history = left } in
          rollback cfg bn o ≡ (
            if last == 0
            then raw_set_state cfg none bn cut
            else raw_set_state cfg (get last left) last cut)
    unfolding rollback
    rollback_eq bn o v inv =
        rw (
          inv,
          rollback_loop-keep bn 0 [] o.state_history 0 v.ascending (Below-nil o.state_history),
        )

    -- On a valid subscriber that is marked invalid, a rollback to a block keeps exactly the entries
    -- up to that block, makes the state the one that was current after that block (none if there is
    -- none), stays marked invalid, and keeps the invariant.
    pub rollback_invalid :
        (bn : ℕ) (o : Subscriber S)
        → IsValid o
        → o.invalid ≡ true
        → let o' = rollback cfg bn o in
          IsValid o'
          × (o'.state ≡ state_at bn o.state_history)
          × (o'.state_history ≡ keep (λ k. leb k bn) o.state_history)
          × (o'.invalid ≡ true)
    rollback_invalid bn o v inv =
        let left = keep (λ k. leb k bn) o.state_history in
        let last = last_key 0 left in
        let cut = record o { state_history = left } in
        let asc = keep-Ascending (λ k. leb k bn) 0 o.state_history v.ascending in
        let at : state_of (newest left) ≡ state_at bn o.state_history =
          newest-keep_upto bn o.state_history 0 v.ascending in
        rw (rollback_eq bn o v inv) (elim (restored left asc) [
          | inl (z, n) ↦
              let (st, sbn, hist, iv) = raw_set_state_fields cfg none bn cut in
              rw z (
                (
                  record { ascending = rw hist asc; current = rw (hist, st, n) },
                  st ∙ (sym (ap state_of n) ∙ at),
                  hist,
                  iv ∙ inv,
                ))
          | inr (nz, n) ↦
              let (st, sbn, hist, iv) = raw_set_state_fields cfg (get last left) last cut in
              let f : (last == 0) ≡ false = ground arith in
              rw f (
                (
                  record { ascending = rw hist asc; current = rw (hist, st, sbn, n) },
                  st ∙ (state_of_stamp last (get last left) ∙ sym (ap state_of n) ∙ at),
                  hist,
                  iv ∙ inv,
                ))
        ])
      where
        state_of_stamp : (k : ℕ) (s : Option S) → s ≡ state_of (stamp k s)
        state_of_stamp k none = refl
        state_of_stamp k (some s) = refl

    -- A rollback of a valid subscriber forgets later blocks, but not the current state.
    rollback_current :
        (bn : ℕ) (o : Subscriber S) → IsValid o → o.invalid ≡ false → IsValid (rollback cfg bn o)
    unfolding rollback
    rollback_current bn o v inv =
        let p : ℕ → Bool = λ k. not (ltb bn k && not (k == o.state_block_number)) in
        rw
          (
            inv,
            forget_loop-keep bn o.state_block_number [] o.state_history 0 v.ascending
                (Below-nil o.state_history),
          )
          (record {
            ascending = keep-Ascending p 0 o.state_history v.ascending;
            current = kept_newest o.state_history o.state v.current;
          })
      where
        kept_newest :
            (h : History S) (s : Option S)
            → newest h ≡ stamp o.state_block_number s
            → newest (keep (λ k. not (ltb bn k && not (k == o.state_block_number))) h)
              ≡ stamp o.state_block_number s
        kept_newest [] s e = e
        kept_newest ((k, t) ∷ h) none e = cc
        kept_newest ((k, t) ∷ h) (some s) e =
            let m : (last_from (k, t) h).0 ≡ o.state_block_number = cc in
            newest-keep (λ j. not (ltb bn j && not (j == o.state_block_number))) k t h
              (rw m (ground arith))
            ∙ e

    -- `rollback` keeps the invariant.
    pub rollback-IsValid : (bn : ℕ) (o : Subscriber S) → IsValid o → IsValid (rollback cfg bn o)
    rollback-IsValid bn o v = elim (Bool-cases o.invalid) [
      | inl inv ↦ (rollback_invalid bn o v inv).0
      | inr inv ↦ rollback_current bn o v inv
    ]

    restart_newest :
        (bn sbn : ℕ) (h : History S) (s : Option S)
        → Ascending 0 h
        → newest h ≡ stamp sbn s
        → newest (drop_below bn h) ≡ (if not (is_null s) && ltb sbn bn then none else stamp sbn s)
    restart_newest bn sbn [] none a e = refl
    restart_newest bn sbn [] (some s) a e = cc
    restart_newest bn sbn ((k, t) ∷ h) none a e = cc
    restart_newest bn sbn ((k, t) ∷ h) (some s) a e =
        let m : (last_from (k, t) h).0 ≡ sbn = cc in
        newest-drop_below k bn t h a.1 ∙ (rw (m, e) (ground arith))

    -- `restart` keeps the invariant.
    pub restart-IsValid : (bn : ℕ) (o : Subscriber S) → IsValid o → IsValid (restart cfg bn o)
    unfolding restart
    restart-IsValid bn o v =
        let cut = record o { state_history = drop_below bn o.state_history } in
        let asc = drop_below-Ascending 0 bn o.state_history v.ascending in
        let new =
          restart_newest bn o.state_block_number o.state_history o.state v.ascending v.current in
        rw (restart_loop-drop_below bn o.state_history)
          (elim (Bool-cases (not (is_null o.state) && ltb o.state_block_number bn)) [
            | inl old ↦
                let (st, sbn, hist, _) = raw_set_state_fields cfg none bn cut in
                rw old (record { ascending = rw hist asc; current = rw (hist, st, new, old) })
            | inr recent ↦ rw recent (record { ascending = asc; current = rw (new, recent) })
          ])
