-- ===== src/Scheduling/Promises/Retries.antt =====
-- How often a promise stands in the queue and in the batch of src/lib/promise-scheduler.ts.
use verified_paraswap.Prelude.{
  ℕ, zero, suc, ◌+◌, ◌≤◌, ◌≡◌, ◌≢◌, inl, inr, refl, ap, Bool, true, false, some, List, [], ◌∷◌,
  ◌++◌, arith, length, ◌==◌, if◌then◌else◌,
}
use verified_paraswap.Scheduling.Promises.{
  PromiseScheduler, add_promise, run, settle, without, nth, Step, adds, fires, settles, Steps,
  none_yet, more, Live, Steps-Live,
}

-- How often a promise stands in a list, and in a scheduler.
abbrev pub occurrences : ℕ → List ℕ → ℕ
occurrences p [] = 0
occurrences p (q ∷ qs) = let rest = occurrences p qs in if q == p then suc rest else rest

abbrev pub held : ℕ → PromiseScheduler → ℕ
held p s = occurrences p s.promises + occurrences p s.executing

occurrences-append :
    (p : ℕ) (qs rs : List ℕ) → occurrences p (qs ++ rs) ≡ occurrences p qs + occurrences p rs
occurrences-append p [] rs = omega arith
occurrences-append p (q ∷ qs) rs = ground (arith, occurrences-append p qs rs)

occurrences-without :
    (p q i : ℕ) (ps : List ℕ)
    → nth ps i ≡ some q
    → occurrences p ps ≡ occurrences p (without i ps) + (if q == p then 1 else 0)
occurrences-without p q i [] e = cc
occurrences-without p q zero (r ∷ ps) e = let same : r ≡ q = cc in rw same (ground arith)
occurrences-without p q (suc i) (r ∷ ps) e = ground (arith, occurrences-without p q i ps e)

held-run :
    (p : ℕ) (s : PromiseScheduler)
    → s.executing ≡ []
    → held p (run (record s { timer = false })) ≡ held p s
unfolding run
held-run p s e = queued s.promises refl
  where
    queued :
        (ps : List ℕ)
        → s.promises ≡ ps
        → held p (elim ps [
          | [] ↦ record s { timer = true }
          | q ∷ qs ↦ record s {
            promises = [];
            executing = q ∷ qs;
            count = 0;
            batch = suc (length qs);
            timer = false;
          }
        ])
          ≡ occurrences p ps + occurrences p s.executing
    queued [] h = omega (arith, ap (occurrences p) h)
    queued (q ∷ qs) h = rw e (omega arith)

held-settle :
    (p i q : ℕ) (res : Bool) (s : PromiseScheduler)
    → nth s.executing i ≡ some q
    → held p (settle i q res s) + (if res then (if q == p then 1 else 0) else 0) ≡ held p s
unfolding settle add_promise
held-settle p i q true s e = ground (arith, occurrences-without p q i s.executing e)
held-settle p i q false s e =
    ground
      (arith, occurrences-without p q i s.executing e, occurrences-append p s.promises (q ∷ []))

-- The step is not one in which the promise returns true; no step of a run is.
abbrev pub NotDone : ℕ → {s t : PromiseScheduler} → Step s t → Type 0
NotDone p (adds q) = Unit
NotDone p (fires e) = Unit
NotDone p (settles i q true e) = q ≢ p
NotDone p (settles i q false e) = Unit

abbrev pub Unfinished : ℕ → {s t : PromiseScheduler} → Steps s t → Type 0
Unfinished p none_yet = Unit
Unfinished p (more steps step) = NotDone p step × Unfinished p steps

Step-held :
    (p : ℕ) {s t : PromiseScheduler} (step : Step s t)
    → Live s
    → NotDone p step
    → held p s ≤ held p t
unfolding add_promise
Step-held p {s} (adds q) l u = omega (arith, occurrences-append p s.promises (q ∷ []))
Step-held p {s} (fires e) (counted, inl (t, ex)) u = omega (arith, held-run p s ex)
Step-held p {s} (fires e) (counted, inr (f, left)) u = cc
Step-held p {s} (settles i q false e) l u = omega (arith, held-settle p i q false s e)
Step-held p {s} (settles i q true e) l u = let kept = held-settle p i q true s e in ground arith

-- From a scheduler of that kind, a run in which a promise never returns true does not lower the
-- number of times that it stands in the queue and in the batch.
pub Steps-held :
    (p : ℕ) {s t : PromiseScheduler} (steps : Steps s t)
    → Live s
    → Unfinished p steps
    → held p s ≤ held p t
Steps-held p none_yet l u = omega arith
Steps-held p (more steps step) l (u, us) =
    omega (arith, Steps-held p steps l us, Step-held p step (Steps-Live steps l) u)
