-- ===== src/Scheduling/Promises.antt =====
-- src/lib/promise-scheduler.ts, class `PromiseScheduler`: promises that are tried in batches, at
-- intervals, until they return true. A promise is a key; the logger is left out, and so is the number
-- that run at a time: a batch may settle in any order.
pub mod Retries
use verified_paraswap.Prelude.{
  ℕ, zero, suc, ◌+◌, ◌≡◌, ◌⊎◌, inl, inr, refl, Bool, true, false, Option, none, some, List, [], ◌∷◌,
  ◌++◌, length, length-append, arith, ◌==◌, if◌then◌else◌, Bool-cases, ==→eq, not-==→ne, ◌≢◌,
}

-- The queue, the promises of the batch that have not settled, `count` and the size of the batch, and
-- whether a timer for the next `run` is set.
pub record PromiseScheduler : Type 0 where
  pub promises : List ℕ
  pub executing : List ℕ
  pub count : ℕ
  pub batch : ℕ
  pub timer : Bool

unfoldable pub add_promise : ℕ → PromiseScheduler → PromiseScheduler
add_promise p s = record s { promises = s.promises ++ p ∷ [] }

-- `run`, once its timer has fired; the constructor calls it at first.
unfoldable pub run : PromiseScheduler → PromiseScheduler
run s = elim s.promises [
  | [] ↦ record s { timer = true }
  | p ∷ ps ↦ record s {
    promises = [];
    executing = p ∷ ps;
    count = 0;
    batch = length (p ∷ ps);
    timer = false;
  }
]

abbrev pub without : ℕ → List ℕ → List ℕ
without i [] = []
without zero (p ∷ ps) = ps
without (suc i) (p ∷ ps) = p ∷ without i ps

-- The task of a promise, once it has settled; one that threw counts as false.
unfoldable pub settle : ℕ → ℕ → Bool → PromiseScheduler → PromiseScheduler
unfolding add_promise
settle i p res s =
    let tried = record (if res then s else add_promise p s) {
      executing = without i s.executing;
      count = suc s.count;
    } in
    if tried.count == tried.batch then record tried { timer = true } else tried

abbrev pub initial : PromiseScheduler
initial = record { promises = []; executing = []; count = 0; batch = 0; timer = true }

abbrev pub nth : List ℕ → ℕ → Option ℕ
nth [] i = none
nth (p ∷ ps) zero = some p
nth (p ∷ ps) (suc i) = nth ps i

pub data Step (s : PromiseScheduler) : PromiseScheduler → Type 0 where
  adds : (p : ℕ) → Step s (add_promise p s)
  fires : s.timer ≡ true → Step s (run (record s { timer = false }))
  settles : (i p : ℕ) (res : Bool) → nth s.executing i ≡ some p → Step s (settle i p res s)

pub data Steps (s : PromiseScheduler) : PromiseScheduler → Type 0 where
  none_yet : Steps s s
  more : {t u : PromiseScheduler} → Steps s t → Step t u → Steps s u

-- Either a timer is set and no promise of a batch is left, or one of a batch is left and no timer is
-- set; and the count tells how many are left.
abbrev pub Live : PromiseScheduler → Type 0
Live s =
    (s.count + length s.executing ≡ s.batch)
    × ((s.timer ≡ true) × (s.executing ≡ [])
        ⊎ (s.timer ≡ false) × ((n : ℕ) × (length s.executing ≡ suc n)))

length-without :
    (i p : ℕ) (ps : List ℕ) → nth ps i ≡ some p → suc (length (without i ps)) ≡ length ps
length-without i p [] e = cc
length-without zero p (q ∷ ps) e = refl
length-without (suc i) p (q ∷ ps) e = omega (arith, length-without i p ps e)

run-Live :
    (s : PromiseScheduler) → Live s → s.timer ≡ true → Live (run (record s { timer = false }))
unfolding run
run-Live s (counted, inr (f, left)) e = cc
run-Live s (counted, inl (t, ex)) e = queued s.promises
  where
    queued :
        (ps : List ℕ)
        → Live (elim ps [
          | [] ↦ record s { timer = true }
          | q ∷ qs ↦ record s {
            promises = [];
            executing = q ∷ qs;
            count = 0;
            batch = length (q ∷ qs);
            timer = false;
          }
        ])
    queued [] = (counted, inl (refl, ex))
    queued (q ∷ qs) = (omega arith, inr (refl, (length qs, refl)))

empty_of_length : (ps : List ℕ) → length ps ≡ 0 → ps ≡ []
empty_of_length [] e = refl
empty_of_length (q ∷ qs) e = absurd (omega arith)

positive_length : (ps : List ℕ) → length ps ≢ 0 → (n : ℕ) × (length ps ≡ suc n)
positive_length [] e = absurd (omega arith)
positive_length (q ∷ qs) e = (length qs, refl)

settled-Live :
    (i p : ℕ) (s : PromiseScheduler) (queue : List ℕ)
    → s.count + length s.executing ≡ s.batch
    → s.timer ≡ false
    → nth s.executing i ≡ some p
    → let tried = record s {
      promises = queue;
      executing = without i s.executing;
      count = suc s.count;
    } in
      Live (if tried.count == tried.batch then record tried { timer = true } else tried)
settled-Live i p s queue counted f e =
    let left = length-without i p s.executing e in
    elim (Bool-cases (suc s.count == s.batch)) [
      | inl all ↦
          let last = ==→eq _ _ all in
          rw all (
            omega (arith, left),
            inl (refl, empty_of_length (without i s.executing) (omega (arith, left))),
          )
      | inr some_left ↦
          let more = not-==→ne _ _ some_left in
          rw some_left (
            omega (arith, left),
            inr (f, positive_length (without i s.executing) (omega (arith, left))),
          )
    ]

settle-Live :
    (i p : ℕ) (res : Bool) (s : PromiseScheduler)
    → Live s
    → nth s.executing i ≡ some p
    → Live (settle i p res s)
unfolding settle add_promise
settle-Live i p res s (counted, inl (t, ex)) e = let gone : nth [] i ≡ some p = rw ex at e in cc
settle-Live i p true s (counted, inr (f, left)) e = settled-Live i p s s.promises counted f e
settle-Live i p false s (counted, inr (f, left)) e =
    settled-Live i p s (s.promises ++ p ∷ []) counted f e

Step-Live : {s t : PromiseScheduler} → Step s t → Live s → Live t
unfolding add_promise
Step-Live (adds p) l = l
Step-Live {s} (fires e) l = run-Live s l e
Step-Live {s} (settles i p res e) l = settle-Live i p res s l e

-- From a scheduler where either its timer is set and no promise of a batch is left, or the timer is
-- not set and a promise of the batch is left, and where the count and those left make up the batch,
-- whatever promises are added, run and settled in any order, this stays so.
pub Steps-Live : {s t : PromiseScheduler} → Steps s t → Live s → Live t
Steps-Live none_yet l = l
Steps-Live (more steps step) l = Step-Live step (Steps-Live steps l)
