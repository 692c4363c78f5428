-- ===== src/Subscriber/Replay.antt =====
-- `update` of src/stateful-event-subscriber.ts against a plain replay of the logs.
use verified_paraswap.Prelude.{
  sym, Bool-cases, inl, inr, ap, ◌∙◌, ℕ, zero, suc, ◌≤◌, ◌<◌, ◌≡◌, refl, true, false, Option, none,
  some, List, [], ◌∷◌, arith, ◌==◌, ==→eq, length,
}
use verified_paraswap.Prelude.Result.{Result, ok, err, ◌>>=◌, >>=-eq-ok}
use verified_paraswap.Subscriber.History.{History, state_before}
use verified_paraswap.Subscriber.Order.{
  Ascending, newest, last_from, state_at-newest, find_before-state_at,
}
use verified_paraswap.Subscriber.Object.{Config, Subscriber, is_null, set_state}
use verified_paraswap.Subscriber.Updates.{
  over, merge, Log, Subclass, done, store_next, block_logs, after_block, process_logs,
  process_block_logs, finish, update_block, update_loop, update,
}
use verified_paraswap.Subscriber.Invariant.{IsValid, moves, set_state_fields, set_state-IsValid}

merge-over {ℓ} :
    {S : Type ℓ} (ret next : Option S) (s : S) → over (merge ret next) s ≡ over ret (over next s)
merge-over none next s = refl
merge-over (some r) next s = refl

module _ {S P H : Type 0} (sub : Subclass S P H) (headers : ℕ → Option H) where
  -- The specification: each log in turn on the state so far.
  unfoldable pub replay : S → List (Log P) → Result S
  replay s [] = ok s
  replay s (l ∷ ls) = do ret ← sub.process_log s l (headers l.block_number); replay (over ret s) ls

  -- The same for the logs of one block.
  replay_block : S → List (Log P) → Option H → Result S
  replay_block s [] header = ok s
  replay_block s (l ∷ ls) header = do
    ret ← sub.process_log s l header
    replay_block (over ret s) ls header

  process_logs-replay :
      (s : S) (next : Option S) (ls : List (Log P)) (header : Option H) {t : S}
      → replay_block (over next s) ls header ≡ ok t
      → (n : Option S) × (process_logs sub s next ls header ≡ ok n) × (over n s ≡ t)
  unfolding process_logs replay_block
  process_logs-replay s next [] header e = (next, refl, cc)
  process_logs-replay s next (l ∷ ls) header e =
      let (ret, er, rest) = >>=-eq-ok (sub.process_log (over next s) l header) _ e in
      rw er (process_logs-replay s (merge ret next) ls header (rw (merge-over ret next s) rest))

  -- A replay goes through the leading block and then on.
  replay-block :
      (bn : ℕ) (s : S) (ls : List (Log P))
      → replay s ls
        ≡ (replay_block s (block_logs bn ls) (headers bn) >>= λ t. replay t (after_block bn ls))
  unfolding replay replay_block
  replay-block bn s [] = refl
  replay-block bn s (l ∷ ls) = elim (Bool-cases (l.block_number == bn)) [
    | inr other ↦ rw other
    | inl same ↦
        let header : headers l.block_number ≡ headers bn = ap headers (==→eq _ _ same) in
        rw (same, header) (logged (λ s'. replay-block bn s' ls) (sub.process_log s l (headers bn)))
  ]
    where
      logged :
          ((s' : S)
            → replay s' ls ≡ (
                replay_block s' (block_logs bn ls) (headers bn) >>= λ t.
                replay t (after_block bn ls)))
          → (r : Result (Option S))
          → (r >>= λ ret. replay (over ret s) ls) ≡ (
              (r >>= λ ret. replay_block (over ret s) (block_logs bn ls) (headers bn)) >>= λ t.
              replay t (after_block bn ls))
      logged ih (ok ret) = ih (over ret s)
      logged ih (err e) = refl

-- The logs come in ascending blocks, all behind block `lo`.
abbrev pub Follows {ℓ} : {P : Type ℓ} → ℕ → List (Log P) → Type 0
Follows b [] = Unit
Follows b (l ∷ ls) = (b ≤ l.block_number) × Follows l.block_number ls

abbrev pub InOrder {ℓ} : {P : Type ℓ} → ℕ → List (Log P) → Type 0
InOrder lo ls = Follows (suc lo) ls

module _ {P : Type 0} where
  Follows-weaken : (b c : ℕ) (ls : List (Log P)) → b ≤ c → Follows c ls → Follows b ls
  Follows-weaken b c [] p f = tt
  Follows-weaken b c (l ∷ ls) p f = (omega arith, f.1)

  after_block-InOrder : (b : ℕ) (ls : List (Log P)) → Follows b ls → InOrder b (after_block b ls)
  after_block-InOrder b [] f = tt
  after_block-InOrder b (l ∷ ls) f =
      ground (arith, after_block-InOrder b ls, Follows-weaken b l.block_number ls)

  pub length-after_block : (b : ℕ) (ls : List (Log P)) → length (after_block b ls) ≤ length ls
  length-after_block b [] = omega arith
  length-after_block b (l ∷ ls) = ground (arith, length-after_block b ls)

  after_block_self :
      (l : Log P) (ls : List (Log P))
      → after_block l.block_number (l ∷ ls) ≡ after_block l.block_number ls
  after_block_self l ls = ground arith

module _ {S : Type 0} where
  -- The last state before a block behind the newest entry is the current one.
  state_before-current :
      (sbn bn : ℕ) (s : S) (h : History S)
      → Ascending 0 h
      → newest h ≡ some (sbn, s)
      → sbn < bn
      → state_before bn h ≡ some s
  state_before-current sbn zero s h a n p = absurd (omega arith)
  state_before-current sbn (suc b) s [] a n p = cc
  state_before-current sbn (suc b) s ((k, t) ∷ h) a n p =
      let m : (last_from (k, t) h).0 ≡ sbn = cc in
      let v : (last_from (k, t) h).1 ≡ s = cc in
      find_before-state_at b none ((k, t) ∷ h) ∙ (rw (state_at-newest k b t h a.1 (omega arith), v))

module _ {S P H : Type 0} (sub : Subclass S P H) (cfg : Config) (headers : ℕ → Option H) where
  -- A valid subscriber at state `s` with its block at most `bn`.
  pub record At (s : S) (bn : ℕ) (o : Subscriber S) : Type 0 where
    pub valid : IsValid o
    pub state_is : o.state ≡ some s
    pub block_le : o.state_block_number ≤ bn

  -- Playing a block on the current state.
  update_block-replay :
      (s t : S) (lo bn : ℕ) (ls : List (Log P)) (o : Subscriber S)
      → At s lo o
      → lo < bn
      → replay_block sub headers s ls (headers bn) ≡ ok t
      → (o' : Subscriber S) × (update_block sub cfg headers bn ls o ≡ done o') × At t bn o'
  unfolding update_block process_block_logs
  update_block-replay s t lo bn ls o a p e =
      let (n, en, et) = process_logs-replay sub headers s none ls (headers bn) e in
      let before =
        state_before-current o.state_block_number bn s o.state_history a.valid.ascending
          (rw a.state_is at a.valid.current) (omega arith) in
      let present : is_null o.state ≡ false = ap is_null a.state_is in
      rw (present, before, en) (stored n et)
    where
      stored :
          (n : Option S)
          → over n s ≡ t
          → (o' : Subscriber S) × (store_next sub cfg headers (ok n) bn o ≡ done o') × At t bn o'
      stored none et = (
        o,
        refl,
        record { valid = a.valid; state_is = a.state_is ∙ ap some et; block_le = omega arith },
      )
      stored (some r) et =
          let (st, sbn, _, _) = set_state_fields cfg r bn o (omega arith) in
          let moved : moves cfg bn o ≡ true = ground arith in
          (
            set_state cfg r bn o,
            refl,
            record {
              valid = set_state-IsValid cfg r bn o a.valid;
              state_is = st ∙ (rw moved (ap some et));
              block_le = rw (sbn, moved) (omega arith);
            },
          )

  replay-nil : (s t : S) → replay sub headers s [] ≡ ok t → some s ≡ some t
  unfolding replay
  replay-nil s t e = cc

  update_loop-replay :
      (fuel : ℕ) (ls : List (Log P)) (s t : S) (lo : ℕ) (o : Subscriber S)
      → length ls ≤ fuel
      → At s lo o
      → InOrder lo ls
      → replay sub headers s ls ≡ ok t
      → (o' : Subscriber S) × (update_loop sub cfg headers fuel ls o ≡ done o')
        × (o'.state ≡ some t)
        × IsValid o'
  unfolding update_loop
  update_loop-replay zero [] s t lo o f a q e = (o, refl, a.state_is ∙ replay-nil s t e, a.valid)
  update_loop-replay (suc fuel) [] s t lo o f a q e =
      (o, refl, a.state_is ∙ replay-nil s t e, a.valid)
  update_loop-replay zero (l ∷ ls) s t lo o f a q e = absurd (omega arith)
  update_loop-replay (suc fuel) (l ∷ ls) s t lo o f a q e =
      let bn = l.block_number in
      let own = block_logs bn (l ∷ ls) in
      let split = sym (replay-block sub headers bn s (l ∷ ls)) ∙ e in
      let (u, eu, rest) = >>=-eq-ok (replay_block sub headers s own (headers bn)) _ split in
      let (o', eo, a') = update_block-replay s u lo bn own o a q.0 eu in
      rw eo (
        update_loop-replay fuel (after_block bn ls) u t bn o'
          (omega (arith, length-after_block bn ls)) a' (after_block-InOrder bn ls q.1)
          (ap (replay sub headers u) (sym (after_block_self l ls)) ∙ rest))

  finish_fields :
      (o : Subscriber S)
      → let o' = finish sub cfg headers o in
        (o'.state ≡ o.state)
        × (o'.state_block_number ≡ o.state_block_number)
        × (o'.state_history ≡ o.state_history)
        × (o'.invalid ≡ false)
  finish_fields o = ground arith

  -- On a valid subscriber that has a state, logs that come in ascending blocks behind it, and whose
  -- replay one after another on that state succeeds, are played by update: it ends without an
  -- exception, and leaves a valid subscriber, no longer marked invalid, whose state is that of the
  -- replay.
  pub update-replay :
      (ls : List (Log P)) (s t : S) (o : Subscriber S)
      → IsValid o
      → o.state ≡ some s
      → InOrder o.state_block_number ls
      → replay sub headers s ls ≡ ok t
      → (o' : Subscriber S) × (update sub cfg headers ls o ≡ done o')
        × (o'.state ≡ some t)
        × (o'.invalid ≡ false)
        × IsValid o'
  unfolding update
  update-replay ls s t o v st q e =
      let (o', eo, st', v') =
        update_loop-replay (length ls) ls s t o.state_block_number o (omega arith)
          (record { valid = v; state_is = st; block_le = omega arith }) q e in
      let (fs, fb, fh, fi) = finish_fields o' in
      (
        finish sub cfg headers o',
        rw eo,
        fs ∙ st',
        fi,
        record { ascending = rw fh v'.ascending; current = rw (fh, fs, fb) v'.current },
      )
