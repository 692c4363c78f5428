-- ===== src/Subscriber/Fuel.antt =====
-- The fuel of the outer loop of `update` (src/stateful-event-subscriber.ts).
use verified_paraswap.Prelude.{ℕ, zero, suc, ◌≤◌, ◌≡◌, refl, Option, List, [], ◌∷◌, length, arith}
use verified_paraswap.Subscriber.Object.{Config, Subscriber}
use verified_paraswap.Subscriber.Updates.{
  Log, Outcome, done, threw, ◌>>>◌, Subclass, block_logs, after_block, update_block, update_loop,
}
use verified_paraswap.Subscriber.Replay.{length-after_block}

>>>-same {ℓ} :
    {S : Type ℓ} (m : Outcome S) (f g : Subscriber S → Outcome S)
    → ((o : Subscriber S) → f o ≡ g o)
    → (m >>> f) ≡ (m >>> g)
>>>-same (done o) f g h = h o
>>>-same (threw e o) f g h = refl

module _ {S P H : Type 0} (sub : Subclass S P H) (cfg : Config) (headers : ℕ → Option H) where
  update_loop-enough :
      (m n : ℕ) (ls : List (Log P)) (o : Subscriber S)
      → length ls ≤ m
      → length ls ≤ n
      → update_loop sub cfg headers m ls o ≡ update_loop sub cfg headers n ls o
  unfolding update_loop
  update_loop-enough zero zero ls o p q = refl
  update_loop-enough zero (suc n) [] o p q = refl
  update_loop-enough (suc m) zero [] o p q = refl
  update_loop-enough (suc m) (suc n) [] o p q = refl
  update_loop-enough zero (suc n) (l ∷ ls) o p q = absurd (omega arith)
  update_loop-enough (suc m) zero (l ∷ ls) o p q = absurd (omega arith)
  update_loop-enough (suc m) (suc n) (l ∷ ls) o p q =
      let bn = l.block_number in
      let shorter = length-after_block bn ls in
      >>>-same (update_block sub cfg headers bn (block_logs bn (l ∷ ls)) o)
        (update_loop sub cfg headers m (after_block bn ls))
        (update_loop sub cfg headers n (after_block bn ls))
        (λ o'.
          update_loop-enough m n (after_block bn ls) o' (omega (arith, shorter))
            (omega (arith, shorter)))

  -- The outer loop of update, on any fuel that is at least the number of logs, does what it does on
  -- that number: the loop never runs short, whatever the logs and however the calls end.
  pub update_loop-fuel :
      (fuel : ℕ) (ls : List (Log P)) (o : Subscriber S)
      → length ls ≤ fuel
      → update_loop sub cfg headers fuel ls o ≡ update_loop sub cfg headers (length ls) ls o
  update_loop-fuel fuel ls o h = update_loop-enough fuel (length ls) ls o h (omega arith)
