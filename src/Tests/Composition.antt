-- ===== src/Tests/Composition.antt =====
-- A state of two numbers, each a part that adds its logs.
use verified_paraswap.Prelude.{ℕ, ◌+◌, ◌≡◌, refl, none, some, List, [], ◌∷◌, ◌++◌, map, All}
use verified_paraswap.Prelude.Result.{Result, ok, err, type_error}
use verified_paraswap.Prelude.Text.{lookup, insert, text_eq, to_lower_case}
use verified_paraswap.Subscriber.Updates.{Log}
use verified_paraswap.Composed.{
  Part, Subscriptions, known, subscribe, subscribe_address, process_parts, process_composed,
  multi_call_slices, generate_parts, generate_composed,
}
use verified_paraswap.Composed.Parts.{Own, generate_composed-Own}
use verified_paraswap.Composed.Routing.{listeners, subscribe-listeners}

abbrev only : List ℕ → Result ℕ
only [] = err type_error
only (n ∷ ns) = ok n

abbrev left : Part (ℕ × ℕ) ℕ ℕ ℕ ℕ
left = record {
  SubState = ℕ;
  addresses_subscribed = (b'A' ∷ []) ∷ (b'B' ∷ []) ∷ [];
  lens_get = λ s. s.0;
  lens_set = λ x s. (x, s.1);
  process_log = λ x log header. ok (some (x + log.payload));
  multi_call_inputs = 1 ∷ 2 ∷ [];
  generate_state = only;
}

abbrev right : Part (ℕ × ℕ) ℕ ℕ ℕ ℕ
right = record {
  SubState = ℕ;
  addresses_subscribed = (b'b' ∷ []) ∷ [];
  lens_get = λ s. s.1;
  lens_set = λ x s. (s.0, x);
  process_log = λ x log header. ok (some (x + log.payload));
  multi_call_inputs = 3 ∷ [];
  generate_state = only;
}

abbrev parts : List (Part (ℕ × ℕ) ℕ ℕ ℕ ℕ)
parts = left ∷ right ∷ []

abbrev nobody : Subscriptions (ℕ × ℕ) ℕ ℕ ℕ ℕ
nobody = ([], [])

abbrev log : Log ℕ
log = record { block_number = 6; log_index = 0; payload = 5 }

-- Both parts listen to the address of the log.
process-run :
    process_composed (λ l. b'b' ∷ []) (subscribe parts nobody) (10, 20) log none
    ≡ ok (some (15, 25))
unfolding process_composed process_parts subscribe subscribe_address lookup insert text_eq
    to_lower_case
process-run = refl

generate-run :
    generate_composed (λ inputs. ok (map (λ n. n + 40) inputs)) parts (0, 0) ≡ ok (41, 43)
unfolding generate_composed generate_parts multi_call_slices
generate-run = refl

generate_composed-Own_example : All (Own (λ n. n + 40) (41, 43)) parts
generate_composed-Own_example =
    generate_composed-Own (λ n. n + 40) parts (0, 0) (41, 43)
      ((λ x s. refl), ((λ y s. refl), tt), ((λ x s. refl), tt, tt)) generate-run

subscribe-listeners_example :
    known (lookup (b'b' ∷ []) (subscribe parts nobody).0)
    ≡ known (lookup (b'b' ∷ []) nobody.0) ++ listeners (b'b' ∷ []) parts
subscribe-listeners_example = subscribe-listeners (b'b' ∷ []) parts nobody
