-- ===== src/Composed.antt =====
-- src/composed-event-subscriber.ts, class `ComposedEventSubscriber`: a subscriber whose state is made of
-- parts, each seen through a lens. A part's handlers and its lens are parameters, and so is what the
-- multicall contract answers.
pub mod Parts
pub mod Routing
use verified_paraswap.Prelude.{
  ℕ, zero, suc, ◌+◌, ◌-◌, Bool, Option, none, some, List, [], ◌∷◌, ◌++◌, map, length, slice, ◌==◌,
  if◌then◌else◌,
}
use verified_paraswap.Prelude.Result.{Result, ok, err, type_error, ◌>>=◌}
use verified_paraswap.Prelude.Text.{Text, Dict, lookup, insert, to_lower_case}
use verified_paraswap.Subscriber.Updates.{Log, over, merge}

-- `PartialEventSubscriber`, over states `S`, payloads `P`, headers `H`, and a multicall's inputs `C` and
-- outputs `D`.
pub record Part (S P H C D : Type 0) : Type 1 where
  pub SubState : Type 0
  pub addresses_subscribed : List Text
  pub lens_get : S → SubState
  pub lens_set : SubState → S → S
  pub process_log : SubState → Log P → Option H → Result (Option SubState)
  pub multi_call_inputs : List C
  pub generate_state : List D → Result SubState

-- `addressSubscribers` and `addressesSubscribed`.
abbrev pub Subscriptions : (S P H C D : Type 0) → Type 1
Subscriptions S P H C D = List (Text × List (Part S P H C D)) × List Text

module _ {S P H C D : Type 0} where
  abbrev pub known : Option (List (Part S P H C D)) → List (Part S P H C D)
  known none = []
  known (some ps) = ps

  unfoldable pub subscribe_address :
      Part S P H C D → Text → Subscriptions S P H C D → Subscriptions S P H C D
  subscribe_address p a (subscribers, addresses) =
      let k = to_lower_case a in
      let found = lookup k subscribers in
      (
        insert k (known found ++ p ∷ []) subscribers,
        elim found [ none ↦ addresses ++ a ∷ [] | some ps ↦ addresses ],
      )

  abbrev pub subscribe_part :
      Part S P H C D → List Text → Subscriptions S P H C D → Subscriptions S P H C D
  subscribe_part p [] subs = subs
  subscribe_part p (a ∷ rest) subs = subscribe_part p rest (subscribe_address p a subs)

  unfoldable pub subscribe :
      List (Part S P H C D) → Subscriptions S P H C D → Subscriptions S P H C D
  unfolding subscribe_address
  subscribe [] subs = subs
  subscribe (p ∷ ps) subs = subscribe ps (subscribe_part p p.addresses_subscribed subs)

  abbrev pub all_inputs : List (Part S P H C D) → List C
  all_inputs [] = []
  all_inputs (p ∷ ps) = p.multi_call_inputs ++ all_inputs ps

  -- `multiCallSlices`, from an index on.
  unfoldable pub multi_call_slices : ℕ → List (Part S P H C D) → List (ℕ × ℕ)
  multi_call_slices i [] = []
  multi_call_slices i (p ∷ ps) =
      let end = i + length p.multi_call_inputs in (i, end) ∷ multi_call_slices end ps

  -- The loop of `processLog` over the parts that an address concerns.
  unfoldable pub process_parts :
      List (Part S P H C D) → S → Option S → Log P → Option H → Result (Option S)
  process_parts [] state new log header = ok new
  process_parts (p ∷ ps) state new log header = do
    result ← p.process_log (p.lens_get (over new state)) log header
    process_parts ps state
        (elim result [ none ↦ new | some r ↦ some (p.lens_set r (over new state)) ]) log header

  -- `processLog`; `address` reads the address of a log.
  unfoldable pub process_composed :
      (Log P → Text) → Subscriptions S P H C D → S → Log P → Option H → Result (Option S)
  unfolding process_parts
  process_composed address subs state log header =
      elim (lookup (to_lower_case (address log)) subs.0) [
        | none ↦ ok none
        | some ps ↦ process_parts ps state none log header
      ]

  -- The states of the parts are generated from their slices, and set in turn. (The parts are generated at
  -- the same time, and an exception of any of them is thrown.)
  unfoldable pub generate_parts : List (Part S P H C D) → List (ℕ × ℕ) → List D → S → Result S
  generate_parts [] slices outputs acc = ok acc
  generate_parts (p ∷ ps) [] outputs acc = err type_error
  generate_parts (p ∷ ps) ((start, end) ∷ slices) outputs acc = do
    sub ← p.generate_state (slice start end outputs)
    generate_parts ps slices outputs (p.lens_set sub acc)

  -- `generateState`; `aggregate` is the multicall contract, which is not asked for nothing.
  unfoldable pub generate_composed :
      (List C → Result (List D)) → List (Part S P H C D) → S → Result S
  unfolding generate_parts multi_call_slices
  generate_composed aggregate parts blank = do
    outputs ← (if length (all_inputs parts) == 0 then ok [] else aggregate (all_inputs parts))
    generate_parts parts (multi_call_slices 0 parts) outputs blank
