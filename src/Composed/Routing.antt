-- ===== src/Composed/Routing.antt =====
-- Which parts an address leads to: the constructor of src/composed-event-subscriber.ts.
use verified_paraswap.Prelude.{
  ◌≡◌, ◌≢◌, refl, sym, ap, ◌∙◌, true, false, List, [], ◌∷◌, ◌++◌, if◌then◌else◌, Bool-cases, inl,
  inr,
}
use mathlib.Core.List.{append-nil, append_assoc}
use mathlib.Core.Path.{subst}
use verified_paraswap.Prelude.Text.{
  Text, lookup, text_eq, text_eq_refl, text_eq→eq, to_lower_case, lookup-insert_self,
  lookup-insert_ne,
}
use verified_paraswap.Composed.{
  Part, Subscriptions, known, subscribe_address, subscribe_part, subscribe,
}

differ : (s t : Text) → text_eq s t ≡ false → t ≢ s
differ s t e q =
    let same : text_eq s t ≡ true = subst (λ r. text_eq s r ≡ true) (sym q) (text_eq_refl s) in cc

module _ {S P H C D : Type 0} where
  -- The part, for each of its addresses that is the key in lower case.
  abbrev pub listening : Text → Part S P H C D → List Text → List (Part S P H C D)
  listening k p [] = []
  listening k p (a ∷ rest) =
      (if text_eq (to_lower_case a) k then p ∷ [] else []) ++ listening k p rest

  abbrev pub listeners : Text → List (Part S P H C D) → List (Part S P H C D)
  listeners k [] = []
  listeners k (p ∷ ps) = listening k p p.addresses_subscribed ++ listeners k ps

  abbrev pub routed : Text → Subscriptions S P H C D → List (Part S P H C D)
  routed k subs = known (lookup k subs.0)

  routed-subscribe_address :
      (k : Text) (p : Part S P H C D) (a : Text) (subs : Subscriptions S P H C D)
      → routed k (subscribe_address p a subs)
        ≡ routed k subs ++ (if text_eq (to_lower_case a) k then p ∷ [] else [])
  unfolding subscribe_address
  routed-subscribe_address k p a subs = elim (Bool-cases (text_eq (to_lower_case a) k)) [
    | inl own ↦
        let at : to_lower_case a ≡ k = text_eq→eq _ _ own in rw (own, at, lookup-insert_self) refl
    | inr other ↦
        rw (other, lookup-insert_ne k (to_lower_case a) _ subs.0 (differ _ _ other), append-nil)
          refl
  ]

  routed-subscribe_part :
      (k : Text) (p : Part S P H C D) (addresses : List Text) (subs : Subscriptions S P H C D)
      → routed k (subscribe_part p addresses subs) ≡ routed k subs ++ listening k p addresses
  routed-subscribe_part k p [] subs = sym (append-nil _)
  routed-subscribe_part k p (a ∷ rest) subs =
      routed-subscribe_part k p rest (subscribe_address p a subs)
      ∙ ap (λ ps. ps ++ listening k p rest) (routed-subscribe_address k p a subs)
      ∙ append_assoc (routed k subs) _ (listening k p rest)

  -- Subscribing parts adds to the parts of a key, in order, each part once for each of its
  -- addresses that is the key in lower case.
  pub subscribe-listeners :
      (k : Text) (parts : List (Part S P H C D)) (subs : Subscriptions S P H C D)
      → known (lookup k (subscribe parts subs).0) ≡ known (lookup k subs.0) ++ listeners k parts
  unfolding subscribe
  subscribe-listeners k [] subs = sym (append-nil _)
  subscribe-listeners k (p ∷ ps) subs =
      subscribe-listeners k ps (subscribe_part p p.addresses_subscribed subs)
      ∙ ap (λ qs. qs ++ listeners k ps) (routed-subscribe_part k p p.addresses_subscribed subs)
      ∙ append_assoc (routed k subs) _ (listeners k ps)
