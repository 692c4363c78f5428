-- ===== src/Composed/Parts.antt =====
-- The states that `generateState` of src/composed-event-subscriber.ts makes, part by part.
use verified_paraswap.Prelude.{
  ℕ, ◌≡◌, refl, sym, ap, ◌∙◌, List, [], ◌∷◌, ◌++◌, map, length, length-append, length-map, slice,
  slice-append, All, arith, ◌==◌, Bool-cases, inl, inr, ==→eq,
}
use mathlib.Core.List.{map-append, append_assoc}
use verified_paraswap.Prelude.Result.{ok, ◌>>=◌, >>=-eq-ok}
use verified_paraswap.Composed.{
  Part, all_inputs, multi_call_slices, generate_parts, generate_composed,
}

module _ {S P H C D : Type 0} where
  -- What is set through the lens is read through it; and a write through the other lens is not.
  abbrev pub Lawful : Part S P H C D → Type 0
  Lawful p = (x : p.SubState) (s : S) → p.lens_get (p.lens_set x s) ≡ x

  abbrev pub Apart : Part S P H C D → Part S P H C D → Type 0
  Apart p q = (y : q.SubState) (s : S) → p.lens_get (q.lens_set y s) ≡ p.lens_get s

  abbrev pub Disjoint : List (Part S P H C D) → Type 0
  Disjoint [] = Unit
  Disjoint (p ∷ ps) = Lawful p × All (Apart p) ps × Disjoint ps

  generate_parts-Apart :
      (q : Part S P H C D) (ps : List (Part S P H C D)) (slices : List (ℕ × ℕ)) (outputs : List D)
      (acc s : S)
      → All (Apart q) ps
      → generate_parts ps slices outputs acc ≡ ok s
      → q.lens_get s ≡ q.lens_get acc
  unfolding generate_parts
  generate_parts-Apart q [] slices outputs acc s a e =
      let same : acc ≡ s = cc in ap q.lens_get (sym same)
  generate_parts-Apart q (p ∷ ps) [] outputs acc s a e = cc
  generate_parts-Apart q (p ∷ ps) ((start, end) ∷ slices) outputs acc s a e =
      let (sub, _, rest) = >>=-eq-ok (p.generate_state (slice start end outputs)) _ e in
      generate_parts-Apart q ps slices outputs (p.lens_set sub acc) s a.1 rest ∙ a.0 sub acc

  module _ (answer : C → D) where
    -- The part of the state is the part's own.
    abbrev pub Own : S → Part S P H C D → Type 0
    Own s p = p.generate_state (map answer p.multi_call_inputs) ≡ ok (p.lens_get s)

    generate_parts-Own :
        (ps : List (Part S P H C D)) (pre : List D) (acc s : S)
        → Disjoint ps
        → generate_parts ps
            (multi_call_slices (length pre) ps)
            (pre ++ map answer (all_inputs ps))
            acc
          ≡ ok s
        → All (Own s) ps
    unfolding generate_parts multi_call_slices
    generate_parts-Own [] pre acc s d e = tt
    generate_parts-Own (p ∷ ps) pre acc s (lawful, apart, d) e =
        let own = map answer p.multi_call_inputs in
        let rest = map answer (all_inputs ps) in
        let n : length p.multi_call_inputs ≡ length own =
          sym (length-map answer p.multi_call_inputs) in
        let e' : (p.generate_state own >>= λ sub.
        generate_parts ps (multi_call_slices (length (pre ++ own)) ps) ((pre ++ own) ++ rest)
          (p.lens_set sub acc))
            ≡ ok s =
          rw (append_assoc pre own rest, length-append pre own)
            (rw
              (map-append answer p.multi_call_inputs (all_inputs ps), n, slice-append pre own rest)
              at e) in
        let (sub, made, others) = >>=-eq-ok (p.generate_state own) _ e' in
        (
          made
              ∙ ap ok (
                  sym (
                    generate_parts-Apart p ps _ _ (p.lens_set sub acc) s apart others
                    ∙ lawful sub acc)),
          generate_parts-Own ps (pre ++ own) (p.lens_set sub acc) s d others,
        )

    -- Where the multicall answers each input, the lenses of the parts are lawful and no later part
    -- writes what an earlier one reads, a state that is generated shows through the lens of each
    -- part what the part generates from the answers to its own inputs.
    pub generate_composed-Own :
        (parts : List (Part S P H C D)) (blank s : S)
        → Disjoint parts
        → generate_composed (λ inputs. ok (map answer inputs)) parts blank ≡ ok s
        → All (Own s) parts
    unfolding generate_composed
    generate_composed-Own parts blank s d e = elim (Bool-cases (length (all_inputs parts) == 0)) [
      | inr some_calls ↦ generate_parts-Own parts [] blank s d (rw some_calls at e)
      | inl no_calls ↦
          generate_parts-Own parts [] blank s d
            (rw (no_outputs (all_inputs parts) (==→eq _ _ no_calls)) (rw no_calls at e))
    ]
      where
        no_outputs : (inputs : List C) → length inputs ≡ 0 → map answer inputs ≡ []
        no_outputs [] h = refl
        no_outputs (c ∷ inputs) h = absurd (omega arith)
