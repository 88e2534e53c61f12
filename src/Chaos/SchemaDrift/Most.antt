-- ===== src/Chaos/SchemaDrift/Most.antt =====
-- How many changes are made.
use havoc_forge.Base.{
  ℕ, zero, suc, ◌+◌, ◌≤◌, ◌<◌, ◌∙◌, refl, eqb, max, String, false, ◌≡◌, Option, none, some, List,
  [], ◌∷◌, leb, inl, inr, Bool-cases, arith, length, length-append,
}
use havoc_forge.Base.Find.{All}
use havoc_forge.Base.Text.{concat}
use havoc_forge.Chaos.SchemaDrift.{
  Mutation, Fields, Draws, mutate_object, mutate_candidates, mutate_all, configured_max, note,
  left_after, write,
}
use havoc_forge.Chaos.SchemaDrift.Changes.{Changes, mutate_candidates-Changes}

configured_max-positive :
    (max_mutations cfg_max : Option ℕ) → 0 < configured_max max_mutations cfg_max
configured_max-positive none none = omega arith
configured_max-positive none (some zero) = omega arith
configured_max-positive none (some (suc n)) = omega arith
configured_max-positive (some zero) none = omega arith
configured_max-positive (some zero) (some zero) = omega arith
configured_max-positive (some zero) (some (suc n)) = omega arith
configured_max-positive (some (suc m)) cfg_max = omega arith

module _ {V R : Type 0} (rng : Draws V R) (skip_fields : List String) where
  noted :
      (path : String) (result : Option String) (modifications : List String) (remaining : ℕ)
      → leb remaining 0 ≡ false
      → length (note rng skip_fields path result modifications)
          + left_after rng skip_fields result remaining
        ≤ length modifications + remaining
  noted path none modifications remaining h = omega arith
  noted path (some result) modifications remaining h =
      let one = length-append modifications (concat (path ∷ ": " ∷ result ∷ []) ∷ []) in
      ground (arith, one, h)

  length-mutate_candidates :
      (weights : List (Mutation × ℕ)) (candidates : List (String × ℕ)) (remaining : ℕ)
      (modifications : List String) (heap : ℕ → Fields V) (r : R)
      → length
          (mutate_candidates rng skip_fields weights candidates remaining modifications heap r).0
        ≤ length modifications + remaining
  unfolding mutate_candidates
  length-mutate_candidates weights [] remaining modifications heap r = omega arith
  length-mutate_candidates weights ((path, at) ∷ candidates) remaining modifications heap r =
      elim (Bool-cases (leb remaining 0)) [
        | inl spent ↦ rw spent (omega arith)
        | inr more ↦
            let ((result, fields), r') = mutate_object rng skip_fields weights heap at r in
            let later =
              length-mutate_candidates weights candidates
                (left_after rng skip_fields result remaining)
                (note rng skip_fields path result modifications)
                (write rng skip_fields heap at fields) r' in
            rw more (omega (arith, later, noted path result modifications remaining more))
      ]

  abbrev pub IsOther : ℕ → String × ℕ → Type 0
  IsOther i (path, at) = eqb i at ≡ false

  mutate_candidates-keeps :
      (weights : List (Mutation × ℕ)) (candidates : List (String × ℕ)) (remaining : ℕ)
      (modifications : List String) (heap : ℕ → Fields V) (r : R) (i : ℕ)
      → All (IsOther i) candidates
      → (mutate_candidates rng skip_fields weights candidates remaining modifications heap r).1.0 i
        ≡ heap i
  unfolding mutate_candidates
  mutate_candidates-keeps weights [] remaining modifications heap r i h = refl
  mutate_candidates-keeps weights ((path, at) ∷ candidates) remaining modifications heap r i h =
      elim (Bool-cases (leb remaining 0)) [
        | inl spent ↦ rw spent refl
        | inr more ↦
            let ((result, fields), r') = mutate_object rng skip_fields weights heap at r in
            let later =
              mutate_candidates-keeps weights candidates
                (left_after rng skip_fields result remaining)
                (note rng skip_fields path result modifications)
                (write rng skip_fields heap at fields) r' i h.1 in
            rw more (later ∙ rw h.0 refl)
      ]

  -- However many objects a schema has: with the number of mutations that the constructor takes from
  -- its argument, from the configuration, or as 2, where 0 counts as not given, at most that many
  -- changes are noted; no more objects have other fields than before than changes are noted; and an
  -- object that is none of the candidates keeps its fields.
  pub length-mutate_all :
      (weights : List (Mutation × ℕ)) (max_mutations cfg_max : Option ℕ)
      (candidates : List (String × ℕ)) (heap : ℕ → Fields V) (r : R) (i : ℕ)
      → All (IsOther i) candidates
      → let most = configured_max max_mutations cfg_max in
        let (modifications, (heap', r')) =
          mutate_all rng skip_fields weights most candidates heap r in
        (length modifications ≤ most)
        × Changes 0 (length modifications) heap heap'
        × (heap' i ≡ heap i)
  unfolding mutate_all
  length-mutate_all weights max_mutations cfg_max candidates heap r i h =
      let most = configured_max max_mutations cfg_max in
      let some_change = configured_max-positive max_mutations cfg_max in
      (
        omega (
          arith,
          some_change,
          length-mutate_candidates weights candidates (max 1 most) [] heap r,
        ),
        mutate_candidates-Changes rng skip_fields weights candidates (max 1 most) [] heap r,
        mutate_candidates-keeps weights candidates (max 1 most) [] heap r i h,
      )
