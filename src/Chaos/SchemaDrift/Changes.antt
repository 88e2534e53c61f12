-- ===== src/Chaos/SchemaDrift/Changes.antt =====
-- Which objects the mutations of schema_drift.py change.
use havoc_forge.Base.{
  ℕ, ◌+◌, ◌∙◌, ap, refl, eqb, String, false, ◌≡◌, Option, none, some, List, [], ◌∷◌, leb, inl, inr,
  Bool-cases, arith, length, length-append,
}
use havoc_forge.Base.Dict
use havoc_forge.Base.Find.{All, keep}
use havoc_forge.Base.Text.{concat}
use havoc_forge.Chaos.SchemaDrift.{
  Mutation, add_field, drop_entry, rename_entry, flatten_object, Contract, Fields, Draws,
  mutate_object, mutate_candidates, note, left_after, write, enter_field, drop_one, rename_one,
  flatten_one, change_by, add_to, nested_objects, is_free, weighted_choice, generate_field_name,
}

-- Objects that may be changed, one for each change that is noted above `noted`; all others are as
-- they were.
pub record Changes {V : Type 0} (noted after : ℕ) (heap heap' : ℕ → Fields V) : Type 0 where
  pub changed : List ℕ
  pub counted : noted + length changed ≡ after
  pub only : (i : ℕ) → All (λ at. eqb i at ≡ false) changed → heap' i ≡ heap i

module _ {V R : Type 0} (rng : Draws V R) (skip_fields : List String) where
  -- Where nothing is to be noted, the fields are as they were.
  abbrev IsQuiet : Fields V → (Option String × Fields V) × R → Type 0
  IsQuiet fields c = c.0.0 ≡ none → c.0.1 ≡ fields

  enter_field-IsQuiet :
      (fields : Fields V) (name : String) (c : Option (Contract V) × R)
      → IsQuiet fields (enter_field rng fields name c)
  enter_field-IsQuiet fields name (none, r) e = refl
  enter_field-IsQuiet fields name (some contract, r) e = cc

  drop_one-IsQuiet :
      (fields : Fields V) (ks : List String) (r : R) → IsQuiet fields (drop_one rng fields ks r)
  drop_one-IsQuiet fields [] r e = refl
  drop_one-IsQuiet fields (k ∷ []) r e = refl
  drop_one-IsQuiet fields (k ∷ j ∷ ks) r e = cc

  rename_one-IsQuiet :
      (fields : Fields V) (ks : List String) (r : R) → IsQuiet fields (rename_one rng fields ks r)
  rename_one-IsQuiet fields [] r e = refl
  rename_one-IsQuiet fields (k ∷ ks) r e = cc

  flatten_one-IsQuiet :
      (heap : ℕ → Fields V) (fields : Fields V) (os : List (String × ℕ)) (r : R)
      → IsQuiet fields (flatten_one rng heap fields os r)
  flatten_one-IsQuiet heap fields [] r e = refl
  flatten_one-IsQuiet heap fields (o ∷ os) r e = cc

  change_by-IsQuiet :
      (m : Mutation) (heap : ℕ → Fields V) (fields : Fields V) (r : R)
      → IsQuiet fields (change_by rng skip_fields m heap fields r)
  unfolding add_to
  change_by-IsQuiet add_field heap fields r =
      let (name, r') = generate_field_name rng (Dict.keys fields) none r in
      enter_field-IsQuiet fields name (rng.generate_field r')
  change_by-IsQuiet drop_entry heap fields r =
      drop_one-IsQuiet fields (keep (is_free rng skip_fields) (Dict.keys fields)) r
  change_by-IsQuiet rename_entry heap fields r =
      rename_one-IsQuiet fields (keep (is_free rng skip_fields) (Dict.keys fields)) r
  change_by-IsQuiet flatten_object heap fields r =
      flatten_one-IsQuiet heap fields (nested_objects rng (is_free rng skip_fields) fields) r

  mutate_object-IsQuiet :
      (weights : List (Mutation × ℕ)) (heap : ℕ → Fields V) (at : ℕ) (r : R)
      → IsQuiet (heap at) (mutate_object rng skip_fields weights heap at r)
  unfolding mutate_object
  mutate_object-IsQuiet weights heap at r =
      let (m, r') = weighted_choice rng weights r in change_by-IsQuiet m heap (heap at) r'

  write-same :
      (heap : ℕ → Fields V) (at : ℕ) (fields : Fields V) (i : ℕ)
      → fields ≡ heap at
      → write rng skip_fields heap at fields i ≡ heap i
  write-same heap at fields i e = elim (Bool-cases (eqb i at)) [
    | inl same ↦ let is : at ≡ i = ground (arith, same) in rw same (e ∙ ap heap is)
    | inr other ↦ rw other refl
  ]

  -- One pass of the loop, before those that come after it.
  pass-Changes :
      (path : String) (result : Option String) (modifications : List String) (after : ℕ)
      (heap heap' : ℕ → Fields V) (at : ℕ) (fields : Fields V)
      → (result ≡ none → fields ≡ heap at)
      → Changes
          (length (note rng skip_fields path result modifications))
          after
          (write rng skip_fields heap at fields)
          heap'
      → Changes (length modifications) after heap heap'
  pass-Changes path none modifications after heap heap' at fields quiet c = record {
    changed = c.changed;
    counted = c.counted;
    only = λ i h. c.only i h ∙ write-same heap at fields i (quiet refl);
  }
  pass-Changes path (some result) modifications after heap heap' at fields quiet c =
      let one = length-append modifications (concat (path ∷ ": " ∷ result ∷ []) ∷ []) in
      let said = c.counted in
      record {
        changed = at ∷ c.changed;
        counted = omega (arith, one, said);
        only = λ i h. c.only i h.1 ∙ rw h.0 refl;
      }

  pub mutate_candidates-Changes :
      (weights : List (Mutation × ℕ)) (candidates : List (String × ℕ)) (remaining : ℕ)
      (modifications : List String) (heap : ℕ → Fields V) (r : R)
      → let after =
          mutate_candidates rng skip_fields weights candidates remaining modifications heap r in
        Changes (length modifications) (length after.0) heap after.1.0
  unfolding mutate_candidates
  mutate_candidates-Changes weights [] remaining modifications heap r = record {
    changed = [];
    counted = omega arith;
    only = λ i h. refl;
  }
  mutate_candidates-Changes weights ((path, at) ∷ candidates) remaining modifications heap r =
      elim (Bool-cases (leb remaining 0)) [
        | inl spent ↦ rw spent (record { changed = []; counted = omega arith; only = λ i h. refl })
        | inr more ↦
            let quiet = mutate_object-IsQuiet weights heap at r in
            let ((result, fields), r') = mutate_object rng skip_fields weights heap at r in
            let later =
              mutate_candidates-Changes weights candidates
                (left_after rng skip_fields result remaining)
                (note rng skip_fields path result modifications)
                (write rng skip_fields heap at fields) r' in
            rw more (pass-Changes path result modifications _ heap _ at fields quiet later)
      ]
