-- ===== src/Chaos/SchemaDrift/Kept.antt =====
-- The fields that a configuration excepts from drift.
use havoc_forge.Base.{
  ℕ, zero, suc, String, Bool, true, false, ◌≡◌, inl, inr, Option, none, some, List, [], ◌∷◌,
  Bool-cases, arith, ◌==◌, eq_iff, if◌then◌else◌, get_or, length,
}
use havoc_forge.Base.Dict
use havoc_forge.Base.Dict.{mem_str, get-set, get-pop}
use havoc_forge.Base.Find.{All, keep}
use havoc_forge.Chaos.SchemaDrift.{
  Contract, object, other, Fields, Mutation, add_field, drop_entry, rename_entry, flatten_object,
  Draws, pick, fallback_name, name_of, attempt, try_names, generate_field_name, enter_field, add_to,
  drop_one, move_field, rename_one, promote, nested_objects, flatten_one, is_free, change_by,
  weighted_choice, mutate_object,
}

get_or-All {ℓ κ} :
    {A : Type ℓ} (P : A → Type κ) (xs : List A) (i : ℕ) (x : A) → All P xs → P x → P (get_or xs i x)
get_or-All P [] i x h hx = hx
get_or-All P (y ∷ xs) zero x h hx = h.0
get_or-All P (y ∷ xs) (suc i) x h hx = get_or-All P xs i x h.1 hx

pick-All {ℓ κ} :
    {A : Type ℓ} (P : A → Type κ) (x : A) (xs : List A) (i : ℕ) → All P (x ∷ xs) → P (pick x xs i)
pick-All P x xs i h = get_or-All P (x ∷ xs) i x h h.0

keep-All {ℓ} : {A : Type ℓ} (p : A → Bool) (xs : List A) → All (λ x. p x ≡ true) (keep p xs)
keep-All p [] = tt
keep-All p (x ∷ xs) = elim (Bool-cases (p x)) [
  | inl e ↦ rw e (e, keep-All p xs)
  | inr e ↦ rw e (keep-All p xs)
]

module _ {V : Type 0} where
  -- A key that is there is among the keys.
  mem_str-keys :
      (d : Fields V) (k : String) (c : Contract V)
      → Dict.get d k ≡ some c
      → mem_str k (Dict.keys d) ≡ true
  unfolding Dict.get Dict.keys
  mem_str-keys [] k c h = absurd (cc h)
  mem_str-keys ((j, b) ∷ d) k c h = elim (Bool-cases (j == k)) [
    | inl e ↦ rw e
    | inr e ↦ rw e (mem_str-keys d k c (ground (arith, h, e)))
  ]

-- A key that is in a list differs from each that is not.
other_key :
    (k j : String) (ks : List String)
    → mem_str k ks ≡ true
    → mem_str j ks ≡ false
    → (j == k) ≡ false
other_key k j ks here away = elim (Bool-cases (j == k)) [
  | inl e ↦
      let is : j ≡ k = (eq_iff j k).0 e in
      let away' : mem_str k ks ≡ false = rw (← is) away in absurd (cc (here, away'))
  | inr e ↦ e
]

module _ {V R : Type 0} (rng : Draws V R) (k : String)
    (safe : (n : ℕ) → (fallback_name n == k) ≡ false) where
  -- A new name is not one that is there, or it is the name that is used when all others were taken.
  try_names-other :
      (left : ℕ) (existing : List String) (reference : Option String) (r : R)
      → mem_str k existing ≡ true
      → ((try_names rng left existing reference r).0 == k) ≡ false
  unfolding try_names
  try_names-other zero existing reference r here = safe (rng.randint 1000 9999 r).0
  try_names-other (suc left) existing reference r here =
      let (name, r') = attempt rng reference r in
      elim (Bool-cases (mem_str name existing)) [
        | inl taken ↦ rw taken (try_names-other left existing reference r' here)
        | inr free ↦ rw free (other_key k name existing here free)
      ]

  generate_field_name-other :
      (existing : List String) (reference : Option String) (r : R)
      → mem_str k existing ≡ true
      → ((generate_field_name rng existing reference r).0 == k) ≡ false
  unfolding generate_field_name
  generate_field_name-other existing reference r here =
      try_names-other 100 existing reference r here

  -- `k` stays what it is.
  module _ (c : Contract V) where
    abbrev pub Holds : Fields V → Type 0
    Holds fields = Dict.get fields k ≡ some c

    set-Holds :
        (fields : Fields V) (j : String) (b : Contract V)
        → (j == k) ≡ false
        → Holds fields
        → Holds (Dict.set fields j b)
    set-Holds fields j b e h = rw (get-set, e) h

    pop-Holds :
        (fields : Fields V) (j : String)
        → (j == k) ≡ false
        → Holds fields
        → Holds (Dict.pop fields j)
    pop-Holds fields j e h = rw (get-pop, e) h

    entered :
        (fields : Fields V) (name : String) (x : Option (Contract V) × R)
        → (name == k) ≡ false
        → Holds fields
        → Holds (enter_field rng fields name x).0.1
    entered fields name (none, r) e h = h
    entered fields name (some b, r) e h = set-Holds fields name b e h

    add_to-Holds : (fields : Fields V) (r : R) → Holds fields → Holds (add_to rng fields r).0.1
    unfolding add_to
    add_to-Holds fields r h =
        let (name, r') = generate_field_name rng (Dict.keys fields) none r in
        let e = generate_field_name-other (Dict.keys fields) none r (mem_str-keys fields k c h) in
        entered fields name (rng.generate_field r') e h

    promote-Holds :
        (victim : String) (children : Fields V) (existing : List String) (fields : Fields V) (r : R)
        → mem_str k existing ≡ true
        → Holds fields
        → Holds (promote rng victim children existing fields r).0
    unfolding promote
    promote-Holds victim [] existing fields r here h = h
    promote-Holds victim ((child, b) ∷ children) existing fields r here h =
        let wanted = name_of (victim ∷ "_" ∷ child ∷ []) in
        let (name, r') = generate_field_name rng existing none r in
        let taken = mem_str wanted existing in
        let new_key = if taken then name else wanted in
        let e : (new_key == k) ≡ false = elim (Bool-cases taken) [
          | inl there ↦ rw there (generate_field_name-other existing none r here)
          | inr away ↦ rw away (other_key k wanted existing here away)
        ] in
        promote-Holds victim children (new_key ∷ existing) (Dict.set fields new_key b)
          (if taken then r' else r) (rw e here) (set-Holds fields new_key b e h)

module _ {V R : Type 0} (rng : Draws V R) (skip_fields : List String) (k : String)
    (safe : (n : ℕ) → (fallback_name n == k) ≡ false) (skipped : mem_str k skip_fields ≡ true)
    (c : Contract V) where
  -- What may be dropped or renamed is not `k`.
  free-other : (j : String) → is_free rng skip_fields j ≡ true → (j == k) ≡ false
  free-other j free = other_key k j skip_fields skipped (ground (arith, free))

  drop_one-Holds :
      (fields : Fields V) (names : List String) (r : R)
      → All (λ j. is_free rng skip_fields j ≡ true) names
      → Holds rng k safe c fields
      → Holds rng k safe c (drop_one rng fields names r).0.1
  drop_one-Holds fields [] r free h = h
  drop_one-Holds fields (j ∷ []) r free h = h
  drop_one-Holds fields (j ∷ i ∷ js) r free h =
      let at = (rng.choice (length (j ∷ i ∷ js)) r).0 in
      pop-Holds rng k safe c fields (pick j (i ∷ js) at)
        (free-other _ (pick-All (λ j. is_free rng skip_fields j ≡ true) j (i ∷ js) at free)) h

  move_field-Holds :
      (fields : Fields V) (old new : String) (o : Option (Contract V))
      → (old == k) ≡ false
      → (new == k) ≡ false
      → Holds rng k safe c fields
      → Holds rng k safe c (move_field rng fields old new o)
  move_field-Holds fields old new none e e' h = h
  move_field-Holds fields old new (some b) e e' h =
      set-Holds rng k safe c (Dict.pop fields old) new b e' (pop-Holds rng k safe c fields old e h)

  rename_one-Holds :
      (fields : Fields V) (names : List String) (r : R)
      → All (λ j. is_free rng skip_fields j ≡ true) names
      → Holds rng k safe c fields
      → Holds rng k safe c (rename_one rng fields names r).0.1
  rename_one-Holds fields [] r free h = h
  rename_one-Holds fields (j ∷ js) r free h =
      let (at, r') = rng.choice (length (j ∷ js)) r in
      let old = pick j js at in
      let (new, r'') = generate_field_name rng (Dict.keys fields) (some old) r' in
      move_field-Holds fields old new (Dict.get fields old)
        (free-other old (pick-All (λ j. is_free rng skip_fields j ≡ true) j js at free))
        (generate_field_name-other rng k safe (Dict.keys fields) (some old) r'
          (mem_str-keys fields k c h))
        h

  nested_objects-All :
      (fields : Fields V)
      → All
          (λ (o : String × ℕ). is_free rng skip_fields o.0 ≡ true)
          (nested_objects rng (is_free rng skip_fields) fields)
  nested_objects-All [] = tt
  nested_objects-All ((j, other v) ∷ fields) = nested_objects-All fields
  nested_objects-All ((j, object at) ∷ fields) = elim (Bool-cases (is_free rng skip_fields j)) [
    | inl e ↦ rw e (e, nested_objects-All fields)
    | inr e ↦ rw e (nested_objects-All fields)
  ]

  flatten_one-Holds :
      (heap : ℕ → Fields V) (fields : Fields V) (os : List (String × ℕ)) (r : R)
      → All (λ (o : String × ℕ). is_free rng skip_fields o.0 ≡ true) os
      → Holds rng k safe c fields
      → Holds rng k safe c (flatten_one rng heap fields os r).0.1
  flatten_one-Holds heap fields [] r free h = h
  flatten_one-Holds heap fields (o ∷ os) r free h =
      let (at, r') = rng.choice (length (o ∷ os)) r in
      let victim = pick o os at in
      pop-Holds rng k safe c (promote rng victim.0 (heap victim.1) (Dict.keys fields) fields r').0
        victim.0
        (free-other victim.0
          (pick-All (λ (o : String × ℕ). is_free rng skip_fields o.0 ≡ true) o os at free))
        (promote-Holds rng k safe c victim.0 (heap victim.1) (Dict.keys fields) fields r'
          (mem_str-keys fields k c h) h)

  change_by-Holds :
      (m : Mutation) (heap : ℕ → Fields V) (fields : Fields V) (r : R)
      → Holds rng k safe c fields
      → Holds rng k safe c (change_by rng skip_fields m heap fields r).0.1
  change_by-Holds add_field heap fields r h = add_to-Holds rng k safe c fields r h
  change_by-Holds drop_entry heap fields r h =
      drop_one-Holds fields _ r (keep-All (is_free rng skip_fields) (Dict.keys fields)) h
  change_by-Holds rename_entry heap fields r h =
      rename_one-Holds fields _ r (keep-All (is_free rng skip_fields) (Dict.keys fields)) h
  change_by-Holds flatten_object heap fields r h =
      flatten_one-Holds heap fields _ r (nested_objects-All fields) h

  -- Whatever is drawn, a change of an object keeps each field that is listed in `skip_fields`, with its
  -- contract, unless its name is one of those that are used after a hundred names that were taken.
  pub mutate_object-Holds :
      (weights : List (Mutation × ℕ)) (heap : ℕ → Fields V) (at : ℕ) (r : R)
      → Dict.get (heap at) k ≡ some c
      → Dict.get (mutate_object rng skip_fields weights heap at r).0.1 k ≡ some c
  unfolding mutate_object
  mutate_object-Holds weights heap at r h =
      let (m, r') = weighted_choice rng weights r in change_by-Holds m heap (heap at) r' h
