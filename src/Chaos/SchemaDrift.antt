-- ===== src/Chaos/SchemaDrift.antt =====
-- havocforge/chaos/ops/drift/schema_drift.py: the changes of the fields of an object, and the loop of
-- `_mutate_schema` over the objects of a schema. Objects are shared by reference: a contract names the
-- object's address, and a heap holds its fields. Weights are whole numbers.
pub mod Kept
pub mod Changes
pub mod Most
use havoc_forge.Base.{
  ℕ, zero, suc, ◌+◌, ◌-◌, ◌*◌, ◌≤◌, ◌<◌, ◌^◌, max, String, Bool, true, false, Option, none, some,
  List, [], ◌∷◌, ◌++◌, leb, ltb, eqb, not, if◌then◌else◌, length, get_or, ◌==◌,
}
use havoc_forge.Base.Dict
use havoc_forge.Base.Dict.{Dict, mem_str}
use havoc_forge.Base.Find.{keep}
use havoc_forge.Base.Text.{concat, show_ℕ}

-- A contract of an object, or any other.
pub data Contract (V : Type 0) : Type 0 where
  object : ℕ → Contract V
  other : V → Contract V

abbrev pub Fields : Type 0 → Type 0
Fields V = Dict (Contract V)

pub data Mutation : Type 0 where
  add_field drop_entry rename_entry flatten_object : Mutation

-- What is drawn: a random number, in units of 2^-53, a position of a list, a number of four digits, a
-- word, and a contract for a new field, whose making may raise. `split` is `split("_")`.
pub record Draws (V R : Type 0) : Type 0 where
  pub random : R → ℕ × R
  pub choice : ℕ → R → ℕ × R
  pub randint : ℕ → ℕ → R → ℕ × R
  pub generate_word : R → String × R
  pub generate_field : R → Option (Contract V) × R
  pub split : String → List String

-- `rng.choice(xs)` of the list of `x` and `xs`, for the position that was drawn.
abbrev pub pick {ℓ} : {A : Type ℓ} → A → List A → ℕ → A
pick x xs i = get_or (x ∷ xs) i x

abbrev pub positive : List (Mutation × ℕ) → List (Mutation × ℕ)
positive [] = []
positive ((m, w) ∷ weights) = let rest = positive weights in if ltb 0 w then (m, w) ∷ rest else rest

abbrev pub total : List (Mutation × ℕ) → ℕ
total [] = 0
total ((m, w) ∷ weights) = w + total weights

-- The first choice whose cumulated weight reaches the drawn share, else the last.
unfoldable pub reach_share : ℕ → ℕ → Mutation → List (Mutation × ℕ) → Mutation
reach_share share cumulative otherwise [] = otherwise
reach_share share cumulative otherwise ((m, w) ∷ weights) =
    let rest = reach_share share (cumulative + w) m weights in
    if leb share ((cumulative + w) * 2 ^ 53) then m else rest

abbrev pub name_of : List String → String
name_of parts = concat parts

-- The name used after 100 names that were taken.
abbrev pub fallback_name : ℕ → String
fallback_name n = concat ("field_" ∷ show_ℕ n ∷ [])

-- `int(max_mutations or cfg_max or 2)` of the constructor
abbrev pub nonzero_or : Option ℕ → ℕ → ℕ
nonzero_or none n = n
nonzero_or (some zero) n = n
nonzero_or (some (suc m)) n = suc m

abbrev pub configured_max : Option ℕ → Option ℕ → ℕ
configured_max max_mutations cfg_max = nonzero_or max_mutations (nonzero_or cfg_max 2)

module _ {V R : Type 0} (rng : Draws V R) where
  abbrev pub weigh : List (Mutation × ℕ) → R → Mutation × R
  weigh [] r = (add_field, r)
  weigh ((m, w) ∷ weights) r =
      let (n, r') = rng.random r in
      (reach_share (n * total ((m, w) ∷ weights)) 0 m ((m, w) ∷ weights), r')

  unfoldable pub weighted_choice : List (Mutation × ℕ) → R → Mutation × R
  unfolding reach_share
  weighted_choice weights r = weigh (positive weights) r

  abbrev pub part_name : String → List String → R → String × R
  part_name word [] r = (word, r)
  part_name word (part ∷ parts) r =
      let (i, r') = rng.choice (length (part ∷ parts)) r in
      (name_of (pick part parts i ∷ "_" ∷ word ∷ []), r')

  -- One attempt: without a reference, with one that has an underscore, and with another one.
  abbrev pub attempt_alone : String → R → String × R
  attempt_alone word r =
      let (n, r') = rng.random r in
      let (word2, r'') = rng.generate_word r' in
      if ltb (n * 10) (3 * 2 ^ 53) then (name_of (word ∷ "_" ∷ word2 ∷ []), r'') else (word, r')

  abbrev pub attempt_beside : String → String → R → String × R
  attempt_beside key word r =
      let (n, r') = rng.random r in
      if ltb 1 (length (rng.split key))
      then if ltb (n * 2) (2 ^ 53)
        then part_name word (rng.split key) r'
        else (name_of (key ∷ "_" ∷ word ∷ []), r')
      else (name_of (key ∷ "_" ∷ word ∷ []), r)

  abbrev pub attempt_with : Option String → String → R → String × R
  attempt_with none word r = attempt_alone word r
  attempt_with (some key) word r =
      if key == "" then attempt_alone word r else attempt_beside key word r

  abbrev pub attempt : Option String → R → String × R
  attempt reference r = let (word, r') = rng.generate_word r in attempt_with reference word r'

  unfoldable pub try_names : ℕ → List String → Option String → R → String × R
  try_names zero existing reference r =
      let (n, r') = rng.randint 1000 9999 r in (fallback_name n, r')
  try_names (suc left) existing reference r =
      let (name, r') = attempt reference r in
      let later = try_names left existing reference r' in
      if mem_str name existing then later else (name, r')

  unfoldable pub generate_field_name : List String → Option String → R → String × R
  unfolding try_names
  generate_field_name existing reference r = try_names 100 existing reference r

  -- What was done, the fields after it, and what is left to draw from.
  abbrev pub Changed : Type 0
  Changed = (Option String × Fields V) × R

  abbrev pub enter_field : Fields V → String → Option (Contract V) × R → Changed
  enter_field fields name (none, r) = ((none, fields), r)
  enter_field fields name (some contract, r) =
      ((some (concat ("added field '" ∷ name ∷ "'" ∷ [])), Dict.set fields name contract), r)

  unfoldable pub add_to : Fields V → R → Changed
  unfolding generate_field_name
  add_to fields r =
      let (name, r') = generate_field_name (Dict.keys fields) none r in
      enter_field fields name (rng.generate_field r')

  abbrev pub drop_one : Fields V → List String → R → Changed
  drop_one fields [] r = ((none, fields), r)
  drop_one fields (k ∷ []) r = ((none, fields), r)
  drop_one fields (k ∷ j ∷ ks) r =
      let (i, r') = rng.choice (length (k ∷ j ∷ ks)) r in
      let victim = pick k (j ∷ ks) i in
      ((some (concat ("dropped field '" ∷ victim ∷ "'" ∷ [])), Dict.pop fields victim), r')

  abbrev pub move_field : Fields V → String → String → Option (Contract V) → Fields V
  move_field fields old new none = fields
  move_field fields old new (some contract) = Dict.set (Dict.pop fields old) new contract

  abbrev pub rename_one : Fields V → List String → R → Changed
  rename_one fields [] r = ((none, fields), r)
  rename_one fields (k ∷ ks) r =
      let (i, r') = rng.choice (length (k ∷ ks)) r in
      let old = pick k ks i in
      let (new, r'') = generate_field_name (Dict.keys fields) (some old) r' in
      (
        (
          some (concat ("renamed '" ∷ old ∷ "' -> '" ∷ new ∷ "'" ∷ [])),
          move_field fields old new (Dict.get fields old),
        ),
        r'',
      )

  -- The fields of a nested object become fields beside it.
  unfoldable pub promote : String → Fields V → List String → Fields V → R → Fields V × R
  unfolding generate_field_name
  promote victim [] existing fields r = (fields, r)
  promote victim ((child, contract) ∷ children) existing fields r =
      let wanted = name_of (victim ∷ "_" ∷ child ∷ []) in
      let (other_key, r') = generate_field_name existing none r in
      let taken = mem_str wanted existing in
      let new_key = if taken then other_key else wanted in
      promote victim children (new_key ∷ existing) (Dict.set fields new_key contract)
        (if taken then r' else r)

  abbrev pub nested_objects : (String → Bool) → Fields V → List (String × ℕ)
  nested_objects free [] = []
  nested_objects free ((k, object at) ∷ fields) =
      let rest = nested_objects free fields in if free k then (k, at) ∷ rest else rest
  nested_objects free ((k, other v) ∷ fields) = nested_objects free fields

  abbrev pub flatten_one : (ℕ → Fields V) → Fields V → List (String × ℕ) → R → Changed
  flatten_one heap fields [] r = ((none, fields), r)
  flatten_one heap fields (o ∷ os) r =
      let (i, r') = rng.choice (length (o ∷ os)) r in
      let victim = pick o os i in
      let children = heap victim.1 in
      let (fields', r'') = promote victim.0 children (Dict.keys fields) fields r' in
      (
        (
          some (
              concat (
                "flattened object '"
                ∷ victim.0
                ∷ "' ("
                ∷ show_ℕ (length children)
                ∷ " fields)"
                ∷ [])),
          Dict.pop fields' victim.0,
        ),
        r'',
      )

  module _ (skip_fields : List String) where
    abbrev pub is_free : String → Bool
    is_free k = not (mem_str k skip_fields)

    abbrev pub change_by : Mutation → (ℕ → Fields V) → Fields V → R → Changed
    change_by add_field heap fields r = add_to fields r
    change_by drop_entry heap fields r = drop_one fields (keep is_free (Dict.keys fields)) r
    change_by rename_entry heap fields r = rename_one fields (keep is_free (Dict.keys fields)) r
    change_by flatten_object heap fields r =
        flatten_one heap fields (nested_objects is_free fields) r

    unfoldable pub mutate_object : List (Mutation × ℕ) → (ℕ → Fields V) → ℕ → R → Changed
    unfolding weighted_choice add_to promote
    mutate_object weights heap at r =
        let (mutation, r') = weighted_choice weights r in change_by mutation heap (heap at) r'

    abbrev pub write : (ℕ → Fields V) → ℕ → Fields V → ℕ → Fields V
    write heap at fields i = if eqb i at then fields else heap i

    abbrev pub Mutated : Type 0
    Mutated = List String × ((ℕ → Fields V) × R)

    abbrev pub note : String → Option String → List String → List String
    note path none modifications = modifications
    note path (some result) modifications = modifications ++ concat (path ∷ ": " ∷ result ∷ []) ∷ []

    abbrev pub left_after : Option String → ℕ → ℕ
    left_after none remaining = remaining
    left_after (some result) remaining = remaining - 1

    -- The loop over the candidates, in the order that they were shuffled to.
    unfoldable pub mutate_candidates :
        List (Mutation × ℕ) → List (String × ℕ) → ℕ → List String → (ℕ → Fields V) → R → Mutated
    unfolding mutate_object
    mutate_candidates weights [] remaining modifications heap r = (modifications, (heap, r))
    mutate_candidates weights ((path, at) ∷ candidates) remaining modifications heap r =
        let ((result, fields), r') = mutate_object weights heap at r in
        let later =
          mutate_candidates weights candidates (left_after result remaining)
            (note path result modifications) (write heap at fields) r' in
        if leb remaining 0 then (modifications, (heap, r)) else later

    unfoldable pub mutate_all :
        List (Mutation × ℕ) → ℕ → List (String × ℕ) → (ℕ → Fields V) → R → Mutated
    unfolding mutate_candidates
    mutate_all weights max_mutations candidates heap r =
        mutate_candidates weights candidates (max 1 max_mutations) [] heap r
