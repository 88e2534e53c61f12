-- ===== src/Schema/Contracts.antt =====
-- havocforge/schema/registry.py: the methods of `SchemaRegistry` that change contracts.
use havoc_forge.Base.{ℕ, String, Bool, Option, none, some, List, [], ◌∷◌}
use havoc_forge.Base.Dict
use havoc_forge.Base.Dict.{Dict}
use havoc_forge.Base.Result.{Result, ok, err}
use havoc_forge.Schema.Registry.{
  SchemaError, path_not_found, no_attribute, incomplete_change, builder, SchemaDoc, SchemaEntry,
  SchemaRegistry, named, put, Done, bump_revision, returning, get, target_entry,
}

-- What havocforge/schema/builder.py makes of contracts, and Python's `setattr` of a contract, which
-- fails where the contract has no such attribute.
pub record Builder (C S F V : Type 0) : Type 0 where
  pub synthesize_root_spec : Dict C → Result String S
  pub preflight_sample : String → Dict C → Result String F
  pub setattr : C → String → V → Option C

pub record Change (V : Type 0) : Type 0 where
  pub path : Option String
  pub attr : Option String
  pub value : V

module _ {C S F V : Type 0} (b : Builder C S F V) where
  abbrev pub Docs : Type 0
  Docs = SchemaRegistry (SchemaDoc C S F)

  abbrev pub edit : ℕ → (SchemaDoc C S F → SchemaDoc C S F) → Docs → Docs
  edit i f r = record r { heap = put r.heap i (f (r.heap i)) }

  abbrev pub put_contract : ℕ → String → C → Docs → Docs
  put_contract i path c =
      edit i (λ d. record d { contracts_by_path = Dict.set d.contracts_by_path path c })

  -- The engine spec is replaced also where the preflight raises.
  unfoldable pub refresh_entry : SchemaEntry → Docs → Option SchemaError × Docs
  unfolding bump_revision
  refresh_entry e r =
      let contracts = (r.heap e.doc).contracts_by_path in
      elim (b.synthesize_root_spec contracts) [
        | err x ↦ (some (builder x), r)
        | ok spec ↦
            let r' = edit e.doc (λ d. record d { engine_spec = some spec }) r in
            elim (b.preflight_sample e.name contracts) [
              | err x ↦ (some (builder x), r')
              | ok report ↦
                  bump_revision e (edit e.doc (λ d. record d { preflight = some report }) r')
            ]
      ]

  abbrev pub after_mutator :
      SchemaEntry → String → Docs → Option SchemaError × C → Done (SchemaDoc C S F) ℕ
  after_mutator e path r (some x, c) = (err x, put_contract e.doc path c r)
  after_mutator e path r (none, c) = returning e.doc (refresh_entry e (put_contract e.doc path c r))

  abbrev pub mutate_entry :
      String
      → (C → Option SchemaError × C)
      → Done (SchemaDoc C S F) SchemaEntry
      → Done (SchemaDoc C S F) ℕ
  mutate_entry path mutator (err x, r) = (err x, r)
  mutate_entry path mutator (ok e, r) = elim (Dict.get (r.heap e.doc).contracts_by_path path) [
    | none ↦ (err (path_not_found path e.name), r)
    | some contract ↦ after_mutator e path r (mutator contract)
  ]

  -- The mutator changes a contract in place, and may raise when it has changed some of it.
  unfoldable pub mutate_contract :
      String
      → String
      → (C → Option SchemaError × C)
      → Option String
      → Bool
      → Docs
      → Done (SchemaDoc C S F) ℕ
  unfolding target_entry refresh_entry
  mutate_contract name path mutator revision_name deep_copy r =
      mutate_entry path mutator (target_entry name revision_name deep_copy r)

  abbrev pub set_attr : String → String → V → C → Option SchemaError × C
  set_attr path attr value c = elim (b.setattr c attr value) [
    | none ↦ (some (no_attribute path attr), c)
    | some c' ↦ (none, c')
  ]

  unfoldable pub set_contract_attr :
      String → String → String → V → Option String → Bool → Docs → Done (SchemaDoc C S F) ℕ
  unfolding mutate_contract
  set_contract_attr name path attr value = mutate_contract name path (set_attr path attr value)

  abbrev pub change_contract : SchemaEntry → String → String → V → Docs → Option SchemaError × Docs
  change_contract e path attr value r = elim (Dict.get (r.heap e.doc).contracts_by_path path) [
    | none ↦ (some (path_not_found path e.name), r)
    | some contract ↦ elim (b.setattr contract attr value) [
      | none ↦ (some (no_attribute path attr), r)
      | some c ↦ (none, put_contract e.doc path c r)
    ]
  ]

  abbrev pub change_one : SchemaEntry → Change V → Docs → Option SchemaError × Docs
  change_one e ch r = elim ch.path [
    | none ↦ (some incomplete_change, r)
    | some path ↦ elim ch.attr [
      | none ↦ (some incomplete_change, r)
      | some attr ↦ change_contract e path attr ch.value r
    ]
  ]

  -- A change that fails leaves the changes before it in the document.
  unfoldable pub change_all : SchemaEntry → List (Change V) → Docs → Option SchemaError × Docs
  change_all e [] r = (none, r)
  change_all e (ch ∷ changes) r =
      let (raised, r') = change_one e ch r in
      elim raised [ some x ↦ (some x, r') | none ↦ change_all e changes r' ]

  abbrev pub refresh_changed : SchemaEntry → Option SchemaError × Docs → Done (SchemaDoc C S F) ℕ
  refresh_changed e (some x, r) = (err x, r)
  refresh_changed e (none, r) = returning e.doc (refresh_entry e r)

  abbrev pub change_entry :
      List (Change V) → Done (SchemaDoc C S F) SchemaEntry → Done (SchemaDoc C S F) ℕ
  change_entry changes (err x, r) = (err x, r)
  change_entry changes (ok e, r) = refresh_changed e (change_all e changes r)

  abbrev pub asked_name : String → Option String → String
  asked_name name revision_name = elim (named revision_name) [ none ↦ name | some n ↦ n ]

  unfoldable pub set_schema_attrs :
      String → List (Change V) → Option String → Bool → Docs → Done (SchemaDoc C S F) ℕ
  unfolding change_all refresh_entry target_entry
  set_schema_attrs name [] revision_name deep_copy r = (get (asked_name name revision_name) r, r)
  set_schema_attrs name (ch ∷ changes) revision_name deep_copy r =
      change_entry (ch ∷ changes) (target_entry name revision_name deep_copy r)
