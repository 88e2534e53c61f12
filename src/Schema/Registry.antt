-- ===== src/Schema/Registry.antt =====
-- havocforge/schema/registry.py: the documents of the schemas, their revisions and lineages.
-- Documents are shared by reference: an entry holds the address of its document, and `heap` what
-- stands there. A call that raises keeps what it has changed before. The document's builder
-- (havocforge/schema/builder.py) is what makes an engine spec and a preflight report of contracts.
use havoc_forge.Base.{
  ℕ, zero, suc, ◌+◌, String, Bool, Option, none, some, leb, eqb, if◌then◌else◌, length, ◌==◌,
}
use havoc_forge.Base.Dict
use havoc_forge.Base.Dict.{Dict}
use havoc_forge.Base.Result.{Result, ok, err}

-- `looping` is no exception of the source: the loop of `_root_name` is still going round.
pub data SchemaError : Type 0 where
  not_registered : String → SchemaError
  path_not_found : String → String → SchemaError
  no_attribute : String → String → SchemaError
  incomplete_change looping : SchemaError
  builder : String → SchemaError

pub record SchemaDoc (C S F : Type 0) : Type 0 where
  pub contracts_by_path : Dict C
  pub engine_spec : Option S
  pub preflight : Option F

pub record SchemaEntry : Type 0 where
  pub name : String
  pub doc : ℕ
  pub revision : ℕ
  pub parent : Option String

pub record SchemaRegistry (D : Type 0) : Type 0 where
  pub store : Dict SchemaEntry
  pub latest : Dict String
  pub heap : ℕ → D
  pub next : ℕ

-- A text that is not empty: `if revision_name`, `while entry.parent`.
abbrev pub named : Option String → Option String
named none = none
named (some s) = if s == "" then none else some s

-- What stands at each address, once `doc` has been written to `at`.
abbrev pub put : {D : Type 0} (heap : ℕ → D) (at : ℕ) (doc : D) → ℕ → D
put heap at doc i = if eqb i at then doc else heap i

unfoldable pub clone :
    {D : Type 0} → SchemaEntry → String → Bool → SchemaRegistry D → SchemaEntry × SchemaRegistry D
clone e new_name deep r =
    let of_doc : ℕ → SchemaEntry =
      λ i. record { name = new_name; doc = i; revision = 1; parent = some e.name } in
    if deep
    then (of_doc r.next, record r { heap = put r.heap r.next (r.heap e.doc); next = r.next + 1 })
    else (of_doc e.doc, r)

-- The loop of `_root_name`, with a bound on its rounds.
unfoldable pub root_from : ℕ → Dict SchemaEntry → SchemaEntry → Result SchemaError String
root_from zero store e = elim (named e.parent) [ none ↦ ok e.name | some p ↦ err looping ]
root_from (suc n) store e = elim (named e.parent) [
  | none ↦ ok e.name
  | some p ↦ elim (Dict.get store p) [
    | none ↦ err (not_registered p)
    | some e' ↦ root_from n store e'
  ]
]

unfoldable pub root_name : Dict SchemaEntry → String → Result SchemaError String
unfolding root_from
root_name store name = elim (Dict.get store name) [
  | none ↦ err (not_registered name)
  | some e ↦ root_from (length store) store e
]

abbrev pub Done : Type 0 → Type 0 → Type 0
Done D A = Result SchemaError A × SchemaRegistry D

module _ {D : Type 0} where
  unfoldable pub get_entry : String → SchemaRegistry D → Result SchemaError SchemaEntry
  get_entry name r = elim (Dict.get r.store name) [
    | none ↦ err (not_registered name)
    | some e ↦ ok e
  ]

  abbrev pub point_latest :
      SchemaEntry
      → SchemaRegistry D
      → String
      → Option String
      → Option SchemaError × SchemaRegistry D
  point_latest e r root none = (none, record r { latest = Dict.set r.latest root e.name })
  point_latest e r root (some current_name) = elim (Dict.get r.store current_name) [
    | none ↦ (some (not_registered current_name), r)
    | some current_entry ↦ (
      none,
      if leb current_entry.revision e.revision
          then record r { latest = Dict.set r.latest root e.name }
          else r,
    )
  ]

  -- `none`: no exception
  unfoldable pub update_latest :
      SchemaEntry → SchemaRegistry D → Option SchemaError × SchemaRegistry D
  unfolding root_name
  update_latest e r = elim (root_name r.store e.name) [
    | err x ↦ (some x, r)
    | ok root ↦ point_latest e r root (Dict.get r.latest root)
  ]

  abbrev pub returning : {A : Type 0} → A → Option SchemaError × SchemaRegistry D → Done D A
  returning a (none, r) = (ok a, r)
  returning a (some x, r) = (err x, r)

  -- `cls._store[entry.name] = entry; cls._update_latest(entry)`
  unfoldable pub enter : SchemaEntry → SchemaRegistry D → Option SchemaError × SchemaRegistry D
  unfolding update_latest
  enter e r = update_latest e (record r { store = Dict.set r.store e.name e })

  unfoldable pub register : String → ℕ → Option String → SchemaRegistry D → Done D ℕ
  unfolding enter
  register name sd parent r =
      returning sd (enter (record { name = name; doc = sd; revision = 1; parent = parent }) r)

  -- The entry is changed where the store has it.
  unfoldable pub bump_revision :
      SchemaEntry → SchemaRegistry D → Option SchemaError × SchemaRegistry D
  unfolding enter
  bump_revision e r = enter (record e { revision = e.revision + 1 }) r

  unfoldable pub replace : String → ℕ → SchemaRegistry D → Done D ℕ
  unfolding register bump_revision
  replace name sd r = elim (Dict.get r.store name) [
    | none ↦ register name sd none r
    | some e ↦ returning sd (bump_revision (record e { doc = sd }) r)
  ]

  unfoldable pub get : String → SchemaRegistry D → Result SchemaError ℕ
  get name r = elim (get_entry name r) [ ok e ↦ ok e.doc | err x ↦ err x ]

  unfoldable pub get_revision : String → SchemaRegistry D → Result SchemaError ℕ
  get_revision name r = elim (get_entry name r) [ ok e ↦ ok e.revision | err x ↦ err x ]

  unfoldable pub get_parent : String → SchemaRegistry D → Result SchemaError (Option String)
  get_parent name r = elim (get_entry name r) [ ok e ↦ ok e.parent | err x ↦ err x ]

  abbrev pub latest_of : SchemaRegistry D → String → String
  latest_of r root = elim (Dict.get r.latest root) [ none ↦ root | some name ↦ name ]

  unfoldable pub get_latest_name : String → SchemaRegistry D → Result SchemaError String
  unfolding root_name
  get_latest_name name r = elim (root_name r.store name) [
    | ok root ↦ ok (latest_of r root)
    | err x ↦ err x
  ]

  unfoldable pub get_latest_revision : String → SchemaRegistry D → Result SchemaError ℕ
  get_latest_revision name r = elim (get_latest_name name r) [
    | ok latest ↦ get latest r
    | err x ↦ err x
  ]

  unfoldable pub create_revision_entry :
      String → String → Bool → SchemaRegistry D → Done D SchemaEntry
  unfolding clone enter
  create_revision_entry base_name revision_name deep_copy r = elim (Dict.get r.store base_name) [
    | none ↦ (err (not_registered base_name), r)
    | some base_entry ↦
        let (clone_entry, r') = clone base_entry revision_name deep_copy r in
        returning clone_entry (enter clone_entry r')
  ]

  -- Both callers pass `auto_clone=True`.
  unfoldable pub target_entry :
      String → Option String → Bool → SchemaRegistry D → Done D SchemaEntry
  unfolding create_revision_entry get_entry
  target_entry name revision_name deep_copy r = elim (named revision_name) [
    | none ↦ (get_entry name r, r)
    | some target ↦ elim (Dict.get r.store target) [
      | none ↦ create_revision_entry name target deep_copy r
      | some e ↦ (ok e, r)
    ]
  ]
