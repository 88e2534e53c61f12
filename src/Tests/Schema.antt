-- ===== src/Tests/Schema.antt =====
-- The schema registry at concrete inputs: contracts are numbers, and no report is made of none.
use havoc_forge.Base.{ℕ, ◌+◌, String, true, ◌≡◌, refl, Option, none, some, [], ◌∷◌}
use havoc_forge.Base.Dict
use havoc_forge.Base.Dict.{Dict}
use havoc_forge.Base.Result.{Result, ok, err}
use havoc_forge.Schema.Registry.{
  SchemaError, SchemaDoc, SchemaEntry, clone, enter, update_latest, root_name, root_from, register,
  get_latest_name, latest_of, create_revision_entry, target_entry, bump_revision,
}
use havoc_forge.Schema.Contracts.{Builder, Docs, mutate_contract, refresh_entry}
use havoc_forge.Schema.Lineage.{IsRoot}
use havoc_forge.Schema.Reach.{start, registered, mutated, root_name-IsRoot}
use havoc_forge.Schema.Isolation.{LeavesOld, mutate_contract-LeavesOld}

abbrev preflight : String → Dict ℕ → Result String ℕ
preflight name [] = err "empty"
preflight name (_ ∷ _) = ok 3

abbrev numbers : Builder ℕ ℕ ℕ ℕ
numbers = record {
  synthesize_root_spec = λ contracts. ok 1;
  preflight_sample = preflight;
  setattr = λ contract attr value. some value;
}

abbrev ga4 : SchemaDoc ℕ ℕ ℕ
ga4 = record { contracts_by_path = ("user_id", 7) ∷ []; engine_spec = none; preflight = none }

abbrev empty : Docs numbers
empty = record { store = []; latest = []; heap = λ i. ga4; next = 1 }

abbrev base : Docs numbers
base = (register "ga4" 0 none empty).1

abbrev add_one : ℕ → Option SchemaError × ℕ
add_one c = (none, c + 1)

abbrev revised : Docs numbers
revised = (mutate_contract numbers "ga4" "user_id" add_one (some "ga4_r1") true base).1

base_free : Dict.get base.store "ga4_r1" ≡ none
unfolding register enter update_latest Dict.get Dict.set root_name root_from
base_free = refl

revised_latest : get_latest_name "ga4" revised ≡ ok "ga4_r1"
unfolding mutate_contract register enter update_latest Dict.get Dict.set root_name root_from
    get_latest_name target_entry create_revision_entry clone refresh_entry bump_revision
revised_latest = refl

-- The new document has the changed contract, the old one has its own.
revised_contracts :
    ((revised.heap 1).contracts_by_path ≡ ("user_id", 8) ∷ [])
    × ((revised.heap 0).contracts_by_path ≡ ("user_id", 7) ∷ [])
unfolding mutate_contract register enter update_latest Dict.get Dict.set root_name root_from
    target_entry create_revision_entry clone refresh_entry bump_revision
revised_contracts = (refl, refl)

abbrev base_entry : SchemaEntry
base_entry = record { name = "ga4"; doc = 0; revision = 1; parent = none }

abbrev revised_entry : SchemaEntry
revised_entry = record { name = "ga4_r1"; doc = 1; revision = 2; parent = some "ga4" }

revised_found : Dict.get revised.store "ga4_r1" ≡ some revised_entry
unfolding mutate_contract register enter update_latest Dict.get Dict.set root_name root_from
    target_entry create_revision_entry clone refresh_entry bump_revision
revised_found = refl

root_name-IsRoot_example :
    (root : String) × (root_name revised.store "ga4_r1" ≡ ok root)
    × IsRoot revised.store root
    × (get_latest_name "ga4_r1" revised ≡ ok (latest_of revised root))
root_name-IsRoot_example =
    root_name-IsRoot numbers
      (mutated "ga4" "user_id" add_one (some "ga4_r1") true
        (registered "ga4" 0 (start (λ i. ga4) 1)))
      "ga4_r1" revised_entry revised_found

mutate_contract-LeavesOld_example : LeavesOld base revised
mutate_contract-LeavesOld_example =
    mutate_contract-LeavesOld numbers "ga4" "user_id" "ga4_r1" add_one base refl base_free
