-- ===== src/Schema/Reach.antt =====
-- The schema registries that calls lead to: a lineage always has a root.
use havoc_forge.Base.{
  ℕ, String, Bool, ◌≡◌, refl, ◌∙◌, Option, none, some, List, [], ◌∷◌, inl, inr, arith, Option-cases,
}
use havoc_forge.Base.Dict
use havoc_forge.Base.Dict.{Dict}
use havoc_forge.Base.Result.{ok, err, Result-cases}
use havoc_forge.Schema.Registry.{
  SchemaError, SchemaEntry, SchemaDoc, Done, named, root_name, register, replace, latest_of,
  get_latest_name,
}
use havoc_forge.Schema.Contracts.{
  Builder, Change, Docs, mutate_contract, mutate_entry, after_mutator, set_schema_attrs, change_one,
  change_all, change_entry, refresh_changed, refresh_entry, put_contract,
}
use havoc_forge.Schema.Lineage.{IsRooted, IsRoot, root_name-ok}
use havoc_forge.Schema.Lineage.Calls.{
  Stands, IsTarget, store-returning, register-IsRooted, register_child-IsRooted, bump-IsRooted,
  replace-IsRooted, target_entry-IsTarget,
}

module _ {C S F V : Type 0} (b : Builder C S F V) where
  refresh-IsRooted :
      (e : SchemaEntry) (r : Docs b)
      → Stands e r
      → IsRooted r.store
      → IsRooted (refresh_entry b e r).1.store
  unfolding refresh_entry
  refresh-IsRooted e r stands h =
      let contracts = (r.heap e.doc).contracts_by_path in
      elim (Result-cases (b.synthesize_root_spec contracts)) [
        | inr (x, failed) ↦ rw (refresh_entry, failed) h
        | inl (spec, made) ↦ elim (Result-cases (b.preflight_sample e.name contracts)) [
          | inr (x, failed) ↦ rw (refresh_entry, made, failed) h
          | inl (report, passed) ↦ rw (refresh_entry, made, passed) (bump-IsRooted e _ stands h)
        ]
      ]

  after-IsRooted :
      (e : SchemaEntry) (path : String) (r : Docs b) (x : Option SchemaError × C)
      → Stands e r
      → IsRooted r.store
      → IsRooted (after_mutator b e path r x).1.store
  after-IsRooted e path r (some x, c) stands h = h
  after-IsRooted e path r (none, c) stands h =
      rw (store-returning {A = ℕ}) (refresh-IsRooted e (put_contract b e.doc path c r) stands h)

  refresh_changed-IsRooted :
      (e : SchemaEntry) (x : Option SchemaError × Docs b)
      → Stands e x.1
      → IsRooted x.1.store
      → IsRooted (refresh_changed b e x).1.store
  refresh_changed-IsRooted e (some x, r) stands h = h
  refresh_changed-IsRooted e (none, r) stands h =
      rw (store-returning {A = ℕ}) (refresh-IsRooted e r stands h)

  mutate_entry-IsRooted :
      (path : String) (mutator : C → Option SchemaError × C)
      (x : Done (SchemaDoc C S F) SchemaEntry)
      → IsTarget x
      → IsRooted (mutate_entry b path mutator x).1.store
  unfolding IsTarget
  mutate_entry-IsRooted path mutator (err x, r) h = h
  mutate_entry-IsRooted path mutator (ok e, r) (h, stands) =
      elim (Option-cases (Dict.get (r.heap e.doc).contracts_by_path path)) [
        | inl missing ↦ rw (mutate_entry, missing) h
        | inr (c, found) ↦ rw (mutate_entry, found) (after-IsRooted e path r (mutator c) stands h)
      ]

  change_one-store :
      (e : SchemaEntry) (ch : Change V) (r : Docs b) → (change_one b e ch r).1.store ≡ r.store
  change_one-store e ch r = ground arith

  change_all-store :
      (e : SchemaEntry) (changes : List (Change V)) (r : Docs b)
      → (change_all b e changes r).1.store ≡ r.store
  unfolding change_all
  change_all-store e [] r = refl
  change_all-store e (ch ∷ changes) r =
      let one = change_one-store e ch r in
      let r' = (change_one b e ch r).1 in
      elim (Option-cases (change_one b e ch r).0) [
        | inl went ↦ rw (change_all, went) (change_all-store e changes r' ∙ one)
        | inr (x, raised) ↦ rw (change_all, raised) one
      ]

  change_entry-IsRooted :
      (changes : List (Change V)) (x : Done (SchemaDoc C S F) SchemaEntry)
      → IsTarget x
      → IsRooted (change_entry b changes x).1.store
  unfolding IsTarget
  change_entry-IsRooted changes (err x, r) h = h
  change_entry-IsRooted changes (ok e, r) (h, stands) =
      let same = change_all-store e changes r in
      refresh_changed-IsRooted e (change_all b e changes r)
        (let (old, found, name_is, parent_is) = stands in (old, rw same found, name_is, parent_is))
        (rw same h)

  -- What calls make of an empty registry. Between them anyone may write to the documents, or make
  -- new ones. A name that is registered with a parent is new, and the registry has the parent; a
  -- name that is registered without one may be taken.
  pub data Reach : Docs b → Type 0 where
    start :
        (heap : ℕ → SchemaDoc C S F) (next : ℕ)
        → Reach (record { store = []; latest = []; heap = heap; next = next })
    write :
        (heap : ℕ → SchemaDoc C S F) (next : ℕ) {r : Docs b}
        → Reach r
        → Reach (record r { heap = heap; next = next })
    registered : (name : String) (sd : ℕ) {r : Docs b} → Reach r → Reach (register name sd none r).1
    registered_child :
        (name : String) (sd : ℕ) (p : String) (above : SchemaEntry) {r : Docs b}
        → Reach r
        → Dict.get r.store name ≡ none
        → named (some p) ≡ some p
        → Dict.get r.store p ≡ some above
        → Reach (register name sd (some p) r).1
    replaced : (name : String) (sd : ℕ) {r : Docs b} → Reach r → Reach (replace name sd r).1
    mutated :
        (name path : String) (mutator : C → Option SchemaError × C) (revision_name : Option String)
        (deep_copy : Bool) {r : Docs b}
        → Reach r
        → Reach (mutate_contract b name path mutator revision_name deep_copy r).1
    changed :
        (name : String) (changes : List (Change V)) (revision_name : Option String)
        (deep_copy : Bool) {r : Docs b}
        → Reach r
        → Reach (set_schema_attrs b name changes revision_name deep_copy r).1

  nothing-IsRooted : IsRooted []
  unfolding Dict.get
  nothing-IsRooted = record {
    rank = λ k. 0;
    names = λ k e found. absurd (cc found);
    bounded = λ k e found. absurd (cc found);
    parents = λ k e found. absurd (cc found);
  }

  Reach-IsRooted : {r : Docs b} → Reach r → IsRooted r.store
  unfolding mutate_contract set_schema_attrs
  Reach-IsRooted (start heap next) = nothing-IsRooted
  Reach-IsRooted (write heap next {r} h) = Reach-IsRooted h
  Reach-IsRooted (registered name sd {r} h) =
      register-IsRooted name sd none r refl (Reach-IsRooted h)
  Reach-IsRooted (registered_child name sd p above {r} h fresh is_p found) =
      register_child-IsRooted name sd (some p) r p above fresh is_p found (Reach-IsRooted h)
  Reach-IsRooted (replaced name sd {r} h) = replace-IsRooted name sd r (Reach-IsRooted h)
  Reach-IsRooted (mutated name path mutator revision_name deep {r} h) =
      mutate_entry-IsRooted path mutator _
        (target_entry-IsTarget name revision_name deep r (Reach-IsRooted h))
  Reach-IsRooted (changed name [] revision_name deep {r} h) = Reach-IsRooted h
  Reach-IsRooted (changed name (ch ∷ changes) revision_name deep {r} h) =
      change_entry-IsRooted (ch ∷ changes) _
        (target_entry-IsTarget name revision_name deep r (Reach-IsRooted h))

  -- In every registry that calls lead to, where a name that is registered as a child was new and its
  -- parent was there, each registered name has a root that is registered without a parent: the loop
  -- of `_root_name` finds it in as many rounds as there are entries, so that `get_latest_name`
  -- returns.
  pub root_name-IsRoot :
      {r : Docs b}
      → Reach r
      → (name : String) (e : SchemaEntry) → Dict.get r.store name ≡ some e
      → (root : String) × (root_name r.store name ≡ ok root)
        × IsRoot r.store root
        × (get_latest_name name r ≡ ok (latest_of r root))
  unfolding get_latest_name
  root_name-IsRoot {r} h name e found =
      let (root, is_ok, is_root) = root_name-ok r.store (Reach-IsRooted h) name e found in
      (root, is_ok, is_root, rw (get_latest_name, is_ok) refl)
