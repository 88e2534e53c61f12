-- ===== src/Schema/Isolation.antt =====
-- A change of a deep-copied revision leaves the other schemas alone.
use havoc_forge.Base.{
  ℕ, ◌+◌, ◌<◌, String, true, false, ◌≡◌, refl, sym, Option, none, some, inl, inr, arith, Bool-cases,
  Option-cases, ◌==◌, eq_iff, eqb,
}
use mathlib.Core.Path.{subst}
use havoc_forge.Base.Dict
use havoc_forge.Base.Dict.{Dict, get-set}
use havoc_forge.Base.Result.{ok, err, Result-cases}
use havoc_forge.Schema.Registry.{
  SchemaError, SchemaEntry, SchemaRegistry, SchemaDoc, Done, named, put, clone, enter,
  update_latest, returning, bump_revision, target_entry, create_revision_entry,
}
use havoc_forge.Schema.Contracts.{
  Builder, Docs, mutate_contract, mutate_entry, after_mutator, refresh_entry, put_contract,
}

module _ {D : Type 0} where
  -- Every document below the first new address, and every entry, is as it was.
  pub record LeavesOld (r r' : SchemaRegistry D) : Type 0 where
    pub documents : (i : ℕ) → i < r.next → r'.heap i ≡ r.heap i
    pub entries :
        (k : String) (e : SchemaEntry) → Dict.get r.store k ≡ some e → Dict.get r'.store k ≡ some e

  put-LeavesOld :
      (r x : SchemaRegistry D) (i : ℕ) (d : D)
      → LeavesOld r x
      → i ≡ r.next
      → LeavesOld r (record x { heap = put x.heap i d })
  put-LeavesOld r x i d h is_new = record {
    documents = λ j lt. let off : eqb j i ≡ false = ground arith in rw off (h.documents j lt);
    entries = h.entries;
  }

  update_latest-keeps :
      (e : SchemaEntry) (r : SchemaRegistry D)
      → ((update_latest e r).1.store ≡ r.store) × ((update_latest e r).1.heap ≡ r.heap)
  unfolding update_latest
  update_latest-keeps e r = (ground arith, ground arith)

  enter-LeavesOld :
      (r x : SchemaRegistry D) (e : SchemaEntry)
      → LeavesOld r x
      → Dict.get r.store e.name ≡ none
      → LeavesOld r (enter e x).1
  unfolding enter
  enter-LeavesOld r x e h fresh =
      let (store_is, heap_is) =
        update_latest-keeps e (record x { store = Dict.set x.store e.name e }) in
      record {
        documents = λ j lt. rw heap_is (h.documents j lt);
        entries = λ k f found. elim (Bool-cases (e.name == k)) [
          | inl same ↦
              let is : e.name ≡ k = (eq_iff e.name k).0 same in
              let found' = subst (λ y. Dict.get r.store y ≡ some f) (sym is) found in
              absurd (cc (fresh, found'))
          | inr other ↦ rw (store_is, get-set, other) (h.entries k f found)
        ];
      }

  returning-LeavesOld :
      {A : Type 0} (r : SchemaRegistry D) (a : A) (x : Option SchemaError × SchemaRegistry D)
      → LeavesOld r x.1
      → LeavesOld r (returning a x).1
  returning-LeavesOld r a (none, x) h = h
  returning-LeavesOld r a (some y, x) h = h

  -- A target whose document and name are new.
  IsNewTarget : SchemaRegistry D → String → Done D SchemaEntry → Type 0
  IsNewTarget r rev (err y, x) = LeavesOld r x
  IsNewTarget r rev (ok e, x) = LeavesOld r x × (e.doc ≡ r.next) × (e.name ≡ rev)

  returning-IsNewTarget :
      (r : SchemaRegistry D) (rev : String) (e : SchemaEntry)
      (x : Option SchemaError × SchemaRegistry D)
      → LeavesOld r x.1
      → e.doc ≡ r.next
      → e.name ≡ rev
      → IsNewTarget r rev (returning e x)
  unfolding IsNewTarget
  returning-IsNewTarget r rev e (none, x) h new is = (h, new, is)
  returning-IsNewTarget r rev e (some y, x) h new is = h

  itself : (r : SchemaRegistry D) → LeavesOld r r
  itself r = record { documents = λ i lt. refl; entries = λ k e found. found }

  target-IsNewTarget :
      (name rev : String) (r : SchemaRegistry D)
      → named (some rev) ≡ some rev
      → Dict.get r.store rev ≡ none
      → IsNewTarget r rev (target_entry name (some rev) true r)
  unfolding target_entry create_revision_entry clone IsNewTarget
  target-IsNewTarget name rev r is_named fresh = elim (Option-cases (Dict.get r.store name)) [
    | inl missing ↦ rw (target_entry, is_named, fresh, create_revision_entry, missing) (itself r)
    | inr (base, found) ↦
        let (e, r') = clone base rev true r in
        let copied : LeavesOld r r' = record {
          documents = λ j lt. let off : eqb j r.next ≡ false = ground arith in rw off refl;
          entries = λ k f got. got;
        } in
        rw (target_entry, is_named, fresh, create_revision_entry, found)
          (returning-IsNewTarget r rev e (enter e r') (enter-LeavesOld r r' e copied fresh) refl
            refl)
  ]

module _ {C S F V : Type 0} (b : Builder C S F V) where
  refresh-LeavesOld :
      (r x : Docs b) (e : SchemaEntry)
      → LeavesOld r x
      → e.doc ≡ r.next
      → Dict.get r.store e.name ≡ none
      → LeavesOld r (refresh_entry b e x).1
  unfolding refresh_entry bump_revision
  refresh-LeavesOld r x e h is_new fresh =
      let contracts = (x.heap e.doc).contracts_by_path in
      elim (Result-cases (b.synthesize_root_spec contracts)) [
        | inr (y, failed) ↦ rw (refresh_entry, failed) h
        | inl (spec, made) ↦
            let h' =
              put-LeavesOld r x e.doc (record (x.heap e.doc) { engine_spec = some spec }) h
                is_new in
            elim (Result-cases (b.preflight_sample e.name contracts)) [
              | inr (y, failed) ↦ rw (refresh_entry, made, failed) h'
              | inl (report, passed) ↦
                  rw (refresh_entry, made, passed)
                    (enter-LeavesOld r _ (record e { revision = e.revision + 1 })
                      (put-LeavesOld r _ e.doc _ h' is_new) fresh)
            ]
      ]

  after-LeavesOld :
      (r x : Docs b) (e : SchemaEntry) (path : String) (y : Option SchemaError × C)
      → LeavesOld r x
      → e.doc ≡ r.next
      → Dict.get r.store e.name ≡ none
      → LeavesOld r (after_mutator b e path x y).1
  after-LeavesOld r x e path (some y, c) h is_new fresh = put-LeavesOld r x e.doc _ h is_new
  after-LeavesOld r x e path (none, c) h is_new fresh =
      returning-LeavesOld r e.doc (refresh_entry b e (put_contract b e.doc path c x)) (
        refresh-LeavesOld r (put_contract b e.doc path c x) e (put-LeavesOld r x e.doc _ h is_new)
          is_new fresh)

  mutate_entry-LeavesOld :
      (r : Docs b) (rev path : String) (mutator : C → Option SchemaError × C)
      (x : Done (SchemaDoc C S F) SchemaEntry)
      → Dict.get r.store rev ≡ none
      → IsNewTarget r rev x
      → LeavesOld r (mutate_entry b path mutator x).1
  unfolding IsNewTarget
  mutate_entry-LeavesOld r rev path mutator (err y, x) fresh h = h
  mutate_entry-LeavesOld r rev path mutator (ok e, x) fresh (h, is_new, is_rev) =
      let fresh' = subst (λ k. Dict.get r.store k ≡ none) (sym is_rev) fresh in
      elim (Option-cases (Dict.get (x.heap e.doc).contracts_by_path path)) [
        | inl missing ↦ rw (mutate_entry, missing) h
        | inr (c, found) ↦
            rw (mutate_entry, found) (after-LeavesOld r x e path (mutator c) h is_new fresh')
      ]

  -- A contract that is changed on a deep copy, under a revision name that is not empty and not
  -- taken, leaves every document and every entry from before as it was, whatever raises on the way.
  pub mutate_contract-LeavesOld :
      (name path rev : String) (mutator : C → Option SchemaError × C) (r : Docs b)
      → named (some rev) ≡ some rev
      → Dict.get r.store rev ≡ none
      → LeavesOld r (mutate_contract b name path mutator (some rev) true r).1
  unfolding mutate_contract
  mutate_contract-LeavesOld name path rev mutator r is_named fresh =
      mutate_entry-LeavesOld r rev path mutator _ fresh
        (target-IsNewTarget name rev r is_named fresh)
