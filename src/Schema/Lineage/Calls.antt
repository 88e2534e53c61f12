-- ===== src/Schema/Lineage/Calls.antt =====
-- What the calls of the schema registry do to its entries: they keep it rooted.
use havoc_forge.Base.{
  ℕ, String, Bool, true, false, ◌≡◌, refl, sym, Option, none, some, inl, inr, arith, eq_refl,
  Option-cases,
}
use mathlib.Core.Path.{subst}
use havoc_forge.Base.Dict
use havoc_forge.Base.Dict.{Dict, get-set}
use havoc_forge.Base.Result.{ok, err}
use havoc_forge.Schema.Registry.{
  SchemaError, SchemaEntry, SchemaRegistry, Done, named, clone, update_latest, returning, enter,
  register, bump_revision, replace, create_revision_entry, target_entry, get_entry,
}
use havoc_forge.Schema.Lineage.{IsRooted}
use havoc_forge.Schema.Lineage.Set.{
  set_root-IsRooted, set_same-IsRooted, set_fresh-IsRooted, set_clone-IsRooted,
}

module _ {D : Type 0} where
  -- `_update_latest` leaves the entries.
  store-update_latest :
      (e : SchemaEntry) (r : SchemaRegistry D) → (update_latest e r).1.store ≡ r.store
  unfolding update_latest
  store-update_latest e r = ground arith

  store-enter :
      (e : SchemaEntry) (r : SchemaRegistry D) → (enter e r).1.store ≡ Dict.set r.store e.name e
  unfolding enter
  store-enter e r = store-update_latest e _

  pub store-returning :
      {A : Type 0} (a : A) (x : Option SchemaError × SchemaRegistry D)
      → (returning a x).1.store ≡ x.1.store
  store-returning a (none, r) = refl
  store-returning a (some x, r) = refl

  store-register :
      (name : String) (sd : ℕ) (parent : Option String) (r : SchemaRegistry D)
      → (register name sd parent r).1.store
        ≡ Dict.set r.store name (record { name = name; doc = sd; revision = 1; parent = parent })
  unfolding register
  store-register name sd parent r = rw (store-returning {A = ℕ}, store-enter) refl

  pub register-IsRooted :
      (name : String) (sd : ℕ) (parent : Option String) (r : SchemaRegistry D)
      → named parent ≡ none
      → IsRooted r.store
      → IsRooted (register name sd parent r).1.store
  register-IsRooted name sd parent r root h =
      rw store-register (set_root-IsRooted r.store name _ h refl root)

  pub register_child-IsRooted :
      (name : String) (sd : ℕ) (parent : Option String) (r : SchemaRegistry D) (p : String)
      (above : SchemaEntry)
      → Dict.get r.store name ≡ none
      → named parent ≡ some p
      → Dict.get r.store p ≡ some above
      → IsRooted r.store
      → IsRooted (register name sd parent r).1.store
  register_child-IsRooted name sd parent r p above fresh is_p found h =
      rw store-register (set_fresh-IsRooted r.store name _ p above h fresh found refl is_p)

  -- An entry that stands, under its name, for one of the same name and parent.
  abbrev pub Stands : SchemaEntry → SchemaRegistry D → Type 0
  Stands e r =
      (old : SchemaEntry) × (Dict.get r.store e.name ≡ some old)
      × (e.name ≡ old.name)
      × (e.parent ≡ old.parent)

  pub bump-IsRooted :
      (e : SchemaEntry) (r : SchemaRegistry D)
      → Stands e r
      → IsRooted r.store
      → IsRooted (bump_revision e r).1.store
  unfolding bump_revision
  bump-IsRooted e r (old, found, name_is, parent_is) h =
      rw store-enter (set_same-IsRooted r.store e.name _ old h found name_is parent_is)

  pub replace-IsRooted :
      (name : String) (sd : ℕ) (r : SchemaRegistry D)
      → IsRooted r.store
      → IsRooted (replace name sd r).1.store
  unfolding replace
  replace-IsRooted name sd r h = elim (Option-cases (Dict.get r.store name)) [
    | inl missing ↦ rw (replace, missing) (register-IsRooted name sd none r refl h)
    | inr (e, found) ↦
        let is_name = h.names name e found in
        rw (replace, found, store-returning {A = ℕ})
          (bump-IsRooted (record e { doc = sd }) r
            (e, subst (λ x. Dict.get r.store x ≡ some e) (sym is_name) found, refl, refl) h)
  ]

  -- What `_target_entry` gives: an entry that stands in a registry that is still rooted.
  unfoldable pub IsTarget : Done D SchemaEntry → Type 0
  IsTarget (err x, r) = IsRooted r.store
  IsTarget (ok e, r) = IsRooted r.store × Stands e r

  returning-IsTarget :
      (e : SchemaEntry) (x : Option SchemaError × SchemaRegistry D)
      → IsRooted x.1.store
      → Stands e x.1
      → IsTarget (returning e x)
  unfolding IsTarget
  returning-IsTarget e (none, r) h stands = (h, stands)
  returning-IsTarget e (some x, r) h stands = h

  clone-entry :
      (e : SchemaEntry) (new_name : String) (deep : Bool) (r : SchemaRegistry D)
      → ((clone e new_name deep r).0.name ≡ new_name)
        × ((clone e new_name deep r).0.parent ≡ some e.name)
        × ((clone e new_name deep r).1.store ≡ r.store)
  unfolding clone
  clone-entry e new_name true r = (refl, refl, refl)
  clone-entry e new_name false r = (refl, refl, refl)

  enter_new :
      (e : SchemaEntry) (r : SchemaRegistry D)
      → IsRooted (Dict.set r.store e.name e)
      → IsRooted (enter e r).1.store × Stands e (enter e r).1
  enter_new e r h =
      (rw store-enter h, (e, rw (store-enter, get-set, eq_refl e.name) refl, refl, refl))

  create-IsTarget :
      (base_name revision_name : String) (deep : Bool) (r : SchemaRegistry D)
      → Dict.get r.store revision_name ≡ none
      → IsRooted r.store
      → IsTarget (create_revision_entry base_name revision_name deep r)
  unfolding create_revision_entry IsTarget
  create-IsTarget base_name revision_name deep r fresh h =
      elim (Option-cases (Dict.get r.store base_name)) [
        | inl missing ↦ rw (create_revision_entry, missing) h
        | inr (base, found) ↦
            let (e, r') = clone base revision_name deep r in
            let (name_is, parent_is, store_is) = clone-entry base revision_name deep r in
            let set_new =
              set_clone-IsRooted r.store base base_name revision_name e h found fresh name_is
                parent_is in
            let set_new' : IsRooted (Dict.set r'.store e.name e) =
              rw (store_is) (subst (λ x. IsRooted (Dict.set r.store x e)) (sym name_is) set_new) in
            let (rooted, stands) = enter_new e r' set_new' in
            rw (create_revision_entry, found) (returning-IsTarget e (enter e r') rooted stands)
      ]

  pub target_entry-IsTarget :
      (name : String) (revision_name : Option String) (deep : Bool) (r : SchemaRegistry D)
      → IsRooted r.store
      → IsTarget (target_entry name revision_name deep r)
  unfolding target_entry get_entry IsTarget
  target_entry-IsTarget name revision_name deep r h =
      let standing : (k : String) (e : SchemaEntry) → Dict.get r.store k ≡ some e → Stands e r =
        λ k e found. (
          e,
          subst (λ x. Dict.get r.store x ≡ some e) (sym (h.names k e found)) found,
          refl,
          refl,
        ) in
      elim (Option-cases (named revision_name)) [
        | inl none' ↦ elim (Option-cases (Dict.get r.store name)) [
          | inl missing ↦ rw (target_entry, none', get_entry, missing) h
          | inr (e, found) ↦ rw (target_entry, none', get_entry, found) (h, standing name e found)
        ]
        | inr (target, is_target) ↦ elim (Option-cases (Dict.get r.store target)) [
          | inl missing ↦
              rw (target_entry, is_target, missing) (create-IsTarget name target deep r missing h)
          | inr (e, found) ↦ rw (target_entry, is_target, found) (h, standing target e found)
        ]
      ]
