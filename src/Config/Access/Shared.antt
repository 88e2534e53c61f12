-- ===== src/Config/Access/Shared.antt =====
-- What the shared manager is after a load that raises, and when its files are read again.
use havoc_forge.Base.{
  String, Bool, true, false, ◌≡◌, refl, sym, ap, Option, none, some, ◌⊎◌, inl, inr, Bool-cases,
  Option-cases, ◌==◌, eq_iff, eq_refl,
}
use havoc_forge.Base.Result.{Result, ok, err}
use havoc_forge.Config.Manager.{Models, ConfigManager, LoadError, load, new_manager}
use havoc_forge.Config.Manager.Status.{load-not_ready}
use havoc_forge.Config.Access.{
  Files, ConfigAccess, share, load_again, get_config_manager, reload_config, note_reload,
  fresh_against, ensure_config_fresh,
}

module _ {V H O : Type 0} (py : Models V H O) where
  -- A manager that is not ready is there, and the next call returns it.
  abbrev pub IsStuck : ConfigAccess V H O → Files V H O → Type 0
  IsStuck s files =
      (m : ConfigManager V H O) × (get_config_manager py files s ≡ (ok m, s)) × (m.ready ≡ false)

  share-IsStuck :
      (s : ConfigAccess V H O) (x : Result LoadError (Unit {0}) × ConfigManager V H O)
      (files : Files V H O) (e : LoadError)
      → (x.0 ≡ err e → x.1.ready ≡ false)
      → (share s x).0 ≡ err e
      → IsStuck (share s x).1 files
  unfolding get_config_manager
  share-IsStuck s (ok _, m) files e unready raised = absurd (cc raised)
  share-IsStuck s (err why, m) files e unready raised = (m, refl, unready (cc raised))

  -- If the first call for the shared manager raises, the next one does not: it returns the manager
  -- whose load raised, which is not ready, and reads no file.
  pub get_config_manager-IsStuck :
      (s : ConfigAccess V H O) (files files' : Files V H O) (e : LoadError)
      → s.manager_singleton ≡ none
      → (get_config_manager py files s).0 ≡ err e
      → IsStuck (get_config_manager py files s).1 files'
  unfolding get_config_manager
  get_config_manager-IsStuck s files files' e first raised =
      let x = load py files.build files.overrides files.now (new_manager files.build.1) in
      let stuck =
        share-IsStuck s x files' e
          (load-not_ready py files.build files.overrides files.now (new_manager files.build.1) e) in
      let is : get_config_manager py files s ≡ share s x = rw first in
      rw is (stuck (rw (← is) raised))

module _ {V H O : Type 0} where
  share-hash :
      (s : ConfigAccess V H O) (x : Result LoadError (Unit {0}) × ConfigManager V H O)
      → (share s x).1.last_conf_hash ≡ s.last_conf_hash
  share-hash s (ok _, m) = refl
  share-hash s (err e, m) = refl

module _ {V H O : Type 0} (py : Models V H O) where
  load_again-hash :
      (files : Files V H O) (x : Result LoadError (ConfigManager V H O) × ConfigAccess V H O)
      → (load_again py files x).1.last_conf_hash ≡ x.1.last_conf_hash
  load_again-hash files (ok m, s) = share-hash s _
  load_again-hash files (err e, s) = refl

  get_config_manager-hash :
      (files : Files V H O) (s : ConfigAccess V H O)
      → (get_config_manager py files s).1.last_conf_hash ≡ s.last_conf_hash
  unfolding get_config_manager
  get_config_manager-hash files s = elim (Option-cases s.manager_singleton) [
    | inl new ↦ rw new (share-hash s _)
    | inr (m, found) ↦ rw found
  ]

  reload_config-hash :
      (files : Files V H O) (s : ConfigAccess V H O)
      → (reload_config py files s).1.last_conf_hash ≡ s.last_conf_hash
  unfolding reload_config
  reload_config-hash files s = rw load_again-hash (get_config_manager-hash files s)

  -- Either the call returned, and the files count as read; or it raised, and what was read last stays.
  abbrev pub IsNoted :
      Files V H O → ConfigAccess V H O → Result LoadError Bool × ConfigAccess V H O → Type 0
  IsNoted files s (r, s') =
      ((b : Bool) × (r ≡ ok b) × (s'.last_conf_hash ≡ some files.digest))
      ⊎ ((e : LoadError) × (r ≡ err e) × (s'.last_conf_hash ≡ s.last_conf_hash))

  note_reload-IsNoted :
      (files : Files V H O) (s : ConfigAccess V H O)
      (x : Result LoadError (ConfigManager V H O) × ConfigAccess V H O)
      → x.1.last_conf_hash ≡ s.last_conf_hash
      → IsNoted files s (note_reload files.digest x)
  note_reload-IsNoted files s (ok m, s') h = inl (true, refl, refl)
  note_reload-IsNoted files s (err e, s') h = inr (e, refl, h)

  fresh_against-IsNoted :
      (files : Files V H O) (s : ConfigAccess V H O) (o : Option String)
      → s.last_conf_hash ≡ o
      → IsNoted files s (fresh_against py files s o)
  fresh_against-IsNoted files s none found = inl (false, refl, refl)
  fresh_against-IsNoted files s (some last) found = elim (Bool-cases (files.digest == last)) [
    | inl same ↦
        rw same (inl (false, refl, rw found (ap some (sym ((eq_iff files.digest last).0 same)))))
    | inr changed ↦ rw changed (note_reload-IsNoted files s _ (reload_config-hash files s))
  ]

  -- A check that returns is not repeated: with the same files the next one returns false and changes
  -- nothing. A check that raises keeps the digest of before, so that the next one compares with it.
  pub ensure_config_fresh_twice :
      (files files' : Files V H O) (s : ConfigAccess V H O)
      → files'.digest ≡ files.digest
      → let (r, s') = ensure_config_fresh py files s in
        ((b : Bool) × (r ≡ ok b) × (ensure_config_fresh py files' s' ≡ (ok false, s')))
        ⊎ ((e : LoadError) × (r ≡ err e) × (s'.last_conf_hash ≡ s.last_conf_hash))
  unfolding ensure_config_fresh
  ensure_config_fresh_twice files files' s same =
      elim (fresh_against-IsNoted files s s.last_conf_hash refl) [
        | inl (b, returned, noted) ↦
            inl (b, returned, rw noted (rw same (rw (eq_refl files.digest))))
        | inr raised ↦ inr raised
      ]
