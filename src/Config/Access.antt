-- ===== src/Config/Access.antt =====
-- havocforge/config/access.py: the one manager that the process shares, and its reload when files
-- change. What a lock guards is one call here. `Files` is what a call finds on the disk.
pub mod Shared
use havoc_forge.Base.{ℕ, String, Bool, true, false, Option, none, some, List, ◌==◌, if◌then◌else◌}
use havoc_forge.Base.Dict.{Dict}
use havoc_forge.Base.Result.{Result, ok, err}
use havoc_forge.Config.Tree.{Overrides}
use havoc_forge.Config.Manager.{Models, BuiltRoot, ConfigManager, new_manager, LoadError, load}

-- The result of building the defaults with the heap that it leaves, the override files, the time
-- and the digest of the files.
pub record Files (V H O : Type 0) : Type 0 where
  pub build : Result String (Dict (BuiltRoot V O)) × H
  pub overrides : List (String × List (String × Overrides V))
  pub now : ℕ
  pub digest : String

pub record ConfigAccess (V H O : Type 0) : Type 0 where
  pub manager_singleton : Option (ConfigManager V H O)
  pub last_conf_hash : Option String

module _ {V H O : Type 0} where
  -- The manager that was loaded is the shared one, whether or not its load raised.
  abbrev pub share :
      ConfigAccess V H O
      → Result LoadError (Unit {0}) × ConfigManager V H O
      → Result LoadError (ConfigManager V H O) × ConfigAccess V H O
  share s (ok _, m) = (ok m, record s { manager_singleton = some m })
  share s (err e, m) = (err e, record s { manager_singleton = some m })

  -- The digest is taken over once the reload has returned.
  abbrev pub note_reload :
      String
      → Result LoadError (ConfigManager V H O) × ConfigAccess V H O
      → Result LoadError Bool × ConfigAccess V H O
  note_reload cur (ok m, s) = (ok true, record s { last_conf_hash = some cur })
  note_reload cur (err e, s) = (err e, s)

module _ {V H O : Type 0} (py : Models V H O) where
  abbrev pub get_or_load :
      Files V H O
      → ConfigAccess V H O
      → Option (ConfigManager V H O)
      → Result LoadError (ConfigManager V H O) × ConfigAccess V H O
  get_or_load files s (some m) = (ok m, s)
  get_or_load files s none =
      share s (load py files.build files.overrides files.now (new_manager files.build.1))

  unfoldable pub get_config_manager :
      Files V H O → ConfigAccess V H O → Result LoadError (ConfigManager V H O) × ConfigAccess V H O
  get_config_manager files s = get_or_load files s s.manager_singleton

  unfoldable pub reset_config_manager :
      Files V H O → ConfigAccess V H O → Result LoadError (ConfigManager V H O) × ConfigAccess V H O
  unfolding get_config_manager
  reset_config_manager files s = get_config_manager files (record s { manager_singleton = none })

  abbrev pub load_again :
      Files V H O
      → Result LoadError (ConfigManager V H O) × ConfigAccess V H O
      → Result LoadError (ConfigManager V H O) × ConfigAccess V H O
  load_again files (err e, s) = (err e, s)
  load_again files (ok m, s) = share s (load py files.build files.overrides files.now m)

  unfoldable pub reload_config :
      Files V H O → ConfigAccess V H O → Result LoadError (ConfigManager V H O) × ConfigAccess V H O
  unfolding get_config_manager
  reload_config files s = load_again files (get_config_manager files s)

  abbrev pub fresh_against :
      Files V H O → ConfigAccess V H O → Option String → Result LoadError Bool × ConfigAccess V H O
  fresh_against files s none = (ok false, record s { last_conf_hash = some files.digest })
  fresh_against files s (some last) =
      if files.digest == last
      then (ok false, s)
      else note_reload files.digest (reload_config files s)

  unfoldable pub ensure_config_fresh :
      Files V H O → ConfigAccess V H O → Result LoadError Bool × ConfigAccess V H O
  unfolding reload_config
  ensure_config_fresh files s = fresh_against files s s.last_conf_hash
