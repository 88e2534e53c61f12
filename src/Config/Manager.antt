-- ===== src/Config/Manager.antt =====
-- havocforge/config/manager.py: defaults are built, override files applied to them, and whether that
-- went well. The pydantic models stand behind `Models`: objects on a heap `H` with references `O`.
-- Of a log entry stands what its message says, as data.
pub mod Walk
pub mod Status
pub mod FirstWriter
use havoc_forge.Base.{
  ℕ, ◌+◌, ◌<◌, String, Bool, true, false, ◌&&◌, ◌||◌, Option, none, some, List, [], ◌∷◌, ◌++◌, ltb,
  ◌==◌, if◌then◌else◌,
}
use havoc_forge.Base.Dict
use havoc_forge.Base.Dict.{Dict}
use havoc_forge.Base.Result.{Result, ok, err}
use havoc_forge.Base.Text.{join}
use havoc_forge.Config.Tree.{
  Override, value, mapping, Overrides, end, entry, MetaNode, MetaNodes, is_nested, kind,
  default_value, members, find,
}
use mathlib.Core.Bool.{not}
use mathlib.Core.Option.{get_or}

pub data Level : Type 0 where
  applied conflict error : Level

-- The texts are `repr`s of values, file names and the messages of exceptions.
pub data Said : Type 0 where
  build_failed : String → Said
  root_not_found expected_group path_not_found : Said
  set_by : String → String → String → String → Said
  rolled_back : String → String → Said
  rollback_failed : String → String → Said
  no_default : String → Said
  not_assigned : String → Said
  assigned_value : String → Said

pub record LogEntry : Type 0 where
  pub level : Level
  pub path : String
  pub said : Said
  pub file : Option String

-- The file that set a path first, and what it set.
pub record Provenance : Type 0 where
  pub file : String
  pub value_repr : String

-- What an assignment does: pydantic takes the value, or refuses it, or something else is raised.
pub data Assigned (H : Type 0) : Type 0 where
  taken : H → Assigned H
  invalid : String → H → Assigned H
  failed : String → H → Assigned H

-- Pydantic's models, Python's `repr`, and `_safe_attr_name` of havocforge/config/utils.py.
pub record Models (V H O : Type 0) : Type 0 where
  pub getattr : H → O → String → Option (Override V)
  pub child : H → O → String → Option O
  pub setattr : H → O → String → Override V → Assigned H
  pub field_default : O → String → Option (Override V)
  pub repr : Override V → String
  pub safe_attr_name : String → String

pub record BuiltRoot (V O : Type 0) : Type 0 where
  pub meta : MetaNode V
  pub runtime : O

pub record ConfigManager (V H O : Type 0) : Type 0 where
  pub logger : List LogEntry
  pub built : Dict (BuiltRoot V O)
  pub heap : H
  pub provenance : Dict Provenance
  pub ready : Bool
  pub last_loaded_at : Option ℕ
  pub summary : Dict ℕ
  pub rollback_errors : ℕ
  pub hard_errors : ℕ

module _ {V H O : Type 0} where
  abbrev pub new_manager : H → ConfigManager V H O
  new_manager heap = record {
    logger = [];
    built = [];
    heap = heap;
    provenance = [];
    ready = false;
    last_loaded_at = none;
    summary = [];
    rollback_errors = 0;
    hard_errors = 0;
  }

  abbrev pub log : Level → String → Said → Option String → ConfigManager V H O → ConfigManager V H O
  log level path said file m = record m {
    logger = m.logger ++ (record { level = level; path = path; said = said; file = file }) ∷ [];
  }

  -- `self.logger.add("ERROR", …); self._hard_errors += 1`
  abbrev pub hard_error : String → Said → Option String → ConfigManager V H O → ConfigManager V H O
  hard_error path said file m =
      let m' = log error path said file m in record m' { hard_errors = m.hard_errors + 1 }

  -- A conflict is logged without a file of its own.
  abbrev pub conflict_error : String → Said → ConfigManager V H O → ConfigManager V H O
  conflict_error path said m =
      let m' = log conflict path said none m in record m' { hard_errors = m.hard_errors + 1 }

abbrev pub level_name : Level → String
level_name applied = "APPLIED"
level_name conflict = "CONFLICT"
level_name error = "ERROR"

unfoldable pub counts : List LogEntry → Dict ℕ → Dict ℕ
counts [] d = d
counts (e ∷ entries) d =
    let l = level_name e.level in counts entries (Dict.set d l (get_or (Dict.get d l) 0 + 1))

unfoldable pub compute_summary : List LogEntry → Dict ℕ
unfolding counts
compute_summary entries = counts entries []

pub data LoadError : Type 0 where
  build_error : String → LoadError
  config_error : LoadError

module _ {V H O : Type 0} where
  abbrev pub has_problem : ConfigManager V H O → Bool
  has_problem m =
      ltb 0 m.hard_errors || ltb 0 (get_or (Dict.get (compute_summary m.logger) "CONFLICT") 0)

  abbrev pub cleared : ConfigManager V H O → ConfigManager V H O
  cleared m = record m { logger = []; ready = false; rollback_errors = 0; hard_errors = 0 }

  abbrev pub set_provenance : String → String → String → ConfigManager V H O → ConfigManager V H O
  set_provenance path file value_repr m = record m {
    provenance = Dict.set m.provenance path (record { file = file; value_repr = value_repr });
  }

  -- The end of `load`: the summary, the status, and the exception if there is a problem.
  unfoldable pub finish :
      ℕ → ConfigManager V H O → Result LoadError (Unit {0}) × ConfigManager V H O
  unfolding compute_summary
  finish now m = (
    if has_problem m then err config_error else ok tt,
    record m {
      summary = compute_summary m.logger;
      last_loaded_at = some now;
      ready = not (has_problem m);
    },
  )

  unfoldable pub get_root : String → ConfigManager V H O → Option O
  get_root name m = elim (Dict.get m.built name) [ none ↦ none | some bundle ↦ some bundle.runtime ]

module _ {V H O : Type 0} (py : Models V H O) where
  -- Assignment to an attribute of `None` raises.
  abbrev pub set_on : H → Option O → String → Override V → Assigned H
  set_on heap none attr v = failed "'NoneType' object has no attribute" heap
  set_on heap (some parent) attr v = py.setattr heap parent attr v

  abbrev pub get_on : H → Option O → String → Option (Override V)
  get_on heap none attr = none
  get_on heap (some parent) attr = py.getattr heap parent attr

  abbrev pub or_else {ℓ} : {A : Type ℓ} → Option A → Option A → Option A
  or_else none b = b
  or_else (some a) b = some a

  abbrev pub default_on : Option O → String → Option (Override V)
  default_on none attr = none
  default_on (some parent) attr = py.field_default parent attr

  -- What a refused value is replaced by: what was there, or a default.
  abbrev pub fallback_of : H → MetaNode V → Option O → String → Option (Override V)
  fallback_of heap leaf parent attr =
      or_else (get_on heap parent attr) (or_else (default_value leaf) (default_on parent attr))

  -- What is made of the outcome of the second assignment, and of the first.
  abbrev pub rolled_back_to :
      String → String → String → Override V → ConfigManager V H O → Assigned H → ConfigManager V H O
  rolled_back_to path file reason v m (taken heap) =
      let m' = log error path (rolled_back reason (py.repr v)) (some file) m in
      record m' { heap = heap; rollback_errors = m.rollback_errors + 1 }
  rolled_back_to path file reason v m (invalid why heap) =
      hard_error path (rollback_failed reason why) (some file) (record m { heap = heap })
  rolled_back_to path file reason v m (failed why heap) =
      hard_error path (rollback_failed reason why) (some file) (record m { heap = heap })

  abbrev pub roll_back :
      String
      → String
      → String
      → Option O
      → String
      → Option (Override V)
      → ConfigManager V H O
      → ConfigManager V H O
  roll_back path file reason parent attr none m = hard_error path (no_default reason) (some file) m
  roll_back path file reason parent attr (some v) m =
      rolled_back_to path file reason v m (set_on m.heap parent attr v)

  abbrev pub settle :
      String
      → String
      → Option O
      → String
      → Override V
      → Option (Override V)
      → ConfigManager V H O
      → Assigned H
      → ConfigManager V H O
  settle path file parent attr v fallback m (taken heap) =
      log applied path (assigned_value (py.repr v)) (some file) (record m { heap = heap })
  settle path file parent attr v fallback m (invalid reason heap) =
      roll_back path file reason parent attr fallback (record m { heap = heap })
  settle path file parent attr v fallback m (failed why heap) =
      hard_error path (not_assigned why) (some file) (record m { heap = heap })

  -- The assignment of a leaf that no other file has set to another value.
  unfoldable pub assign :
      String
      → MetaNode V
      → Option O
      → String
      → Override V
      → String
      → ConfigManager V H O
      → ConfigManager V H O
  assign path leaf parent attr v file m =
      settle path file parent attr v (fallback_of m.heap leaf parent attr) m
        (set_on m.heap parent attr v)

  -- With the provenance that the path has.
  abbrev pub apply_known :
      String
      → MetaNode V
      → Option O
      → String
      → Override V
      → String
      → ConfigManager V H O
      → Option Provenance
      → ConfigManager V H O
  apply_known path leaf parent attr v file m none =
      assign path leaf parent attr v file (set_provenance path file (py.repr v) m)
  apply_known path leaf parent attr v file m (some prov) =
      if prov.value_repr == py.repr v
      then assign path leaf parent attr v file m
      else conflict_error path (set_by prov.file prov.value_repr file (py.repr v)) m

  unfoldable pub apply_leaf :
      List String
      → MetaNode V
      → Option O
      → String
      → Override V
      → String
      → ConfigManager V H O
      → ConfigManager V H O
  unfolding assign
  apply_leaf path_parts leaf parent attr_name v file m =
      let path = join "." path_parts in
      apply_known path leaf parent (py.safe_attr_name attr_name) v file m
        (Dict.get m.provenance path)

  abbrev pub child_on : H → Option O → String → Option O
  child_on heap none attr = none
  child_on heap (some parent) attr = py.child heap parent attr

  -- One node for `_apply_object`, and the loop over the entries of a mapping.
  unfoldable mutual
    unfolding apply_leaf

    pub apply_override :
        List String
        → String
        → MetaNode V
        → Option O
        → Override V
        → String
        → ConfigManager V H O
        → ConfigManager V H O
    apply_override key_parts key child_meta runtime (value v) file m =
        apply_leaf key_parts child_meta runtime key (value v) file m
    apply_override key_parts key child_meta runtime (mapping o) file m =
        let nested =
          apply_entries key_parts (members child_meta)
            (child_on m.heap runtime (py.safe_attr_name key)) o file m in
        if is_nested (kind child_meta)
        then nested
        else apply_leaf key_parts child_meta runtime key (mapping o) file m

    pub apply_entries :
        List String
        → MetaNodes V
        → Option O
        → Overrides V
        → String
        → ConfigManager V H O
        → ConfigManager V H O
    apply_entries path_parts children runtime end file m = m
    apply_entries path_parts children runtime (entry key v rest) file m =
        let key_parts = path_parts ++ key ∷ [] in
        apply_entries path_parts children runtime rest file (elim (find children key) [
          | none ↦ hard_error (join "." key_parts) path_not_found (some file) m
          | some child_meta ↦ apply_override key_parts key child_meta runtime v file m
        ])

  -- `_apply_override_file` and the test at the head of `_apply_object`, which below the root the
  -- caller has made already.
  unfoldable pub apply_override_file :
      String → BuiltRoot V O → String → Overrides V → ConfigManager V H O → ConfigManager V H O
  unfolding apply_entries
  apply_override_file root_name bundle file payload m =
      if is_nested (kind bundle.meta)
      then apply_entries (root_name ∷ []) (members bundle.meta) (some bundle.runtime) payload file m
      else hard_error root_name expected_group (some file) m

  unfoldable pub apply_files :
      String
      → BuiltRoot V O
      → List (String × Overrides V)
      → ConfigManager V H O
      → ConfigManager V H O
  unfolding apply_override_file
  apply_files root_name bundle [] m = m
  apply_files root_name bundle ((file, payload) ∷ files) m =
      apply_files root_name bundle files (apply_override_file root_name bundle file payload m)

  unfoldable pub apply_roots :
      List (String × List (String × Overrides V)) → ConfigManager V H O → ConfigManager V H O
  unfolding apply_files
  apply_roots [] m = m
  apply_roots ((root_name, files) ∷ roots) m =
      apply_roots roots (elim (Dict.get m.built root_name) [
        | none ↦ hard_error root_name root_not_found none m
        | some bundle ↦ apply_files root_name bundle files m
      ])

  -- `build` is what `build_config` returns or raises, on the heap that it leaves; `overrides` what
  -- the override files hold.
  unfoldable pub load :
      Result String (Dict (BuiltRoot V O)) × H
      → List (String × List (String × Overrides V))
      → ℕ
      → ConfigManager V H O
      → Result LoadError (Unit {0}) × ConfigManager V H O
  unfolding finish apply_roots
  load (err why, heap) overrides now m =
      let m' =
        hard_error "<builder>" (build_failed why) none (record (cleared m) { heap = heap }) in
      (err (build_error why), record m' { summary = compute_summary m'.logger })
  load (ok built, heap) overrides now m =
      finish now
        (apply_roots overrides (record (cleared m) { built = built; heap = heap; provenance = [] }))
