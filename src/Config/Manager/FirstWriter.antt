-- ===== src/Config/Manager/FirstWriter.antt =====
-- No two values are applied at one path.
use havoc_forge.Base.{
  ℕ, suc, String, false, ◌≡◌, refl, Option, none, some, List, [], inl, inr, arith, Bool-cases, ◌==◌,
  eq_iff, eq_refl,
}
use havoc_forge.Base.Dict
use havoc_forge.Base.Dict.{Dict, get-set}
use havoc_forge.Base.Find.{All, All-append_one, All-map}
use havoc_forge.Base.Result.{ok}
use havoc_forge.Base.Text.{join}
use havoc_forge.Config.Tree.{Override, Overrides, MetaNode}
use havoc_forge.Config.Manager.{
  Models, BuiltRoot, ConfigManager, LogEntry, Said, assigned_value, hard_error, Assigned, taken,
  invalid, failed, set_on, fallback_of, rolled_back_to, roll_back, settle, assign, Provenance,
  set_provenance, apply_known, apply_leaf, finish, load, cleared,
}
use havoc_forge.Config.Manager.Walk.{IsUnplaced, no_root, no_group, no_path, roots_keep}

-- What is applied at a path is the value that the path's provenance records.
abbrev pub Agrees : Dict Provenance → String → Said → Type 0
Agrees d path (assigned_value value_repr) =
    (prov : Provenance) × (Dict.get d path ≡ some prov) × (prov.value_repr ≡ value_repr)
Agrees d path _ = Unit

abbrev pub IsProven : Dict Provenance → LogEntry → Type 0
IsProven d e = Agrees d e.path e.said

-- A path that has no provenance gets one.
Agrees-set :
    (d : Dict Provenance) (path : String) (prov : Provenance) (j : String) (said : Said)
    → Dict.get d path ≡ none
    → Agrees d j said
    → Agrees (Dict.set d path prov) j said
Agrees-set d path prov j (assigned_value r) new (p, found, same) = elim (Bool-cases (path == j)) [
  | inl eq ↦
      let is : path ≡ j = (eq_iff path j).0 eq in
      let new' : Dict.get d j ≡ none = rw (← is) new in absurd (cc (found, new'))
  | inr other ↦ (p, rw (get-set, other) found, same)
]
Agrees-set d path prov j _ new h = tt

unplaced-Agrees :
    (d : Dict Provenance) (path : String) (said : Said) → IsUnplaced said → Agrees d path said
unplaced-Agrees d path _ no_root = tt
unplaced-Agrees d path _ no_group = tt
unplaced-Agrees d path _ no_path = tt

module _ {V H O : Type 0} where
  abbrev pub AllProven : ConfigManager V H O → Type 0
  AllProven m = All (IsProven m.provenance) m.logger

  hard_error-AllProven :
      (path : String) (said : Said) (file : Option String) (m : ConfigManager V H O)
      → Agrees m.provenance path said
      → AllProven m
      → AllProven (hard_error path said file m)
  hard_error-AllProven path said file m now h =
      All-append_one (IsProven m.provenance) m.logger _ h now

module _ {V H O : Type 0} (py : Models V H O) where
  rolled_back_to-AllProven :
      (path file reason : String) (v : Override V) (m : ConfigManager V H O) (x : Assigned H)
      → AllProven m
      → AllProven (rolled_back_to py path file reason v m x)
  rolled_back_to-AllProven path file reason v m (taken heap) h =
      All-append_one (IsProven m.provenance) m.logger _ h tt
  rolled_back_to-AllProven path file reason v m (invalid why heap) h =
      All-append_one (IsProven m.provenance) m.logger _ h tt
  rolled_back_to-AllProven path file reason v m (failed why heap) h =
      All-append_one (IsProven m.provenance) m.logger _ h tt

  roll_back-AllProven :
      (path file reason : String) (parent : Option O) (attr : String) (v : Option (Override V))
      (m : ConfigManager V H O)
      → AllProven m
      → AllProven (roll_back py path file reason parent attr v m)
  roll_back-AllProven path file reason parent attr none m h =
      All-append_one (IsProven m.provenance) m.logger _ h tt
  roll_back-AllProven path file reason parent attr (some v) m h =
      rolled_back_to-AllProven path file reason v m (set_on py m.heap parent attr v) h

  settle-AllProven :
      (path file : String) (parent : Option O) (attr : String) (v : Override V)
      (fallback : Option (Override V)) (m : ConfigManager V H O) (x : Assigned H)
      → Agrees m.provenance path (assigned_value (py.repr v))
      → AllProven m
      → AllProven (settle py path file parent attr v fallback m x)
  settle-AllProven path file parent attr v fallback m (taken heap) now h =
      All-append_one (IsProven m.provenance) m.logger _ h now
  settle-AllProven path file parent attr v fallback m (invalid reason heap) now h =
      roll_back-AllProven path file reason parent attr fallback (record m { heap = heap }) h
  settle-AllProven path file parent attr v fallback m (failed why heap) now h =
      All-append_one (IsProven m.provenance) m.logger _ h tt

  assign-AllProven :
      (path : String) (leaf : MetaNode V) (parent : Option O) (attr : String) (v : Override V)
      (file : String) (m : ConfigManager V H O)
      → Agrees m.provenance path (assigned_value (py.repr v))
      → AllProven m
      → AllProven (assign py path leaf parent attr v file m)
  unfolding assign
  assign-AllProven path leaf parent attr v file m now h =
      settle-AllProven path file parent attr v (fallback_of py m.heap leaf parent attr) m
        (set_on py m.heap parent attr v) now h

  apply_known-AllProven :
      (path : String) (leaf : MetaNode V) (parent : Option O) (attr : String) (v : Override V)
      (file : String) (m : ConfigManager V H O) (o : Option Provenance)
      → Dict.get m.provenance path ≡ o
      → AllProven m
      → AllProven (apply_known py path leaf parent attr v file m o)
  apply_known-AllProven path leaf parent attr v file m none new h =
      let prov : Provenance = record { file = file; value_repr = py.repr v } in
      assign-AllProven path leaf parent attr v file (set_provenance path file (py.repr v) m)
        (prov, rw (get-set, eq_refl path) refl, refl)
        (All-map (λ e. Agrees-set m.provenance path prov e.path e.said new) m.logger h)
  apply_known-AllProven path leaf parent attr v file m (some prov) found h =
      elim (Bool-cases (prov.value_repr == py.repr v)) [
        | inl same ↦ rw same (
            assign-AllProven path leaf parent attr v file m
              (prov, found, (eq_iff prov.value_repr (py.repr v)).0 same) h)
        | inr differs ↦ rw differs (All-append_one (IsProven m.provenance) m.logger _ h tt)
      ]

  apply_leaf-AllProven :
      (path_parts : List String) (leaf : MetaNode V) (parent : Option O) (name : String)
      (v : Override V) (file : String) (m : ConfigManager V H O)
      → AllProven m
      → AllProven (apply_leaf py path_parts leaf parent name v file m)
  unfolding apply_leaf
  apply_leaf-AllProven path_parts leaf parent name v file m h =
      let path = join "." path_parts in
      apply_known-AllProven path leaf parent (py.safe_attr_name name) v file m
        (Dict.get m.provenance path) refl h

  -- Whatever the override files hold and whatever pydantic makes of it, every value that a load
  -- reports as applied is the one that the provenance of its path records: files that set one path
  -- to different values are never both applied.
  pub load-AllProven :
      (built : Dict (BuiltRoot V O)) (heap : H)
      (overrides : List (String × List (String × Overrides V))) (now : ℕ) (m : ConfigManager V H O)
      → AllProven (load py (ok built, heap) overrides now m).1
  unfolding load finish
  load-AllProven built heap overrides now m =
      roots_keep py AllProven
        (λ path said file m' unplaced h.
          hard_error-AllProven path said file m' (unplaced-Agrees m'.provenance path said unplaced)
            h)
        apply_leaf-AllProven overrides
        (record (cleared m) { built = built; heap = heap; provenance = [] }) tt

  -- A value that is refused locks its path all the same: where pydantic leaves the object as it is and
  -- takes the old value back, the error is not a hard one, but a second value for the path that reads
  -- differently is then a hard error and is not assigned.
  pub refused-locks :
      (path_parts : List String) (leaf : MetaNode V) (parent : O) (name : String)
      (v w old : Override V) (file file' reason : String) (m : ConfigManager V H O)
      → Dict.get m.provenance (join "." path_parts) ≡ none
      → py.getattr m.heap parent (py.safe_attr_name name) ≡ some old
      → py.setattr m.heap parent (py.safe_attr_name name) v ≡ invalid reason m.heap
      → py.setattr m.heap parent (py.safe_attr_name name) old ≡ taken m.heap
      → (py.repr v == py.repr w) ≡ false
      → let m' = apply_leaf py path_parts leaf (some parent) name v file m in
        let m'' = apply_leaf py path_parts leaf (some parent) name w file' m' in
        (m'.heap ≡ m.heap)
        × (m'.hard_errors ≡ m.hard_errors)
        × (m''.heap ≡ m.heap)
        × (m''.hard_errors ≡ suc m.hard_errors)
  unfolding apply_leaf assign
  refused-locks path_parts leaf parent name v w old file file' reason m new was refused back
        differs =
      rw new (
        rw refused (
          rw was (
            rw back (
              rw get-set (
                rw (eq_refl (join "." path_parts)) (rw differs (refl, refl, refl, omega arith)))))))
