-- ===== src/Config/Manager/Status.antt =====
-- The counters of a load, and what its status says.
use havoc_forge.Base.{
  ℕ, ◌+◌, ◌≤◌, String, Bool, true, false, ◌≡◌, refl, ◌∙◌, Option, none, some, List, [], ◌∷◌, ◌++◌,
  inl, inr, arith, Bool-cases, if_both, ltb, ◌==◌, ◌↔◌, if◌then◌else◌,
}
use havoc_forge.Base.Dict
use havoc_forge.Base.Dict.{Dict, get-set}
use havoc_forge.Base.Find.{count, count-append_one}
use havoc_forge.Base.Result.{Result, ok, err}
use havoc_forge.Base.Text.{join}
use havoc_forge.Config.Tree.{Override, Overrides, MetaNode}
use havoc_forge.Config.Manager.{
  Models, BuiltRoot, ConfigManager, Level, applied, conflict, error, LogEntry, Said, hard_error,
  conflict_error, rolled_back, rolled_back_to, settle, apply_known, assigned_value, Provenance,
  set_by, taken, invalid, failed, Assigned, set_on, fallback_of, roll_back, assign, apply_leaf,
  apply_roots, counts, compute_summary, level_name, has_problem, finish, load, LoadError, cleared,
  set_provenance,
}
use havoc_forge.Config.Manager.Walk.{roots_keep}
use mathlib.Core.Option.{get_or}

abbrev pub is_conflict : LogEntry → Bool
is_conflict e = elim e.level [ conflict ↦ true | _ ↦ false ]

abbrev pub is_error : LogEntry → Bool
is_error e = elim e.level [ error ↦ true | _ ↦ false ]

module _ {V H O : Type 0} where
  -- The counters against the log: every conflict is a hard error, and every error is a hard one or
  -- one that was rolled back.
  pub record IsCounted (m : ConfigManager V H O) : Type 0 where
    pub conflicts : count is_conflict m.logger ≤ m.hard_errors
    pub errors :
        count is_conflict m.logger + count is_error m.logger ≡ m.hard_errors + m.rollback_errors

  -- One entry more, with the counters that its level asks for.
  logged :
      (e : LogEntry) (m : ConfigManager V H O) (hard rolled : ℕ)
      → IsCounted m
      → (if is_conflict e then 1 else 0) ≤ hard
      → (if is_conflict e then 1 else 0) + (if is_error e then 1 else 0) ≡ hard + rolled
      → (count is_conflict (m.logger ++ e ∷ []) ≤ m.hard_errors + hard)
        × (count is_conflict (m.logger ++ e ∷ []) + count is_error (m.logger ++ e ∷ [])
            ≡ (m.hard_errors + hard) + (m.rollback_errors + rolled))
  logged e m hard rolled h conflicts errors =
      let c = count-append_one is_conflict m.logger e in
      let r = count-append_one is_error m.logger e in
      (omega (arith, c, conflicts, h.conflicts), omega (arith, c, r, errors, h.errors))

  hard_error-IsCounted :
      (path : String) (said : Said) (file : Option String) (m : ConfigManager V H O)
      → IsCounted m
      → IsCounted (hard_error path said file m)
  hard_error-IsCounted path said file m h =
      let e : LogEntry = record { level = error; path = path; said = said; file = file } in
      let (c, r) = logged e m 1 0 h (omega arith) (omega arith) in
      record { conflicts = c; errors = omega (arith, r) }

  -- The heap and the provenance are not counted.
  moved :
      (m m' : ConfigManager V H O)
      → m.logger ≡ m'.logger
      → m.hard_errors ≡ m'.hard_errors
      → m.rollback_errors ≡ m'.rollback_errors
      → IsCounted m
      → IsCounted m'
  moved m m' l e r h = record {
    conflicts = rw (← l) (omega (arith, e, h.conflicts));
    errors = rw (← l) (omega (arith, e, r, h.errors));
  }

  conflict_error-IsCounted :
      (path : String) (said : Said) (m : ConfigManager V H O)
      → IsCounted m
      → IsCounted (conflict_error path said m)
  conflict_error-IsCounted path said m h =
      let e : LogEntry = record { level = conflict; path = path; said = said; file = none } in
      let (c, r) = logged e m 1 0 h (omega arith) (omega arith) in
      record { conflicts = c; errors = omega (arith, r) }

  -- The heap and the provenance are not counted.
  on_heap :
      (heap : H) (m : ConfigManager V H O) → IsCounted m → IsCounted (record m { heap = heap })
  on_heap heap m h = record { conflicts = h.conflicts; errors = h.errors }

module _ {V H O : Type 0} (py : Models V H O) where
  rolled_back_to-IsCounted :
      (path file reason : String) (v : Override V) (m : ConfigManager V H O) (x : Assigned H)
      → IsCounted m
      → IsCounted (rolled_back_to py path file reason v m x)
  rolled_back_to-IsCounted path file reason v m (taken heap) h =
      let e : LogEntry = record {
        level = error;
        path = path;
        said = rolled_back reason (py.repr v);
        file = some file;
      } in
      let (c, r) = logged e m 0 1 h (omega arith) (omega arith) in
      record { conflicts = omega (arith, c); errors = omega (arith, r) }
  rolled_back_to-IsCounted path file reason v m (invalid why heap) h =
      hard_error-IsCounted path _ _ _ (on_heap heap m h)
  rolled_back_to-IsCounted path file reason v m (failed why heap) h =
      hard_error-IsCounted path _ _ _ (on_heap heap m h)

  roll_back-IsCounted :
      (path file reason : String) (parent : Option O) (attr : String) (v : Option (Override V))
      (m : ConfigManager V H O)
      → IsCounted m
      → IsCounted (roll_back py path file reason parent attr v m)
  roll_back-IsCounted path file reason parent attr none m h = hard_error-IsCounted path _ _ m h
  roll_back-IsCounted path file reason parent attr (some v) m h =
      rolled_back_to-IsCounted path file reason v m _ h

  settle-IsCounted :
      (path file : String) (parent : Option O) (attr : String) (v : Override V)
      (fallback : Option (Override V)) (m : ConfigManager V H O) (x : Assigned H)
      → IsCounted m
      → IsCounted (settle py path file parent attr v fallback m x)
  settle-IsCounted path file parent attr v fallback m (taken heap) h =
      let e : LogEntry = record {
        level = applied;
        path = path;
        said = assigned_value (py.repr v);
        file = some file;
      } in
      let (c, r) = logged e m 0 0 h (omega arith) (omega arith) in
      record { conflicts = omega (arith, c); errors = omega (arith, r) }
  settle-IsCounted path file parent attr v fallback m (invalid reason heap) h =
      roll_back-IsCounted path file reason parent attr fallback _ (on_heap heap m h)
  settle-IsCounted path file parent attr v fallback m (failed why heap) h =
      hard_error-IsCounted path _ _ _ (on_heap heap m h)

  assign-IsCounted :
      (path : String) (leaf : MetaNode V) (parent : Option O) (attr : String) (v : Override V)
      (file : String) (m : ConfigManager V H O)
      → IsCounted m
      → IsCounted (assign py path leaf parent attr v file m)
  unfolding assign
  assign-IsCounted path leaf parent attr v file m h =
      settle-IsCounted path file parent attr v (fallback_of py m.heap leaf parent attr) m
        (set_on py m.heap parent attr v) h

  apply_known-IsCounted :
      (path : String) (leaf : MetaNode V) (parent : Option O) (attr : String) (v : Override V)
      (file : String) (m : ConfigManager V H O) (o : Option Provenance)
      → IsCounted m
      → IsCounted (apply_known py path leaf parent attr v file m o)
  apply_known-IsCounted path leaf parent attr v file m none h =
      assign-IsCounted path leaf parent attr v file (set_provenance path file (py.repr v) m)
        (record { conflicts = h.conflicts; errors = h.errors })
  apply_known-IsCounted path leaf parent attr v file m (some prov) h =
      if_both IsCounted (prov.value_repr == py.repr v)
        (assign-IsCounted path leaf parent attr v file m h)
        (conflict_error-IsCounted path (set_by prov.file prov.value_repr file (py.repr v)) m h)

  apply_leaf-IsCounted :
      (path_parts : List String) (leaf : MetaNode V) (parent : Option O) (name : String)
      (v : Override V) (file : String) (m : ConfigManager V H O)
      → IsCounted m
      → IsCounted (apply_leaf py path_parts leaf parent name v file m)
  unfolding apply_leaf
  apply_leaf-IsCounted path_parts leaf parent name v file m h =
      apply_known-IsCounted (join "." path_parts) leaf parent (py.safe_attr_name name) v file m _ h

  load-IsCounted :
      (built : Dict (BuiltRoot V O)) (heap : H)
      (overrides : List (String × List (String × Overrides V))) (m : ConfigManager V H O)
      → IsCounted (
          apply_roots py overrides
            (record (cleared m) { built = built; heap = heap; provenance = [] }))
  load-IsCounted built heap overrides m =
      roots_keep py IsCounted
        (λ path said file m unplaced h. hard_error-IsCounted path said file m h)
        apply_leaf-IsCounted overrides _ (record { conflicts = omega arith; errors = omega arith })

-- The summary holds as many conflicts as the log.
conflict_of : Level → ℕ
conflict_of conflict = 1
conflict_of _ = 0

bumped :
    (l : Level) (d : Dict ℕ)
    → get_or
        (Dict.get (Dict.set d (level_name l) (get_or (Dict.get d (level_name l)) 0 + 1)) "CONFLICT")
        0
      ≡ conflict_of l + get_or (Dict.get d "CONFLICT") 0
unfolding conflict_of
bumped applied d = rw get-set (omega arith)
bumped conflict d = rw get-set (omega arith)
bumped error d = rw get-set (omega arith)

count-cons :
    (e : LogEntry) (entries : List LogEntry)
    → count is_conflict (e ∷ entries) ≡ conflict_of e.level + count is_conflict entries
unfolding conflict_of
count-cons e entries = ground arith

counts-get :
    (entries : List LogEntry) (d : Dict ℕ)
    → get_or (Dict.get (counts entries d) "CONFLICT") 0
      ≡ count is_conflict entries + get_or (Dict.get d "CONFLICT") 0
unfolding counts
counts-get [] d = omega arith
counts-get (e ∷ entries) d =
    let l = level_name e.level in
    counts-get entries (Dict.set d l (get_or (Dict.get d l) 0 + 1))
    ∙ omega (arith, bumped e.level d, count-cons e entries)

module _ {V H O : Type 0} where
  has_problem_iff : (m : ConfigManager V H O) → IsCounted m → has_problem m ≡ ltb 0 m.hard_errors
  unfolding compute_summary Dict.get
  has_problem_iff m h =
      let n = count is_conflict m.logger in
      let e : get_or (Dict.get (compute_summary m.logger) "CONFLICT") 0 ≡ n =
        counts-get m.logger [] ∙ omega arith in
      rw e (ground (arith, h.conflicts))

module _ {V H O : Type 0} where
  pub record IsReported (res : Result LoadError (Unit {0}) × ConfigManager V H O) : Type 0 where
    pub counted : IsCounted res.1
    pub ready_iff : (res.1.ready ≡ true) ↔ (res.1.hard_errors ≡ 0)
    pub raises_iff : (res.0 ≡ ok tt) ↔ (res.1.ready ≡ true)

  finish-raises :
      (now : ℕ) (m : ConfigManager V H O)
      → ((finish now m).0 ≡ ok tt) ↔ ((finish now m).1.ready ≡ true)
  unfolding finish
  finish-raises now m = elim (Bool-cases (has_problem m)) [
    | inl e ↦ rw e (ground arith)
    | inr e ↦ rw e (ground arith)
  ]

module _ {V H O : Type 0} (py : Models V H O) where
  -- Whatever the override files hold, a load whose defaults could be built counts every error and
  -- conflict of its log as hard or as rolled back, and every conflict as hard; it is ready exactly if
  -- no error was hard, and raises exactly if it is not ready.
  pub load-IsReported :
      (built : Dict (BuiltRoot V O)) (heap : H)
      (overrides : List (String × List (String × Overrides V))) (now : ℕ) (m : ConfigManager V H O)
      → IsReported (load py (ok built, heap) overrides now m)
  unfolding load finish
  load-IsReported built heap overrides now m =
      let h = load-IsCounted py built heap overrides m in
      let m' =
        apply_roots py overrides
          (record (cleared m) { built = built; heap = heap; provenance = [] }) in
      record {
        counted = record { conflicts = h.conflicts; errors = h.errors };
        ready_iff = rw (has_problem_iff m' h) (ground arith);
        raises_iff = finish-raises now m';
      }

  -- A load that raises, also when the defaults could not be built, leaves the manager not ready.
  pub load-not_ready :
      (build : Result String (Dict (BuiltRoot V O)) × H)
      (overrides : List (String × List (String × Overrides V))) (now : ℕ) (m : ConfigManager V H O)
      (e : LoadError)
      → (load py build overrides now m).0 ≡ err e
      → (load py build overrides now m).1.ready ≡ false
  unfolding load finish
  load-not_ready (err why, heap) overrides now m e h = refl
  load-not_ready (ok built, heap) overrides now m e h =
      let m' =
        apply_roots py overrides
          (record (cleared m) { built = built; heap = heap; provenance = [] }) in
      elim (Bool-cases (has_problem m')) [ inl p ↦ rw p | inr p ↦ absurd (cc (h, p)) ]
