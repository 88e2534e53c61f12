-- ===== src/Chaos/Request/Skips.antt =====
-- An op that cannot be made takes nothing else down with it.
use havoc_forge.Base.{
  String, ◌≡◌, ◌≢◌, refl, ap, Option, none, some, List, [], ◌∷◌, ◌++◌, inl, inr, Bool-cases,
  Option-cases, ◌==◌, eq_iff,
}
use havoc_forge.Base.Dict
use havoc_forge.Base.Dict.{Dict}
use havoc_forge.Chaos.Op.{Op, OpConfig, ChaosConfig, OpRegistry}
use havoc_forge.Chaos.Manager.{ChaosManager, new_manager, instances, stateful}
use havoc_forge.Chaos.Request.{Progress, choose_op, execute_one, execute_ops}

-- Every configuration can be dumped.
abbrev pub IsDumpable : {P : Type 0} → Dict (OpConfig P) → Type 0
IsDumpable {P} ops = (k : String) (cfg : OpConfig P) → Dict.get ops k ≡ some cfg → cfg.params ≢ none

module _ {M B R P : Type 0} where
  execute-passes :
      (m : ChaosManager M B R P) (ops : Dict (OpConfig P)) (key : String) (xs ys : List String)
      (st : Progress M B R)
      → ((st : Progress M B R) → execute_one (choose_op m ops key) st ≡ some st)
      → execute_ops m ops (xs ++ key ∷ ys) st ≡ execute_ops m ops (xs ++ ys) st
  unfolding execute_ops
  execute-passes m ops key [] ys st h = rw (execute_ops, h st)
  execute-passes m ops key (x ∷ xs) ys st h =
      elim (Option-cases (execute_one (choose_op m ops x) st)) [
        | inl e ↦ rw (execute_ops, e)
        | inr (st', e) ↦ rw (execute_ops, e) (execute-passes m ops key xs ys st' h)
      ]

  no_instance :
      (registry : OpRegistry M B R P) (key : String) (cls : P → Option (Op M B R))
      → Dict.get registry key ≡ some cls
      → ((params : P) → cls params ≡ none)
      → (params : Dict P) → Dict.get (instances registry params) key ≡ none
  unfolding instances Dict.get
  no_instance registry key cls e raises [] = refl
  no_instance registry key cls e raises ((name, params) ∷ rest) =
      let ih = no_instance registry key cls e raises rest in
      elim (Bool-cases (stateful name)) [
        | inl keeps ↦ rw (instances, keeps) ih
        | inr plain ↦ elim (Option-cases (Dict.get registry name)) [
          | inl missing ↦ rw (instances, plain, missing) ih
          | inr (cls', found) ↦ elim (Option-cases (cls' params)) [
            | inl none' ↦ rw (instances, plain, found, none') ih
            | inr (new, made) ↦ elim (Bool-cases (name == key)) [
              | inl same ↦
                  let same' : name ≡ key = (eq_iff name key).0 same in
                  let found' : Dict.get registry key ≡ some cls' = rw (← same') found in
                  let one : cls' ≡ cls = cc (found', e) in
                  absurd
                    (cc (ap (λ (f : P → Option (Op M B R)). f params) one, raises params, made))
              | inr other ↦ rw (instances, plain, found, made, other) ih
            ]
          ]
        ]
      ]

  passes :
      (m : ChaosManager M B R P) (ops : Dict (OpConfig P)) (key : String)
      (cls : P → Option (Op M B R))
      → Dict.get m.registry key ≡ some cls
      → ((params : P) → cls params ≡ none)
      → Dict.get m.op_instances key ≡ none
      → IsDumpable ops
      → (st : Progress M B R) → execute_one (choose_op m ops key) st ≡ some st
  unfolding execute_one choose_op
  passes m ops key cls e raises fresh dumps st =
      elim (Option-cases (Dict.get m.op_params_by_name key)) [
        | inr (params, e') ↦ rw (execute_one, choose_op, e, e', fresh, raises params)
        | inl e' ↦ elim (Option-cases (Dict.get ops key)) [
          | inl e'' ↦ rw (execute_one, choose_op, e, e', e'')
          | inr (cfg, e'') ↦ elim (Option-cases cfg.params) [
            | inl undumped ↦ absurd (dumps key cfg e'' undumped)
            | inr (params, dumped) ↦
                rw (execute_one, choose_op, e, e', e'', dumped, fresh, raises params)
          ]
        ]
      ]

  -- An op that is registered with a class that raises for all parameters, as that of `burst` does when
  -- it is handed `p`, is passed over wherever it stands, if the configuration of every op can be
  -- dumped: a new manager executes the other ops as if it were not there.
  pub raising_class-execute_ops :
      (registry : OpRegistry M B R P) (cfg : ChaosConfig P) (ops : Dict (OpConfig P)) (key : String)
      (cls : P → Option (Op M B R))
      → Dict.get registry key ≡ some cls
      → ((params : P) → cls params ≡ none)
      → IsDumpable ops
      → (xs ys : List String) (st : Progress M B R)
      → execute_ops (new_manager registry cfg) ops (xs ++ key ∷ ys) st
        ≡ execute_ops (new_manager registry cfg) ops (xs ++ ys) st
  raising_class-execute_ops registry cfg ops key cls e raises dumps xs ys st =
      let m = new_manager registry cfg in
      execute-passes m ops key xs ys st (
        passes m ops key cls e raises (no_instance registry key cls e raises m.op_params_by_name)
          dumps)
