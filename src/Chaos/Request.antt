-- ===== src/Chaos/Request.antt =====
-- havocforge/chaos/manager.py: `_execute_ops` and `apply`, what the chosen ops do to a response.
pub mod Skips
use havoc_forge.Base.{
  ℕ, zero, suc, String, Option, none, some, List, [], ◌∷◌, ◌++◌, if◌then◌else◌, ◌==◌,
}
use havoc_forge.Base.Dict
use havoc_forge.Base.Dict.{Dict}
use havoc_forge.Chaos.Layer.{Payload}
use havoc_forge.Chaos.Drift.{record_hit}
use havoc_forge.Chaos.Op.{ApplyResult, Response, World, Outcome, applied, raised, Op, OpConfig, Rng}
use havoc_forge.Chaos.Manager.{ChaosManager, plan}
use mathlib.Core.Option.{get_or}

-- What the manager does with one name: the op's class may be missing, the configuration too, and the
-- class may raise; a configuration that cannot be dumped ends the request.
pub data Chosen (M B R : Type 0) : Type 0 where
  skip failed broken : Chosen M B R
  op : Op M B R → Chosen M B R

abbrev pub Progress : Type 0 → Type 0 → Type 0 → Type 0
Progress M B R = ApplyResult B × Response × World M R

abbrev pub apply_delta : List (String × Option String) → Dict String → Dict String
apply_delta [] headers = headers
apply_delta ((k, none) ∷ l) headers = apply_delta l (Dict.pop headers k)
apply_delta ((k, some v) ∷ l) headers = apply_delta l (Dict.set headers k v)

-- `if op_result.status`: a status of 0 counts as none.
abbrev pub new_status : Option ℕ → ℕ → ℕ
new_status none old = old
new_status (some zero) old = old
new_status (some (suc n)) old = suc n

module _ {M B R P : Type 0} where
  abbrev pub construct : ChaosManager M B R P → String → P → (P → Option (Op M B R)) → Chosen M B R
  construct m key params cls = elim (Dict.get m.op_instances key) [
    | some cached ↦ op cached
    | none ↦ elim (cls params) [ none ↦ failed | some new ↦ op new ]
  ]

  abbrev pub configured :
      ChaosManager M B R P → Dict (OpConfig P) → String → (P → Option (Op M B R)) → Chosen M B R
  configured m ops key cls = elim (Dict.get m.op_params_by_name key) [
    | some params ↦ construct m key params cls
    | none ↦ elim (Dict.get ops key) [
      | none ↦ skip
      | some cfg ↦ elim cfg.params [ none ↦ broken | some params ↦ construct m key params cls ]
    ]
  ]

  unfoldable pub choose_op : ChaosManager M B R P → Dict (OpConfig P) → String → Chosen M B R
  choose_op m ops key = elim (Dict.get m.registry key) [
    | none ↦ skip
    | some cls ↦ configured m ops key cls
  ]

module _ {M B R : Type 0} where
  abbrev pub settle : ApplyResult B → Outcome B × Response × World M R → Progress M B R
  settle result (raised b, resp, w) = (record result { body = b }, resp, w)
  settle result (applied r, resp, w) = (
    record result { body = r.body; descriptions = result.descriptions ++ r.descriptions },
    record resp {
      status = new_status r.status resp.status;
      headers = apply_delta (get_or r.headers_delta []) resp.headers;
    },
    w,
  )

  -- One round of the loop of `_execute_ops`.
  unfoldable pub execute_one : Chosen M B R → Progress M B R → Option (Progress M B R)
  execute_one skip st = some st
  execute_one failed st = some st
  execute_one broken st = none
  execute_one (op run) (result, resp, w) = some (settle result (run result.body resp w))

module _ {M B R P : Type 0} where
  unfoldable pub execute_ops :
      ChaosManager M B R P
      → Dict (OpConfig P)
      → List String
      → Progress M B R
      → Option (Progress M B R)
  unfolding choose_op execute_one
  execute_ops m ops [] st = some st
  execute_ops m ops (key ∷ keys) st = elim (execute_one (choose_op m ops key) st) [
    | none ↦ none
    | some st' ↦ execute_ops m ops keys st'
  ]

abbrev pub untouched : {B : Type 0} → B → ApplyResult B
untouched body = record { body = body; descriptions = []; status = none; headers_delta = none }

abbrev pub first_response : Option String → Response
first_response schema_name = record {
  headers = ("content-type", "application/json") ∷ [];
  status = 200;
  schema_name = schema_name;
}

-- `if schema_name`: an empty name counts as none.
abbrev pub named : Option String → Option String
named none = none
named (some s) = if s == "" then none else some s

-- The hit that every request for a schema records, for the strategy "chaos".
abbrev pub hit_schema : {M R : Type 0} ⦃pm : Payload M⦄ → Option String → World M R → World M R
hit_schema schema_name w = elim (named schema_name) [
  | none ↦ w
  | some s ↦ record w { drift = (record_hit s "chaos" w.drift).1 }
]

module _ {M B R P : Type 0} ⦃pm : Payload M⦄ (g : Rng R) where
  -- `none`: the call raises. The second part of an answer is the metadata of the response, if any.
  abbrev pub run_plan :
      ChaosManager M B R P
      → B
      → Option String
      → Dict (OpConfig P)
      → World M R
      → List String × R
      → Option (ApplyResult B × Option Response × World M R)
  run_plan m body schema_name ops w ([], r) = some (untouched body, none, record w { rng = r })
  run_plan m body schema_name ops w (name ∷ names, r) =
      elim (execute_ops m ops (name ∷ names)
        (untouched body, first_response schema_name, record w { rng = r })) [
          | none ↦ none
          | some (result, resp, w') ↦ some (result, some resp, w')
        ]

  unfoldable pub apply :
      ChaosManager M B R P
      → B
      → Option String
      → List String
      → World M R
      → Option (ApplyResult B × Option Response × World M R)
  unfolding execute_ops
  apply m body schema_name forced w =
      let w' = hit_schema schema_name w in
      elim m.cfg.ops [
        | none ↦ some (untouched body, none, w')
        | some ops ↦ run_plan m body schema_name ops w' (plan g m forced w'.rng)
      ]
