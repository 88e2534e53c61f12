-- ===== src/Chaos/Manager.antt =====
-- havocforge/chaos/manager.py: which chaos ops a request gets, in what order, and what they do to it.
-- Probabilities and weights are whole numbers of 2^-53, the steps of `random()`; an op's counts are
-- not negative.
pub mod Selection
pub mod Plan
use havoc_forge.Base.{
  ℕ, zero, suc, ◌+◌, String, Bool, true, false, ◌&&◌, ◌||◌, Option, none, some, List, [], ◌∷◌, ◌++◌,
  ltb, leb, eqb, min, if◌then◌else◌, length, ◌==◌, ◌≤◌, ◌≡◌,
}
use havoc_forge.Base.Int.{ℤ, pos, ◌+ℤ◌, ltb_ℤ}
use havoc_forge.Base.Dict
use havoc_forge.Base.Dict.{Dict}
use havoc_forge.Base.Find.{keep, All}
use havoc_forge.Chaos.Layer.{Payload, DriftCoordinator}
use havoc_forge.Chaos.Op.{
  ApplyResult, Response, World, Outcome, applied, raised, Op, OpConfig, ChaosConfig, Rng,
  OpRegistry,
}
use havoc_forge.Chaos.Drift.{record_hit}
use text.Mathlib.Text.{find?}
use mathlib.Core.Bool.{not}
use mathlib.Core.Option.{get_or}

pub record ChaosManager (M B R P : Type 0) : Type 0 where
  pub registry : OpRegistry M B R P
  pub cfg : ChaosConfig P
  pub selection_min_ops : ℕ
  pub selection_max_ops : ℕ
  pub candidate_ops : List (String × ℤ × ℤ)
  pub op_params_by_name : Dict P
  pub op_instances : Dict (Op M B R)

abbrev pub stateful : String → Bool
stateful name = name == "burst"

module _ {P : Type 0} where
  abbrev pub candidate : String → OpConfig P → List (String × ℤ × ℤ)
  candidate name cfg = elim cfg.params [
    | none ↦ []
    | some params ↦
        if cfg.enabled && ltb_ℤ (pos 0) cfg.p then (name, cfg.p, cfg.weight) ∷ [] else []
  ]

  -- The loop of `_build_ops_caches` over the registry's keys.
  unfoldable pub candidates : List String → Dict (OpConfig P) → List (String × ℤ × ℤ)
  candidates [] ops = []
  candidates (name ∷ names) ops =
      let rest = candidates names ops in
      elim (Dict.get ops name) [ none ↦ rest | some cfg ↦ candidate name cfg ++ rest ]

  unfoldable pub params_by_name : List String → Dict (OpConfig P) → Dict P
  params_by_name [] ops = []
  params_by_name (name ∷ names) ops =
      let rest = params_by_name names ops in
      elim (Dict.get ops name) [
        | none ↦ rest
        | some cfg ↦ elim cfg.params [ none ↦ rest | some params ↦ (name, params) ∷ rest ]
      ]

module _ {M B R P : Type 0} where
  -- The cached instances: none of an op that keeps state, nor of one whose class raises.
  unfoldable pub instances : OpRegistry M B R P → Dict P → Dict (Op M B R)
  instances registry [] = []
  instances registry ((name, params) ∷ rest) =
      let others = instances registry rest in
      if stateful name then others else elim (Dict.get registry name) [
        | none ↦ others
        | some cls ↦ elim (cls params) [ none ↦ others | some op ↦ (name, op) ∷ others ]
      ]

  abbrev pub new_manager : OpRegistry M B R P → ChaosConfig P → ChaosManager M B R P
  new_manager registry cfg =
      let names = Dict.keys registry in
      let ops = get_or cfg.ops [] in
      let params = params_by_name names ops in
      record {
        registry = registry;
        cfg = cfg;
        selection_min_ops = if cfg.ensure_at_least_one && ltb cfg.min_ops 1 then 1 else cfg.min_ops;
        selection_max_ops = cfg.max_ops;
        candidate_ops = candidates names ops;
        op_params_by_name = params;
        op_instances = instances registry params;
      }

  abbrev pub registered : ChaosManager M B R P → String → Bool
  registered m name = elim (Dict.get m.registry name) [ none ↦ false | some cls ↦ true ]

abbrev pub total_weight : List (String × ℤ) → ℤ
total_weight [] = pos 0
total_weight ((name, w) ∷ l) = w +ℤ total_weight l

abbrev pub names_of : List (String × ℤ) → List String
names_of [] = []
names_of ((name, w) ∷ l) = name ∷ names_of l

abbrev pub weights_of : List (String × ℤ) → List ℤ
weights_of [] = []
weights_of ((name, w) ∷ l) = w ∷ weights_of l

-- `"drift" in name`
abbrev pub is_drift : String → Bool
is_drift name = elim (find? name "drift") [ none ↦ false | some at ↦ true ]

unfoldable pub partition_ops : List String → List String × List String
partition_ops names = (keep is_drift names, keep (λ n. not (is_drift n)) names)

module _ {R : Type 0} (g : Rng R) where
  -- One draw for each candidate, in order; who draws below its probability is eligible.
  unfoldable pub draw_eligible : List (String × ℤ × ℤ) → R → List (String × ℤ) × R
  draw_eligible [] r = ([], r)
  draw_eligible ((name, p, w) ∷ rest) r =
      let (u, r') = g.random r in
      let (l, r'') = draw_eligible rest r' in (if ltb_ℤ (pos u) p then (name, w) ∷ l else l, r'')

  abbrev pub choose : ℕ → ℕ → List (String × ℤ) → R → List String × R
  choose min_ops max_ops [] r = ([], r)
  choose min_ops max_ops (e ∷ l) r =
      let eligible = e ∷ l in
      if ltb_ℤ (pos 0) (total_weight eligible)
      then (let (k, r') = g.randint min_ops max_ops r in
          g.choices (names_of eligible) (weights_of eligible) (min k (length eligible)) r')
      else ([], r)

  module _ {M B P : Type 0} where
    abbrev pub select_random : ChaosManager M B R P → R → List String × R
    select_random m r =
        if eqb m.selection_max_ops 0 || ltb m.selection_max_ops m.selection_min_ops
        then ([], r)
        else (let (eligible, r') = draw_eligible m.candidate_ops r in
            choose m.selection_min_ops m.selection_max_ops eligible r')

    unfoldable pub select_ops : ChaosManager M B R P → List String → R → List String × R
    unfolding draw_eligible
    select_ops m [] r = select_random m r
    select_ops m (name ∷ forced) r = (keep (registered m) (name ∷ forced), r)

    unfoldable pub apply_budget_limits : ChaosManager M B R P → List String → R → List String × R
    apply_budget_limits m names r = elim m.cfg.max_faults_per_request [
      | none ↦ (names, r)
      | some max_faults ↦
          if leb (length names) max_faults then (names, r) else g.sample names max_faults r
    ]

    -- The ops of a request in the order of their execution.
    unfoldable pub plan : ChaosManager M B R P → List String → R → List String × R
    unfolding select_ops partition_ops apply_budget_limits
    plan m forced r =
        let (activated, r') = select_ops m forced r in
        elim activated [
          | [] ↦ ([], r')
          | name ∷ more ↦
              let (drift_ops, regular_ops) = partition_ops (name ∷ more) in
              let (within, r'') = apply_budget_limits m regular_ops r' in (drift_ops ++ within, r'')
        ]
