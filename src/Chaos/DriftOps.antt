-- ===== src/Chaos/DriftOps.antt =====
-- havocforge/chaos/ops/drift/schema_drift.py and data_drift.py: `apply` of the two ops that change
-- schemas, clients of the drift registry. What `_mutate_schema` does to a state `W`, with the random
-- numbers and the schemas in it, or that it raises, is an argument.
pub mod Layers
pub mod Renewal
use havoc_forge.Base.{
  ℕ, String, Bool, true, false, ◌&&◌, Option, none, some, List, [], ◌∷◌, if◌then◌else◌, length,
}
use havoc_forge.Base.Find.{keep, last}
use havoc_forge.Base.Result.{Result, ok, err}
use havoc_forge.Base.Text.{concat, show_ℕ}
use havoc_forge.Chaos.Layer.{
  Payload, DriftLayer, DriftCoordinator, LayerArgs, exhausted, of_strategy,
}
use havoc_forge.Chaos.Drift.{
  create_and_register_layer, remove_layer, active_layers, allow_activation,
}
use havoc_forge.Chaos.LateArrival.{or_name}
use havoc_forge.Chaos.Op.{ApplyResult}

-- What both ops are made with.
pub record DriftOp : Type 0 where
  pub enabled : Bool
  pub schema_name : Option String
  pub layering_enabled : Bool
  pub max_layers_total : Option ℕ
  pub max_layers_per_strategy : Option ℕ
  pub max_hits : Option ℕ
  pub request_quota : Option ℕ

abbrev pub schema_drift : String
schema_drift = "schema_drift"

abbrev pub data_drift : String
data_drift = "data_drift"

-- The schema's name and the new revision's, for the revision's name and the modifications.
abbrev pub MutateSchema : Type 0 → Type 0 → Type 0
MutateSchema E W = String → String → W → Result E (String × List String) × W

-- `self.schema_name or getattr(response, "schema_name", None)`
abbrev pub target_schema : DriftOp → Option String → Option String
target_schema op of_response = or_name op.schema_name (or_name of_response none)

abbrev pub result_of : {B : Type 0} → B → List String → ApplyResult B
result_of body descriptions = record {
  body = body;
  descriptions = descriptions;
  status = none;
  headers_delta = none;
}

abbrev pub mutations_to : String → ℕ → List String
mutations_to name n = concat (schema_drift ∷ ": " ∷ show_ℕ n ∷ " mutations to " ∷ name ∷ []) ∷ []

module _ {M : Type 0} where
  abbrev pub layer_args : DriftOp → String → String → M → LayerArgs M
  layer_args op name strategy placeholder = record {
    schema_name = name;
    strategy = strategy;
    layering_enabled = op.layering_enabled;
    max_hits = op.max_hits;
    request_quota = op.request_quota;
    metadata = some placeholder;
  }

  abbrev pub is_spent : String → DriftLayer M → Bool
  is_spent strategy l = of_strategy strategy l && exhausted l

  unfoldable pub remove_layers :
      String → String → List (DriftLayer M) → DriftCoordinator M → DriftCoordinator M
  remove_layers name strategy [] c = c
  remove_layers name strategy (l ∷ ls) c =
      remove_layers name strategy ls (remove_layer name strategy l.index c)

  -- Without layering the exhausted layers of the op are taken away.
  unfoldable pub make_room : DriftOp → String → DriftCoordinator M → DriftCoordinator M
  unfolding remove_layers
  make_room op name c =
      if op.layering_enabled
      then c
      else remove_layers name schema_drift (keep (is_spent schema_drift) (active_layers c name)) c

  -- The layer that stands for a new one where layering is off: the last that there was.
  abbrev pub standing : DriftOp → List (DriftLayer M) → Option (DriftLayer M)
  standing op existing =
      if op.layering_enabled then none else last (keep (of_strategy schema_drift) existing)

module _ {M B : Type 0} where
  abbrev pub report_layer :
      {E W : Type 0}
      → B
      → (DriftLayer M → List String)
      → (Result E (DriftLayer M) × DriftCoordinator M) × W
      → ApplyResult B × (DriftCoordinator M × W)
  report_layer body describe ((err e, c), w) = (result_of body [], (c, w))
  report_layer body describe ((ok l, c), w) = (result_of body (describe l), (c, w))

module _ {M E W : Type 0} ⦃p : Payload M⦄ (placeholder : M) (mutate_schema : MutateSchema E W) where
  abbrev pub create_layer :
      DriftOp
      → String
      → String
      → ℕ
      → DriftCoordinator M
      → W
      → (Result E (DriftLayer M) × DriftCoordinator M) × W
  create_layer op name strategy now c w =
      create_and_register_layer (layer_args op name strategy placeholder) now (mutate_schema name) c
        w

module _ {M B E W : Type 0} ⦃p : Payload M⦄ (placeholder : M)
    (mutate_schema : MutateSchema E W) where
  abbrev pub activate :
      DriftOp
      → String
      → ℕ
      → B
      → Option (DriftLayer M)
      → DriftCoordinator M
      → W
      → ApplyResult B × (DriftCoordinator M × W)
  activate op name now body (some l) c w =
      (result_of body (mutations_to name (length l.modifications)), (c, w))
  activate op name now body none c w =
      report_layer body (λ l. mutations_to name (length l.modifications))
        (create_layer placeholder mutate_schema op name schema_drift now c w)

  -- The layers are read before the exhausted ones are taken away.
  unfoldable pub apply_named :
      DriftOp → String → ℕ → B → DriftCoordinator M → W → ApplyResult B × (DriftCoordinator M × W)
  unfolding make_room
  apply_named op name now body c w =
      let existing = active_layers c name in
      let c' = make_room op name c in
      if allow_activation c' name schema_drift op.layering_enabled op.max_layers_total
        op.max_layers_per_strategy
      then activate op name now body (standing op existing) c' w
      else (result_of body [], (c', w))

  abbrev pub apply_to :
      DriftOp
      → Option String
      → ℕ
      → B
      → DriftCoordinator M
      → W
      → ApplyResult B × (DriftCoordinator M × W)
  apply_to op none now body c w = (result_of body [], (c, w))
  apply_to op (some name) now body c w = apply_named op name now body c w

  unfoldable pub apply :
      DriftOp
      → Option String
      → ℕ
      → B
      → DriftCoordinator M
      → W
      → ApplyResult B × (DriftCoordinator M × W)
  unfolding apply_named
  apply op of_response now body c w =
      if op.enabled
      then apply_to op (target_schema op of_response) now body c w
      else (result_of body [], (c, w))

  abbrev pub apply_data_to :
      DriftOp
      → Option String
      → ℕ
      → B
      → DriftCoordinator M
      → W
      → ApplyResult B × (DriftCoordinator M × W)
  apply_data_to op none now body c w = (result_of body [], (c, w))
  apply_data_to op (some name) now body c w =
      report_layer body (λ l. concat (data_drift ∷ " drift stub applied to " ∷ name ∷ []) ∷ [])
        (create_layer placeholder mutate_schema op name data_drift now c w)

  -- `DataDriftOp.apply` asks for no permission.
  unfoldable pub apply_data :
      DriftOp
      → Option String
      → ℕ
      → B
      → DriftCoordinator M
      → W
      → ApplyResult B × (DriftCoordinator M × W)
  apply_data op of_response now body c w =
      if op.enabled
      then apply_data_to op (target_schema op of_response) now body c w
      else (result_of body [], (c, w))
