-- ===== src/Tests/DriftOps.antt =====
-- The drift ops at concrete inputs: metadata is nothing, and the state counts its changes.
use havoc_forge.Base.{ℕ, ◌+◌, true, false, ◌≡◌, refl, none, some, [], ◌∷◌, arith, length}
use havoc_forge.Base.Dict
use havoc_forge.Base.Result.{ok}
use havoc_forge.Chaos.Layer.{Payload, DriftLayer, DriftCoordinator, exhausted}
use havoc_forge.Chaos.Drift.{active_layers, allow_activation, remove_layer, drop_state_if_empty}
use havoc_forge.Chaos.Drift.Budget.{IsWithin}
use havoc_forge.Chaos.DriftOps.{
  DriftOp, MutateSchema, mutations_to, result_of, apply, apply_named, apply_data,
}
use havoc_forge.Chaos.DriftOps.Layers.{apply-IsWithin, apply_data-adds}
use havoc_forge.Chaos.DriftOps.Renewal.{apply_named-renewal}

instance no_metadata : Payload (Unit {0})
no_metadata = record { beq = λ a b. true; beq_iff = λ a b. (λ e. refl, λ e. refl); empty = tt }

abbrev mutate : MutateSchema (Unit {0}) ℕ
mutate name revision w = (ok (revision, "added" ∷ []), w + 1)

abbrev op : DriftOp
op = record {
  enabled = true;
  schema_name = some "ga4";
  layering_enabled = true;
  max_layers_total = some 2;
  max_layers_per_strategy = some 3;
  max_hits = some 10;
  request_quota = some 10;
}

abbrev spent : DriftLayer (Unit {0})
spent = record {
  schema_name = "ga4";
  strategy = "schema_drift";
  index = 1;
  revision = "ga4_schema_drift_1_5";
  max_hits = some 1;
  hits = 1;
  request_quota = none;
  approvals = 0;
  metadata = tt;
  modifications = "root: added field 'a'" ∷ [];
}

abbrev layered : DriftCoordinator (Unit {0})
layered =
    (
      "ga4",
      record {
        schema_name = "ga4";
        layering_enabled = true;
        layers = spent ∷ [];
        current_revision = some "ga4_schema_drift_1_5";
        cooldown_active = false;
      },
    )
    ∷ []

layered_layers : active_layers layered "ga4" ≡ spent ∷ []
unfolding active_layers Dict.get
layered_layers = refl

layered-IsWithin : IsWithin 2 3 (active_layers layered "ga4")
layered-IsWithin = rw layered_layers (record { in_all = omega arith; of_each = λ s. ground arith })

apply-IsWithin_example :
    IsWithin 2 3 (active_layers (apply tt mutate op none 9 tt layered 0).1.0 "ga4")
apply-IsWithin_example =
    apply-IsWithin tt mutate op none "ga4" 9 tt layered 0 2 3 (omega arith) (omega arith) refl refl
      refl layered-IsWithin

apply_data-adds_example :
    length (active_layers (apply_data tt mutate op none 9 tt layered 0).1.0 "ga4")
    ≡ length (active_layers layered "ga4") + 1
apply_data-adds_example =
    apply_data-adds tt mutate op none "ga4" 9 tt ("added" ∷ []) layered 0 refl refl (λ r. refl)

apply_named-renewal_example :
    let flat = record op { layering_enabled = false } in
    let (r, (c', w')) = apply_named tt mutate flat "ga4" 9 tt layered 0 in
    (r ≡ result_of tt (mutations_to "ga4" 1)) × (active_layers c' "ga4" ≡ []) × (w' ≡ 0)
unfolding active_layers Dict.get exhausted allow_activation remove_layer drop_state_if_empty
    Dict.set Dict.pop
apply_named-renewal_example =
    apply_named-renewal tt mutate (record op { layering_enabled = false }) "ga4" 9 tt layered 0
      spent refl refl refl refl refl
