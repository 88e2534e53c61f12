-- ===== src/Tests/Drift.antt =====
-- The drift registry and the temporal tracker at concrete inputs.
use havoc_forge.Base.{
  ℕ, ◌+◌, String, true, false, ◌≡◌, refl, none, some, List, [], ◌∷◌, arith, eqb, eqb_iff,
}
use havoc_forge.Base.Int.{pos, negsuc}
use mathlib.Core.Bool.{false≢true}
use havoc_forge.Base.Dict
use havoc_forge.Base.Find.{LastSplit}
use havoc_forge.Base.Result.{Result, ok}
use havoc_forge.Chaos.Layer.{
  Payload, DriftLayer, SchemaDriftState, DriftCoordinator, LayerArgs, of_strategy, last_revision,
}
use havoc_forge.Chaos.Drift.{
  create_and_register_layer, register_layer, active_layers, current_revision, allow_activation,
}
use havoc_forge.Chaos.Drift.Reach.{start, next, register, current_revision-eq-newest}
use havoc_forge.Chaos.Drift.Numbered.{NumberedFrom}
use havoc_forge.Chaos.Drift.Limits.{Limited, hit_times, lifetime}
use havoc_forge.Chaos.Drift.Budget.{IsWithin, create_and_register_layer-IsWithin}
use havoc_forge.Chaos.Temporal.{get_range}
use havoc_forge.Chaos.Temporal.Range.{
  Call, init, update, forget, perform_all, range_of, get_range-eq-range_of,
}

instance abbrev numbers : Payload ℕ
numbers = record { beq = eqb; beq_iff = eqb_iff; empty = 0 }

abbrev args : LayerArgs ℕ
args = record {
  schema_name = "ga4";
  strategy = "data_drift";
  layering_enabled = true;
  max_hits = some 2;
  request_quota = none;
  metadata = none;
}

abbrev layer : String → String → ℕ → DriftLayer ℕ
layer strategy revision index = record {
  schema_name = "ga4";
  strategy = strategy;
  index = index;
  revision = revision;
  max_hits = some 2;
  hits = 0;
  request_quota = none;
  approvals = 0;
  metadata = 0;
  modifications = [];
}

abbrev two_layers : SchemaDriftState ℕ
two_layers = record {
  schema_name = "ga4";
  layering_enabled = true;
  layers = layer "data_drift" "r1" 1 ∷ layer "schema_drift" "r2" 1 ∷ [];
  current_revision = some "r2";
  cooldown_active = false;
}

abbrev stored : DriftCoordinator ℕ
stored = ("ga4", two_layers) ∷ []

registered_twice :
    active_layers (register_layer args "r2" none (register_layer args "r1" none []).1).1 "ga4"
    ≡ layer "data_drift" "r1" 1 ∷ layer "data_drift" "r2" 2 ∷ []
unfolding active_layers register_layer Dict.get Dict.set
registered_twice = refl

current_revision-eq-newest_example :
    current_revision (register_layer args "r1" none []).1 "ga4"
    ≡ last_revision (active_layers (register_layer args "r1" none []).1 "ga4")
current_revision-eq-newest_example =
    current_revision-eq-newest ℕ ℕ (next start (register args "r1" none)) "ga4"

abbrev first_numbered : NumberedFrom "data_drift" 0 two_layers.layers
first_numbered = ((λ h. refl), ((λ h. absurd (false≢true h)), tt))

abbrev first_split : LastSplit (of_strategy "data_drift") two_layers.layers
first_split = record {
  before = [];
  item = layer "data_drift" "r1" 1;
  after = layer "schema_drift" "r2" 1 ∷ [];
  parts = refl;
  passes = refl;
  none_after = refl;
}

stored_ga4 : Dict.get stored "ga4" ≡ some two_layers
unfolding Dict.get
stored_ga4 = refl

abbrev once_hit : DriftLayer ℕ
once_hit = record (layer "data_drift" "r1" 1) { hits = 1 }

limited : Limited "ga4" "data_drift" 2 stored
limited = record {
  state = two_layers;
  found = stored_ga4;
  named = refl;
  numbered = first_numbered;
  newest = first_split;
  limit = refl;
  no_quota = refl;
}

lifetime_example :
    active_layers (hit_times "ga4" "data_drift" 2 stored) "ga4" ≡ layer "schema_drift" "r2" 1 ∷ []
unfolding limited
lifetime_example = lifetime "ga4" "data_drift" limited 2 (omega arith) (omega arith)

-- A callback that takes the name that it is given, and one that raises.
abbrev mutate : String → ℕ → Result ℕ (String × List String) × ℕ
mutate name w = (ok (name, "field added" ∷ []), w + 1)

stored-IsWithin : IsWithin 3 2 (active_layers stored "ga4")
unfolding active_layers Dict.get
stored-IsWithin = record { in_all = omega arith; of_each = λ s. ground arith }

stored_allows : allow_activation stored "ga4" "data_drift" true (some 3) (some 2) ≡ true
unfolding allow_activation Dict.get
stored_allows = refl

create_and_register_layer-IsWithin_example :
    IsWithin 3 2
      (active_layers (create_and_register_layer args 1700000000000 mutate stored 0).0.1 "ga4")
create_and_register_layer-IsWithin_example =
    create_and_register_layer-IsWithin args 1700000000000 mutate stored 0 3 2 (omega arith)
      (omega arith) stored-IsWithin stored_allows

abbrev history : List Call
history =
    update "ga4" (pos 70) ∷ update "ga4" (pos 90) ∷ forget "smoke" ∷ init "ga4" (negsuc 4) ∷ []

get_range-eq-range_of_example :
    get_range "ga4" (perform_all history) ≡ (some (negsuc 4), some (pos 90))
unfolding range_of
get_range-eq-range_of_example = get_range-eq-range_of "ga4" history
