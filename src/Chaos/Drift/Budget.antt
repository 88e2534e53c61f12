-- ===== src/Chaos/Drift/Budget.antt =====
-- The numbers of layers that a configuration allows a schema, in all and of one strategy.
use havoc_forge.Base.{
  ℕ, ◌<◌, ◌≤◌, String, Bool, true, ◌≡◌, some, List, [], ◌∷◌, ◌++◌, inl, inr, ◌==◌, eq_iff, eq_refl,
  Bool-cases, Option-cases, arith, length, length-append,
}
use havoc_forge.Base.Dict
use havoc_forge.Base.Dict.{get-set}
use havoc_forge.Base.Find.{count, count-append_one}
use havoc_forge.Base.Result.{Result, ok, err}
use havoc_forge.Chaos.Layer.{Payload, DriftLayer, DriftCoordinator, LayerArgs, of_strategy}
use havoc_forge.Chaos.Drift.{
  create_and_register_layer, finish_create, active_layers, allow_activation, ensure_state,
}

-- The layers of one schema stay within both limits.
pub record IsWithin {M : Type 0} (total per : ℕ) (ls : List (DriftLayer M)) : Type 0 where
  pub in_all : length ls ≤ total
  pub of_each : (s : String) → count (of_strategy s) ls ≤ per

module _ {M : Type 0} where
  pub layers-ensure_state :
      (c : DriftCoordinator M) (k : String) (b : Bool)
      → (ensure_state c k (some b)).layers ≡ active_layers c k
  unfolding ensure_state active_layers
  layers-ensure_state c k b = elim (Option-cases (Dict.get c k)) [
    | inl e ↦ rw (e, active_layers)
    | inr (st, e) ↦ rw (e, active_layers)
  ]

  -- What a permission says of the layers that the schema has.
  allowed_below :
      (c : DriftCoordinator M) (k s : String) (layering : Bool) (total per : ℕ)
      → 0 < total
      → 0 < per
      → allow_activation c k s layering (some total) (some per) ≡ true
      → (length (active_layers c k) < total) × (count (of_strategy s) (active_layers c k) < per)
  unfolding allow_activation active_layers
  allowed_below c k s layering total per pt pp h = elim (Option-cases (Dict.get c k)) [
    | inl e ↦ rw (e, active_layers) (pt, pp)
    | inr (st, e) ↦ ground (arith, e)
  ]

  push-IsWithin :
      {total per : ℕ} (ls : List (DriftLayer M)) (l : DriftLayer M)
      → IsWithin total per ls
      → length ls < total
      → count (of_strategy l.strategy) ls < per
      → IsWithin total per (ls ++ l ∷ [])
  push-IsWithin {total} {per} ls l h lt ls_lt = record {
    in_all = rw length-append (ground arith);
    of_each = λ s. elim (Bool-cases (l.strategy == s)) [
      | inl e ↦
          let same : l.strategy ≡ s = (eq_iff l.strategy s).0 e in
          let low : count (of_strategy s) ls < per = rw (← same) ls_lt in
          rw (count-append_one (of_strategy s) ls l, e) (omega arith)
      | inr e ↦ let low = h.of_each s in rw (count-append_one (of_strategy s) ls l, e) (omega arith)
    ];
  }

module _ {M : Type 0} ⦃p : Payload M⦄ where
  finish_create-IsWithin :
      {E : Type 0} (a : LayerArgs M) (c : DriftCoordinator M) (r : Result E (String × List String))
      {total per : ℕ}
      → IsWithin total per (active_layers c a.schema_name)
      → (length (active_layers c a.schema_name) < total)
        × (count (of_strategy a.strategy) (active_layers c a.schema_name) < per)
      → IsWithin total per (
          active_layers
            (finish_create a c (ensure_state c a.schema_name (some a.layering_enabled)) r).1
            a.schema_name)
  unfolding active_layers
  finish_create-IsWithin a c (err e) h below =
      rw (active_layers, get-set, eq_refl a.schema_name, layers-ensure_state) h
  finish_create-IsWithin a c (ok (rev, ms)) h below =
      rw (active_layers, get-set, eq_refl a.schema_name, layers-ensure_state)
        (push-IsWithin (active_layers c a.schema_name) _ h below.0 below.1)

  -- A drift op asks for permission under positive limits, and then creates its layer, as
  -- `SchemaDriftOp.apply` does: the schema's layers stay within the limits, whether the callback
  -- returns or raises.
  pub create_and_register_layer-IsWithin :
      {E W : Type 0} (a : LayerArgs M) (now : ℕ)
      (f : String → W → Result E (String × List String) × W) (c : DriftCoordinator M) (w : W)
      (total per : ℕ)
      → 0 < total
      → 0 < per
      → IsWithin total per (active_layers c a.schema_name)
      → allow_activation c a.schema_name a.strategy a.layering_enabled (some total) (some per)
        ≡ true
      → IsWithin total per (active_layers (create_and_register_layer a now f c w).0.1 a.schema_name)
  unfolding create_and_register_layer
  create_and_register_layer-IsWithin a now f c w total per pt pp h allowed =
      finish_create-IsWithin a c _ h
        (allowed_below c a.schema_name a.strategy a.layering_enabled total per pt pp allowed)
