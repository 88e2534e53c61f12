-- ===== src/Chaos/DriftOps/Layers.antt =====
-- How many layers the drift ops leave a schema.
use havoc_forge.Base.{
  ℕ, ◌+◌, ◌<◌, ◌≤◌, String, Bool, true, ◌≡◌, refl, Option, none, some, List, [], ◌∷◌, inl, inr,
  ◌==◌, eq_refl, ◌&&◌, not, eqb, Bool-cases, Option-cases, arith, length, length-append, if_both,
}
use havoc_forge.Base.Dict
use havoc_forge.Base.Dict.{get-set, get-pop}
use havoc_forge.Base.Find.{count, keep}
use havoc_forge.Base.Result.{Result, ok, err}
use havoc_forge.Chaos.Layer.{
  Payload, DriftLayer, SchemaDriftState, DriftCoordinator, LayerArgs, of_strategy,
}
use havoc_forge.Chaos.Drift.{
  remove_layer, shrink, active_layers, allow_activation, drop_state_if_empty,
  create_and_register_layer,
}
use havoc_forge.Chaos.Drift.Budget.{
  IsWithin, layers-ensure_state, create_and_register_layer-IsWithin,
}
use havoc_forge.Chaos.Op.{ApplyResult}
use havoc_forge.Chaos.DriftOps.{
  DriftOp, schema_drift, data_drift, layer_args, remove_layers, make_room, standing, MutateSchema,
  create_layer, report_layer, activate, apply_named, apply_data, apply_to, apply, target_schema,
  result_of, is_spent,
}

module _ {ℓ} {A : Type ℓ} (p q : A → Bool) where
  count-keep_le : (xs : List A) → count q (keep p xs) ≤ count q xs
  count-keep_le [] = omega arith
  count-keep_le (x ∷ xs) = ground (arith, count-keep_le xs)

  length-keep_le : (xs : List A) → length (keep p xs) ≤ length xs
  length-keep_le [] = omega arith
  length-keep_le (x ∷ xs) = ground (arith, length-keep_le xs)

module _ {M : Type 0} where
  -- The layers that a removal leaves.
  abbrev pub differs : String → ℕ → DriftLayer M → Bool
  differs strategy index l = not (l.strategy == strategy && eqb l.index index)

  shrink-active_layers :
      (c : DriftCoordinator M) (k : String) (st : SchemaDriftState M) (ls : List (DriftLayer M))
      → active_layers (shrink c k st ls) k ≡ ls
  unfolding active_layers drop_state_if_empty
  shrink-active_layers c k st [] = elim (Bool-cases (st.schema_name == k)) [
    | inl e ↦ rw (active_layers, get-pop, e)
    | inr e ↦ rw (active_layers, get-pop, e, get-set, eq_refl k)
  ]
  shrink-active_layers c k st (l ∷ ls) = rw (active_layers, get-set, eq_refl k)

  active_layers-none :
      (c : DriftCoordinator M) (k : String) → Dict.get c k ≡ none → active_layers c k ≡ []
  unfolding active_layers
  active_layers-none c k e = rw (e, active_layers)

  active_layers-some :
      (c : DriftCoordinator M) (k : String) (st : SchemaDriftState M)
      → Dict.get c k ≡ some st
      → active_layers c k ≡ st.layers
  unfolding active_layers
  active_layers-some c k st e = rw (e, active_layers)

  pub active_layers-remove_layer :
      (c : DriftCoordinator M) (k strategy : String) (index : ℕ)
      → active_layers (remove_layer k strategy index c) k
        ≡ keep (differs strategy index) (active_layers c k)
  unfolding remove_layer
  active_layers-remove_layer c k strategy index = elim (Option-cases (Dict.get c k)) [
    | inl e ↦ rw (e, remove_layer) (rw (active_layers-none c k e))
    | inr (st, e) ↦
        rw (e, remove_layer)
          (rw (active_layers-some c k st e)
            (shrink-active_layers c k st (keep (differs strategy index) st.layers)))
  ]

  IsWithin-keep :
      (total per : ℕ) (p : DriftLayer M → Bool) (ls : List (DriftLayer M))
      → IsWithin total per ls
      → IsWithin total per (keep p ls)
  IsWithin-keep total per p ls h = record {
    in_all = omega (arith, length-keep_le p p ls, h.in_all);
    of_each = λ s. omega (arith, count-keep_le p (of_strategy s) ls, h.of_each s);
  }

  remove_layers-IsWithin :
      (total per : ℕ) (name strategy : String) (ls : List (DriftLayer M)) (c : DriftCoordinator M)
      → IsWithin total per (active_layers c name)
      → IsWithin total per (active_layers (remove_layers name strategy ls c) name)
  unfolding remove_layers
  remove_layers-IsWithin total per name strategy [] c h = h
  remove_layers-IsWithin total per name strategy (l ∷ ls) c h =
      remove_layers-IsWithin total per name strategy ls (remove_layer name strategy l.index c) (
        rw (active_layers-remove_layer c name strategy l.index)
          (IsWithin-keep total per (differs strategy l.index) (active_layers c name) h))

  make_room-IsWithin :
      (op : DriftOp) (total per : ℕ) (name : String) (c : DriftCoordinator M)
      → IsWithin total per (active_layers c name)
      → IsWithin total per (active_layers (make_room op name c) name)
  unfolding make_room
  make_room-IsWithin op total per name c h =
      if_both (λ (c' : DriftCoordinator M). IsWithin total per (active_layers c' name))
        op.layering_enabled {x = c}
        {y = remove_layers name schema_drift (keep (is_spent schema_drift) (active_layers c name))
          c}
        h
        (remove_layers-IsWithin total per name schema_drift
          (keep (is_spent schema_drift) (active_layers c name)) c h)

module _ {M E W : Type 0} ⦃p : Payload M⦄ where
  created-layers :
      (a : LayerArgs M) (now : ℕ) (f : String → W → Result E (String × List String) × W)
      (ms : List String) (c : DriftCoordinator M) (w : W)
      → ((revision : String) → (f revision w).0 ≡ ok (revision, ms))
      → length (active_layers (create_and_register_layer a now f c w).0.1 a.schema_name)
        ≡ length (active_layers c a.schema_name) + 1
  unfolding create_and_register_layer active_layers
  created-layers a now f ms c w returns =
      rw returns
        (rw (active_layers, get-set, eq_refl a.schema_name, layers-ensure_state, length-append))

module _ {M B E W : Type 0} ⦃p : Payload M⦄ (placeholder : M)
    (mutate_schema : MutateSchema E W) where
  report_layer-coordinator :
      (body : B) (describe : DriftLayer M → List String)
      (x : (Result E (DriftLayer M) × DriftCoordinator M) × W)
      → (report_layer body describe x).1.0 ≡ x.0.1
  report_layer-coordinator body describe ((ok l, c), w) = refl
  report_layer-coordinator body describe ((err e, c), w) = refl

  activate-IsWithin :
      (op : DriftOp) (name : String) (now : ℕ) (body : B) (o : Option (DriftLayer M))
      (c : DriftCoordinator M) (w : W) (total per : ℕ)
      → 0 < total
      → 0 < per
      → IsWithin total per (active_layers c name)
      → allow_activation c name schema_drift op.layering_enabled (some total) (some per) ≡ true
      → IsWithin total per
          (active_layers (activate placeholder mutate_schema op name now body o c w).1.0 name)
  activate-IsWithin op name now body (some l) c w total per pt pp h allowed = h
  activate-IsWithin op name now body none c w total per pt pp h allowed =
      rw
        (report_layer-coordinator body _
          (create_layer placeholder mutate_schema op name schema_drift now c w))
        (create_and_register_layer-IsWithin (layer_args op name schema_drift placeholder) now
          (mutate_schema name) c w total per pt pp h allowed)

  apply_named-IsWithin :
      (op : DriftOp) (name : String) (now : ℕ) (body : B) (c : DriftCoordinator M) (w : W)
      (total per : ℕ)
      → 0 < total
      → 0 < per
      → op.max_layers_total ≡ some total
      → op.max_layers_per_strategy ≡ some per
      → IsWithin total per (active_layers c name)
      → IsWithin total per
          (active_layers (apply_named placeholder mutate_schema op name now body c w).1.0 name)
  unfolding apply_named
  apply_named-IsWithin op name now body c w total per pt pp in_all of_each h =
      let c' = make_room op name c in
      let h' = make_room-IsWithin op total per name c h in
      elim (Bool-cases (
        allow_activation c' name schema_drift op.layering_enabled op.max_layers_total
          op.max_layers_per_strategy)) [
            | inl allowed ↦ rw allowed (
                activate-IsWithin op name now body (standing op (active_layers c name)) c' w total
                  per pt pp h' (rw (← in_all) (rw (← of_each) allowed)))
            | inr refused ↦ rw refused h'
          ]

  -- A schema that is within positive limits stays within them when `SchemaDriftOp` is applied to it,
  -- with layering or without, and also if the change of the schema raises.
  pub apply-IsWithin :
      (op : DriftOp) (of_response : Option String) (name : String) (now : ℕ) (body : B)
      (c : DriftCoordinator M) (w : W) (total per : ℕ)
      → 0 < total
      → 0 < per
      → op.max_layers_total ≡ some total
      → op.max_layers_per_strategy ≡ some per
      → target_schema op of_response ≡ some name
      → IsWithin total per (active_layers c name)
      → IsWithin total per
          (active_layers (apply placeholder mutate_schema op of_response now body c w).1.0 name)
  unfolding apply
  apply-IsWithin op of_response name now body c w total per pt pp in_all of_each named h =
      if_both
        (λ (r : ApplyResult B × (DriftCoordinator M × W)).
          IsWithin total per (active_layers r.1.0 name))
        op.enabled
        {x = apply_to placeholder mutate_schema op (target_schema op of_response) now body c w}
        {y = (result_of body [], (c, w))}
        (rw named (apply_named-IsWithin op name now body c w total per pt pp in_all of_each h)) h

  -- `DataDriftOp` does not ask: wherever its change of the schema returns, the schema has one layer
  -- more, whatever the limits of the op and however many layers there are.
  pub apply_data-adds :
      (op : DriftOp) (of_response : Option String) (name : String) (now : ℕ) (body : B)
      (ms : List String) (c : DriftCoordinator M) (w : W)
      → op.enabled ≡ true
      → target_schema op of_response ≡ some name
      → ((revision : String) → (mutate_schema name revision w).0 ≡ ok (revision, ms))
      → length (
          active_layers (apply_data placeholder mutate_schema op of_response now body c w).1.0 name)
        ≡ length (active_layers c name) + 1
  unfolding apply_data
  apply_data-adds op of_response name now body ms c w on named returns =
      let made = create_layer placeholder mutate_schema op name data_drift now c w in
      rw on (
        rw named (
          rw (report_layer-coordinator body _ made) (
            created-layers (layer_args op name data_drift placeholder) now (mutate_schema name) ms c
              w returns)))
