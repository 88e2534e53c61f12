-- ===== src/Chaos/Drift/Reach.antt =====
-- Every call of the drift registry, as a step; the registries that sequences of calls lead to.
use havoc_forge.Base.{
  ℕ, ◌+◌, String, ◌≡◌, refl, Option, some, List, [], inl, inr, Bool-cases, Option-cases,
}
use havoc_forge.Base.Dict
use havoc_forge.Base.Find.{All-keep, All-remove_first, update_last}
use havoc_forge.Base.Result.{Result, ok, err}
use havoc_forge.Chaos.Layer.{
  Payload, DriftLayer, SchemaDriftState, DriftCoordinator, LayerArgs, of_strategy, last_revision,
  exhausted,
}
use havoc_forge.Chaos.Drift.{
  finish_create, create_and_register_layer, register_layer, record_hit, remove_layer, clear_schema,
  record_approval, active_layers, current_revision,
}
use havoc_forge.Chaos.Drift.Consistent.{
  Fits, IsConsistent, IsConsistent-empty, IsConsistent-set, IsConsistent-pop, ensure_state-Fits,
  push_layer-Fits, shrink-IsConsistent, touch-Fits, record_approval-IsConsistent,
}

module _ {M : Type 0} where
  remove_layer-IsConsistent :
      (k strategy : String) (i : ℕ) {c : DriftCoordinator M}
      → IsConsistent c
      → IsConsistent (remove_layer k strategy i c)
  unfolding remove_layer
  remove_layer-IsConsistent k strategy i {c} h = elim (Option-cases (Dict.get c k)) [
    | inl e ↦ rw (e, remove_layer) h
    | inr (st, e) ↦
        rw (e, remove_layer)
          (shrink-IsConsistent c k st _ h (h.at k st e) (
            All-keep (λ (x : DriftLayer M). x.schema_name ≡ k) _ st.layers
              (h.at k st e).layers_named))
  ]

module _ {M : Type 0} ⦃p : Payload M⦄ where
  register_layer-IsConsistent :
      (a : LayerArgs M) (revision : String) (ms : Option (List String)) {c : DriftCoordinator M}
      → IsConsistent c
      → IsConsistent (register_layer a revision ms c).1
  unfolding register_layer
  register_layer-IsConsistent a revision ms {c} h = IsConsistent-set a.schema_name _ h (
      push_layer-Fits a.schema_name _ _
        (ensure_state-Fits c a.schema_name (some a.layering_enabled) h) refl)

  finish_create-IsConsistent :
      {E : Type 0} (a : LayerArgs M) {c : DriftCoordinator M} (st : SchemaDriftState M)
      (r : Result E (String × List String))
      → IsConsistent c
      → Fits a.schema_name st
      → IsConsistent (finish_create a c st r).1
  finish_create-IsConsistent a st (err e) h f = IsConsistent-set a.schema_name st h f
  finish_create-IsConsistent a st (ok (rev, ms)) h f =
      IsConsistent-set a.schema_name _ h (push_layer-Fits a.schema_name st _ f refl)

  create_and_register_layer-IsConsistent :
      {E W : Type 0} (a : LayerArgs M) (now : ℕ)
      (f : String → W → Result E (String × List String) × W) {c : DriftCoordinator M} (w : W)
      → IsConsistent c
      → IsConsistent (create_and_register_layer a now f c w).0.1
  unfolding create_and_register_layer
  create_and_register_layer-IsConsistent a now f {c} w h =
      finish_create-IsConsistent a _ _ h
        (ensure_state-Fits c a.schema_name (some a.layering_enabled) h)

  record_hit-IsConsistent :
      (k strategy : String) {c : DriftCoordinator M}
      → IsConsistent c
      → IsConsistent (record_hit k strategy c).1
  unfolding record_hit
  record_hit-IsConsistent k strategy {c} h = elim (Option-cases (Dict.get c k)) [
    | inl e ↦ rw (e, record_hit) h
    | inr (st, e) ↦
        elim (Option-cases
          (update_last (of_strategy strategy) (λ l. record l { hits = l.hits + 1 }) st.layers)) [
            | inl e' ↦ rw (e, record_hit, e') h
            | inr ((l, ls), e') ↦
                let f : Fits k (record st { layers = ls }) =
                  touch-Fits k st _ (λ l. refl) (λ l. refl) strategy l ls e' (h.at k st e) in
                elim (Bool-cases (exhausted l)) [
                  | inl x ↦
                      rw (e, record_hit, e', x)
                        (shrink-IsConsistent c k st _ h (h.at k st e) (
                          All-remove_first (λ (x : DriftLayer M). x.schema_name ≡ k) _ ls
                            f.layers_named))
                  | inr x ↦ rw (e, record_hit, e', x) (IsConsistent-set k _ h f)
                ]
          ]
  ]

-- `E` is the exceptions of the callback and `W` the state that it works on.
module _ {M : Type 0} ⦃p : Payload M⦄ (E W : Type 0) where
  pub data Step (c : DriftCoordinator M) : DriftCoordinator M → Type 1 where
    create :
        (a : LayerArgs M) (now : ℕ) (f : String → W → Result E (String × List String) × W) (w : W)
        → Step c (create_and_register_layer a now f c w).0.1
    register :
        (a : LayerArgs M) (revision : String) (ms : Option (List String))
        → Step c (register_layer a revision ms c).1
    remove : (k strategy : String) (i : ℕ) → Step c (remove_layer k strategy i c)
    clear : (k : String) → Step c (clear_schema k c)
    hit : (k strategy : String) → Step c (record_hit k strategy c).1
    approve : (k strategy : String) → Step c (record_approval k strategy c).1

  pub data Reach : DriftCoordinator M → Type 1 where
    start : Reach []
    next : {c d : DriftCoordinator M} → Reach c → Step c d → Reach d

  Step-IsConsistent : {c d : DriftCoordinator M} → Step c d → IsConsistent c → IsConsistent d
  unfolding clear_schema
  Step-IsConsistent (create a now f w) h = create_and_register_layer-IsConsistent a now f w h
  Step-IsConsistent (register a revision ms) h = register_layer-IsConsistent a revision ms h
  Step-IsConsistent (remove k strategy i) h = remove_layer-IsConsistent k strategy i h
  Step-IsConsistent (clear k) h = IsConsistent-pop k h
  Step-IsConsistent (hit k strategy) h = record_hit-IsConsistent k strategy h
  Step-IsConsistent (approve k strategy) h = record_approval-IsConsistent k strategy h

  pub Reach-IsConsistent : {c : DriftCoordinator M} → Reach c → IsConsistent c
  Reach-IsConsistent start = IsConsistent-empty
  Reach-IsConsistent (next r s) = Step-IsConsistent s (Reach-IsConsistent r)

  -- Whatever calls were made, of any arguments and with callbacks that return or raise, the current
  -- revision of a schema is that of its newest active layer, or none where it has no layer.
  pub current_revision-eq-newest :
      {c : DriftCoordinator M}
      → Reach c
      → (k : String) → current_revision c k ≡ last_revision (active_layers c k)
  unfolding current_revision active_layers
  current_revision-eq-newest {c} r k = elim (Option-cases (Dict.get c k)) [
    | inl e ↦ rw (e, current_revision, active_layers)
    | inr (st, e) ↦
        rw (e, current_revision, active_layers) ((Reach-IsConsistent r).at k st e).current
  ]
