-- ===== src/Chaos/Drift.antt =====
-- havocforge/chaos/drift/coordinator.py: the registry of the drift layers that are active for each
-- schema. A method of `DriftCoordinator` takes the registry and returns it with its result; the lock
-- makes each one atomic. A layer that the source hands out by reference comes back as its value.
pub mod Consistent
pub mod Reach
pub mod Numbered
pub mod Limits
pub mod Hit
pub mod Budget
use havoc_forge.Base.{
  ℕ, ◌+◌, String, Bool, true, false, ◌&&◌, Option, none, some, List, [], ◌∷◌, eqb, if◌then◌else◌,
  length, ◌==◌,
}
use havoc_forge.Base.Dict
use havoc_forge.Base.Find.{count, any, keep, remove_first, update_last}
use havoc_forge.Base.Result.{Result, ok, err}
use havoc_forge.Base.Text.{concat, show_ℕ}
use havoc_forge.Chaos.Layer.{
  Payload, DriftLayer, SchemaDriftState, DriftCoordinator, LayerArgs, reached, exhausted,
  of_strategy, fresh_state, last_revision, push_layer, new_layer, layer_eq,
}
use mathlib.Core.Bool.{not}
use mathlib.Core.Option.{get_or}

module _ {M : Type 0} where
  -- `_ensure_state`: the state that `name` has from now on. The registry holds it by reference, so
  -- each caller writes back what it has made of it.
  unfoldable pub ensure_state : DriftCoordinator M → String → Option Bool → SchemaDriftState M
  ensure_state c name layering =
      let st = get_or (Dict.get c name) (fresh_state name) in
      elim layering [ none ↦ st | some b ↦ record st { layering_enabled = b } ]

  unfoldable pub drop_state_if_empty : DriftCoordinator M → SchemaDriftState M → DriftCoordinator M
  drop_state_if_empty c st = elim st.layers [ [] ↦ Dict.pop c st.schema_name | _ ∷ _ ↦ c ]

  -- f"{schema_name}_{strategy}_{next_index}_{timestamp}"
  unfoldable pub revision_name : LayerArgs M → ℕ → ℕ → String
  revision_name a next_index timestamp =
      concat
        (a.schema_name ∷ "_" ∷ a.strategy ∷ "_" ∷ show_ℕ next_index ∷ "_" ∷ show_ℕ timestamp ∷ [])

  -- What is left of the registry when the layers of `st` have become fewer.
  abbrev pub shrink :
      DriftCoordinator M → String → SchemaDriftState M → List (DriftLayer M) → DriftCoordinator M
  shrink c name st ls =
      let st' = record st { layers = ls; current_revision = last_revision ls } in
      let c' = Dict.set c name st' in elim ls [ [] ↦ drop_state_if_empty c' st' | _ ∷ _ ↦ c' ]

module _ {M : Type 0} ⦃p : Payload M⦄ where
  -- The layer is made of what the callback returns; if it raises, the registry keeps the state that
  -- `_ensure_state` has entered.
  abbrev pub finish_create :
      {E : Type 0}
      → LayerArgs M
      → DriftCoordinator M
      → SchemaDriftState M
      → Result E (String × List String)
      → Result E (DriftLayer M) × DriftCoordinator M
  finish_create a c st (err e) = (err e, Dict.set c a.schema_name st)
  finish_create a c st (ok (revision, modifications)) =
      let l = new_layer p.empty a st revision modifications in
      (ok l, Dict.set c a.schema_name (push_layer st l))

  -- The callback makes the schema's new revision in some other state `W`.
  unfoldable pub create_and_register_layer :
      {E W : Type 0}
      → LayerArgs M
      → ℕ
      → (String → W → Result E (String × List String) × W)
      → DriftCoordinator M
      → W
      → (Result E (DriftLayer M) × DriftCoordinator M) × W
  unfolding ensure_state revision_name
  create_and_register_layer a now mutation_fn c w =
      let st = ensure_state c a.schema_name (some a.layering_enabled) in
      let next_index = count (of_strategy a.strategy) st.layers + 1 in
      let (r, w') = mutation_fn (revision_name a next_index now) w in (finish_create a c st r, w')

  unfoldable pub register_layer :
      LayerArgs M
      → String
      → Option (List String)
      → DriftCoordinator M
      → DriftLayer M × DriftCoordinator M
  unfolding ensure_state
  register_layer a revision modifications c =
      let st = ensure_state c a.schema_name (some a.layering_enabled) in
      let l = new_layer p.empty a st revision (get_or modifications []) in
      (l, Dict.set c a.schema_name (push_layer st l))

  unfoldable pub record_hit :
      String → String → DriftCoordinator M → Option (DriftLayer M) × DriftCoordinator M
  unfolding exhausted layer_eq drop_state_if_empty
  record_hit name strategy c = elim (Dict.get c name) [
    | none ↦ (none, c)
    | some st ↦
        elim (update_last (of_strategy strategy) (λ l. record l { hits = l.hits + 1 }) st.layers) [
          | none ↦ (none, c)
          | some (l, ls) ↦
              if exhausted l
              then (none, shrink c name st (remove_first (λ x. layer_eq x l) ls))
              else (some l, Dict.set c name (record st { layers = ls }))
        ]
  ]

module _ {M : Type 0} where
  unfoldable pub remove_layer : String → String → ℕ → DriftCoordinator M → DriftCoordinator M
  unfolding drop_state_if_empty
  remove_layer name strategy index c = elim (Dict.get c name) [
    | none ↦ c
    | some st ↦
        shrink c name st (keep (λ l. not (l.strategy == strategy && eqb l.index index)) st.layers)
  ]

  unfoldable pub clear_schema : String → DriftCoordinator M → DriftCoordinator M
  clear_schema name c = Dict.pop c name

  unfoldable pub active_layers : DriftCoordinator M → String → List (DriftLayer M)
  active_layers c name = elim (Dict.get c name) [ none ↦ [] | some st ↦ st.layers ]

  unfoldable pub allow_activation :
      DriftCoordinator M → String → String → Bool → Option ℕ → Option ℕ → Bool
  allow_activation c name strategy layering max_total max_per_strategy = elim (Dict.get c name) [
    | none ↦ true
    | some st ↦
        if not layering && any (of_strategy strategy) st.layers
        then false
        else if reached max_total (length st.layers)
        then false
        else if reached max_per_strategy (count (of_strategy strategy) st.layers)
        then false
        else if st.cooldown_active
        then false
        else true
  ]

  unfoldable pub strategy_layer_count : DriftCoordinator M → String → String → ℕ
  strategy_layer_count c name strategy = elim (Dict.get c name) [
    | none ↦ 0
    | some st ↦ count (of_strategy strategy) st.layers
  ]

  unfoldable pub record_approval :
      String → String → DriftCoordinator M → Option (DriftLayer M) × DriftCoordinator M
  record_approval name strategy c = elim (Dict.get c name) [
    | none ↦ (none, c)
    | some st ↦
        elim (update_last (of_strategy strategy) (λ l. record l { approvals = l.approvals + 1 })
          st.layers) [
            | none ↦ (none, c)
            | some (l, ls) ↦ (some l, Dict.set c name (record st { layers = ls }))
          ]
  ]

  unfoldable pub current_revision : DriftCoordinator M → String → Option String
  current_revision c name = elim (Dict.get c name) [ none ↦ none | some st ↦ st.current_revision ]

  unfoldable pub get_state : DriftCoordinator M → String → Option (SchemaDriftState M)
  get_state c name = Dict.get c name
