-- ===== src/Chaos/Layer.antt =====
-- havocforge/chaos/drift/coordinator.py: the descriptor of a drift layer and the state of a schema.
use havoc_forge.Base.{
  ℕ, ◌+◌, String, Bool, true, false, ◌&&◌, ◌||◌, Option, none, some, List, [], ◌∷◌, ◌++◌, leb, eqb,
  ◌==◌, ◌≡◌, ◌↔◌,
}
use havoc_forge.Base.Dict.{Dict}
use havoc_forge.Base.Find.{count, last}
use mathlib.Core.Option.{get_or}

-- The metadata that a drift op hands over: a `dict` of any objects, which the registry only copies
-- and compares. `beq` is the `==` of such values, `empty` the dict `{}`.
pub record Payload (M : Type 0) : Type 0 where
  pub beq : M → M → Bool
  pub beq_iff : (a b : M) → (beq a b ≡ true) ↔ (a ≡ b)
  pub empty : M

pub record DriftLayer (M : Type 0) : Type 0 where
  pub schema_name : String
  pub strategy : String
  pub index : ℕ
  pub revision : String
  pub max_hits : Option ℕ
  pub hits : ℕ
  pub request_quota : Option ℕ
  pub approvals : ℕ
  pub metadata : M
  pub modifications : List String

pub record SchemaDriftState (M : Type 0) : Type 0 where
  pub schema_name : String
  pub layering_enabled : Bool
  pub layers : List (DriftLayer M)
  pub current_revision : Option String
  pub cooldown_active : Bool

abbrev pub DriftCoordinator : Type 0 → Type 0
DriftCoordinator M = Dict (SchemaDriftState M)

-- The keyword arguments that the two registering methods share.
pub record LayerArgs (M : Type 0) : Type 0 where
  pub schema_name : String
  pub strategy : String
  pub layering_enabled : Bool
  pub max_hits : Option ℕ
  pub request_quota : Option ℕ
  pub metadata : Option M

-- `limit is not None and used >= limit`
abbrev pub reached : Option ℕ → ℕ → Bool
reached none used = false
reached (some limit) used = leb limit used

abbrev pub opt_eq {ℓ} : {A : Type ℓ} → (A → A → Bool) → Option A → Option A → Bool
opt_eq eq none none = true
opt_eq eq (some a) (some b) = eq a b
opt_eq eq _ _ = false

abbrev pub texts_eq : List String → List String → Bool
texts_eq [] [] = true
texts_eq (s ∷ l) (t ∷ m) = s == t && texts_eq l m
texts_eq _ _ = false

module _ {M : Type 0} where
  unfoldable pub exhausted : DriftLayer M → Bool
  exhausted l = reached l.max_hits l.hits || reached l.request_quota l.approvals

  abbrev pub of_strategy : String → DriftLayer M → Bool
  of_strategy s l = l.strategy == s

  abbrev pub fresh_state : String → SchemaDriftState M
  fresh_state name = record {
    schema_name = name;
    layering_enabled = true;
    layers = [];
    current_revision = none;
    cooldown_active = false;
  }

  -- `state.current_revision = state.layers[-1].revision if state.layers else None`
  abbrev pub last_revision : List (DriftLayer M) → Option String
  last_revision ls = elim (last ls) [ none ↦ none | some l ↦ some l.revision ]

  -- `state.layers.append(layer); state.current_revision = revision`
  abbrev pub push_layer : SchemaDriftState M → DriftLayer M → SchemaDriftState M
  push_layer st l = record st { layers = st.layers ++ l ∷ []; current_revision = some l.revision }

  abbrev pub new_layer : M → LayerArgs M → SchemaDriftState M → String → List String → DriftLayer M
  new_layer empty a st revision modifications = record {
    schema_name = a.schema_name;
    strategy = a.strategy;
    index = count (of_strategy a.strategy) st.layers + 1;
    revision = revision;
    max_hits = a.max_hits;
    hits = 0;
    request_quota = a.request_quota;
    approvals = 0;
    metadata = get_or a.metadata empty;
    modifications = modifications;
  }

module _ {M : Type 0} ⦃p : Payload M⦄ where
  -- The `==` that the dataclass decorator generates.
  unfoldable pub layer_eq : DriftLayer M → DriftLayer M → Bool
  layer_eq a b =
      a.schema_name == b.schema_name
      && a.strategy == b.strategy
      && eqb a.index b.index
      && a.revision == b.revision
      && opt_eq eqb a.max_hits b.max_hits
      && eqb a.hits b.hits
      && opt_eq eqb a.request_quota b.request_quota
      && eqb a.approvals b.approvals
      && p.beq a.metadata b.metadata
      && texts_eq a.modifications b.modifications
