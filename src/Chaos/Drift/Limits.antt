-- ===== src/Chaos/Drift/Limits.antt =====
-- The limits on layers: how many hits one lives, and how many a schema has.
use havoc_forge.Base.{
  ℕ, zero, suc, ◌+◌, ◌<◌, ◌≤◌, String, true, false, ◌≡◌, refl, sym, ap, ◌∙◌, none, some, List, [],
  ◌∷◌, ◌++◌, inl, inr, eq_refl, if◌then◌else◌, leb, ltb, ltb→lt, Bool-cases, arith,
}
use havoc_forge.Base.Dict
use havoc_forge.Base.Dict.{get-set, get-pop}
use havoc_forge.Base.Find.{LastSplit}
use havoc_forge.Chaos.Layer.{
  Payload, DriftLayer, SchemaDriftState, DriftCoordinator, of_strategy, exhausted,
}
use havoc_forge.Chaos.Drift.{record_hit, shrink, active_layers, drop_state_if_empty}
use havoc_forge.Chaos.Drift.Numbered.{NumberedFrom, after_layer, record_hit-eq}

module _ {M : Type 0} where
  NumberedFrom-replace :
      (s : String) (n : ℕ) (before : List (DriftLayer M)) (x y : DriftLayer M)
      (after : List (DriftLayer M))
      → x.index ≡ y.index
      → x.strategy ≡ y.strategy
      → NumberedFrom s n (before ++ x ∷ after)
      → NumberedFrom s n (before ++ y ∷ after)
  NumberedFrom-replace s n [] x y after ei es h = ((λ p. sym ei ∙ h.0 (rw es p)), rw (← es) h.1)
  NumberedFrom-replace s n (b ∷ before) x y after ei es h =
      (h.0, NumberedFrom-replace s (after_layer s b n) before x y after ei es h.1)

  pub active_layers-shrink :
      (c : DriftCoordinator M) (k : String) (st : SchemaDriftState M) (ls : List (DriftLayer M))
      → st.schema_name ≡ k
      → active_layers (shrink c k st ls) k ≡ ls
  unfolding active_layers drop_state_if_empty
  active_layers-shrink c k st [] e = rw (e, active_layers, get-pop, eq_refl k)
  active_layers-shrink c k st (l ∷ ls) e = rw (active_layers, get-set, eq_refl k)

  abbrev pub with_hits : DriftLayer M → ℕ → DriftLayer M
  with_hits l n = record l { hits = n }

-- A schema's state in a registry, its layers of one strategy numbered, split at the newest of them,
-- which a hit limit `m` applies to and no approval quota stops.
pub record Limited {M : Type 0} (name strategy : String) (m : ℕ) (c : DriftCoordinator M)
    : Type 0 where
  pub state : SchemaDriftState M
  pub found : Dict.get c name ≡ some state
  pub named : state.schema_name ≡ name
  pub numbered : NumberedFrom strategy 0 state.layers
  pub newest : LastSplit (of_strategy strategy) state.layers
  pub limit : newest.item.max_hits ≡ some m
  pub no_quota : newest.item.request_quota ≡ none

module _ {M : Type 0} ⦃p : Payload M⦄ (name strategy : String) where
  unfoldable pub hit_times : ℕ → DriftCoordinator M → DriftCoordinator M
  hit_times zero c = c
  hit_times (suc n) c = (record_hit name strategy (hit_times n c)).1

  exhausted-with_hits :
      (l : DriftLayer M) (m n : ℕ)
      → l.max_hits ≡ some m
      → l.request_quota ≡ none
      → exhausted (with_hits l n) ≡ leb m n
  unfolding exhausted
  exhausted-with_hits l m n em eq = rw (em, eq) (ground arith)

  module _ {m : ℕ} {c : DriftCoordinator M} (x : Limited name strategy m c) where
    abbrev pub layers_with : ℕ → List (DriftLayer M)
    layers_with n = x.newest.before ++ with_hits x.newest.item n ∷ x.newest.after

    one_hit :
        (n : ℕ) (d : DriftCoordinator M)
        → Dict.get d name ≡ some (record x.state { layers = layers_with n })
        → record_hit name strategy d ≡ (
            if leb m (n + 1)
            then (
              none,
              shrink d name
                  (record x.state { layers = layers_with n })
                  (x.newest.before ++ x.newest.after),
            )
            else (
              some (with_hits x.newest.item (n + 1)),
              Dict.set d name (record x.state { layers = layers_with (n + 1) }),
            ))
    one_hit n d e =
        let i = x.newest.item in
        let num : NumberedFrom strategy 0 (x.newest.before ++ i ∷ x.newest.after) =
          rw (← x.newest.parts) x.numbered in
        let split : LastSplit (of_strategy strategy) (layers_with n) = record {
          before = x.newest.before;
          item = with_hits i n;
          after = x.newest.after;
          parts = refl;
          passes = x.newest.passes;
          none_after = x.newest.none_after;
        } in
        rw (← exhausted-with_hits i m (n + 1) x.limit x.no_quota) (
          record_hit-eq name strategy d (record x.state { layers = layers_with n }) e
            (NumberedFrom-replace strategy 0 x.newest.before i (with_hits i n) x.newest.after refl
              refl num)
            split)

    -- While its hits stay below the limit the layer is there, with each hit counted.
    alive :
        (n : ℕ)
        → x.newest.item.hits + n < m
        → Dict.get (hit_times n c) name
          ≡ some (record x.state { layers = layers_with (x.newest.item.hits + n) })
    unfolding hit_times
    alive zero h =
        x.found
        ∙ ap (λ (ls : List (DriftLayer M)). some (record x.state { layers = ls }))
            (x.newest.parts ∙ ap layers_with (omega arith))
    alive (suc n) h =
        let k = x.newest.item.hits + n in
        let below : leb m (k + 1) ≡ false = ground arith in
        rw
          (
            hit_times,
            one_hit k (hit_times n c) (alive n (omega arith)),
            below,
            get-set,
            eq_refl name,
          )
          (ap (λ (j : ℕ). some (record x.state { layers = layers_with j })) (omega arith))

    -- Where the layers of a strategy are numbered and its newest layer has a limit of `m` hits and no
    -- quota, one or more further hits, up to the limit, leave that layer with so many hits more while
    -- it is below the limit, and the hit that reaches the limit takes it out; all other layers stay.
    pub lifetime :
        (n : ℕ)
        → x.newest.item.hits + n ≤ m
        → 0 < n
        → active_layers (hit_times n c) name ≡ (
            if ltb (x.newest.item.hits + n) m
            then layers_with (x.newest.item.hits + n)
            else x.newest.before ++ x.newest.after)
    unfolding hit_times active_layers
    lifetime zero h pos = absurd (omega arith)
    lifetime (suc n) h pos = elim (Bool-cases (ltb (x.newest.item.hits + suc n) m)) [
      | inl e ↦ rw (e, active_layers, alive (suc n) (ltb→lt _ _ e))
      | inr e ↦
          let k = x.newest.item.hits + n in
          let reached : leb m (k + 1) ≡ true = ground arith in
          rw (e, hit_times, one_hit k (hit_times n c) (alive n (omega arith)), reached)
            (active_layers-shrink (hit_times n c) name (record x.state { layers = layers_with k })
              (x.newest.before ++ x.newest.after) x.named)
    ]
