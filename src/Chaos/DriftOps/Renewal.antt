-- ===== src/Chaos/DriftOps/Renewal.antt =====
-- Layers that are taken away and not made anew.
use havoc_forge.Base.{ℕ, String, true, false, ◌≡◌, refl, [], ◌∷◌, ◌==◌, arith, length}
use havoc_forge.Chaos.Layer.{Payload, DriftLayer, DriftCoordinator, exhausted}
use havoc_forge.Chaos.Drift.{active_layers, allow_activation, remove_layer}
use havoc_forge.Chaos.DriftOps.{
  DriftOp, schema_drift, make_room, MutateSchema, apply_named, result_of, mutations_to,
  remove_layers,
}
use havoc_forge.Chaos.DriftOps.Layers.{active_layers-remove_layer}

module _ {M B E W : Type 0} ⦃p : Payload M⦄ (placeholder : M)
    (mutate_schema : MutateSchema E W) where
  -- Without layering, when a schema's only layer is one of schema drift that is exhausted, and another
  -- would be allowed after its removal, it is taken away, but no other is made in its place: the
  -- schemas stay as they are, and the result reports the mutations of the layer that is gone.
  pub apply_named-renewal :
      (op : DriftOp) (name : String) (now : ℕ) (body : B) (c : DriftCoordinator M) (w : W)
      (l : DriftLayer M)
      → op.layering_enabled ≡ false
      → active_layers c name ≡ l ∷ []
      → (l.strategy == schema_drift) ≡ true
      → exhausted l ≡ true
      → allow_activation
          (remove_layer name schema_drift l.index c)
          name
          schema_drift
          false
          op.max_layers_total
          op.max_layers_per_strategy
        ≡ true
      → let (r, (c', w')) = apply_named placeholder mutate_schema op name now body c w in
        (r ≡ result_of body (mutations_to name (length l.modifications)))
        × (active_layers c' name ≡ [])
        × (w' ≡ w)
  unfolding apply_named make_room remove_layers
  apply_named-renewal op name now body c w l off one mine spent allowed =
      let gone : active_layers (remove_layer name schema_drift l.index c) name ≡ [] =
        rw (active_layers-remove_layer c name schema_drift l.index)
          (rw one (rw mine (ground arith))) in
      rw off (rw one (rw mine (rw spent (rw allowed (refl, gone, refl)))))
