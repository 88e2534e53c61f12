-- ===== src/Chaos/Drift/Numbered.antt =====
-- The layer indices of a schema, and which layer a hit takes away.
use havoc_forge.Base.{
  ℕ, ◌+◌, ◌<◌, String, true, ◌≡◌, refl, ap, ◌∙◌, Option, none, some, List, [], ◌∷◌, ◌++◌, inl, inr,
  eq_iff, eq_refl, eqb, if◌then◌else◌, Bool-cases, arith,
}
use havoc_forge.Base.Dict
use havoc_forge.Base.Dict.{get-set, get-pop}
use havoc_forge.Base.Find.{LastSplit, All, remove_first, update_last, update_last-append}
use havoc_forge.Chaos.Layer.{
  Payload, texts_eq, opt_eq, DriftLayer, SchemaDriftState, DriftCoordinator, of_strategy, exhausted,
  layer_eq,
}
use havoc_forge.Chaos.Drift.{record_hit, shrink}

module _ {M : Type 0} where
  abbrev pub after_layer : String → DriftLayer M → ℕ → ℕ
  after_layer s l n = if of_strategy s l then n + 1 else n

  -- The layers of strategy `s` have the indices `n + 1`, `n + 2`, … in their order.
  abbrev pub NumberedFrom : String → ℕ → List (DriftLayer M) → Type 0
  NumberedFrom s n [] = Unit
  NumberedFrom s n (l ∷ ls) =
      (of_strategy s l ≡ true → l.index ≡ n + 1) × NumberedFrom s (after_layer s l n) ls

  abbrev pub IsOlder : String → ℕ → DriftLayer M → Type 0
  IsOlder s i b = of_strategy s b ≡ true → b.index < i

  -- The newest layer of `s` has a greater index than the other layers of `s` before it.
  pub NumberedFrom-fresh :
      (s : String) (n : ℕ) (before : List (DriftLayer M)) (x : DriftLayer M)
      (after : List (DriftLayer M))
      → of_strategy s x ≡ true
      → NumberedFrom s n (before ++ x ∷ after)
      → (n < x.index) × All (IsOlder s x.index) before
  NumberedFrom-fresh s n [] x after px h = (let e = h.0 px in omega arith, tt)
  NumberedFrom-fresh s n (b ∷ before) x after px h =
      let (lt, rest) = NumberedFrom-fresh s (after_layer s b n) before x after px h.1 in
      (ground arith, ((λ pb. let e = h.0 pb in ground arith), rest))

-- Each part of the field-by-field comparison.
texts_eq_refl : (l : List String) → texts_eq l l ≡ true
texts_eq_refl [] = refl
texts_eq_refl (s ∷ l) = rw (eq_refl s) (texts_eq_refl l)

eqb_refl : (n : ℕ) → eqb n n ≡ true
eqb_refl n = ground arith

opt_eq_refl : (o : Option ℕ) → opt_eq eqb o o ≡ true
opt_eq_refl none = refl
opt_eq_refl (some n) = eqb_refl n

module _ {M : Type 0} ⦃p : Payload M⦄ where
  layer_eq-index :
      (a b : DriftLayer M) → layer_eq a b ≡ true → (a.strategy ≡ b.strategy) × (a.index ≡ b.index)
  unfolding layer_eq
  layer_eq-index a b h = ground (arith, eq_iff a.strategy b.strategy)

  layer_eq_refl : (a : DriftLayer M) → layer_eq a a ≡ true
  unfolding layer_eq
  layer_eq_refl a =
      simp (eq_refl, opt_eq_refl, eqb_refl, texts_eq_refl, (p.beq_iff a.metadata a.metadata).1 refl)

  -- No other layer is taken away in place of the one that was hit.
  remove_first-hit :
      (s : String) (before : List (DriftLayer M)) (l : DriftLayer M) (after : List (DriftLayer M))
      → of_strategy s l ≡ true
      → All (IsOlder s l.index) before
      → remove_first (λ x. layer_eq x l) (before ++ l ∷ after) ≡ before ++ after
  remove_first-hit s [] l after pl h = rw (layer_eq_refl l)
  remove_first-hit s (b ∷ before) l after pl h = elim (Bool-cases (layer_eq b l)) [
    | inl e ↦ let (es, ei) = layer_eq-index b l e in let lt = h.0 (rw es pl) in absurd (omega arith)
    | inr e ↦ rw e (ap (λ t. b ∷ t) (remove_first-hit s before l after pl h.1))
  ]

  abbrev pub hit_layer : DriftLayer M → DriftLayer M
  hit_layer l = record l { hits = l.hits + 1 }

  -- Where the layers of the strategy are numbered, a hit goes to the newest of them alone: it stays
  -- with one hit more, or, exhausted by that hit, it and no other layer is taken out of the list.
  pub record_hit-eq :
      (name strategy : String) (c : DriftCoordinator M) (st : SchemaDriftState M)
      → Dict.get c name ≡ some st
      → NumberedFrom strategy 0 st.layers
      → (s : LastSplit (of_strategy strategy) st.layers)
      → record_hit name strategy c ≡ (
          if exhausted (hit_layer s.item) then (none, shrink c name st (s.before ++ s.after)) else (
            some (hit_layer s.item),
            Dict.set c name (record st { layers = s.before ++ hit_layer s.item ∷ s.after }),
          ))
  unfolding record_hit
  record_hit-eq name strategy c st e num s =
      let num' : NumberedFrom strategy 0 (s.before ++ s.item ∷ s.after) = rw (← s.parts) num in
      let (_, older) = NumberedFrom-fresh strategy 0 s.before s.item s.after s.passes num' in
      let up =
        update_last-append (of_strategy strategy) hit_layer s.before s.item s.after s.passes
          s.none_after in
      let up' = ap (update_last (of_strategy strategy) hit_layer) s.parts ∙ up in
      rw (
        e,
        record_hit,
        up',
        remove_first-hit strategy s.before (hit_layer s.item) s.after s.passes older,
      )
