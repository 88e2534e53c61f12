-- ===== src/Chaos/Drift/Consistent.antt =====
-- The invariant of the drift registry: what each entry says of its schema and its newest revision.
use havoc_forge.Base.{
  ◌+◌, String, Bool, ◌≡◌, refl, sym, ap, ◌∙◌, Option, none, some, List, [], ◌∷◌, ◌++◌, inl, inr,
  arith, ◌==◌, eq_iff, Bool-cases, Option-cases,
}
use havoc_forge.Base.Dict
use havoc_forge.Base.Dict.{get-set, get-pop}
use havoc_forge.Base.Find.{
  All, All-append_one, All-replace, last-append_one, update_last, update_last-LastSplit,
}
use mathlib.Core.Option.{get_or}
use havoc_forge.Chaos.Layer.{
  Payload, DriftLayer, SchemaDriftState, DriftCoordinator, of_strategy, last_revision, push_layer,
  fresh_state,
}
use havoc_forge.Chaos.Drift.{ensure_state, drop_state_if_empty, shrink, record_approval}

module _ {M : Type 0} where
  abbrev pub LayersOf : String → List (DriftLayer M) → Type 0
  LayersOf k = All (λ (l : DriftLayer M). l.schema_name ≡ k)

  -- The state kept under a key is that schema's, and so are its layers; the current revision is the
  -- newest layer's, or none.
  pub record Fits (k : String) (st : SchemaDriftState M) : Type 0 where
    pub named : st.schema_name ≡ k
    pub layers_named : LayersOf k st.layers
    pub current : st.current_revision ≡ last_revision st.layers

  pub record IsConsistent (c : DriftCoordinator M) : Type 0 where
    pub at : (k : String) (st : SchemaDriftState M) → Dict.get c k ≡ some st → Fits k st

  pub IsConsistent-empty : IsConsistent []
  unfolding Dict.get
  IsConsistent-empty = record { at = λ k st h. cc }

  pub IsConsistent-set :
      {c : DriftCoordinator M} (k : String) (st : SchemaDriftState M)
      → IsConsistent c
      → Fits k st
      → IsConsistent (Dict.set c k st)
  IsConsistent-set {c} k st h f = record {
    at = λ j s e. elim (Bool-cases (k == j)) [
      | inl same ↦
          let k=j : k ≡ j = (eq_iff k j).0 same in
          let s=st : st ≡ s = ground (arith, get-set c k st j) in rw (← s=st, ← k=j) f
      | inr other ↦ h.at j s (ground (arith, get-set c k st j))
    ];
  }

  pub IsConsistent-pop :
      {c : DriftCoordinator M} (k : String) → IsConsistent c → IsConsistent (Dict.pop c k)
  IsConsistent-pop {c} k h = record { at = λ j s e. h.at j s (ground (arith, get-pop c k j)) }

  Fits-fresh : (k : String) → Fits k (fresh_state {M = M} k)
  Fits-fresh k = record { named = refl; layers_named = tt; current = refl }

  stored_or_fresh-Fits :
      (c : DriftCoordinator M) (k : String)
      → IsConsistent c
      → Fits k (get_or (Dict.get c k) (fresh_state k))
  stored_or_fresh-Fits c k h = elim (Option-cases (Dict.get c k)) [
    | inl e ↦ rw e (Fits-fresh k)
    | inr (st, e) ↦ rw e (h.at k st e)
  ]

  pub ensure_state-Fits :
      (c : DriftCoordinator M) (k : String) (b : Option Bool)
      → IsConsistent c
      → Fits k (ensure_state c k b)
  unfolding ensure_state
  ensure_state-Fits c k none h = stored_or_fresh-Fits c k h
  ensure_state-Fits c k (some b) h =
      let f = stored_or_fresh-Fits c k h in
      record { named = f.named; layers_named = f.layers_named; current = f.current }

  pub push_layer-Fits :
      (k : String) (st : SchemaDriftState M) (l : DriftLayer M)
      → Fits k st
      → l.schema_name ≡ k
      → Fits k (push_layer st l)
  push_layer-Fits k st l f e = record {
    named = f.named;
    layers_named =
        All-append_one (λ (x : DriftLayer M). x.schema_name ≡ k) st.layers l f.layers_named e;
    current =
        sym (ap (elim [ none ↦ none | some x ↦ some x.revision ]) (last-append_one st.layers l));
  }

  pub shrink-IsConsistent :
      (c : DriftCoordinator M) (k : String) (st : SchemaDriftState M) (ls : List (DriftLayer M))
      → IsConsistent c
      → Fits k st
      → LayersOf k ls
      → IsConsistent (shrink c k st ls)
  unfolding drop_state_if_empty
  shrink-IsConsistent c k st [] h f n =
      IsConsistent-pop st.schema_name
        (IsConsistent-set k _ h (record { named = f.named; layers_named = tt; current = refl }))
  shrink-IsConsistent c k st (l ∷ ls) h f n =
      IsConsistent-set k _ h (record { named = f.named; layers_named = n; current = refl })

  last_revision-replace :
      (before : List (DriftLayer M)) (x y : DriftLayer M) (after : List (DriftLayer M))
      → x.revision ≡ y.revision
      → last_revision (before ++ x ∷ after) ≡ last_revision (before ++ y ∷ after)
  last_revision-replace [] x y [] e = ap some e
  last_revision-replace [] x y (a ∷ after) e = refl
  last_revision-replace (b ∷ []) x y after e = last_revision-replace [] x y after e
  last_revision-replace (b ∷ b' ∷ before) x y after e =
      last_revision-replace (b' ∷ before) x y after e

  -- One layer changes in place, and keeps its schema and its revision.
  pub touch-Fits :
      (k : String) (st : SchemaDriftState M) (f : DriftLayer M → DriftLayer M)
      → ((l : DriftLayer M) → (f l).schema_name ≡ l.schema_name)
      → ((l : DriftLayer M) → (f l).revision ≡ l.revision)
      → (strategy : String) (l : DriftLayer M) (ls : List (DriftLayer M))
      → update_last (of_strategy strategy) f st.layers ≡ some (l, ls)
      → Fits k st
      → Fits k (record st { layers = ls })
  touch-Fits k st f fn fr strategy l ls e h =
      let (s, el, els) = update_last-LastSplit (of_strategy strategy) f st.layers e in
      let before : LayersOf k (s.before ++ s.item ∷ s.after) = rw (← s.parts) h.layers_named in
      record {
        named = h.named;
        layers_named = rw els (
            All-replace (λ (x : DriftLayer M). x.schema_name ≡ k) s.before s.after
              (λ q. fn s.item ∙ q) before);
        current = rw els (
            h.current
            ∙ ap last_revision s.parts
            ∙ last_revision-replace s.before s.item (f s.item) s.after (sym (fr s.item)));
      }

module _ {M : Type 0} ⦃p : Payload M⦄ where
  pub record_approval-IsConsistent :
      (k strategy : String) {c : DriftCoordinator M}
      → IsConsistent c
      → IsConsistent (record_approval k strategy c).1
  unfolding record_approval
  record_approval-IsConsistent k strategy {c} h = elim (Option-cases (Dict.get c k)) [
    | inl e ↦ rw (e, record_approval) h
    | inr (st, e) ↦
        elim (Option-cases (
          update_last (of_strategy strategy) (λ l. record l { approvals = l.approvals + 1 })
            st.layers)) [
              | inl e' ↦ rw (e, record_approval, e') h
              | inr ((l, ls), e') ↦
                  rw (e, record_approval, e')
                    (IsConsistent-set k _ h
                      (touch-Fits k st _ (λ l. refl) (λ l. refl) strategy l ls e' (h.at k st e)))
            ]
  ]
