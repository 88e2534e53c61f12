-- ===== src/Chaos/DataDrift/Replaced.antt =====
-- A replacement at a path of the flattened tree is found there afterwards.
use havoc_forge.Base.{
  ℕ, zero, suc, Bool, true, false, some, List, [], ◌∷◌, eqb, if◌then◌else◌, ◌≡◌, refl, sym, ap, ◌∙◌,
  inl, inr, Bool-cases, Option-cases,
}
use havoc_forge.Base.Find.{All, All-map}
use havoc_forge.Config.Path.{Text}
use havoc_forge.Schema.Specs.{
  Spec, object, select, array, maybe, one_of, leaf, FieldSpecs, no_fields, field, Child, no_child,
  child, Choices, no_choices, choice, eq_text, Paths, put_path, flatten, descend, descend_all,
  get_field, get_choice, choice_at, int_of, parse_path,
}
use havoc_forge.Schema.Specs.Flattened.{IsTidy, LeadsTo, flatten-LeadsTo, eq_text_refl}
use havoc_forge.Chaos.DataDrift.{
  set_field, set_choice, assign_segment, Replacing, replaced, assigned, put_back, replace_at,
  SchemaTree, after_replacement, apply_replacement,
}

module _ {L : Type 0} where
  get_field-set :
      (fs : FieldSpecs L) (k : Text) (v : Spec L) → get_field (set_field fs k v) k ≡ child v
  get_field-set no_fields k v = rw (eq_text_refl k) refl
  get_field-set (field j w fs) k v = elim (Bool-cases (eq_text j k)) [
    | inl e ↦ rw (e, get_field) (rw e refl)
    | inr e ↦ rw (e, get_field) (rw e (get_field-set fs k v))
  ]

  get_choice-set :
      (cs : Choices L) (i : ℕ) (v : Spec L) → get_choice (set_choice cs i v) i ≡ child v
  get_choice-set no_choices zero v = refl
  get_choice-set no_choices (suc i) v = get_choice-set no_choices i v
  get_choice-set (choice c cs) zero v = refl
  get_choice-set (choice c cs) (suc i) v = get_choice-set cs i v

  -- What is found under a test passed the test.
  passed :
      (b : Bool) (c : Child L) {below : Spec L}
      → (if b then c else no_child) ≡ child below
      → b ≡ true
  passed true c h = refl
  passed false c h = cc

  -- Where there is a child, it can be replaced.
  record Assigns (node : Spec L) (segment : Text) (v : Spec L) : Type 0 where
    after : Spec L
    works : assign_segment node segment v ≡ some after
    found : descend after segment ≡ child v

  assign_segment-Assigns :
      (node : Spec L) (segment : Text) (v below : Spec L)
      → descend node segment ≡ child below
      → Assigns node segment v
  unfolding assign_segment descend
  assign_segment-Assigns (object l fs) segment v below h = record {
    after = object l (set_field fs segment v);
    works = refl;
    found = get_field-set fs segment v;
  }
  assign_segment-Assigns (select l fs) segment v below h = record {
    after = select l (set_field fs segment v);
    works = refl;
    found = get_field-set fs segment v;
  }
  assign_segment-Assigns (array l c) segment v below h =
      let e = passed (eq_text segment (b'[' ∷ b']' ∷ [])) c h in
      record { after = array l (child v); works = rw e refl; found = rw e refl }
  assign_segment-Assigns (maybe l c) segment v below h =
      let e = passed (eq_text segment (b'?' ∷ [])) c h in
      record { after = maybe l (child v); works = rw e refl; found = rw e refl }
  assign_segment-Assigns (one_of l cs) [] v below h = cc
  assign_segment-Assigns (one_of l cs) (c ∷ segment) v below h =
      let e = passed (eqb c b'|') (choice_at cs (int_of segment)) h in
      elim (Option-cases (int_of segment)) [
        | inl n ↦ absurd (let no_way : no_child ≡ child below = sym (rw (e, n) refl) ∙ h in cc)
        | inr (i, n) ↦ record {
          after = one_of l (set_choice cs i v);
          works = rw (e, n) refl;
          found = rw (e, n) (get_choice-set cs i v);
        }
      ]
  assign_segment-Assigns (leaf l) segment v below h = cc

  record Replaces (tree : Child L) (segments : List Text) (v : Spec L) : Type 0 where
    after : Spec L
    works : replace_at tree segments v ≡ replaced after
    found : descend_all (child after) segments ≡ child v

  put_back-Replaces :
      (node : Spec L) (segment : Text) (segments : List Text) (v below : Spec L) (o : Replacing L)
      (changed : Spec L)
      → descend node segment ≡ child below
      → o ≡ replaced changed
      → descend_all (child changed) segments ≡ child v
      → (after : Spec L) × (put_back node segment o ≡ replaced after)
        × (descend_all (child after) (segment ∷ segments) ≡ child v)
  unfolding descend_all
  put_back-Replaces node segment segments v below o changed h is found =
      let a = assign_segment-Assigns node segment changed below h in
      (a.after, rw is (ap assigned a.works), rw a.found found)

  entered :
      (c : Child L) (segment : Text) (segments : List Text) {below : Spec L}
      → descend_all c (segment ∷ segments) ≡ child below
      → (n : Spec L) × (c ≡ child n)
  unfolding descend_all
  entered no_child segment segments h = absurd (cc)
  entered (child n) segment segments h = (n, refl)

  replace_at-Replaces :
      (c : Child L) (segments : List Text) (v below : Spec L)
      → descend_all c segments ≡ child below
      → Replaces c segments v
  unfolding replace_at descend_all
  replace_at-Replaces no_child [] v below h = cc
  replace_at-Replaces no_child (segment ∷ segments) v below h = cc
  replace_at-Replaces (child node) [] v below h = record { after = v; works = refl; found = refl }
  replace_at-Replaces (child node) (segment ∷ []) v below h =
      let a = assign_segment-Assigns node segment v below h in
      record { after = a.after; works = ap assigned a.works; found = a.found }
  replace_at-Replaces (child node) (segment ∷ next_one ∷ segments) v below h =
      let (n, is) = entered (descend node segment) next_one segments h in
      let r = replace_at-Replaces (descend node segment) (next_one ∷ segments) v below h in
      let (after, works, found) =
        put_back-Replaces node segment (next_one ∷ segments) v n
          (replace_at (descend node segment) (next_one ∷ segments) v) r.after is r.works r.found in
      record { after = after; works = works; found = found }

  abbrev pub get_path : Paths L → Text → Child L
  get_path [] path = no_child
  get_path ((j, c) ∷ paths) path =
      let rest = get_path paths path in if eq_text j path then c else rest

  get_path-put_path :
      (paths : Paths L) (path : Text) (c : Child L) → get_path (put_path paths path c) path ≡ c
  get_path-put_path [] path c = rw (eq_text_refl path) refl
  get_path-put_path ((j, w) ∷ paths) path c = elim (Bool-cases (eq_text j path)) [
    | inl e ↦ rw (e, get_path) (rw e refl)
    | inr e ↦ rw (e, get_path) (rw e (get_path-put_path paths path c))
  ]

  -- What a replacement at a path leaves: it works, and the new node is found at the path, in the tree
  -- and in the map of paths.
  pub record IsReplaced (doc : SchemaTree L) (path : Text) (v : Spec L) : Type 0 where
    pub after : SchemaTree L
    pub works : apply_replacement doc path v ≡ some after
    pub in_tree : descend_all (child after.contracts_tree) (parse_path path) ≡ child v
    pub in_paths : get_path after.contracts_by_path path ≡ child v

  abbrev pub Replaceable : SchemaTree L → Spec L → Text × Child L → Type 0
  Replaceable doc v (path, no_child) = Unit
  Replaceable doc v (path, child node) = IsReplaced doc path v

  leads-Replaceable :
      (doc : SchemaTree L) (v : Spec L) (entry : Text × Child L)
      → LeadsTo doc.contracts_tree entry
      → Replaceable doc v entry
  unfolding apply_replacement
  leads-Replaceable doc v (path, no_child) h = tt
  leads-Replaceable doc v (path, child node) h =
      let r = replace_at-Replaces (child doc.contracts_tree) (parse_path path) v node h in
      record {
        after = record {
          contracts_tree = r.after;
          contracts_by_path = put_path doc.contracts_by_path path (child v);
        };
        works = ap (after_replacement doc path v) r.works;
        in_tree = r.found;
        in_paths = get_path-put_path doc.contracts_by_path path (child v);
      }

  -- In a tree whose objects have fields of different proper names, for each node that `_flatten` names
  -- by a path, a replacement at this path raises nothing, and afterwards the path leads to the
  -- replacement, in the tree and in the map.
  pub apply_replacement-Replaceable :
      (doc : SchemaTree L) (v : Spec L)
      → IsTidy doc.contracts_tree
      → All (Replaceable doc v) (flatten [] doc.contracts_tree)
  apply_replacement-Replaceable doc v tidy =
      All-map (leads-Replaceable doc v) (flatten [] doc.contracts_tree)
        (flatten-LeadsTo doc.contracts_tree tidy)
