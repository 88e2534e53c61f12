-- ===== src/Schema/Specs/Flattened.antt =====
-- The paths that `_flatten` gives to the nodes of a tree lead to these nodes.
use havoc_forge.Base.{
  ℕ, suc, true, false, ◌&&◌, List, [], ◌∷◌, ◌++◌, eqb, eqb_iff, ◌≡◌, refl, sym, ap, ◌∙◌, inl, inr,
  Bool-cases,
}
use havoc_forge.Base.Find.{All, All-map}
use mathlib.Core.Path.{subst}
use havoc_forge.Config.Path.{Text, is_empty}
use havoc_forge.Schema.Specs.{
  Spec, object, select, array, maybe, one_of, leaf, FieldSpecs, no_fields, field, Child, no_child,
  child, Choices, no_choices, choice, eq_text, Paths, put_path, update, field_path, element_path,
  optional_path, choice_path, named_node, flatten, flatten_fields, flatten_choices, flatten_choice,
  get_field, get_choice, descend, descend_all, parse_path, decimal, index_segment,
}
use havoc_forge.Schema.Specs.Paths.{
  is_name, Step, key, element, optional, option, segment, extend, IsProper, Reads, parse_path-Reads,
  root-Reads, extend-Reads, int_of-decimal,
}

eq_text-eq : (s t : Text) → eq_text s t ≡ true → s ≡ t
eq_text-eq [] [] h = refl
eq_text-eq [] (d ∷ t) h = cc
eq_text-eq (c ∷ s) [] h = cc
eq_text-eq (c ∷ s) (d ∷ t) h = elim (Bool-cases (eqb c d)) [
  | inl e ↦
      let same : c ≡ d = (eqb_iff c d).0 e in
      let rest : s ≡ t = eq_text-eq s t (sym (ap (λ b. b && eq_text s t) e) ∙ h) in cc
  | inr e ↦ let no_way : false ≡ true = sym (ap (λ b. b && eq_text s t) e) ∙ h in cc
]

pub eq_text_refl : (s : Text) → eq_text s s ≡ true
eq_text_refl [] = refl
eq_text_refl (c ∷ s) = rw ((eqb_iff c c).1 refl) (eq_text_refl s)

-- The names of the fields of each object are proper names, and differ.
unfoldable mutual
  pub IsTidy : {L : Type 0} → Spec L → Type 0
  IsTidy (object l fs) = IsTidyFields fs
  IsTidy (select l fs) = Unit
  IsTidy (array l c) = IsTidyChild c
  IsTidy (maybe l c) = IsTidyChild c
  IsTidy (one_of l cs) = IsTidyChoices cs
  IsTidy (leaf l) = Unit

  pub IsTidyFields : {L : Type 0} → FieldSpecs L → Type 0
  IsTidyFields no_fields = Unit
  IsTidyFields (field k v fs) =
      (is_name k ≡ true) × (get_field fs k ≡ no_child) × IsTidy v × IsTidyFields fs

  pub IsTidyChild : {L : Type 0} → Child L → Type 0
  IsTidyChild no_child = Unit
  IsTidyChild (child v) = IsTidy v

  pub IsTidyChoices : {L : Type 0} → Choices L → Type 0
  IsTidyChoices no_choices = Unit
  IsTidyChoices (choice c cs) = IsTidyChild c × IsTidyChoices cs

module _ {L : Type 0} where
  All-put_path :
      (P : Text × Child L → Type 0) (out : Paths L) (path : Text) (node : Child L)
      → P (path, node)
      → All P out
      → All P (put_path out path node)
  All-put_path P [] path node p h = (p, tt)
  All-put_path P ((j, w) ∷ out) path node p h = elim (Bool-cases (eq_text j path)) [
    | inl e ↦ rw e (subst (λ k. P (k, node)) (sym (eq_text-eq j path e)) p, h.1)
    | inr e ↦ rw e (h.0, All-put_path P out path node p h.1)
  ]

  All-update :
      (P : Text × Child L → Type 0) (out more : Paths L)
      → All P out
      → All P more
      → All P (update out more)
  All-update P out [] h m = h
  All-update P out ((path, node) ∷ more) h m =
      All-update P (put_path out path node) more (All-put_path P out path node m.0 h) m.1

  descend_all-append :
      (c : Child L) (segments : List Text) (node : Spec L) (last : Text)
      → descend_all c segments ≡ child node
      → descend_all c (segments ++ last ∷ []) ≡ descend node last
  unfolding descend_all
  descend_all-append c [] node last h = ap (λ x. descend_all x (last ∷ [])) h
  descend_all-append no_child (s ∷ segments) node last h = cc
  descend_all-append (child v) (s ∷ segments) node last h =
      descend_all-append (descend v s) segments node last h

  -- Every field of the second list is found in the first by its name.
  EachIn : FieldSpecs L → FieldSpecs L → Type 0
  EachIn all no_fields = Unit
  EachIn all (field k v fs) = (get_field all k ≡ child v) × EachIn all fs

  later :
      (k : Text) (v : Spec L) (all fs : FieldSpecs L)
      → get_field all k ≡ no_child
      → EachIn all fs
      → EachIn (field k v all) fs
  unfolding EachIn
  later k v all no_fields fresh h = tt
  later k v all (field j w fs) fresh h = elim (Bool-cases (eq_text k j)) [
    | inl e ↦
        absurd
          (let same : get_field all k ≡ child w = ap (get_field all) (eq_text-eq k j e) ∙ h.0 in cc)
    | inr e ↦ (rw e h.0, later k v all fs fresh h.1)
  ]

  EachIn-itself : (fs : FieldSpecs L) → IsTidyFields fs → EachIn fs fs
  unfolding EachIn IsTidyFields
  EachIn-itself no_fields h = tt
  EachIn-itself (field k v fs) h =
      (rw (eq_text_refl k) refl, later k v fs fs h.1 (EachIn-itself fs h.3))

  EachAt : Choices L → ℕ → Choices L → Type 0
  EachAt all i no_choices = Unit
  EachAt all i (choice c cs) = (get_choice all i ≡ c) × EachAt all (suc i) cs

  shifted :
      (c : Child L) (all cs : Choices L) (i : ℕ)
      → EachAt all i cs
      → EachAt (choice c all) (suc i) cs
  unfolding EachAt
  shifted c all no_choices i h = tt
  shifted c all (choice d cs) i h = (h.0, shifted c all cs (suc i) h.1)

  EachAt-itself : (cs : Choices L) → EachAt cs 0 cs
  unfolding EachAt
  EachAt-itself no_choices = tt
  EachAt-itself (choice c cs) = (refl, shifted c cs cs 0 (EachAt-itself cs))

module _ {L : Type 0} (root : Spec L) where
  -- A path that is read as the way from the root to a node.
  pub record IsLocated (path : Text) (node : Child L) : Type 0 where
    pub segments : List Text
    pub reads : Reads path segments
    pub found : descend_all (child root) segments ≡ node

  root-IsLocated : IsLocated [] (child root)
  unfolding descend_all
  root-IsLocated = record { segments = []; reads = root-Reads; found = refl }

  step-IsLocated :
      (path : Text) (node : Spec L) (g : Step) (below : Child L)
      → IsLocated path (child node)
      → IsProper g
      → descend node (segment g) ≡ below
      → IsLocated (extend path g) below
  step-IsLocated path node g below at proper h = record {
    segments = at.segments ++ segment g ∷ [];
    reads = extend-Reads path at.segments at.reads g proper;
    found = descend_all-append (child root) at.segments node (segment g) at.found ∙ h;
  }

  abbrev Leads : Text × Child L → Type 0
  Leads (path, node) = IsLocated path node

  named-Leads :
      (path : Text) (node : Spec L) → IsLocated path (child node) → All Leads (named_node path node)
  named-Leads path node h = elim (Bool-cases (is_empty path)) [
    | inl e ↦ rw e tt
    | inr e ↦ rw e (h, tt)
  ]

  choice_found :
      (l : L) (all : Choices L) (i : ℕ) (c : Child L)
      → get_choice all i ≡ c
      → descend (one_of l all) (index_segment (decimal i)) ≡ c
  unfolding descend
  choice_found l all i c h = rw (int_of-decimal i) h

  mutual
    unfolding flatten descend IsTidy EachIn EachAt

    flatten-Leads :
        (path : Text) (node : Spec L)
        → IsLocated path (child node)
        → IsTidy node
        → All Leads (flatten path node)
    flatten-Leads path (object l fs) at tidy =
        fields-Leads path l fs fs (named_node path (object l fs)) at (EachIn-itself fs tidy) tidy
          (named-Leads path (object l fs) at)
    flatten-Leads path (array l no_child) at tidy = (at, tt)
    flatten-Leads path (array l (child v)) at tidy =
        let below = step-IsLocated path (array l (child v)) element (child v) at tt refl in
        All-update Leads
          (put_path ((path, child (array l (child v))) ∷ []) (element_path path) (child v))
          (flatten (element_path path) v)
          (All-put_path Leads ((path, child (array l (child v))) ∷ []) (element_path path) (child v)
            below (at, tt))
          (flatten-Leads (element_path path) v below tidy)
    flatten-Leads path (maybe l no_child) at tidy = (at, tt)
    flatten-Leads path (maybe l (child v)) at tidy =
        All-update Leads ((path, child (maybe l (child v))) ∷ []) (flatten (optional_path path) v)
          (at, tt)
          (flatten-Leads (optional_path path) v
            (step-IsLocated path (maybe l (child v)) optional (child v) at tt refl) tidy)
    flatten-Leads path (one_of l cs) at tidy =
        choices-Leads path l cs cs 0 ((path, child (one_of l cs)) ∷ []) at (EachAt-itself cs) tidy
          (at, tt)
    flatten-Leads path (select l fs) at tidy = (at, tt)
    flatten-Leads path (leaf l) at tidy = (at, tt)

    fields-Leads :
        (path : Text) (l : L) (all fs : FieldSpecs L) (out : Paths L)
        → IsLocated path (child (object l all))
        → EachIn all fs
        → IsTidyFields fs
        → All Leads out
        → All Leads (flatten_fields path fs out)
    fields-Leads path l all no_fields out at each tidy h = h
    fields-Leads path l all (field k v fs) out at each tidy h =
        fields-Leads path l all fs (update out (flatten (field_path path k) v)) at each.1 tidy.3 (
          All-update Leads out (flatten (field_path path k) v) h (
            flatten-Leads (field_path path k) v
              (step-IsLocated path (object l all) (key k) (child v) at tidy.0 each.0) tidy.2))

    choices-Leads :
        (path : Text) (l : L) (all cs : Choices L) (i : ℕ) (out : Paths L)
        → IsLocated path (child (one_of l all))
        → EachAt all i cs
        → IsTidyChoices cs
        → All Leads out
        → All Leads (flatten_choices path i cs out)
    choices-Leads path l all no_choices i out at each tidy h = h
    choices-Leads path l all (choice c cs) i out at each tidy h =
        choices-Leads path l all cs (suc i) (update out (flatten_choice (choice_path path i) c)) at
          each.1 tidy.1
          (All-update Leads out (flatten_choice (choice_path path i) c) h (
            choice-Leads (choice_path path i) c
              (step-IsLocated path (one_of l all) (option i) c at tt
                (choice_found l all i c each.0))
              tidy.0))

    choice-Leads :
        (path : Text) (c : Child L)
        → IsLocated path c
        → IsTidyChild c
        → All Leads (flatten_choice path c)
    choice-Leads path no_child at tidy = (at, tt)
    choice-Leads path (child v) at tidy = flatten-Leads path v at tidy

  -- The tree is entered at the node to which the path leads.
  abbrev pub LeadsTo : Text × Child L → Type 0
  LeadsTo (path, node) = descend_all (child root) (parse_path path) ≡ node

  -- In a tree whose objects have fields of different proper names, every path that `_flatten` writes
  -- is read by `_parse_path` as segments that lead from the root to the node recorded at that path.
  pub flatten-LeadsTo : IsTidy root → All LeadsTo (flatten [] root)
  flatten-LeadsTo tidy =
      All-map
        (λ e (at : IsLocated e.0 e.1).
          ap (descend_all (child root)) (parse_path-Reads e.0 at.segments at.reads) ∙ at.found)
        (flatten [] root) (flatten-Leads [] root root-IsLocated tidy)
