-- ===== src/Chaos/DataDrift.antt =====
-- havocforge/chaos/ops/drift/data_drift.py: how a node of a schema's tree is replaced, by the path
-- that `_flatten` gave it. A node that is changed in place stands in its parent where it stood.
pub mod Replaced
use havoc_forge.Base.{
  ℕ, zero, suc, Bool, true, false, Option, none, some, List, [], ◌∷◌, eqb, if◌then◌else◌,
}
use havoc_forge.Config.Path.{Text}
use havoc_forge.Schema.Specs.{
  Spec, object, select, array, maybe, one_of, leaf, FieldSpecs, no_fields, field, Child, no_child,
  child, Choices, no_choices, choice, eq_text, Paths, put_path, descend, int_of, parse_path,
}

module _ {L : Type 0} where
  -- `fields[segment] = replacement`
  abbrev pub set_field : FieldSpecs L → Text → Spec L → FieldSpecs L
  set_field no_fields segment replacement = field segment replacement no_fields
  set_field (field k v fs) segment replacement =
      let rest = set_field fs segment replacement in
      if eq_text k segment then field k replacement fs else field k v rest

  -- `choices[idx] = replacement`, after None was appended as often as needed.
  abbrev pub set_choice : Choices L → ℕ → Spec L → Choices L
  set_choice no_choices zero replacement = choice (child replacement) no_choices
  set_choice no_choices (suc i) replacement = choice no_child (set_choice no_choices i replacement)
  set_choice (choice c cs) zero replacement = choice (child replacement) cs
  set_choice (choice c cs) (suc i) replacement = choice c (set_choice cs i replacement)

  abbrev pub assign_choice : L → Choices L → Option ℕ → Spec L → Option (Spec L)
  assign_choice l cs none replacement = none
  assign_choice l cs (some i) replacement = some (one_of l (set_choice cs i replacement))

  abbrev pub assign_option : L → Choices L → Text → Spec L → Option (Spec L)
  assign_option l cs [] replacement = none
  assign_option l cs (c ∷ segment) replacement =
      if eqb c b'|' then assign_choice l cs (int_of segment) replacement else none

  -- `_assign`; none where it raises.
  unfoldable pub assign_segment : Spec L → Text → Spec L → Option (Spec L)
  assign_segment (object l fs) segment replacement =
      some (object l (set_field fs segment replacement))
  assign_segment (select l fs) segment replacement =
      some (select l (set_field fs segment replacement))
  assign_segment (array l c) segment replacement =
      if eq_text segment (b'[' ∷ b']' ∷ []) then some (array l (child replacement)) else none
  assign_segment (maybe l c) segment replacement =
      if eq_text segment (b'?' ∷ []) then some (maybe l (child replacement)) else none
  assign_segment (one_of l cs) segment replacement = assign_option l cs segment replacement
  assign_segment (leaf l) segment replacement = none

pub data Replacing (L : Type 0) : Type 0 where
  replaced : Spec L → Replacing L
  not_found raises : Replacing L

module _ {L : Type 0} where
  abbrev pub assigned : Option (Spec L) → Replacing L
  assigned none = raises
  assigned (some node) = replaced node

  -- What becomes of a node when something was replaced below one of its children.
  abbrev pub put_back : Spec L → Text → Replacing L → Replacing L
  put_back node segment (replaced below) = assigned (assign_segment node segment below)
  put_back node segment not_found = not_found
  put_back node segment raises = raises

  -- The tree after a replacement at some segments; none at all replace it whole.
  unfoldable pub replace_at : Child L → List Text → Spec L → Replacing L
  unfolding assign_segment descend
  replace_at no_child segments replacement = not_found
  replace_at (child node) [] replacement = replaced replacement
  replace_at (child node) (segment ∷ []) replacement =
      assigned (assign_segment node segment replacement)
  replace_at (child node) (segment ∷ next_one ∷ segments) replacement =
      put_back node segment (replace_at (descend node segment) (next_one ∷ segments) replacement)

pub record SchemaTree (L : Type 0) : Type 0 where
  pub contracts_tree : Spec L
  pub contracts_by_path : Paths L

module _ {L : Type 0} where
  -- Where a parent is not found, nothing is done.
  abbrev pub after_replacement : SchemaTree L → Text → Spec L → Replacing L → Option (SchemaTree L)
  after_replacement doc path replacement not_found = some doc
  after_replacement doc path replacement raises = none
  after_replacement doc path replacement (replaced tree) = some (record {
    contracts_tree = tree;
    contracts_by_path = put_path doc.contracts_by_path path (child replacement);
  })

  unfoldable pub apply_replacement : SchemaTree L → Text → Spec L → Option (SchemaTree L)
  unfolding parse_path replace_at
  apply_replacement doc path replacement =
      after_replacement doc path replacement
        (replace_at (child doc.contracts_tree) (parse_path path) replacement)
