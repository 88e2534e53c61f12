-- ===== src/Tests/Specs.antt =====
-- Trees of contracts at concrete inputs. The other settings of a contract are a number.
use havoc_forge.Base.{ℕ, ◌≡◌, refl, [], ◌∷◌}
use havoc_forge.Base.Find.{All}
use havoc_forge.Config.Path.{Text}
use havoc_forge.Schema.Specs.{
  Spec, object, array, maybe, one_of, leaf, no_fields, field, child, no_choices, choice, flatten,
  parse_path, scan_path,
}
use havoc_forge.Schema.Specs.Flattened.{IsTidy, LeadsTo, flatten-LeadsTo}
use havoc_forge.Chaos.DataDrift.{SchemaTree}
use havoc_forge.Chaos.DataDrift.Replaced.{Replaceable, apply_replacement-Replaceable}

-- `a`: an array of objects with a field `b`, which is a choice of two, the second perhaps null.
abbrev a : Text
a = b'a' ∷ []

abbrev b : Text
b = b'b' ∷ []

abbrev either_one : Spec ℕ
either_one =
    one_of 1 (choice (child (leaf 2)) (choice (child (maybe 3 (child (leaf 4)))) no_choices))

abbrev tree : Spec ℕ
tree = object 5 (field a (array 6 (child (object 7 (field b either_one no_fields)))) no_fields)

tree-IsTidy : IsTidy tree
unfolding IsTidy
tree-IsTidy = (refl, refl, (refl, refl, (tt, (tt, tt)), tt), tt)

parsed :
    parse_path (b'a' ∷ b'[' ∷ b']' ∷ b'.' ∷ b'b' ∷ b'|' ∷ b'1' ∷ b'.' ∷ b'?' ∷ [])
    ≡ (b'a' ∷ []) ∷ (b'[' ∷ b']' ∷ []) ∷ (b'b' ∷ []) ∷ (b'|' ∷ b'1' ∷ []) ∷ (b'?' ∷ []) ∷ []
unfolding parse_path scan_path
parsed = refl

flatten-LeadsTo_example : All (LeadsTo tree) (flatten [] tree)
flatten-LeadsTo_example = flatten-LeadsTo tree tree-IsTidy

abbrev doc : SchemaTree ℕ
doc = record { contracts_tree = tree; contracts_by_path = flatten [] tree }

apply_replacement-Replaceable_example : All (Replaceable doc (leaf 9)) (flatten [] tree)
apply_replacement-Replaceable_example = apply_replacement-Replaceable doc (leaf 9) tree-IsTidy
