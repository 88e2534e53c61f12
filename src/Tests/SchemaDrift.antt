-- ===== src/Tests/SchemaDrift.antt =====
-- Changes of fields at concrete inputs: a draw is what the state says, words count it.
use Prim.Native.String.{◌++◌}
use Prim.Native.String.append
use Prim.Native.String.compare
use havoc_forge.Base.{ℕ, zero, suc, ◌+◌, ◌≤◌, false, ◌≡◌, refl, some, [], ◌∷◌, length}
use havoc_forge.Base.Dict
use havoc_forge.Base.Text.{concat, show_ℕ}
use havoc_forge.Chaos.SchemaDrift.{
  object, other, Fields, drop_entry, rename_entry, flatten_object, Draws, fallback_name,
  mutate_object, mutate_all, configured_max, weighted_choice, reach_share, add_to, promote,
  generate_field_name, try_names,
}
use havoc_forge.Chaos.SchemaDrift.Kept.{mutate_object-Holds}
use havoc_forge.Chaos.SchemaDrift.Changes.{Changes}
use havoc_forge.Chaos.SchemaDrift.Most.{length-mutate_all}
use text.Mathlib.Text.{◌==◌}

-- The number that is drawn is the state.
abbrev draws : Draws ℕ ℕ
draws = record {
  random = λ r. (r, r);
  choice = λ n r. (r, r);
  randint = λ lo hi r. (lo, r);
  generate_word = λ r. ("word", r + 1);
  generate_field = λ r. (some (other r), r);
  split = λ key. key ∷ [];
}

abbrev heap : ℕ → Fields ℕ
heap zero = ("id", other 7) ∷ ("name", other 8) ∷ ("address", object 1) ∷ []
heap (suc at) = ("street", other 9) ∷ []

flattened : (mutate_object draws ("id" ∷ []) ((flatten_object, 1) ∷ []) heap 0 0).0 ≡ (
  some "flattened object 'address' (1 fields)",
  ("id", other 7) ∷ ("name", other 8) ∷ ("address_street", other 9) ∷ [],
)
unfolding mutate_object weighted_choice reach_share add_to promote generate_field_name try_names
    Dict.get Dict.set Dict.pop Dict.keys concat show_ℕ
flattened = refl

not_id : (n : ℕ) → (fallback_name n == "id") ≡ false
unfolding concat
not_id n =
    rw (append.cons "f" "ield_" (show_ℕ n ++ ""))
      (rw (compare.cons-cons "f" "i" ("ield_" ++ (show_ℕ n ++ "")) "d"))

mutate_object-Holds_example :
    Dict.get (mutate_object draws ("id" ∷ []) ((drop_entry, 1) ∷ []) heap 0 0).0.1 "id"
    ≡ some (other 7)
unfolding Dict.get
mutate_object-Holds_example =
    mutate_object-Holds draws ("id" ∷ []) "id" not_id refl (other 7) ((drop_entry, 1) ∷ []) heap 0 0
      refl

length-mutate_all_example :
    let (modifications, (heap', r')) =
      mutate_all draws
        ("id" ∷ [])
        ((rename_entry, 1) ∷ [])
        (configured_max (some 0) (some 1))
        (("root", 0) ∷ ("address", 1) ∷ [])
        heap
        0 in
    (length modifications ≤ 1) × Changes 0 (length modifications) heap heap' × (heap' 2 ≡ heap 2)
length-mutate_all_example =
    length-mutate_all draws ("id" ∷ []) ((rename_entry, 1) ∷ []) (some 0) (some 1)
      (("root", 0) ∷ ("address", 1) ∷ []) heap 0 2 (refl, (refl, tt))
