-- ===== src/Tests/ListShuffle.antt =====
-- A body whose lists are shuffled, at a concrete input: every number that is drawn is 0.
use havoc_forge.Base.{ℕ, zero, suc, ◌+◌, ◌≡◌, refl, List, [], ◌∷◌, arith}
use havoc_forge.Base.Text.{concat, show_ℕ}
use havoc_forge.Chaos.Nodes.{Node, scalar, dict_at, list_at, Body, walk}
use havoc_forge.Chaos.ListShuffle.{apply, shuffle_in_place, swaps}
use havoc_forge.Chaos.ListShuffle.Same.{IsSame, apply-IsSame}

abbrev zeros : ℕ → ℕ × ℕ
zeros r = (0, r + 1)

abbrev lists : ℕ → List (Node ℕ)
lists zero = scalar 1 ∷ list_at 1 ∷ scalar 2 ∷ []
lists (suc a) = scalar 3 ∷ scalar 4 ∷ []

abbrev body : Body ℕ
body = record { dicts = λ a. ("items", list_at 0) ∷ []; lists = lists }

nested_shuffled :
    let (body', (shuffled, r)) = apply zeros 7 (dict_at 0) body 0 in
    (shuffled ≡ "list_shuffle(items)" ∷ "list_shuffle(items[0])" ∷ [])
    × (body'.lists 0 ≡ list_at 1 ∷ scalar 2 ∷ scalar 1 ∷ [])
    × (body'.lists 1 ≡ scalar 4 ∷ scalar 3 ∷ [])
unfolding apply walk shuffle_in_place swaps concat show_ℕ
nested_shuffled = (refl, refl, refl)

apply-IsSame_example : IsSame body (apply zeros 7 (dict_at 0) body 0).0
apply-IsSame_example = apply-IsSame zeros (λ r. omega arith) 7 (dict_at 0) body 0
