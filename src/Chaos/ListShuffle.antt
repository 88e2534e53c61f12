-- ===== src/Chaos/ListShuffle.antt =====
-- havocforge/chaos/ops/body/list_shuffle.py: every list of the body is shuffled.
pub mod Same
use havoc_forge.Base.{
  ℕ, zero, suc, ◌+◌, ◌-◌, ◌*◌, ◌/◌, ◌^◌, String, Bool, List, [], ◌∷◌, ◌++◌, ltb, eqb, if◌then◌else◌,
  length, get_or, set, ◌==◌,
}
use havoc_forge.Base.Text.{concat}
use havoc_forge.Chaos.Nodes.{Node, scalar, dict_at, list_at, Body, NodeRef, walk, root_ref}

abbrev pub label : String → String
label path = if path == "" then "[root]" else path

-- `int(rng.random() * (i + 1))`, of a number in units of 2^-53
abbrev pub position : ℕ → ℕ → ℕ
position n i = n * (i + 1) / 2 ^ 53

-- `lst[i], lst[j] = lst[j], lst[i]`
abbrev pub swap : {A : Type 0} → List A → ℕ → ℕ → List A
swap [] i j = []
swap (x ∷ xs) i j = let l = x ∷ xs in set (set l i (get_or l j x)) j (get_or l i x)

module _ {R : Type 0} (random : R → ℕ × R) where
  module _ {A : Type 0} where
    -- For i, i - 1, …, 1.
    unfoldable pub swaps : ℕ → List A → R → List A × R
    swaps zero l r = (l, r)
    swaps (suc i) l r = let (n, r') = random r in swaps i (swap l (suc i) (position n (suc i))) r'

    unfoldable pub shuffle_in_place : List A → R → List A × R
    unfolding swaps
    shuffle_in_place l r = swaps (length l - 1) l r

  module _ {V : Type 0} where
    abbrev pub put_list : Body V → ℕ → List (Node V) → Body V
    put_list body a l = record body { lists = λ i. if eqb i a then l else body.lists i }

    -- What is done for a list, with the descriptions so far.
    abbrev pub shuffle_at : String → ℕ → Body V × (List String × R) → Body V × (List String × R)
    shuffle_at path a (body, (shuffled, r)) =
        let (l, r') = shuffle_in_place (body.lists a) r in
        if ltb 1 (length (body.lists a))
        then (
          put_list body a l,
          (shuffled ++ concat ("list_shuffle(" ∷ label path ∷ ")" ∷ []) ∷ [], r'),
        )
        else (body, (shuffled, r))

    abbrev pub visit : NodeRef V → Body V × (List String × R) → Body V × (List String × R)
    visit ref s = elim ref.value [
      | scalar v ↦ s
      | dict_at a ↦ s
      | list_at a ↦ shuffle_at ref.path a s
    ]

    unfoldable pub apply : ℕ → Node V → Body V → R → Body V × (List String × R)
    unfolding shuffle_in_place walk
    apply nodes root body r = walk visit nodes (root_ref root ∷ []) (body, ([], r))
