-- ===== src/Chaos/Nodes.antt =====
-- havocforge/chaos/ops/utils.py: the walk over a JSON body. Its dicts and lists are changed in place
-- while the walk is on, so they stand on a heap, and a node names its address.
use havoc_forge.Base.{ℕ, zero, suc, ◌+◌, String, List, [], ◌∷◌, if◌then◌else◌, ◌==◌}
use havoc_forge.Base.Dict.{Dict}
use havoc_forge.Base.Text.{concat, show_ℕ}

-- A scalar, or the address of a dict or a list.
pub data Node (V : Type 0) : Type 0 where
  scalar : V → Node V
  dict_at list_at : ℕ → Node V

pub record Body (V : Type 0) : Type 0 where
  pub dicts : ℕ → Dict (Node V)
  pub lists : ℕ → List (Node V)

-- The fields of a `NodeRef` that the ops on lists read.
pub record NodeRef (V : Type 0) : Type 0 where
  pub path : String
  pub value : Node V

abbrev pub key_path : String → String → String
key_path path k = if path == "" then k else concat (path ∷ "." ∷ k ∷ [])

abbrev pub index_path : String → ℕ → String
index_path path i = concat (path ∷ "[" ∷ show_ℕ i ∷ "]" ∷ [])

module _ {V : Type 0} where
  abbrev pub dict_refs : String → Dict (Node V) → List (NodeRef V)
  dict_refs path [] = []
  dict_refs path ((k, v) ∷ d) = record { path = key_path path k; value = v } ∷ dict_refs path d

  abbrev pub list_refs : String → ℕ → List (Node V) → List (NodeRef V)
  list_refs path i [] = []
  list_refs path i (v ∷ vs) =
      record { path = index_path path i; value = v } ∷ list_refs path (i + 1) vs

  -- What is pushed to the stack for a node, in order.
  abbrev pub child_refs : Body V → NodeRef V → List (NodeRef V)
  child_refs body ref = elim ref.value [
    | scalar v ↦ []
    | dict_at a ↦ dict_refs ref.path (body.dicts a)
    | list_at a ↦ list_refs ref.path 0 (body.lists a)
  ]

  -- The top of the stack is the first element: `append`, one after the other.
  abbrev pub push : List (NodeRef V) → List (NodeRef V) → List (NodeRef V)
  push [] stack = stack
  push (ref ∷ refs) stack = push refs (ref ∷ stack)

  -- The loop of `iter_nodes` for a consumer that handles each node before the next is asked for: the
  -- children are read after it is done. It runs for a number of nodes.
  unfoldable pub walk :
      {R : Type 0}
      → (NodeRef V → Body V × R → Body V × R)
      → ℕ
      → List (NodeRef V)
      → Body V × R
      → Body V × R
  walk visit zero stack s = s
  walk visit (suc n) [] s = s
  walk visit (suc n) (ref ∷ stack) s =
      let s' = visit ref s in walk visit n (push (child_refs s'.0 ref) stack) s'

  abbrev pub root_ref : Node V → NodeRef V
  root_ref root = record { path = ""; value = root }
