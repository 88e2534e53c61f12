-- ===== src/Schema/Lineage.antt =====
-- The loop of `_root_name` ends: the parents of an entry are a chain that the registry has.
pub mod Set
pub mod Calls
use havoc_forge.Base.{
  ℕ, zero, suc, ◌+◌, ◌≤◌, ◌<◌, String, Bool, true, false, ◌≡◌, refl, sym, Option, none, some, List,
  [], ◌∷◌, inl, inr, arith, if◌then◌else◌, length, ◌==◌, eq_iff, eq_refl, Bool-cases, Option-cases,
}
use mathlib.Core.Path.{subst}
use havoc_forge.Base.Dict
use havoc_forge.Base.Dict.{Dict, get-set}
use havoc_forge.Base.Result.{Result, ok, err}
use havoc_forge.Schema.Registry.{SchemaError, SchemaEntry, named, root_from, root_name}

-- The parent that an entry names, if any, has an entry of a smaller rank.
abbrev pub HasParent : Dict SchemaEntry → (String → ℕ) → ℕ → Option String → Type 0
HasParent store rank n none = Unit
HasParent store rank n (some p) = ((e : SchemaEntry) × (Dict.get store p ≡ some e)) × (rank p < n)

-- Every entry stands under its own name, and a rank leads from it to an entry without a parent.
pub record IsRooted (store : Dict SchemaEntry) : Type 0 where
  pub rank : String → ℕ
  pub names : (k : String) (e : SchemaEntry) → Dict.get store k ≡ some e → e.name ≡ k
  pub bounded : (k : String) (e : SchemaEntry) → Dict.get store k ≡ some e → rank k ≤ length store
  pub parents :
      (k : String) (e : SchemaEntry)
      → Dict.get store k ≡ some e
      → HasParent store rank (rank k) (named e.parent)

-- A name whose entry has no parent.
pub record IsRoot (store : Dict SchemaEntry) (name : String) : Type 0 where
  pub entry : SchemaEntry
  pub found : Dict.get store name ≡ some entry
  pub no_parent : named entry.parent ≡ none

module _ (store : Dict SchemaEntry) (h : IsRooted store) where
  parent_entry :
      (k p : String) (e : SchemaEntry)
      → Dict.get store k ≡ some e
      → named e.parent ≡ some p
      → HasParent store h.rank (h.rank k) (some p)
  parent_entry k p e found is_p =
      subst (λ x. HasParent store h.rank (h.rank k) x) is_p (h.parents k e found)

  itself :
      (k : String) (e : SchemaEntry)
      → Dict.get store k ≡ some e
      → named e.parent ≡ none
      → IsRoot store e.name
  itself k e found none' = record {
    entry = e;
    found = subst (λ x. Dict.get store x ≡ some e) (sym (h.names k e found)) found;
    no_parent = none';
  }

  pub root_from-ok :
      (n : ℕ) (k : String) (e : SchemaEntry)
      → Dict.get store k ≡ some e
      → h.rank k ≤ n
      → (root : String) × (root_from n store e ≡ ok root) × IsRoot store root
  unfolding root_from
  root_from-ok zero k e found le = elim (Option-cases (named e.parent)) [
    | inl none' ↦ (e.name, rw (root_from, none'), itself k e found none')
    | inr (p, is_p) ↦
        let (_, lt) = parent_entry k p e found is_p in
        let no : ⊥ = omega (arith, lt, le) in absurd no
  ]
  root_from-ok (suc n) k e found le = elim (Option-cases (named e.parent)) [
    | inl none' ↦ (e.name, rw (root_from, none'), itself k e found none')
    | inr (p, is_p) ↦
        let ((e', found'), lt) = parent_entry k p e found is_p in
        let (root, eq, is_root) = root_from-ok n p e' found' (omega (arith, lt, le)) in
        (root, rw (root_from, is_p, found') eq, is_root)
  ]

  -- The loop of `_root_name` ends for every registered name, within as many rounds as there are
  -- entries, at a name whose entry has no parent.
  pub root_name-ok :
      (name : String) (e : SchemaEntry)
      → Dict.get store name ≡ some e
      → (root : String) × (root_name store name ≡ ok root) × IsRoot store root
  unfolding root_name
  root_name-ok name e found =
      rw (root_name, found) (root_from-ok (length store) name e found (h.bounded name e found))
