-- ===== src/Schema/Lineage/Set.antt =====
-- Entries of the schema registry that are set so that its parents stay a chain.
use havoc_forge.Base.{
  ℕ, suc, ◌≤◌, ◌<◌, String, true, false, ◌≡◌, refl, sym, Option, none, some, [], ◌∷◌, inl, inr,
  arith, if◌then◌else◌, length, ◌==◌, eq_iff, eq_refl, Bool-cases,
}
use mathlib.Core.Path.{subst}
use havoc_forge.Base.Dict
use havoc_forge.Base.Dict.{Dict, get-set}
use havoc_forge.Schema.Registry.{SchemaEntry, named}
use havoc_forge.Schema.Lineage.{HasParent, IsRooted}

length-set_le :
    (d : Dict SchemaEntry) (k : String) (e : SchemaEntry) → length d ≤ length (Dict.set d k e)
unfolding Dict.set
length-set_le [] k e = omega arith
length-set_le ((j, f) ∷ d) k e = ground (arith, length-set_le d k e)

length-set_fresh :
    (d : Dict SchemaEntry) (k : String) (e : SchemaEntry)
    → Dict.get d k ≡ none
    → length (Dict.set d k e) ≡ suc (length d)
unfolding Dict.set Dict.get
length-set_fresh [] k e h = omega arith
length-set_fresh ((j, f) ∷ d) k e h = ground (arith, length-set_fresh d k e)

module _ (d : Dict SchemaEntry) (k : String) (e : SchemaEntry) where
  abbrev d' : Dict SchemaEntry
  d' = Dict.set d k e

  set-keeps :
      (p : String) (f : SchemaEntry)
      → Dict.get d p ≡ some f
      → (g : SchemaEntry) × (Dict.get d' p ≡ some g)
  set-keeps p f found = elim (Bool-cases (k == p)) [
    | inl same ↦ (e, rw (get-set d k e p, same))
    | inr other ↦ (f, rw (get-set d k e p, other) found)
  ]

  HasParent-set :
      (rank rank' : String → ℕ) (n n' : ℕ) (o : Option String)
      → ((p : String) (f : SchemaEntry) → Dict.get d p ≡ some f → rank p < n → rank' p < n')
      → HasParent d rank n o
      → HasParent d' rank' n' o
  HasParent-set rank rank' n n' none lt h = tt
  HasParent-set rank rank' n n' (some p) lt ((f, found), below) =
      (set-keeps p f found, lt p f found below)

  abbrev Fits : (String → ℕ) → String → SchemaEntry → Type 0
  Fits rank' j f =
      (f.name ≡ j) × (rank' j ≤ length d') × HasParent d' rank' (rank' j) (named f.parent)

  Fits-new :
      (rank' : String → ℕ)
      → Fits rank' k e
      → (j : String) (f : SchemaEntry) → (k == j) ≡ true
      → Dict.get d' j ≡ some f
      → Fits rank' j f
  Fits-new rank' h j f same found =
      let k_is : k ≡ j = (eq_iff k j).0 same in
      let got : Dict.get d' j ≡ some e = rw (get-set d k e j, same) in
      let e_is : e ≡ f = cc (got, found) in
      subst (λ x. Fits rank' x f) k_is (subst (λ x. Fits rank' k x) e_is h)

  Fits-old :
      (h : IsRooted d) (rank' : String → ℕ)
      → ((j : String) → (k == j) ≡ false → rank' j ≡ h.rank j)
      → ((j p : String) (f : SchemaEntry)
          → Dict.get d p ≡ some f
          → (k == j) ≡ false
          → h.rank p < h.rank j
          → rank' p < h.rank j)
      → (j : String) (f : SchemaEntry) → (k == j) ≡ false
      → Dict.get d' j ≡ some f
      → Fits rank' j f
  Fits-old h rank' agree below j f other found =
      let got : Dict.get d' j ≡ Dict.get d j = rw (get-set d k e j, other) in
      let found' : Dict.get d j ≡ some f = cc (got, found) in
      let same_rank = agree j other in
      (
        h.names j f found',
        omega (arith, same_rank, h.bounded j f found', length-set_le d k e),
        HasParent-set h.rank rank' (h.rank j) (rank' j) (named f.parent)
            (λ p g got_p lt. let b = below j p g got_p other lt in omega (arith, same_rank, b))
            (h.parents j f found'),
      )

  -- A new entry, or one in place of another, with a rank for it that the other entries agree with.
  pub set-IsRooted :
      (h : IsRooted d) (rank' : String → ℕ)
      → Fits rank' k e
      → ((j : String) → (k == j) ≡ false → rank' j ≡ h.rank j)
      → ((j p : String) (f : SchemaEntry)
          → Dict.get d p ≡ some f
          → (k == j) ≡ false
          → h.rank p < h.rank j
          → rank' p < h.rank j)
      → IsRooted d'
  set-IsRooted h rank' fits agree below =
      let cases : (j : String) (f : SchemaEntry) → Dict.get d' j ≡ some f → Fits rank' j f =
        λ j f found. elim (Bool-cases (k == j)) [
          | inl same ↦ Fits-new rank' fits j f same found
          | inr other ↦ Fits-old h rank' agree below j f other found
        ] in
      record {
        rank = rank';
        names = λ j f found. (cases j f found).0;
        bounded = λ j f found. (cases j f found).1;
        parents = λ j f found. (cases j f found).2;
      }

  -- An entry without a parent, whether or not its name is taken.
  pub set_root-IsRooted : IsRooted d → e.name ≡ k → named e.parent ≡ none → IsRooted d'
  set_root-IsRooted h named' none' =
      let rank' : String → ℕ = λ j. if k == j then 0 else h.rank j in
      set-IsRooted h rank' (named', rw (eq_refl k) (omega arith), rw none' tt)
        (λ j other. rw other refl) (λ j p f found other lt. ground arith)

  -- An entry whose name and parent are those of the one in its place.
  pub set_same-IsRooted :
      (old : SchemaEntry)
      → IsRooted d
      → Dict.get d k ≡ some old
      → e.name ≡ old.name
      → e.parent ≡ old.parent
      → IsRooted d'
  set_same-IsRooted old h found name_is parent_is =
      let name_k = h.names k old found in
      set-IsRooted h h.rank
        (
          cc (name_is, name_k),
          omega (arith, h.bounded k old found, length-set_le d k e),
          subst (λ x. HasParent d' h.rank (h.rank k) (named x)) (sym parent_is)
              (HasParent-set h.rank h.rank (h.rank k) (h.rank k) (named old.parent)
                (λ p f got lt. lt) (h.parents k old found)),
        )
        (λ j other. refl) (λ j p f got other lt. lt)

  -- An entry under a new name, whose parent the registry has.
  pub set_fresh-IsRooted :
      (p : String) (above : SchemaEntry)
      → IsRooted d
      → Dict.get d k ≡ none
      → Dict.get d p ≡ some above
      → e.name ≡ k
      → named e.parent ≡ some p
      → IsRooted d'
  set_fresh-IsRooted p above h fresh found named' parent_is =
      let rank' : String → ℕ = λ j. if k == j then suc (h.rank p) else h.rank j in
      let stored_differs : (q : String) (f : SchemaEntry)
          → Dict.get d q ≡ some f
          → (k == q) ≡ false =
        λ q f got. elim (Bool-cases (k == q)) [
          | inl same ↦
              let is : k ≡ q = (eq_iff k q).0 same in
              let got' : Dict.get d k ≡ some f = subst (λ x. Dict.get d x ≡ some f) (sym is) got in
              absurd (cc (fresh, got'))
          | inr other ↦ other
        ] in
      set-IsRooted h rank'
        (
          named',
          rw (eq_refl k) (omega (arith, h.bounded p above found, length-set_fresh d k e fresh)),
          rw parent_is
              (set-keeps p above found, rw (eq_refl k, stored_differs p above found) (omega arith)),
        )
        (λ j other. rw other refl) (λ j q f got other lt. rw (stored_differs q f got) lt)

pub set_clone-IsRooted :
    (d : Dict SchemaEntry) (base : SchemaEntry) (base_name new_name : String) (e : SchemaEntry)
    → IsRooted d
    → Dict.get d base_name ≡ some base
    → Dict.get d new_name ≡ none
    → e.name ≡ new_name
    → e.parent ≡ some base.name
    → IsRooted (Dict.set d new_name e)
set_clone-IsRooted d base base_name new_name e h found fresh name_is parent_is =
    let is_name = h.names base_name base found in
    elim (Bool-cases (base.name == "")) [
      | inl empty ↦
          let no_parent : named (some base.name) ≡ none = rw empty refl in
          set_root-IsRooted d new_name e h name_is
            (subst (λ x. named x ≡ none) (sym parent_is) no_parent)
      | inr full ↦
          let a_parent : named (some base.name) ≡ some base.name = rw full refl in
          set_fresh-IsRooted d new_name e base.name base h fresh
            (subst (λ x. Dict.get d x ≡ some base) (sym is_name) found) name_is
            (subst (λ x. named x ≡ some base.name) (sym parent_is) a_parent)
    ]
