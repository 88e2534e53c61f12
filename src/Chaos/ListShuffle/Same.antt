-- ===== src/Chaos/ListShuffle/Same.antt =====
-- A shuffled list holds what it held.
use havoc_forge.Base.{
  ℕ, zero, suc, ◌+◌, ◌-◌, ◌*◌, ◌^◌, ◌<◌, ◌≤◌, String, Bool, ◌≡◌, refl, sym, ap, ◌∙◌, List, [], ◌∷◌,
  ◌++◌, ltb, eqb, eqb_iff, if◌then◌else◌, if_both, length, length-set, get_or, set, arith, inl, inr,
  Bool-cases,
}
use havoc_forge.Base.Text.{concat}
use havoc_forge.Base.Find.{count}
use havoc_forge.Chaos.Nodes.{
  Node, scalar, dict_at, list_at, Body, NodeRef, walk, root_ref, push, child_refs,
}
use havoc_forge.Chaos.ListShuffle.{
  position, swap, swaps, shuffle_in_place, put_list, shuffle_at, visit, apply, label,
}
use native.Mathlib.Nat.{div-lt_iff_lt-mul, mul-lt-mul_of_pos_right}

module _ {A : Type 0} where
  get_or-set_same :
      (l : List A) (i j : ℕ) (d : A)
      → i < length l
      → get_or (set l i (get_or l j d)) j d ≡ get_or l j d
  get_or-set_same [] i j d h = refl
  get_or-set_same (x ∷ l) zero zero d h = refl
  get_or-set_same (x ∷ l) zero (suc j) d h = refl
  get_or-set_same (x ∷ l) (suc i) zero d h = refl
  get_or-set_same (x ∷ l) (suc i) (suc j) d h = get_or-set_same l i j d (omega arith)

  module _ (p : A → Bool) where
    bit : A → ℕ
    bit a = if p a then 1 else 0

    -- A write replaces one element.
    count-set :
        (l : List A) (i : ℕ) (v d : A)
        → i < length l
        → count p (set l i v) + bit (get_or l i d) ≡ count p l + bit v
    unfolding bit
    count-set [] i v d h = absurd (omega (arith, h))
    count-set (x ∷ l) zero v d h = ground arith
    count-set (x ∷ l) (suc i) v d h = ground (arith, count-set l i v d (omega arith))

    pub count-swap :
        (l : List A) (i j : ℕ) → i < length l → j < length l → count p (swap l i j) ≡ count p l
    count-swap [] i j hi hj = refl
    count-swap (x ∷ l) i j hi hj =
        let xs = x ∷ l in
        let y = get_or xs j x in
        let once = count-set xs i y x hi in
        let twice = count-set (set xs i y) j (get_or xs i x) x (rw (length-set xs i y) hj) in
        let same = ap bit (get_or-set_same xs i j x hi) in omega (arith, once, twice, same)

  length-swap : (l : List A) (i j : ℕ) → length (swap l i j) ≡ length l
  length-swap [] i j = refl
  length-swap (x ∷ l) i j =
      length-set (set (x ∷ l) i (get_or (x ∷ l) j x)) j (get_or (x ∷ l) i x)
      ∙ length-set (x ∷ l) i (get_or (x ∷ l) j x)

-- A random number is below 1.
pub position-le : (n i : ℕ) → n < 2 ^ 53 → position n i ≤ i
position-le n i h =
    let below : n * (i + 1) < 2 ^ 53 * (i + 1) = mul-lt-mul_of_pos_right h (omega arith) in
    let under : position n i < i + 1 = (div-lt_iff_lt-mul (omega arith)).1 (omega (arith, below)) in
    omega (arith, under)

-- The same elements, each as often, and the same dicts.
pub record IsSame {V : Type 0} (before after : Body V) : Type 0 where
  pub dicts : (a : ℕ) → after.dicts a ≡ before.dicts a
  pub counts : (a : ℕ) (p : Node V → Bool) → count p (after.lists a) ≡ count p (before.lists a)

module _ {R : Type 0} (random : R → ℕ × R) (unit : (r : R) → (random r).0 < 2 ^ 53) where
  module _ {A : Type 0} where
    length-swaps : (i : ℕ) (l : List A) (r : R) → length (swaps random i l r).0 ≡ length l
    unfolding swaps
    length-swaps zero l r = refl
    length-swaps (suc i) l r =
        let (n, r') = random r in
        length-swaps i (swap l (suc i) (position n (suc i))) r'
        ∙ length-swap l (suc i) (position n (suc i))

    count-swaps :
        (p : A → Bool) (i : ℕ) (l : List A) (r : R)
        → i ≤ length l - 1
        → count p (swaps random i l r).0 ≡ count p l
    unfolding swaps
    count-swaps p zero l r h = refl
    count-swaps p (suc i) l r h =
        let (n, r') = random r in
        let j = position n (suc i) in
        let low = position-le n (suc i) (unit r) in
        count-swaps p i (swap l (suc i) j) r' (rw (length-swap l (suc i) j) (omega (arith, h)))
        ∙ count-swap p l (suc i) j (omega (arith, h)) (omega (arith, h, low))

  module _ {V : Type 0} where
    put-IsSame :
        (body : Body V) (a : ℕ) (l : List (Node V))
        → ((p : Node V → Bool) → count p l ≡ count p (body.lists a))
        → IsSame body (put_list random body a l)
    put-IsSame body a l same = record {
      dicts = λ i. refl;
      counts = λ i p. elim (Bool-cases (eqb i a)) [
        | inl e ↦
            let is : i ≡ a = (eqb_iff i a).0 e in
            rw e (same p ∙ ap (λ j. count p (body.lists j)) (sym is))
        | inr e ↦ rw e
      ];
    }

    shuffle_at-IsSame :
        (path : String) (a : ℕ) (s : Body V × (List String × R))
        → IsSame s.0 (shuffle_at random path a s).0
    unfolding shuffle_in_place
    shuffle_at-IsSame path a (body, (shuffled, r)) =
        let (l, r') = shuffle_in_place random (body.lists a) r in
        if_both (λ (x : Body V × (List String × R)). IsSame body x.0)
          (ltb 1 (length (body.lists a)))
          {x = (
            put_list random body a l,
            (shuffled ++ concat ("list_shuffle(" ∷ label path ∷ ")" ∷ []) ∷ [], r'),
          )}
          {y = (body, (shuffled, r))}
          (put-IsSame body a l
            (λ p. count-swaps p (length (body.lists a) - 1) (body.lists a) r (omega arith)))
          (record { dicts = λ i. refl; counts = λ i p. refl })

    visit_value :
        (path : String) (v : Node V) (s : Body V × (List String × R))
        → IsSame s.0 (visit random (record { path = path; value = v }) s).0
    visit_value path (scalar v) s = record { dicts = λ i. refl; counts = λ i p. refl }
    visit_value path (dict_at a) s = record { dicts = λ i. refl; counts = λ i p. refl }
    visit_value path (list_at a) s = shuffle_at-IsSame path a s

    visit-IsSame :
        (ref : NodeRef V) (s : Body V × (List String × R)) → IsSame s.0 (visit random ref s).0
    visit-IsSame ref s = visit_value ref.path ref.value s

    walk-IsSame :
        (n : ℕ) (stack : List (NodeRef V)) (s : Body V × (List String × R))
        → IsSame s.0 (walk (visit random) n stack s).0
    unfolding walk
    walk-IsSame zero stack s = record { dicts = λ i. refl; counts = λ i p. refl }
    walk-IsSame (suc n) [] s = record { dicts = λ i. refl; counts = λ i p. refl }
    walk-IsSame (suc n) (ref ∷ stack) s =
        let s' = visit random ref s in
        let first = visit-IsSame ref s in
        let later = walk-IsSame n (push (child_refs s'.0 ref) stack) s' in
        record {
          dicts = λ i. later.dicts i ∙ first.dicts i;
          counts = λ i p. later.counts i p ∙ first.counts i p;
        }

    -- However far the walk over the body gets, and whatever is drawn, each list of the body holds after
    -- it the elements that it held, each as often as before, and each dict is what it was: also where
    -- lists are nested, or one list stands in several places.
    pub apply-IsSame :
        (nodes : ℕ) (root : Node V) (body : Body V) (r : R)
        → IsSame body (apply random nodes root body r).0
    unfolding apply
    apply-IsSame nodes root body r = walk-IsSame nodes (root_ref root ∷ []) (body, ([], r))
