-- ===== src/Base/Find.antt =====
-- Searching lists by a Boolean test: the comprehensions, `list.remove` and `xs[-1]` of the source.
use Prim.Native.Nat.{ℕ, suc, ◌+◌}
use mathlib.Core.Path.{◌≡◌, refl, ap}
use mathlib.Core.Bool.{Bool, true, false}
use mathlib.Core.Option.{Option, none, some}
use mathlib.Core.List.{List, [], ◌∷◌, ◌++◌}
use native.Mathlib.Omega.{arith}
use mathlib.Core.Logic.{◌⊎◌, inl, inr}
use havoc_forge.Base.Tests.{if◌then◌else◌, Bool-cases}
use havoc_forge.Base.Lists.{length}

module _ {ℓ} {A : Type ℓ} where
  -- `[x for x in xs if p(x)]`
  abbrev pub keep : (A → Bool) → List A → List A
  keep p [] = []
  keep p (x ∷ xs) = let rest = keep p xs in if p x then x ∷ rest else rest

  -- `sum(1 for x in xs if p(x))`
  abbrev pub count : (A → Bool) → List A → ℕ
  count p [] = 0
  count p (x ∷ xs) = let rest = count p xs in if p x then suc rest else rest

  -- `any(p(x) for x in xs)`
  abbrev pub any : (A → Bool) → List A → Bool
  any p [] = false
  any p (x ∷ xs) = if p x then true else any p xs

  -- `xs[-1]` of a list that may be empty
  abbrev pub last : List A → Option A
  last [] = none
  last (x ∷ []) = some x
  last (x ∷ y ∷ xs) = last (y ∷ xs)

  -- `xs.remove(v)` for the first element that passes the test
  abbrev pub remove_first : (A → Bool) → List A → List A
  remove_first p [] = []
  remove_first p (x ∷ xs) = let rest = remove_first p xs in if p x then xs else x ∷ rest

  -- The last element that passes the test is changed in place: it, and the list that holds it.
  abbrev pub update_last : (A → Bool) → (A → A) → List A → Option (A × List A)
  update_last p f [] = none
  update_last p f (x ∷ xs) = elim (update_last p f xs) [
    | some (y, ys) ↦ some (y, x ∷ ys)
    | none ↦ if p x then some (f x, f x ∷ xs) else none
  ]

module _ {ℓ} {A : Type ℓ} where
  pub last-append_one : (xs : List A) (x : A) → last (xs ++ x ∷ []) ≡ some x
  last-append_one [] x = refl
  last-append_one (y ∷ []) x = refl
  last-append_one (y ∷ z ∷ xs) x = last-append_one (z ∷ xs) x

  pub count-append_one :
      (p : A → Bool) (xs : List A) (x : A)
      → count p (xs ++ x ∷ []) ≡ count p xs + (if p x then 1 else 0)
  count-append_one p [] x = ground arith
  count-append_one p (y ∷ xs) x = ground (arith, count-append_one p xs x)

  pub keep-append_one :
      (p : A → Bool) (xs : List A) (x : A)
      → keep p (xs ++ x ∷ []) ≡ keep p xs ++ (if p x then x ∷ [] else [])
  keep-append_one p [] x = ground arith
  keep-append_one p (y ∷ xs) x = ground (arith, keep-append_one p xs x)

  pub length-keep : (p : A → Bool) (xs : List A) → length (keep p xs) ≡ count p xs
  length-keep p [] = refl
  length-keep p (y ∷ xs) = ground (arith, length-keep p xs)

  pub any-eq-count : (p : A → Bool) (xs : List A) → any p xs ≡ false → count p xs ≡ 0
  any-eq-count p [] h = refl
  any-eq-count p (y ∷ xs) h = ground (arith, any-eq-count p xs)

  abbrev pub All {κ} : (A → Type κ) → List A → Type κ
  All P [] = Unit
  All P (x ∷ xs) = P x × All P xs

  pub All-append_one {κ} :
      (P : A → Type κ) (xs : List A) (x : A) → All P xs → P x → All P (xs ++ x ∷ [])
  All-append_one P [] x h px = (px, tt)
  All-append_one P (y ∷ xs) x h px = (h.0, All-append_one P xs x h.1 px)

  pub All-map {κ} : {P Q : A → Type κ} → ((a : A) → P a → Q a) → (xs : List A) → All P xs → All Q xs
  All-map f [] h = tt
  All-map f (x ∷ xs) h = (f x h.0, All-map f xs h.1)

  pub All-keep {κ} : (P : A → Type κ) (p : A → Bool) (xs : List A) → All P xs → All P (keep p xs)
  All-keep P p [] h = h
  All-keep P p (x ∷ xs) h = elim (Bool-cases (p x)) [
    | inl e ↦ rw e (h.0, All-keep P p xs h.1)
    | inr e ↦ rw e (All-keep P p xs h.1)
  ]

  pub All-remove_first {κ} :
      (P : A → Type κ) (p : A → Bool) (xs : List A) → All P xs → All P (remove_first p xs)
  All-remove_first P p [] h = h
  All-remove_first P p (x ∷ xs) h = elim (Bool-cases (p x)) [
    | inl e ↦ rw e h.1
    | inr e ↦ rw e (h.0, All-remove_first P p xs h.1)
  ]

module _ {ℓ κ} {A : Type ℓ} (P : A → Type κ) where
  pub All-replace :
      (before : List A) {x y : A} (after : List A)
      → (P x → P y)
      → All P (before ++ x ∷ after)
      → All P (before ++ y ∷ after)
  All-replace [] after f h = (f h.0, h.1)
  All-replace (b ∷ before) after f h = (h.0, All-replace before after f h.1)

-- A list split at its last element that passes a test.
pub record LastSplit {ℓ} {A : Type ℓ} (p : A → Bool) (xs : List A) : Type ℓ where
  pub before : List A
  pub item : A
  pub after : List A
  pub parts : xs ≡ before ++ item ∷ after
  pub passes : p item ≡ true
  pub none_after : any p after ≡ false

module _ {ℓ} {A : Type ℓ} (p : A → Bool) (f : A → A) where
  pub update_last-none : (xs : List A) → any p xs ≡ false → update_last p f xs ≡ none
  update_last-none [] h = refl
  update_last-none (x ∷ xs) h = ground (arith, update_last-none xs)

  pub update_last-append :
      (before : List A) (x : A) (after : List A)
      → p x ≡ true
      → any p after ≡ false
      → update_last p f (before ++ x ∷ after) ≡ some (f x, before ++ f x ∷ after)
  update_last-append [] x after px na = rw (update_last-none after na) (rw px)
  update_last-append (b ∷ before) x after px na = rw (update_last-append before x after px na)

-- Either no element passes, or there is a last one that does.
pub last_split {ℓ} : {A : Type ℓ} (p : A → Bool) (xs : List A) → (any p xs ≡ false) ⊎ LastSplit p xs
last_split p [] = inl refl
last_split p (x ∷ xs) = elim (last_split p xs) [
  | inr s ↦ inr (record {
    before = x ∷ s.before;
    item = s.item;
    after = s.after;
    parts = ap (λ l. x ∷ l) s.parts;
    passes = s.passes;
    none_after = s.none_after;
  })
  | inl na ↦ elim (Bool-cases (p x)) [
    | inl px ↦
        inr
          (record { before = []; item = x; after = xs; parts = refl; passes = px; none_after = na })
    | inr px ↦ inl (rw px na)
  ]
]

pub update_last-LastSplit {ℓ} :
    {A : Type ℓ} (p : A → Bool) (f : A → A) (xs : List A) {y : A} {ys : List A}
    → update_last p f xs ≡ some (y, ys)
    → (s : LastSplit p xs) × (y ≡ f s.item) × (ys ≡ s.before ++ f s.item ∷ s.after)
update_last-LastSplit p f xs h = elim (last_split p xs) [
  | inl na ↦ absurd (cc (update_last-none p f xs na))
  | inr s ↦
      let e = update_last-append p f s.before s.item s.after s.passes s.none_after in
      (s, cc (s.parts, e), cc (s.parts, e))
]
