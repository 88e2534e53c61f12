-- ===== src/Chaos/Manager/Plan.antt =====
-- The plan of a request's ops.
use havoc_forge.Base.Find.{All-map}
use havoc_forge.Base.{
  ℕ, ◌+◌, ◌≤◌, String, Bool, true, ◌≡◌, Option, some, List, [], ◌∷◌, ◌++◌, inl, inr, Bool-cases,
  arith, length, ◌==◌, eq_refl,
}
use havoc_forge.Base.Dict
use havoc_forge.Base.Dict.{Dict, mem_str}
use havoc_forge.Base.Find.{All, All-keep, keep}
use havoc_forge.Chaos.Op.{ChaosConfig, Rng, IsRandom, OpRegistry}
use havoc_forge.Chaos.Manager.{
  ChaosManager, new_manager, select_random, select_ops, is_drift, partition_ops,
  apply_budget_limits, plan,
}
use mathlib.Core.Bool.{not}
use mathlib.Core.Option.{get_or}
use havoc_forge.Base.{length-append}
use native.Mathlib.Nat.{le_trans}
use havoc_forge.Chaos.Op.{Op}
use havoc_forge.Chaos.Manager.Selection.{
  IsEnabled, Both, candidates-Named, select_random-le, select_random-All, budget-All, length_within,
  budget-le_length,
}

-- The two halves of a list have its length together.
length-halves :
    (p : String → Bool) (names : List String)
    → length (keep p names) + length (keep (λ n. not (p n)) names) ≡ length names
length-halves p [] = omega arith
length-halves p (n ∷ names) = elim (Bool-cases (p n)) [
  | inl e ↦ rw e (omega (arith, length-halves p names))
  | inr e ↦ rw e (omega (arith, length-halves p names))
]

All-append : (Q : String → Type 0) (xs ys : List String) → All Q xs → All Q ys → All Q (xs ++ ys)
All-append Q [] ys h k = k
All-append Q (x ∷ xs) ys h k = (h.0, All-append Q xs ys h.1 k)

-- A plan of the ops that are activated: first all drift ops among them, in their order, which no
-- budget limits, then others of them, all within the budget or as many as it allows.
pub record IsOrdered (budget : Option ℕ) (activated names : List String) : Type 0 where
  pub regular_ops : List String
  pub parts : names ≡ keep is_drift activated ++ regular_ops
  pub all_regular : All (λ n. mem_str n (keep (λ x. not (is_drift x)) activated) ≡ true) regular_ops
  pub number :
      length regular_ops ≡ length_within budget (length (keep (λ x. not (is_drift x)) activated))

module _ {M B R P : Type 0} (g : Rng R) (law : IsRandom g) (m : ChaosManager M B R P) where
  abbrev plan_of : List String × R → List String × R
  plan_of (activated, r') = elim activated [
    | [] ↦ ([], r')
    | name ∷ more ↦
        let (drift_ops, regular_ops) = partition_ops (name ∷ more) in
        let (within, r'') = apply_budget_limits g m regular_ops r' in (drift_ops ++ within, r'')
  ]

  plan_of-All :
      (Q : String → Type 0) (names : List String) (r : R)
      → All Q names
      → All Q (plan_of (names, r)).0
  unfolding partition_ops
  plan_of-All Q [] r h = tt
  plan_of-All Q (n ∷ names) r h =
      let all = n ∷ names in
      let regular = keep (λ x. not (is_drift x)) all in
      All-append Q (keep is_drift all) (apply_budget_limits g m regular r).0
        (All-keep Q is_drift all h)
        (budget-All g law m Q regular r (All-keep Q (λ x. not (is_drift x)) all h))

  plan_of-le : (names : List String) (r : R) → length (plan_of (names, r)).0 ≤ length names
  unfolding partition_ops
  plan_of-le [] r = omega arith
  plan_of-le (n ∷ names) r =
      let all = n ∷ names in
      let regular = keep (λ x. not (is_drift x)) all in
      rw (length-append {0} (keep is_drift all) (apply_budget_limits g m regular r).0)
        (omega (arith, length-halves is_drift all, budget-le_length g law m regular r))

abbrev Bound : {V : Type 0} → Dict V → String → Type 0
Bound {V} d k = (v : V) × (Dict.get d k ≡ some v)

Bound-cons :
    {V : Type 0} (j : String) (v : V) (d : Dict V) (k : String) → Bound d k → Bound ((j, v) ∷ d) k
unfolding Dict.get
Bound-cons j v d k (w, e) = elim (Bool-cases (j == k)) [
  | inl same ↦ (v, rw same)
  | inr other ↦ (w, rw other e)
]

keys-All : {V : Type 0} (d : Dict V) → All (Bound d) (Dict.keys d)
unfolding Dict.keys Dict.get
keys-All [] = tt
keys-All ((j, v) ∷ d) = ((v, rw (eq_refl j)), All-map (Bound-cons j v d) (Dict.keys d) (keys-All d))

-- With no ops forced, a new manager plans only ops that its registry has and its configuration
-- enables with a probability above 0, and at most `max_ops` of them, drift ops included.
pub plan-IsDrawn :
    {M B R P : Type 0} (g : Rng R) (law : IsRandom g) (registry : OpRegistry M B R P)
    (cfg : ChaosConfig P) (r : R)
    → let names = (plan g (new_manager registry cfg) [] r).0 in
      All
        (λ n.
          ((cls : P → Option (Op M B R)) × (Dict.get registry n ≡ some cls))
          × IsEnabled (get_or cfg.ops []) n)
        names
      × (length names ≤ cfg.max_ops)
unfolding plan select_ops
plan-IsDrawn g law registry cfg r =
    let m = new_manager registry cfg in
    let ops = get_or cfg.ops [] in
    let (names, r') = select_random g m r in
    (
      plan_of-All g law m (Both (Bound registry) ops) names r' (
          select_random-All g law m (Both (Bound registry) ops) r
            (candidates-Named (Bound registry) ops (Dict.keys registry) (keys-All registry))),
      le_trans (plan_of-le g law m names r') (select_random-le g law m r),
    )
