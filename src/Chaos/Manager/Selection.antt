-- ===== src/Chaos/Manager/Selection.antt =====
-- What a plan of ops holds: which ops, how many, and in what order.
use havoc_forge.Base.{
  ℕ, ◌≤◌, String, true, ◌&&◌, ◌||◌, ◌≡◌, some, List, [], ◌∷◌, ◌++◌, inl, inr, ltb, leb, eqb, min,
  if_both, Bool-cases, Option-cases, arith, length, Option, none,
}
use havoc_forge.Base.Int.{ℤ, pos, ltb_ℤ}
use havoc_forge.Base.Dict
use havoc_forge.Base.Dict.{Dict}
use havoc_forge.Base.Find.{All}
use havoc_forge.Chaos.Op.{OpConfig, Rng, IsRandom}
use havoc_forge.Chaos.Manager.{
  ChaosManager, candidate, candidates, draw_eligible, choose, names_of, weights_of, total_weight,
  select_random, apply_budget_limits,
}

-- An op that the configuration enables, with a probability above 0.
pub record IsEnabled {P : Type 0} (ops : Dict (OpConfig P)) (name : String) : Type 0 where
  pub cfg : OpConfig P
  pub found : Dict.get ops name ≡ some cfg
  pub enabled : cfg.enabled ≡ true
  pub likely : ltb_ℤ (pos 0) cfg.p ≡ true

-- As many as there are, or as the budget allows.
abbrev pub length_within : Option ℕ → ℕ → ℕ
length_within none n = n
length_within (some k) n = min k n

module _ {P : Type 0} (Q : String → Type 0) (ops : Dict (OpConfig P)) where
  abbrev pub Both : String → Type 0
  Both name = Q name × IsEnabled ops name

  abbrev pub Named : String × ℤ × ℤ → Type 0
  Named c = Both c.0

  candidate-Named :
      (name : String) (cfg : OpConfig P) (rest : List (String × ℤ × ℤ))
      → Q name
      → Dict.get ops name ≡ some cfg
      → All Named rest
      → All Named (candidate name cfg ++ rest)
  candidate-Named name cfg rest q e h = elim (Option-cases cfg.params) [
    | inl none' ↦ rw none' h
    | inr (params, e') ↦ elim (Bool-cases (cfg.enabled && ltb_ℤ (pos 0) cfg.p)) [
      | inl on ↦
          rw (e', on)
            ((q, record { cfg = cfg; found = e; enabled = ground arith; likely = ground arith }), h)
      | inr off ↦ rw (e', off) h
    ]
  ]

  pub candidates-Named : (names : List String) → All Q names → All Named (candidates names ops)
  unfolding candidates
  candidates-Named [] h = tt
  candidates-Named (name ∷ names) h = elim (Option-cases (Dict.get ops name)) [
    | inl e ↦ rw (candidates, e) (candidates-Named names h.1)
    | inr (cfg, e) ↦
        rw (candidates, e) (candidate-Named name cfg _ h.0 e (candidates-Named names h.1))
  ]

module _ {R : Type 0} (g : Rng R) (Q : String → Type 0) where
  draw-All :
      (cs : List (String × ℤ × ℤ)) (r : R)
      → All (λ (c : String × ℤ × ℤ). Q c.0) cs
      → All Q (names_of (draw_eligible g cs r).0)
  unfolding draw_eligible
  draw-All [] r h = tt
  draw-All ((name, p, w) ∷ cs) r h =
      let (u, r') = g.random r in
      let rest = draw-All cs r' h.1 in
      let l = (draw_eligible g cs r').0 in
      if_both (λ (x : List (String × ℤ)). All Q (names_of x)) (ltb_ℤ (pos u) p) {x = (name, w) ∷ l}
        {y = l} (h.0, rest) rest

  module _ (law : IsRandom g) where
    choose-All :
        (lo hi : ℕ) (l : List (String × ℤ)) (r : R)
        → All Q (names_of l)
        → All Q (choose g lo hi l r).0
    choose-All lo hi [] r h = tt
    choose-All lo hi (e ∷ l) r h =
        let (k, r') = g.randint lo hi r in
        if_both (λ (x : List String × R). All Q x.0) (ltb_ℤ (pos 0) (total_weight (e ∷ l)))
          {x = g.choices (names_of (e ∷ l)) (weights_of (e ∷ l)) (min k (length (e ∷ l))) r'}
          {y = ([], r)} (law.choices_from Q _ _ _ _ h) tt

module _ {R : Type 0} (g : Rng R) (law : IsRandom g) where
  choose-le :
      (lo hi : ℕ) (l : List (String × ℤ)) (r : R) → lo ≤ hi → length (choose g lo hi l r).0 ≤ hi
  choose-le lo hi [] r h = omega arith
  choose-le lo hi (e ∷ l) r h =
      let (k, r') = g.randint lo hi r in
      if_both (λ (x : List String × R). length x.0 ≤ hi) (ltb_ℤ (pos 0) (total_weight (e ∷ l)))
        {x = g.choices (names_of (e ∷ l)) (weights_of (e ∷ l)) (min k (length (e ∷ l))) r'}
        {y = ([], r)}
        (rw
          (law.choices_length (names_of (e ∷ l)) (weights_of (e ∷ l)) (min k (length (e ∷ l))) r'
            (omega arith))
          (let b = law.randint_bounds lo hi r h in omega arith))
        (omega arith)

  module _ {M B P : Type 0} (m : ChaosManager M B R P) where
    pub select_random-le : (r : R) → length (select_random g m r).0 ≤ m.selection_max_ops
    select_random-le r =
        elim (Bool-cases
          (eqb m.selection_max_ops 0 || ltb m.selection_max_ops m.selection_min_ops)) [
            | inl off ↦ rw off (omega arith)
            | inr on ↦
                let d = draw_eligible g m.candidate_ops r in
                rw on (choose-le m.selection_min_ops m.selection_max_ops d.0 d.1 (ground arith))
          ]

    pub select_random-All :
        (Q : String → Type 0) (r : R)
        → All (λ (c : String × ℤ × ℤ). Q c.0) m.candidate_ops
        → All Q (select_random g m r).0
    select_random-All Q r h =
        let d = draw_eligible g m.candidate_ops r in
        if_both (λ (x : List String × R). All Q x.0) _ {x = ([], r)}
          {y = choose g m.selection_min_ops m.selection_max_ops d.0 d.1} tt
          (choose-All g Q law _ _ d.0 d.1 (draw-All g Q m.candidate_ops r h))

    pub budget-All :
        (Q : String → Type 0) (names : List String) (r : R)
        → All Q names
        → All Q (apply_budget_limits g m names r).0
    unfolding apply_budget_limits
    budget-All Q names r h = elim (Option-cases m.cfg.max_faults_per_request) [
      | inl e ↦ rw (apply_budget_limits, e) h
      | inr (k, e) ↦
          rw (apply_budget_limits, e)
            (if_both (λ (x : List String × R). All Q x.0) (leb (length names) k) {x = (names, r)}
              {y = g.sample names k r} h (law.sample_from Q names k r h))
    ]

    pub budget-le :
        (max_faults : ℕ) (names : List String) (r : R)
        → m.cfg.max_faults_per_request ≡ some max_faults
        → length (apply_budget_limits g m names r).0 ≤ max_faults
    unfolding apply_budget_limits
    budget-le k names r e = elim (Bool-cases (leb (length names) k)) [
      | inl few ↦ rw (apply_budget_limits, e, few) (ground arith)
      | inr many ↦
          rw (apply_budget_limits, e, many, law.sample_length names k r (ground arith))
            (omega arith)
    ]

    pub budget-length :
        (names : List String) (r : R)
        → length (apply_budget_limits g m names r).0
          ≡ length_within m.cfg.max_faults_per_request (length names)
    unfolding apply_budget_limits
    budget-length names r = elim (Option-cases m.cfg.max_faults_per_request) [
      | inl e ↦ rw (apply_budget_limits, e) (omega arith)
      | inr (k, e) ↦ elim (Bool-cases (leb (length names) k)) [
        | inl few ↦ rw (apply_budget_limits, e, few) (ground arith)
        | inr many ↦
            rw (apply_budget_limits, e, many, law.sample_length names k r (ground arith))
              (ground arith)
      ]
    ]

    pub budget-le_length :
        (names : List String) (r : R) → length (apply_budget_limits g m names r).0 ≤ length names
    unfolding apply_budget_limits
    budget-le_length names r = elim (Option-cases m.cfg.max_faults_per_request) [
      | inl e ↦ rw (apply_budget_limits, e) (omega arith)
      | inr (k, e) ↦ elim (Bool-cases (leb (length names) k)) [
        | inl few ↦ rw (apply_budget_limits, e, few) (omega arith)
        | inr many ↦
            rw (apply_budget_limits, e, many, law.sample_length names k r (ground arith))
              (ground arith)
      ]
    ]
