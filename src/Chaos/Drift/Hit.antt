-- ===== src/Chaos/Drift/Hit.antt =====
-- What a hit does to the registry, told without the operations it is made of.
use havoc_forge.Base.{ℕ, ◌≤◌, ◌<◌, String, false, ◌≡◌, Option, none, some, List, ◌==◌}
use havoc_forge.Base.Dict
use havoc_forge.Base.Find.{last}
use havoc_forge.Chaos.Layer.{DriftLayer, DriftCoordinator}
use havoc_forge.Chaos.Drift.{active_layers}

-- A count has come to its limit, or there is room below it.
abbrev pub IsAtLimit : Option ℕ → ℕ → Type 0
IsAtLimit none n = ⊥
IsAtLimit (some limit) n = limit ≤ n

abbrev pub IsBelow : Option ℕ → ℕ → Type 0
IsBelow none n = Unit
IsBelow (some limit) n = n < limit

module _ {M : Type 0} where
  abbrev pub newest_revision : List (DriftLayer M) → Option String
  newest_revision ls = elim (last ls) [ none ↦ none | some l ↦ some l.revision ]

  -- The layers of a name, and what they are for the others.
  pub record IsLeft (name : String) (ls : List (DriftLayer M)) (c c' : DriftCoordinator M)
      : Type 0 where
    pub layers : active_layers c' name ≡ ls
    pub others : (j : String) → (name == j) ≡ false → active_layers c' j ≡ active_layers c j
