-- ===== src/Chaos/Op.antt =====
-- havocforge/chaos/ops/base.py, and what the chaos manager takes from its callers and from Python:
-- the ops, their configuration, the random numbers.
use havoc_forge.Base.{ℕ, String, Bool, Option, List, ◌≤◌, ◌<◌, ◌≡◌, length}
use havoc_forge.Base.Int.{ℤ}
use havoc_forge.Base.Dict.{Dict}
use havoc_forge.Base.Find.{All}
use havoc_forge.Chaos.Layer.{DriftCoordinator}

-- `ApplyResult`: of the fields that the manager reads or passes on.
pub record ApplyResult (B : Type 0) : Type 0 where
  pub body : B
  pub descriptions : List String
  pub status : Option ℕ
  pub headers_delta : Option (List (String × Option String))

-- The response object that is handed to every op.
pub record Response : Type 0 where
  pub headers : Dict String
  pub status : ℕ
  pub schema_name : Option String

-- What an op reaches beside its arguments: the drift registry and the random numbers.
pub record World (M R : Type 0) : Type 0 where
  pub drift : DriftCoordinator M
  pub rng : R

-- An op that raises may have changed the body before: it is changed in place.
pub data Outcome (B : Type 0) : Type 0 where
  applied : ApplyResult B → Outcome B
  raised : B → Outcome B

-- `apply` of an op instance. It may write to the headers of the response.
abbrev pub Op : Type 0 → Type 0 → Type 0 → Type 0
Op M B R = B → Response → World M R → Outcome B × Response × World M R

-- The part of an op's configuration that the manager reads; `params` is the whole of it, if it can
-- be dumped.
pub record OpConfig (P : Type 0) : Type 0 where
  pub enabled : Bool
  pub p : ℤ
  pub weight : ℤ
  pub params : Option P

pub record ChaosConfig (P : Type 0) : Type 0 where
  pub ensure_at_least_one : Bool
  pub min_ops : ℕ
  pub max_ops : ℕ
  pub max_faults_per_request : Option ℕ
  pub ops : Option (Dict (OpConfig P))

-- The generator of Python's `random`. A sample is a choice of positions, so of as many items.
pub record Rng (R : Type 0) : Type 0 where
  pub random : R → ℕ × R
  pub randint : ℕ → ℕ → R → ℕ × R
  pub choices : List String → List ℤ → ℕ → R → List String × R
  pub sample : List String → ℕ → R → List String × R

-- What the documentation of `random` says of them.
pub record IsRandom {R : Type 0} (g : Rng R) : Type 1 where
  pub randint_bounds :
      (lo hi : ℕ) (r : R) → lo ≤ hi → (lo ≤ (g.randint lo hi r).0) × ((g.randint lo hi r).0 ≤ hi)
  pub choices_length :
      (names : List String) (weights : List ℤ) (k : ℕ) (r : R)
      → 0 < length names
      → length (g.choices names weights k r).0 ≡ k
  pub choices_from :
      (Q : String → Type 0) (names : List String) (weights : List ℤ) (k : ℕ) (r : R)
      → All Q names
      → All Q (g.choices names weights k r).0
  pub sample_length :
      (names : List String) (k : ℕ) (r : R) → k ≤ length names → length (g.sample names k r).0 ≡ k
  pub sample_from :
      (Q : String → Type 0) (names : List String) (k : ℕ) (r : R)
      → All Q names
      → All Q (g.sample names k r).0

-- A class makes an instance of its parameters, or raises.
abbrev pub OpRegistry : Type 0 → Type 0 → Type 0 → Type 0 → Type 0
OpRegistry M B R P = Dict (P → Option (Op M B R))
