-- ===== src/Tests/Manager.antt =====
-- The chaos manager at concrete inputs: bodies are texts, op parameters numbers.
use havoc_forge.Base.{
  ℕ, String, true, ◌≡◌, refl, Option, none, some, List, [], ◌∷◌, length, ◌≤◌, arith,
}
use havoc_forge.Base.Int.{pos}
use havoc_forge.Base.Dict
use havoc_forge.Base.Dict.{Dict}
use havoc_forge.Base.Find.{All}
use havoc_forge.Chaos.Op.{Op, OpConfig, ChaosConfig, OpRegistry, applied}
use havoc_forge.Chaos.Manager.{new_manager, plan}
use havoc_forge.Chaos.Manager.Selection.{IsEnabled}
use havoc_forge.Chaos.Manager.Plan.{plan-IsDrawn}
use havoc_forge.Chaos.Request.{Progress, execute_ops, untouched, first_response}
use havoc_forge.Chaos.Request.Skips.{IsDumpable, raising_class-execute_ops}
use havoc_forge.Tests.Rng.{counter, counter-IsRandom}

abbrev writes : String → ℕ → Option (Op ℕ String ℕ)
writes text status = some (λ body resp w. (
  applied (record {
    body = text;
    descriptions = text ∷ [];
    status = some status;
    headers_delta = some (("x-op", some text) ∷ []);
  }),
  resp,
  w,
))

abbrev raises : ℕ → Option (Op ℕ String ℕ)
raises params = none

abbrev registry : OpRegistry ℕ String ℕ ℕ
registry =
    ("http_error", writes "http_error")
    ∷ ("burst", raises)
    ∷ ("data_drift", writes "data_drift")
    ∷ []

abbrev enabled : ℕ → OpConfig ℕ
enabled params = record { enabled = true; p = pos 9; weight = pos 1; params = some params }

abbrev ops : Dict (OpConfig ℕ)
ops = ("http_error", enabled 500) ∷ ("burst", enabled 0) ∷ ("data_drift", enabled 200) ∷ []

abbrev cfg : ChaosConfig ℕ
cfg = record {
  ensure_at_least_one = true;
  min_ops = 0;
  max_ops = 2;
  max_faults_per_request = some 1;
  ops = some ops;
}

abbrev forced : List String
forced = "http_error" ∷ "data_drift" ∷ "burst" ∷ "unknown" ∷ []

abbrev drawn : List String
drawn = (plan counter (new_manager registry cfg) [] 0).0

plan-IsDrawn_example :
    All
      (λ n.
        ((cls : ℕ → Option (Op ℕ String ℕ)) × (Dict.get registry n ≡ some cls)) × IsEnabled ops n)
      drawn
    × (length drawn ≤ 2)
plan-IsDrawn_example = plan-IsDrawn counter counter-IsRandom registry cfg 0

abbrev begun : Progress ℕ String ℕ
begun = (untouched "body", first_response none, record { drift = []; rng = 0 })

burst_class : Dict.get registry "burst" ≡ some raises
unfolding Dict.get
burst_class = refl

ops-IsDumpable : IsDumpable ops
unfolding Dict.get
ops-IsDumpable = λ k cfg e h. ground arith

raising_class-execute_ops_example :
    execute_ops (new_manager registry cfg) ops ("http_error" ∷ "burst" ∷ "data_drift" ∷ []) begun
    ≡ execute_ops (new_manager registry cfg) ops ("http_error" ∷ "data_drift" ∷ []) begun
raising_class-execute_ops_example =
    raising_class-execute_ops registry cfg ops "burst" raises burst_class (λ params. refl)
      ops-IsDumpable ("http_error" ∷ []) ("data_drift" ∷ []) begun
