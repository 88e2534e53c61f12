-- ===== src/Base/Dict.antt =====
-- A Python `dict` with string keys, as the list of its entries in insertion order: an assignment to
-- a key that is there keeps its place, any other goes to the end.
use Prim.Native.String.{String}
use mathlib.Core.Path.{◌≡◌, refl}
use mathlib.Core.Bool.{Bool, true, false}
use mathlib.Core.Option.{Option, none, some}
use mathlib.Core.List.{List, [], ◌∷◌}
use native.Mathlib.Omega.{arith}
use text.Mathlib.Text.{◌==◌}
use text.Mathlib.TextEquality.{eq_iff}
use havoc_forge.Base.Tests.{if◌then◌else◌}

abbrev pub Dict {ℓ} : Type ℓ → Type ℓ
Dict V = List (String × V)

abbrev pub mem_str : String → List String → Bool
mem_str k [] = false
mem_str k (j ∷ l) = if j == k then true else mem_str k l

module _ {ℓ} {V : Type ℓ} where
  -- `d.get(k)`
  unfoldable pub get : Dict V → String → Option V
  get [] k = none
  get ((j, v) ∷ d) k = if j == k then some v else get d k

  -- `d[k] = v`
  unfoldable pub set : Dict V → String → V → Dict V
  set [] k v = (k, v) ∷ []
  set ((j, w) ∷ d) k v = if j == k then (j, v) ∷ d else (j, w) ∷ set d k v

  -- `d.pop(k, None)`
  unfoldable pub pop : Dict V → String → Dict V
  pop [] k = []
  pop ((j, v) ∷ d) k = let rest = pop d k in if j == k then rest else (j, v) ∷ rest

  unfoldable pub keys : Dict V → List String
  keys [] = []
  keys ((j, v) ∷ d) = j ∷ keys d

  pub get-set :
      (d : Dict V) (k : String) (v : V) (j : String)
      → get (set d k v) j ≡ (if k == j then some v else get d j)
  unfolding get set
  get-set [] k v j = refl
  get-set ((i, w) ∷ d) k v j = ground (arith, eq_iff i k, eq_iff i j, eq_iff k j, get-set d k v j)

  pub get-pop : (d : Dict V) (k j : String) → get (pop d k) j ≡ (if k == j then none else get d j)
  unfolding get pop
  get-pop [] k j = ground arith
  get-pop ((i, w) ∷ d) k j = ground (arith, eq_iff i k, eq_iff i j, eq_iff k j, get-pop d k j)

pub ruleset dict_laws = (get-set, get-pop)
