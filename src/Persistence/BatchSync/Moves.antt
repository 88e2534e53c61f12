-- ===== src/Persistence/BatchSync/Moves.antt =====
-- batch_sync.py: where the calls are answered, the loops of a batch take datasets out of Redis.
use mathlib.Core.Path.{subst}
use havoc_forge.Base.{
  ℕ, zero, suc, ◌≤◌, ◌<◌, String, Bool, false, Option, none, some, List, [], ◌∷◌, length, ◌==◌,
  eq_iff, ◌≡◌, refl, ◌∙◌, arith, inl, inr, Bool-cases,
}
use havoc_forge.Base.Dict
use havoc_forge.Base.Dict.{Dict, mem_str, get-pop}
use havoc_forge.Base.Find.{keep}
use havoc_forge.Pregeneration.Worker.{answered}
use havoc_forge.Persistence.BatchSync.{
  Stores, Calls, insert, delete, clean, move_next, move_all, loaded,
}

-- Every call is answered.
abbrev pub all_answered : Calls
all_answered = record {
  keys_raises = false;
  find_raises = false;
  cleaning = λ id. answered;
  get_raises = λ id. false;
  inserting = λ id. answered;
  deleting = λ id. answered;
}

abbrev pub rounds_of : ℕ → List Calls
rounds_of zero = []
rounds_of (suc n) = all_answered ∷ rounds_of n

pub mem-keep_out :
    (p : String → Bool) (id : String) (ids : List String)
    → p id ≡ false
    → mem_str id (keep p ids) ≡ false
mem-keep_out p id [] h = refl
mem-keep_out p id (j ∷ ids) h = elim (Bool-cases (id == j)) [
  | inl e ↦
      let is : p j ≡ false = subst (λ k. p k ≡ false) ((eq_iff id j).0 e) h in
      rw is (mem-keep_out p id ids h)
  | inr e ↦ ground (arith, mem-keep_out p id ids h, e, eq_iff id j, eq_iff j id)
]

module _ {V : Type 0} where
  length-pop : (d : Dict V) (id : String) → length (Dict.pop d id) ≤ length d
  unfolding Dict.pop
  length-pop [] id = omega arith
  length-pop ((j, v) ∷ d) id = ground (arith, length-pop d id)

  pub length-pop_found :
      (d : Dict V) (id : String) (v : V)
      → Dict.get d id ≡ some v
      → length (Dict.pop d id) < length d
  unfolding Dict.pop Dict.get
  length-pop_found [] id v h = cc
  length-pop_found ((j, w) ∷ d) id v h = ground (arith, length-pop d id, length-pop_found d id v)

  abbrev pub pops : List String → Stores V → Stores V
  pops [] s = s
  pops (id ∷ ids) s = pops ids (delete id s)

  pub clean-eq :
      (ids : List String) (s : Stores V)
      → clean all_answered ids s ≡ (false, length ids, pops ids s)
  unfolding clean
  clean-eq [] s = refl
  clean-eq (id ∷ ids) s = rw (clean-eq ids (delete id s)) refl

  pub length-pops : (ids : List String) (s : Stores V) → length (pops ids s).redis ≤ length s.redis
  length-pops [] s = omega arith
  length-pops (id ∷ ids) s = omega (arith, length-pops ids (delete id s), length-pop s.redis id)

  postgres-pops : (ids : List String) (s : Stores V) → (pops ids s).postgres ≡ s.postgres
  postgres-pops [] s = refl
  postgres-pops (id ∷ ids) s = postgres-pops ids (delete id s)

  pub get-pops :
      (id : String) (ids : List String) (s : Stores V)
      → mem_str id ids ≡ false
      → Dict.get (pops ids s).redis id ≡ Dict.get s.redis id
  get-pops id [] s h = refl
  get-pops id (j ∷ ids) s h = elim (Bool-cases (j == id)) [
    | inl e ↦ absurd (ground (arith, h, e))
    | inr e ↦ get-pops id ids (delete j s) (ground (arith, h, e)) ∙ get-pop s.redis j id ∙ rw e refl
  ]

  -- A loop that did not raise and left no more in Redis, and one that moved something.
  pub record Goes (s : Stores V) (r : Bool × ℕ × Stores V) : Type 0 where
    pub quiet : r.0 ≡ false
    pub fewer : length r.2.redis ≤ length s.redis

  pub record Moves (s : Stores V) (r : Bool × ℕ × Stores V) : Type 0 where
    pub quiet : r.0 ≡ false
    pub counted : 0 < r.1
    pub fewer : length r.2.redis < length s.redis

  module _ (falsy : V → Bool) (full : (v : V) → falsy v ≡ false) where
    move_next-Goes :
        (o : Option V) (id : String) (s : Stores V) (rest : Stores V → Bool × ℕ × Stores V)
        → ((t : Stores V) → Goes t (rest t))
        → Goes s (move_next falsy all_answered o id s rest)
    move_next-Goes none id s rest k = k s
    move_next-Goes (some v) id s rest k = record {
      quiet = (k (delete id (insert id v s))).quiet;
      fewer = omega (arith, (k (delete id (insert id v s))).fewer, length-pop s.redis id);
    }

    pub move_all-Goes :
        (ids : List String) (s : Stores V) → Goes s (move_all falsy all_answered ids s)
    unfolding move_all
    move_all-Goes [] s = record { quiet = refl; fewer = omega arith }
    move_all-Goes (id ∷ ids) s =
        move_next-Goes (loaded falsy (Dict.get s.redis id)) id s (move_all falsy all_answered ids)
          (move_all-Goes ids)

    move_next-Moves :
        (v : V) (id : String) (s : Stores V) (rest : Stores V → Bool × ℕ × Stores V)
        → Dict.get s.redis id ≡ some v
        → ((t : Stores V) → Goes t (rest t))
        → Moves s (move_next falsy all_answered (some v) id s rest)
    move_next-Moves v id s rest h k = record {
      quiet = (k (delete id (insert id v s))).quiet;
      counted = omega arith;
      fewer = omega (arith, (k (delete id (insert id v s))).fewer, length-pop_found s.redis id v h);
    }

    pub move_all-Moves :
        (v : V) (id : String) (ids : List String) (s : Stores V)
        → Dict.get s.redis id ≡ some v
        → Moves s (move_all falsy all_answered (id ∷ ids) s)
    unfolding move_all
    move_all-Moves v id ids s h =
        rw (h, full v)
          (move_next-Moves v id s (move_all falsy all_answered ids) h (move_all-Goes ids))
