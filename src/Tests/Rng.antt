-- ===== src/Tests/Rng.antt =====
-- A generator of random numbers that counts its draws, and what is asked of one.
use havoc_forge.Base.{
  ℕ, zero, suc, ◌+◌, ◌≤◌, ◌<◌, String, ◌≡◌, refl, List, [], ◌∷◌, arith, length, take, replicate,
}
use havoc_forge.Base.Find.{All}
use havoc_forge.Chaos.Op.{Rng, IsRandom}

abbrev pub first_of : List String → ℕ → List String
first_of [] k = []
first_of (name ∷ names) k = replicate k name

abbrev pub counter : Rng ℕ
counter = record {
  random = λ r. (r, r + 1);
  randint = λ lo hi r. (lo, r);
  choices = λ names weights k r. (first_of names k, r);
  sample = λ names k r. (take k names, r);
}

length-first_of : (names : List String) (k : ℕ) → 0 < length names → length (first_of names k) ≡ k
length-first_of [] k h = omega (arith, h)
length-first_of (n ∷ names) zero h = refl
length-first_of (n ∷ names) (suc k) h = omega (arith, length-first_of (n ∷ names) k h)

first_of-All :
    (Q : String → Type 0) (names : List String) (k : ℕ) → All Q names → All Q (first_of names k)
first_of-All Q [] k h = tt
first_of-All Q (n ∷ names) zero h = tt
first_of-All Q (n ∷ names) (suc k) h = (h.0, first_of-All Q (n ∷ names) k h)

length-take_le : (names : List String) (k : ℕ) → k ≤ length names → length (take k names) ≡ k
length-take_le [] zero h = refl
length-take_le (n ∷ names) zero h = refl
length-take_le [] (suc k) h = omega (arith, h)
length-take_le (n ∷ names) (suc k) h = omega (arith, length-take_le names k (omega arith))

take-All : (Q : String → Type 0) (names : List String) (k : ℕ) → All Q names → All Q (take k names)
take-All Q [] zero h = tt
take-All Q [] (suc k) h = tt
take-All Q (n ∷ names) zero h = tt
take-All Q (n ∷ names) (suc k) h = (h.0, take-All Q names k h.1)

pub counter-IsRandom : IsRandom counter
counter-IsRandom = record {
  randint_bounds = λ lo hi r h. (omega arith, h);
  choices_length = λ names weights k r h. length-first_of names k h;
  choices_from = λ Q names weights k r h. first_of-All Q names k h;
  sample_length = λ names k r h. length-take_le names k h;
  sample_from = λ Q names k r h. take-All Q names k h;
}
