-- ===== src/Chaos/Faults/Offered.antt =====
-- The codes that the error ops answer with.
use havoc_forge.Base.{
  ℕ, zero, suc, ◌*◌, ◌/◌, ◌^◌, ◌<◌, ◌≡◌, refl, ◌⊎◌, inl, inr, if_both, Option, none, some, List, [],
  ◌∷◌, length, get_or, eqb, arith,
}
use havoc_forge.Base.Find.{All, All-map}
use havoc_forge.Chaos.Faults.{
  error_codes, mismatch_codes, auth_codes, codes_or, add_key, add_keys, fromkeys, http_codes,
  http_error, http_mismatch, auth_fault, budget_cost,
}
use native.Mathlib.Nat.{div-lt_iff_lt-mul, mul-lt-mul_of_pos_right}

-- `c in l`
abbrev pub IsIn : ℕ → List ℕ → Type 0
IsIn c [] = ⊥
IsIn c (x ∷ l) = (c ≡ x) ⊎ IsIn c l

module _ (P : ℕ → Type 0) where
  All-add_key : (c : ℕ) (keys : List ℕ) → P c → All P keys → All P (add_key c keys)
  All-add_key c [] pc h = (pc, tt)
  All-add_key c (d ∷ ds) pc h = if_both (All P) (eqb c d) h (h.0, All-add_key c ds pc h.1)

  All-add_keys : (keys codes : List ℕ) → All P keys → All P codes → All P (add_keys keys codes)
  All-add_keys keys [] h hc = h
  All-add_keys keys (c ∷ cs) h hc =
      All-add_keys (add_key c keys) cs (All-add_key c keys hc.0 h) hc.1

  All-get_or : (l : List ℕ) (i d : ℕ) → i < length l → All P l → P (get_or l i d)
  All-get_or [] i d h all = absurd (omega (arith, h))
  All-get_or (x ∷ l) zero d h all = all.0
  All-get_or (x ∷ l) (suc i) d h all = All-get_or l i d (omega (arith, h)) all.1

  All-at : {c : ℕ} (l : List ℕ) → IsIn c l → All P l → P c
  All-at [] m all = absurd m
  All-at (x ∷ l) (inl e) all = rw e all.0
  All-at (x ∷ l) (inr m) all = All-at l m all.1

All-self : (l : List ℕ) → All (λ c. IsIn c l) l
All-self [] = tt
All-self (x ∷ l) = (inl refl, All-map (λ c m. inr m) l (All-self l))

length-add_key : (c : ℕ) (keys : List ℕ) → 0 < length (add_key c keys)
length-add_key c [] = omega arith
length-add_key c (d ∷ ds) = ground arith

length-add_keys : (keys codes : List ℕ) → 0 < length keys → 0 < length (add_keys keys codes)
length-add_keys keys [] h = h
length-add_keys keys (c ∷ cs) h = length-add_keys (add_key c keys) cs (length-add_key c keys)

length-codes_or :
    (codes : Option (List ℕ)) (default : List ℕ)
    → 0 < length default
    → 0 < length (codes_or codes default)
length-codes_or none default h = h
length-codes_or (some []) default h = h
length-codes_or (some (c ∷ cs)) default h = omega arith

length-fromkeys : (codes : List ℕ) → 0 < length codes → 0 < length (fromkeys codes)
length-fromkeys [] h = h
length-fromkeys (c ∷ cs) h = length-add_keys (c ∷ []) cs (omega arith)

All-codes_or :
    (P : ℕ → Type 0) (codes default : List ℕ)
    → 0 < length codes
    → All P codes
    → All P (codes_or (some codes) default)
All-codes_or P [] default h all = absurd (omega (arith, h))
All-codes_or P (c ∷ cs) default h all = all

-- The default that the constructor falls back to at the end is never reached.
All-http_codes :
    (P : ℕ → Type 0) (codes : Option (List ℕ)) (default : List ℕ)
    → 0 < length default
    → All P (codes_or codes default)
    → All P (http_codes codes default)
unfolding http_codes
All-http_codes P codes default h all =
    let offered = codes_or codes default in
    All-codes_or P (fromkeys offered) default
      (length-fromkeys offered (length-codes_or codes default h)) (All-add_keys P [] offered tt all)

length-http_codes :
    (codes : Option (List ℕ)) (default : List ℕ)
    → 0 < length default
    → 0 < length (http_codes codes default)
unfolding http_codes
length-http_codes codes default h =
    length-codes_or (some (fromkeys (codes_or codes default))) default h

index-lt : (n k : ℕ) → n < 2 ^ 53 → 0 < k → n * k / 2 ^ 53 < k
index-lt n k h hk =
    let below : n * k < 2 ^ 53 * k = mul-lt-mul_of_pos_right h hk in
    (div-lt_iff_lt-mul (omega arith)).1 (omega (arith, below))

module _ {R : Type 0} (choice : List ℕ → R → ℕ × R)
    (choice_from : (l : List ℕ) (r : R) → 0 < length l → IsIn (choice l r).0 l) (random : R → ℕ × R)
    (unit : (r : R) → (random r).0 < 2 ^ 53) where
  choice-IsIn :
      (codes : Option (List ℕ)) (default : List ℕ) (r : R)
      → 0 < length default
      → IsIn (choice (http_codes codes default) r).0 (codes_or codes default)
  choice-IsIn codes default r h =
      let offered = codes_or codes default in
      All-at (λ c. IsIn c offered) (http_codes codes default)
        (choice_from (http_codes codes default) r (length-http_codes codes default h))
        (All-http_codes (λ c. IsIn c offered) codes default h (All-self offered))

  -- With any codes configured, also none or an empty list, each of the three ops answers with one of
  -- the configured codes, or of its defaults where none are configured, and counts one fault, as its
  -- budget announces. `rng.choice` gives an element of a list that is not empty, and a random number
  -- is below 1.
  pub status-IsIn :
      {B : Type 0} (codes : Option (List ℕ)) (body : B) (r : R)
      → (IsIn (http_error choice codes body r).0.status (codes_or codes error_codes)
          × IsIn (http_mismatch choice codes body r).0.status (codes_or codes mismatch_codes)
          × IsIn (auth_fault random codes body r).0.status (codes_or codes auth_codes))
        × (((http_error choice codes body r).0.faults_count ≡ budget_cost.1)
            × ((http_mismatch choice codes body r).0.faults_count ≡ budget_cost.1)
            × ((auth_fault random codes body r).0.faults_count ≡ budget_cost.1))
  unfolding http_error http_mismatch auth_fault
  status-IsIn codes body r = (
    (
      choice-IsIn codes error_codes r (omega arith),
      choice-IsIn codes mismatch_codes r (omega arith),
      let offered = codes_or codes auth_codes in
          All-get_or (λ c. IsIn c offered) offered ((random r).0 * length offered / 2 ^ 53) 0
            (index-lt (random r).0 (length offered) (unit r)
              (length-codes_or codes auth_codes (omega arith)))
            (All-self offered),
    ),
    (refl, refl, refl),
  )
