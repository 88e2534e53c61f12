-- ===== src/Chaos/Faults.antt =====
-- The ops that answer with an error: havocforge/chaos/ops/error/http_error.py and http_mismatch.py,
-- and havocforge/chaos/ops/header/auth_fault.py. Status codes are natural numbers.
pub mod Offered
use havoc_forge.Base.{
  ℕ, ◌+◌, ◌*◌, ◌/◌, ◌^◌, String, Option, none, some, List, [], ◌∷◌, length, get_or, eqb,
  if◌then◌else◌,
}
use havoc_forge.Base.Text.{concat, show_ℕ}

-- The body of an answer: the one that came, `{}`, or the error message with its code.
pub data FaultBody (B : Type 0) : Type 0 where
  kept : B → FaultBody B
  empty_object : FaultBody B
  error_object : String → ℕ → FaultBody B

pub record FaultResult (B : Type 0) : Type 0 where
  pub body : FaultBody B
  pub descriptions : List String
  pub faults_count : ℕ
  pub status : ℕ

abbrev pub error_codes : List ℕ
error_codes = 400 ∷ 401 ∷ 403 ∷ 404 ∷ 408 ∷ 409 ∷ 429 ∷ 500 ∷ 502 ∷ 503 ∷ []

abbrev pub mismatch_codes : List ℕ
mismatch_codes = 400 ∷ 401 ∷ 403 ∷ 409 ∷ 412 ∷ 422 ∷ 429 ∷ 500 ∷ 502 ∷ 503 ∷ []

abbrev pub auth_codes : List ℕ
auth_codes = 401 ∷ 403 ∷ []

-- `codes or default`: None and an empty list both count as no codes.
abbrev pub codes_or : Option (List ℕ) → List ℕ → List ℕ
codes_or none default = default
codes_or (some []) default = default
codes_or (some (c ∷ cs)) default = c ∷ cs

-- The keys of a dict that is written at one more: a key that is there keeps its place.
abbrev pub add_key : ℕ → List ℕ → List ℕ
add_key c [] = c ∷ []
add_key c (d ∷ ds) = let rest = add_key c ds in if eqb c d then d ∷ ds else d ∷ rest

abbrev pub add_keys : List ℕ → List ℕ → List ℕ
add_keys keys [] = keys
add_keys keys (c ∷ cs) = add_keys (add_key c keys) cs

-- `list(dict.fromkeys(codes))`
abbrev pub fromkeys : List ℕ → List ℕ
fromkeys codes = add_keys [] codes

-- `available or list(default)`
unfoldable pub http_codes : Option (List ℕ) → List ℕ → List ℕ
http_codes codes default = codes_or (some (fromkeys (codes_or codes default))) default

abbrev pub budget_cost : ℕ × ℕ
budget_cost = (0, 1)

abbrev pub fault_text : String → ℕ → List String
fault_text name code = concat (name ∷ "(" ∷ show_ℕ code ∷ ")" ∷ []) ∷ []

module _ {B R : Type 0} where
  -- `rng.choice`, of a list that is not empty.
  module _ (choice : List ℕ → R → ℕ × R) where
    unfoldable pub http_error : Option (List ℕ) → B → R → FaultResult B × R
    http_error codes body r =
        let (code, r') = choice (http_codes codes error_codes) r in
        (
          record {
            body = empty_object;
            descriptions = fault_text "http_error" code;
            faults_count = 1;
            status = code;
          },
          r',
        )

    unfoldable pub http_mismatch : Option (List ℕ) → B → R → FaultResult B × R
    http_mismatch codes body r =
        let (code, r') = choice (http_codes codes mismatch_codes) r in
        (
          record {
            body = kept body;
            descriptions = fault_text "http_mismatch" code;
            faults_count = 1;
            status = code;
          },
          r',
        )

  -- `rng.random()`, in units of 2^-53. The index is in range, so the default is never taken.
  module _ (random : R → ℕ × R) where
    unfoldable pub auth_fault : Option (List ℕ) → B → R → FaultResult B × R
    auth_fault codes body r =
        let (n, r') = random r in
        let offered = codes_or codes auth_codes in
        let code = get_or offered (n * length offered / 2 ^ 53) 0 in
        (
          record {
            body = error_object "auth fault injected" code;
            descriptions = fault_text "auth_fault" code;
            faults_count = 1;
            status = code;
          },
          r',
        )
