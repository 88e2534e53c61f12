-- ===== src/Tests/Faults.antt =====
-- The error ops at concrete inputs: the first code is chosen, and every number that is drawn is half
-- of the range.
use havoc_forge.Base.{ℕ, String, ◌+◌, ◌^◌, ◌<◌, ◌≡◌, refl, List, [], ◌∷◌, length, inl, some, arith}
use havoc_forge.Base.Text.{concat, show_ℕ}
use havoc_forge.Chaos.Faults.{error_codes, http_codes, http_error}
use havoc_forge.Chaos.Faults.Offered.{IsIn}

abbrev message : String
message = "body"

abbrev first : List ℕ → ℕ → ℕ × ℕ
first [] r = (0, r + 1)
first (c ∷ cs) r = (c, r + 1)

first-IsIn : (l : List ℕ) (r : ℕ) → 0 < length l → IsIn (first l r).0 l
first-IsIn [] r h = absurd (omega (arith, h))
first-IsIn (c ∷ cs) r h = inl refl

abbrev half : ℕ → ℕ × ℕ
half r = (2 ^ 52, r + 1)

repeated_dropped : http_codes (some (500 ∷ 404 ∷ 500 ∷ [])) error_codes ≡ 500 ∷ 404 ∷ []
unfolding http_codes
repeated_dropped = refl

described_code :
    (http_error first (some (500 ∷ 404 ∷ [])) message 0).0.descriptions ≡ "http_error(500)" ∷ []
unfolding http_error http_codes concat show_ℕ
described_code = refl
