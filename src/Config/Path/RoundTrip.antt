-- ===== src/Config/Path/RoundTrip.antt =====
-- What `join_path` puts together, `split_path` takes apart.
use havoc_forge.Base.{
  ℕ, Bool, true, false, ◌&&◌, ◌≡◌, refl, sym, ap, ◌∙◌, Option, none, some, List, [], ◌∷◌, ◌++◌, eqb,
  not, if◌then◌else◌, arith,
}
use havoc_forge.Base.Find.{any, All, last-append_one}
use havoc_forge.Config.Path.{
  Text, is_empty, all_digits, isdigit, Scan, start, flushed, outside, inside, scan, split_path,
  is_bracketed, joined, join_rest, join_path,
}

append_assoc {ℓ} : {A : Type ℓ} (xs ys zs : List A) → (xs ++ ys) ++ zs ≡ xs ++ (ys ++ zs)
append_assoc [] ys zs = refl
append_assoc (x ∷ xs) ys zs = ap (λ l. x ∷ l) (append_assoc xs ys zs)

append_nil {ℓ} : {A : Type ℓ} (xs : List A) → xs ++ [] ≡ xs
append_nil [] = refl
append_nil (x ∷ xs) = ap (λ l. x ∷ l) (append_nil xs)

-- Characters that a name, an index and a quoted key are made of.
abbrev pub is_plain : ℕ → Bool
is_plain c = not (eqb c b'.') && not (eqb c b'[')

abbrev pub no_quote : ℕ → Bool
no_quote c = not (eqb c b'"')

abbrev pub every : (ℕ → Bool) → Text → Bool
every p [] = true
every p (c ∷ s) = p c && every p s

-- Outside of brackets, inside of them, and inside of quotes.
abbrev out_of : List Text → Text → Scan
out_of out cur = record { out = out; cur = cur; in_brackets = false; quoted = false }

abbrev in_of : List Text → Text → Bool → Scan
in_of out cur quoted = record { out = out; cur = cur; in_brackets = true; quoted = quoted }

-- A name has no dot.
any_dot : (p : Text) → every is_plain p ≡ true → any (λ c. eqb c b'.') p ≡ false
any_dot [] h = refl
any_dot (c ∷ p) h = ground (arith, h, any_dot p)

not_empty : (text s : Text) → is_empty text ≡ false → is_empty (text ++ s) ≡ false
not_empty [] s h = absurd (cc h)
not_empty (c ∷ text) s h = refl

bracketed : (p : Text) → is_bracketed (b'[' ∷ (p ++ b']' ∷ [])) ≡ true
bracketed p =
    ap (λ (o : Option ℕ). elim o [ none ↦ false | some d ↦ eqb d b']' ])
      (last-append_one (b'[' ∷ p) b']')

-- Neither a quotation mark nor a closing bracket is a digit.
abbrev pub IsDigits : (ℕ → Bool) → Type 0
IsDigits is_digit = (is_digit b'"' ≡ false) × (is_digit b']' ≡ false)

module _ (is_digit : ℕ → Bool) (law : IsDigits is_digit) where
  scan-append :
      (s t : Text) (st : Scan) → scan is_digit (s ++ t) st ≡ scan is_digit t (scan is_digit s st)
  unfolding scan
  scan-append [] t st = refl
  scan-append (c ∷ s) t st =
      scan-append s t (if st.in_brackets then inside is_digit c st else outside c st)

  scan-name :
      (p : Text) (out : List Text) (cur : Text)
      → every is_plain p ≡ true
      → scan is_digit p (out_of out cur) ≡ out_of out (cur ++ p)
  unfolding scan
  scan-name [] out cur h = rw (append_nil cur)
  scan-name (c ∷ p) out cur h =
      let plain : outside c (out_of out cur) ≡ out_of out (cur ++ c ∷ []) = ground (arith, h) in
      rw plain
        (scan-name p out (cur ++ c ∷ []) (ground (arith, h)) ∙ rw (append_assoc cur (c ∷ []) p))

  scan-digits :
      (p : Text) (out : List Text) (cur : Text)
      → all_digits is_digit p ≡ true
      → scan is_digit p (in_of out cur false) ≡ in_of out (cur ++ p) false
  unfolding scan
  scan-digits [] out cur h = rw (append_nil cur)
  scan-digits (c ∷ p) out cur h =
      let plain : inside is_digit c (in_of out cur false) ≡ in_of out (cur ++ c ∷ []) false =
        ground (arith, h) in
      rw plain
        (scan-digits p out (cur ++ c ∷ []) (ground (arith, h)) ∙ rw (append_assoc cur (c ∷ []) p))

  scan-quoted :
      (p : Text) (out : List Text) (cur : Text)
      → every no_quote p ≡ true
      → scan is_digit p (in_of out cur true) ≡ in_of out (cur ++ p) true
  unfolding scan
  scan-quoted [] out cur h = rw (append_nil cur)
  scan-quoted (c ∷ p) out cur h =
      let plain : inside is_digit c (in_of out cur true) ≡ in_of out (cur ++ c ∷ []) true =
        ground (arith, h) in
      rw plain
        (scan-quoted p out (cur ++ c ∷ []) (ground (arith, h)) ∙ rw (append_assoc cur (c ∷ []) p))

  -- A part that `join_path` writes after a dot, as an index, or quoted in brackets; `valid` is
  -- `is_valid_identifier`.
  pub data IsPart (valid : Text → Bool) : Text → Type 0 where
    name :
        (c : ℕ) (p : Text)
        → valid (c ∷ p) ≡ true
        → every is_plain (c ∷ p) ≡ true
        → IsPart valid (c ∷ p)
    index : (p : Text) → isdigit is_digit p ≡ true → IsPart valid (b'[' ∷ (p ++ b']' ∷ []))
    key :
        (p : Text)
        → is_bracketed p ≡ false
        → valid p ≡ false
        → isdigit is_digit p ≡ false
        → every no_quote p ≡ true
        → IsPart valid p

  abbrev pub AllParts : (Text → Bool) → List Text → Type 0
  AllParts valid = All (IsPart valid)

  -- What has been scanned, outside of brackets, comes to these parts.
  abbrev IsScanned : List Text → Scan → Type 0
  IsScanned parts st =
      (out : List Text) × (cur : Text) × (st ≡ out_of out cur) × (flushed out cur ≡ parts)

  -- After a dot.
  dot_name :
      (out : List Text) (cur : Text) (c : ℕ) (p : Text)
      → every is_plain (c ∷ p) ≡ true
      → scan is_digit (b'.' ∷ c ∷ p) (out_of out cur) ≡ out_of (flushed out cur) (c ∷ p)
  unfolding scan
  dot_name out cur c p h = scan-name (c ∷ p) (flushed out cur) [] h

  index_part :
      (out : List Text) (cur p : Text)
      → isdigit is_digit p ≡ true
      → scan is_digit (b'[' ∷ (p ++ b']' ∷ [])) (out_of out cur)
        ≡ out_of (flushed out cur ++ (b'[' ∷ (p ++ b']' ∷ [])) ∷ []) []
  unfolding scan
  index_part out cur p h =
      rw (scan-append p (b']' ∷ []) (in_of (flushed out cur) [] false))
        (rw (scan-digits p (flushed out cur) [] (ground (arith, h))) (rw h))

  key_part :
      (out : List Text) (cur p : Text)
      → isdigit is_digit p ≡ false
      → every no_quote p ≡ true
      → scan is_digit (b'[' ∷ b'"' ∷ (p ++ b'"' ∷ b']' ∷ [])) (out_of out cur)
        ≡ out_of (flushed out cur ++ p ∷ []) []
  unfolding scan
  key_part out cur p h quiet =
      rw (scan-append p (b'"' ∷ b']' ∷ []) (in_of (flushed out cur) [] true))
        (rw (scan-quoted p (flushed out cur) [] quiet) (rw h))

  module _ (valid : Text → Bool) where
    -- What `join_path` appends for a part: the text goes on, and the scan with it.
    record GoesOn (text : Text) (parts : List Text) (p : Text) : Type 0 where
      more : is_empty (joined valid text p) ≡ false
      scanned : IsScanned (parts ++ p ∷ []) (scan is_digit (joined valid text p) start)

    joined-GoesOn :
        (text : Text) (parts : List Text) (p : Text)
        → is_empty text ≡ false
        → IsScanned parts (scan is_digit text start)
        → IsPart valid p
        → GoesOn text parts p
    joined-GoesOn text parts _ filled (out, cur, here, done) (name c p ok plain) =
        let dots = any_dot (c ∷ p) plain in
        let is : joined valid text (c ∷ p) ≡ text ++ b'.' ∷ c ∷ p =
          ground (arith, plain, ok, dots, filled) in
        let went = scan-append text (b'.' ∷ c ∷ p) start ∙ rw here (dot_name out cur c p plain) in
        record {
          more = rw is (not_empty text (b'.' ∷ c ∷ p) filled);
          scanned = (flushed out cur, c ∷ p, rw is went, rw done);
        }
    joined-GoesOn text parts _ filled (out, cur, here, done) (index p digits) =
        let part = b'[' ∷ (p ++ b']' ∷ []) in
        let is : joined valid text part ≡ text ++ part = rw (bracketed p) in
        let went = scan-append text part start ∙ rw here (index_part out cur p digits) in
        record {
          more = rw is (not_empty text part filled);
          scanned = (flushed out cur ++ part ∷ [], [], rw is went, rw done);
        }
    joined-GoesOn text parts p filled (out, cur, here, done) (key _ unbracketed ok digits quiet) =
        let written = b'[' ∷ b'"' ∷ (p ++ b'"' ∷ b']' ∷ []) in
        let is : joined valid text p ≡ text ++ written = rw unbracketed (rw ok) in
        let went = scan-append text written start ∙ rw here (key_part out cur p digits quiet) in
        record {
          more = rw is (not_empty text written filled);
          scanned = (flushed out cur ++ p ∷ [], [], rw is went, rw done);
        }

    split-join_rest :
        (text : Text) (parts rest : List Text)
        → is_empty text ≡ false
        → IsScanned parts (scan is_digit text start)
        → AllParts valid rest
        → split_path is_digit (join_rest valid text rest) ≡ parts ++ rest
    unfolding split_path join_rest
    split-join_rest text parts [] filled (out, cur, here, done) h =
        rw here (done ∙ sym (append_nil parts))
    split-join_rest text parts (p ∷ rest) filled scanned (hp, h) =
        let step = joined-GoesOn text parts p filled scanned hp in
        split-join_rest (joined valid text p) (parts ++ p ∷ []) rest step.more step.scanned h
        ∙ append_assoc parts (p ∷ []) rest

    -- Splitting what was joined gives the parts back, if the first is a name and each other is a name,
    -- an index of digits in brackets, or a text that is neither: one that does not begin and end with
    -- brackets, that `is_valid_identifier` refuses, that is not all digits, and that has no quotation
    -- mark. A name has neither dots nor opening brackets, and neither a quotation mark nor a closing
    -- bracket is a digit.
    pub split_path-join_path :
        (c : ℕ) (p : Text) (parts : List Text)
        → every is_plain (c ∷ p) ≡ true
        → AllParts valid parts
        → split_path is_digit (join_path valid ((c ∷ p) ∷ parts)) ≡ (c ∷ p) ∷ parts
    unfolding join_path
    split_path-join_path c p parts plain h =
        split-join_rest (c ∷ p) ((c ∷ p) ∷ []) parts refl
          ([], c ∷ p, scan-name (c ∷ p) [] [] plain, refl) h
