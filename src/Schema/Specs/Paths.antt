-- ===== src/Schema/Specs/Paths.antt =====
-- What `_parse_path` reads of the paths that `_flatten` writes.
use havoc_forge.Base.{
  ℕ, zero, suc, ◌+◌, ◌-◌, ◌*◌, ◌/◌, ◌%◌, ◌<◌, Bool, true, false, ◌&&◌, not, Option, some, List, [],
  ◌∷◌, ◌++◌, ltb, eqb, ◌≡◌, refl, sym, ap, ◌∙◌, arith, inl, inr, Bool-cases,
}
use mathlib.Core.Path.{subst}
use mathlib.Core.List.{append_assoc, append-nil}
use havoc_forge.Config.Path.{Text, is_empty, flushed}
use havoc_forge.Config.Path.RoundTrip.{every}
use havoc_forge.Schema.Specs.{
  digits, decimal, field_path, element_path, optional_path, choice_path, Scanning, reading,
  skipping, indexing, is_digit, is_next, read_char, index_segment, step, head, scan_path,
  segments_of, parse_path, read_digits, int_of,
}

digits-small :
    (fuel n : ℕ) (rest : Text) → ltb n 10 ≡ true → digits (suc fuel) n rest ≡ (b'0' + n % 10) ∷ rest
unfolding digits
digits-small fuel n rest h = rw (digits, h) refl

digits-large :
    (fuel n : ℕ) (rest : Text)
    → ltb n 10 ≡ false
    → digits (suc fuel) n rest ≡ digits fuel (n / 10) ((b'0' + n % 10) ∷ rest)
unfolding digits
digits-large fuel n rest h = rw (digits, h) refl

read_one :
    (m n : ℕ) (rest : Text)
    → m * 10 + n % 10 ≡ n
    → read_digits m ((b'0' + n % 10) ∷ rest) ≡ read_digits n rest
read_one m n rest h =
    let digit : is_digit (b'0' + n % 10) ≡ true = ground arith in
    let value : m * 10 + ((b'0' + n % 10) - b'0') ≡ n = omega (arith, h) in
    rw (read_digits, digit, value) refl

read-digits :
    (fuel n : ℕ) (rest : Text) → n < fuel → read_digits 0 (digits fuel n rest) ≡ read_digits n rest
read-digits zero n rest h = absurd (omega (arith, h))
read-digits (suc fuel) n rest h = elim (Bool-cases (ltb n 10)) [
  | inl small ↦
      ap (read_digits 0) (digits-small fuel n rest small)
      ∙ read_one 0 n rest (ground (arith, small))
  | inr large ↦
      ap (read_digits 0) (digits-large fuel n rest large)
      ∙ read-digits fuel (n / 10) ((b'0' + n % 10) ∷ rest) (ground (arith, large, h))
      ∙ read_one (n / 10) n rest (omega arith)
]

digits-every :
    (fuel n : ℕ) (rest : Text)
    → every is_digit rest ≡ true
    → every is_digit (digits fuel n rest) ≡ true
unfolding digits
digits-every zero n rest h = h
digits-every (suc fuel) n rest h = elim (Bool-cases (ltb n 10)) [
  | inl small ↦ ap (every is_digit) (digits-small fuel n rest small) ∙ ground (arith, h)
  | inr large ↦
      ap (every is_digit) (digits-large fuel n rest large)
      ∙ digits-every fuel (n / 10) ((b'0' + n % 10) ∷ rest) (ground (arith, h))
]

digits-not_empty :
    (fuel n : ℕ) (rest : Text) → is_empty rest ≡ false → is_empty (digits fuel n rest) ≡ false
unfolding digits
digits-not_empty zero n rest h = h
digits-not_empty (suc fuel) n rest h = elim (Bool-cases (ltb n 10)) [
  | inl small ↦ ap is_empty (digits-small fuel n rest small)
  | inr large ↦
      ap is_empty (digits-large fuel n rest large)
      ∙ digits-not_empty fuel (n / 10) ((b'0' + n % 10) ∷ rest) refl
]

int_of-not_empty : (s : Text) → is_empty s ≡ false → int_of s ≡ read_digits 0 s
int_of-not_empty [] h = cc
int_of-not_empty (c ∷ s) h = refl

-- A number that is written is read back.
pub int_of-decimal : (n : ℕ) → int_of (decimal n) ≡ some n
unfolding decimal digits
int_of-decimal n = elim (Bool-cases (ltb n 10)) [
  | inl small ↦
      ap int_of (digits-small n n [] small)
      ∙ int_of-not_empty ((b'0' + n % 10) ∷ []) refl
      ∙ read_one 0 n [] (ground (arith, small))
  | inr large ↦
      int_of-not_empty (decimal n) (
        ap is_empty (digits-large n n [] large)
        ∙ digits-not_empty n (n / 10) ((b'0' + n % 10) ∷ []) refl)
      ∙ read-digits (suc n) n [] (omega arith)
]

-- A character of a name is none of those that a path is made with.
abbrev pub is_name_char : ℕ → Bool
is_name_char c = not (eqb c b'.') && (not (eqb c b'[') && not (eqb c b'|'))

abbrev pub starts_plain : Text → Bool
starts_plain [] = false
starts_plain (c ∷ s) = not (eqb c b'?')

abbrev pub is_name : Text → Bool
is_name k = starts_plain k && every is_name_char k

scan-name :
    (k rest : Text) (out : List Text) (cur : Text)
    → every is_name_char k ≡ true
    → scan_path (k ++ rest) (reading out cur) ≡ scan_path rest (reading out (cur ++ k))
unfolding scan_path
scan-name [] rest out cur h = rw (append-nil cur) refl
scan-name (c ∷ k) rest out cur h =
    let plain : read_char c (head (k ++ rest)) out cur ≡ reading out (cur ++ c ∷ []) =
      ground (arith, h) in
    ap (scan_path (k ++ rest)) plain
    ∙ scan-name k rest out (cur ++ c ∷ []) (ground (arith, h))
    ∙ rw (append_assoc cur (c ∷ []) k) refl

scan-digits :
    (ds rest : Text) (out : List Text) (cur : Text)
    → every is_digit ds ≡ true
    → scan_path (ds ++ rest) (indexing out cur) ≡ scan_path rest (indexing out (cur ++ ds))
unfolding scan_path
scan-digits [] rest out cur h = rw (append-nil cur) refl
scan-digits (c ∷ ds) rest out cur h =
    let is : is_digit c ≡ true = ground (arith, h) in
    let more : step c (head (ds ++ rest)) (indexing out cur) ≡ indexing out (cur ++ c ∷ []) =
      rw is refl in
    ap (scan_path (ds ++ rest)) more
    ∙ scan-digits ds rest out (cur ++ c ∷ []) (ground (arith, h))
    ∙ rw (append_assoc cur (c ∷ []) ds) refl

-- The steps from a node to a node below it.
pub data Step : Type 0 where
  key : Text → Step
  element optional : Step
  option : ℕ → Step

abbrev pub segment : Step → Text
segment (key k) = k
segment element = b'[' ∷ b']' ∷ []
segment optional = b'?' ∷ []
segment (option i) = index_segment (decimal i)

abbrev pub extend : Text → Step → Text
extend path (key k) = field_path path k
extend path element = element_path path
extend path optional = optional_path path
extend path (option i) = choice_path path i

abbrev pub IsProper : Step → Type 0
IsProper (key k) = is_name k ≡ true
IsProper _ = Unit

-- What is read when nothing is skipped: the segments before, and the buffer.
abbrev outs : Scanning → List Text
outs (reading out cur) = out
outs (skipping out) = out
outs (indexing out ds) = out ++ index_segment ds ∷ []

abbrev cur_of : Scanning → Text
cur_of (reading out cur) = cur
cur_of (skipping out) = []
cur_of (indexing out ds) = []

abbrev IsSettled : Scanning → Type 0
IsSettled (skipping out) = ⊥
IsSettled _ = Unit

-- A path after which the segments are these, whatever follows it.
pub record Reads (path : Text) (segments : List Text) : Type 0 where
  pub after : Scanning
  pub settled : IsSettled after
  pub scanned : (rest : Text) → scan_path (path ++ rest) (reading [] []) ≡ scan_path rest after
  pub segments_are : segments_of after ≡ segments
  pub fresh : is_empty path ≡ true → after ≡ reading [] []

pub parse_path-Reads :
    (path : Text) (segments : List Text) → Reads path segments → parse_path path ≡ segments
unfolding parse_path scan_path
parse_path-Reads path segments r =
    ap (λ p. segments_of (scan_path p (reading [] []))) (sym (append-nil path))
    ∙ ap segments_of (r.scanned [])
    ∙ r.segments_are

pub root-Reads : Reads [] []
root-Reads = record {
  after = reading [] [];
  settled = tt;
  scanned = λ rest. refl;
  segments_are = refl;
  fresh = λ e. refl;
}

-- A character that begins a step ends what is read before it.
enter :
    (c : ℕ) (next_char : Option ℕ) (st : Scanning)
    → IsSettled st
    → is_digit c ≡ false
    → step c next_char st ≡ read_char c next_char (outs st) (cur_of st)
enter c next_char (reading out cur) h d = refl
enter c next_char (skipping out) h d = absurd h
enter c next_char (indexing out ds) h d = rw d refl

flushed_lem : (st : Scanning) → flushed (outs st) (cur_of st) ≡ segments_of st
flushed_lem (reading out cur) = refl
flushed_lem (skipping out) = refl
flushed_lem (indexing out ds) = refl

flushed-not_empty :
    (out : List Text) (k : Text) → is_empty k ≡ false → flushed out k ≡ out ++ k ∷ []
flushed-not_empty out [] h = cc
flushed-not_empty out (c ∷ k) h = refl

append-not_empty : (path : Text) (c : ℕ) (s : Text) → is_empty (path ++ c ∷ s) ≡ false
append-not_empty [] c s = refl
append-not_empty (d ∷ path) c s = refl

name-not_empty : (k : Text) → is_name k ≡ true → is_empty k ≡ false
name-not_empty [] h = cc
name-not_empty (c ∷ k) h = refl

not_optional : (k rest : Text) → is_name k ≡ true → is_next (head (k ++ rest)) b'?' ≡ false
not_optional [] rest h = cc
not_optional (c ∷ k) rest h = ground (arith, h)

name-every : (k : Text) → is_name k ≡ true → every is_name_char k ≡ true
name-every [] h = cc
name-every (c ∷ k) h = ground (arith, h)

module _ (path : Text) (segments : List Text) (r : Reads path segments) where
  -- A step that is written with a character that begins it and what comes after.
  further :
      (c : ℕ) (s : Text) (after : Scanning)
      → IsSettled after
      → ((rest : Text) → scan_path (c ∷ s ++ rest) r.after ≡ scan_path rest after)
      → Reads (path ++ c ∷ s) (segments_of after)
  further c s after settled scans = record {
    after = after;
    settled = settled;
    scanned = λ rest.
        ap (λ p. scan_path p (reading [] [])) (append_assoc path (c ∷ s) rest)
        ∙ r.scanned (c ∷ s ++ rest)
        ∙ scans rest;
    segments_are = refl;
    fresh = λ e. cc (append-not_empty path c s);
  }

  flushed_here : flushed (outs r.after) (cur_of r.after) ≡ segments
  flushed_here = flushed_lem r.after ∙ r.segments_are

  extend_key : (k : Text) → is_name k ≡ true → Reads (path ++ b'.' ∷ k) (segments ++ k ∷ [])
  unfolding scan_path
  extend_key k h =
      subst (λ l. Reads (path ++ b'.' ∷ k) l) (flushed-not_empty segments k (name-not_empty k h))
        (further b'.' k (reading segments k) tt (λ rest.
          ap (scan_path (k ++ rest)) (
            enter b'.' (head (k ++ rest)) r.after r.settled refl
            ∙ rw (not_optional k rest h) (ap (λ f. reading f []) flushed_here))
          ∙ scan-name k rest segments [] (name-every k h)))

  extend_element : Reads (element_path path) (segments ++ (b'[' ∷ b']' ∷ []) ∷ [])
  unfolding scan_path
  extend_element =
      further b'[' (b']' ∷ []) (reading (segments ++ (b'[' ∷ b']' ∷ []) ∷ []) []) tt (λ rest.
        ap (scan_path (b']' ∷ rest)) (
          enter b'[' (some b']') r.after r.settled refl
          ∙ ap (λ f. skipping (f ++ (b'[' ∷ b']' ∷ []) ∷ [])) flushed_here))

  extend_optional : Reads (optional_path path) (segments ++ (b'?' ∷ []) ∷ [])
  unfolding scan_path
  extend_optional = further b'.' (b'?' ∷ []) (reading (segments ++ (b'?' ∷ []) ∷ []) []) tt (λ rest.
      ap (scan_path (b'?' ∷ rest)) (
        enter b'.' (some b'?') r.after r.settled refl
        ∙ ap (λ f. skipping (f ++ (b'?' ∷ []) ∷ [])) flushed_here))

  extend_option : (i : ℕ) → Reads (choice_path path i) (segments ++ index_segment (decimal i) ∷ [])
  unfolding scan_path decimal
  extend_option i = further b'|' (decimal i) (indexing segments (decimal i)) tt (λ rest.
      ap (scan_path (decimal i ++ rest)) (
        enter b'|' (head (decimal i ++ rest)) r.after r.settled refl
        ∙ ap (λ f. indexing f []) flushed_here)
      ∙ scan-digits (decimal i) rest segments [] (digits-every (suc i) i [] refl))

  extend_first : (k : Text) → is_empty path ≡ true → is_name k ≡ true → Reads k (segments ++ k ∷ [])
  extend_first k e h =
      let none_before : [] ≡ segments = ap segments_of (sym (r.fresh e)) ∙ r.segments_are in
      subst (λ (l : List Text). Reads k (l ++ k ∷ [])) none_before
        (record {
          after = reading [] k;
          settled = tt;
          scanned = λ rest. scan-name k rest [] [] (name-every k h);
          segments_are = flushed-not_empty [] k (name-not_empty k h);
          fresh = λ e'. cc (name-not_empty k h);
        })

  -- A path that is extended by a step is read with the step's segment at the end.
  pub extend-Reads : (g : Step) → IsProper g → Reads (extend path g) (segments ++ segment g ∷ [])
  extend-Reads (key k) h = elim (Bool-cases (is_empty path)) [
    | inl e ↦ rw e (extend_first k e h)
    | inr e ↦ rw e (extend_key k h)
  ]
  extend-Reads element h = extend_element
  extend-Reads optional h = extend_optional
  extend-Reads (option i) h = extend_option i
