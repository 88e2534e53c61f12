-- ===== src/Schema/Specs.antt =====
-- The contracts of a schema as a tree, with `_flatten` of havocforge/schema/builder.py, which names
-- its nodes by paths, and the paths of havocforge/chaos/ops/drift/data_drift.py, which finds and
-- replaces them. A text is the list of its characters' numbers. No node stands at two places of a
-- tree, so an assignment to a node makes a new tree.
pub mod Paths
pub mod Flattened
use havoc_forge.Base.{
  ℕ, zero, suc, ◌+◌, ◌-◌, ◌*◌, ◌/◌, ◌%◌, Bool, true, false, ◌&&◌, Option, none, some, List, [], ◌∷◌,
  ◌++◌, ltb, leb, eqb, if◌then◌else◌,
}
use havoc_forge.Config.Path.{Text, is_empty, flushed}

-- A contract by the class that the code asks for, with its other settings. The child of an array or
-- of a maybe, and a choice, may be None. What is of no class that the code asks for is a leaf, also the
-- dict that stands for an option of a select.
mutual
  pub data Spec (L : Type 0) : Type 0 where
    object : L → FieldSpecs L → Spec L
    select : L → FieldSpecs L → Spec L
    array : L → Child L → Spec L
    maybe : L → Child L → Spec L
    one_of : L → Choices L → Spec L
    leaf : L → Spec L

  pub data FieldSpecs (L : Type 0) : Type 0 where
    no_fields : FieldSpecs L
    field : Text → Spec L → FieldSpecs L → FieldSpecs L

  pub data Child (L : Type 0) : Type 0 where
    no_child : Child L
    child : Spec L → Child L

  pub data Choices (L : Type 0) : Type 0 where
    no_choices : Choices L
    choice : Child L → Choices L → Choices L

abbrev pub eq_text : Text → Text → Bool
eq_text [] [] = true
eq_text [] (d ∷ t) = false
eq_text (c ∷ s) [] = false
eq_text (c ∷ s) (d ∷ t) = eqb c d && eq_text s t

abbrev pub Paths : Type 0 → Type 0
Paths L = List (Text × Child L)

-- `out[path] = node`, and `out.update(…)`
abbrev pub put_path : {L : Type 0} → Paths L → Text → Child L → Paths L
put_path [] path node = (path, node) ∷ []
put_path ((j, w) ∷ out) path node =
    let rest = put_path out path node in if eq_text j path then (j, node) ∷ out else (j, w) ∷ rest

abbrev pub update : {L : Type 0} → Paths L → Paths L → Paths L
update out [] = out
update out ((path, node) ∷ more) = update (put_path out path node) more

-- `f"{i}"`: a number has at most as many digits as its successor counts, which is the fuel.
pub digits : ℕ → ℕ → Text → Text
digits zero n rest = rest
digits (suc fuel) n rest =
    let here = (b'0' + n % 10) ∷ rest in
    elim (ltb n 10) [ true ↦ here | false ↦ digits fuel (n / 10) here ]

unfoldable pub decimal : ℕ → Text
unfolding digits
decimal n = digits (suc n) n []

abbrev pub field_path : Text → Text → Text
field_path prefix k = if is_empty prefix then k else prefix ++ b'.' ∷ k

abbrev pub element_path : Text → Text
element_path prefix = prefix ++ b'[' ∷ b']' ∷ []

abbrev pub optional_path : Text → Text
optional_path prefix = prefix ++ b'.' ∷ b'?' ∷ []

abbrev pub choice_path : Text → ℕ → Text
choice_path prefix i = prefix ++ b'|' ∷ decimal i

abbrev pub named_node : {L : Type 0} → Text → Spec L → Paths L
named_node prefix node = if is_empty prefix then [] else (prefix, child node) ∷ []

unfoldable mutual
  pub flatten : {L : Type 0} → Text → Spec L → Paths L
  flatten prefix (object l fs) = flatten_fields prefix fs (named_node prefix (object l fs))
  flatten prefix (array l c) = flatten_element prefix c ((prefix, child (array l c)) ∷ [])
  flatten prefix (one_of l cs) = flatten_choices prefix 0 cs ((prefix, child (one_of l cs)) ∷ [])
  flatten prefix (maybe l c) = flatten_optional prefix c ((prefix, child (maybe l c)) ∷ [])
  flatten prefix (select l fs) = (prefix, child (select l fs)) ∷ []
  flatten prefix (leaf l) = (prefix, child (leaf l)) ∷ []

  pub flatten_fields : {L : Type 0} → Text → FieldSpecs L → Paths L → Paths L
  flatten_fields prefix no_fields out = out
  flatten_fields prefix (field k v fs) out =
      flatten_fields prefix fs (update out (flatten (field_path prefix k) v))

  pub flatten_element : {L : Type 0} → Text → Child L → Paths L → Paths L
  flatten_element prefix no_child out = out
  flatten_element prefix (child v) out =
      update (put_path out (element_path prefix) (child v)) (flatten (element_path prefix) v)

  pub flatten_optional : {L : Type 0} → Text → Child L → Paths L → Paths L
  flatten_optional prefix no_child out = out
  flatten_optional prefix (child v) out = update out (flatten (optional_path prefix) v)

  pub flatten_choices : {L : Type 0} → Text → ℕ → Choices L → Paths L → Paths L
  flatten_choices prefix i no_choices out = out
  flatten_choices prefix i (choice c cs) out =
      flatten_choices prefix (suc i) cs (update out (flatten_choice (choice_path prefix i) c))

  -- A choice that is None is recorded as it is.
  pub flatten_choice : {L : Type 0} → Text → Child L → Paths L
  flatten_choice prefix no_child = (prefix, no_child) ∷ []
  flatten_choice prefix (child v) = flatten prefix v

-- `_parse_path`: the segments so far, with what is being read.
pub data Scanning : Type 0 where
  reading : List Text → Text → Scanning
  skipping : List Text → Scanning
  indexing : List Text → Text → Scanning

abbrev pub is_digit : ℕ → Bool
is_digit c = leb b'0' c && leb c b'9'

abbrev pub is_next : Option ℕ → ℕ → Bool
is_next none d = false
is_next (some c) d = eqb c d

abbrev pub read_char : ℕ → Option ℕ → List Text → Text → Scanning
read_char ch next_char segments buffer =
    if eqb ch b'.'
    then if is_next next_char b'?'
      then skipping (flushed segments buffer ++ (b'?' ∷ []) ∷ [])
      else reading (flushed segments buffer) []
    else if eqb ch b'[' && is_next next_char b']'
    then skipping (flushed segments buffer ++ (b'[' ∷ b']' ∷ []) ∷ [])
    else if eqb ch b'|'
    then indexing (flushed segments buffer) []
    else reading segments (buffer ++ ch ∷ [])

abbrev pub index_segment : Text → Text
index_segment ds = b'|' ∷ ds

abbrev pub step : ℕ → Option ℕ → Scanning → Scanning
step ch next_char (reading segments buffer) = read_char ch next_char segments buffer
step ch next_char (skipping segments) = reading segments []
step ch next_char (indexing segments ds) =
    if is_digit ch
    then indexing segments (ds ++ ch ∷ [])
    else read_char ch next_char (segments ++ index_segment ds ∷ []) []

abbrev pub head : Text → Option ℕ
head [] = none
head (c ∷ s) = some c

unfoldable pub scan_path : Text → Scanning → Scanning
scan_path [] st = st
scan_path (ch ∷ path) st = scan_path path (step ch (head path) st)

abbrev pub segments_of : Scanning → List Text
segments_of (reading segments buffer) = flushed segments buffer
segments_of (skipping segments) = segments
segments_of (indexing segments ds) = segments ++ index_segment ds ∷ []

unfoldable pub parse_path : Text → List Text
unfolding scan_path
parse_path path = segments_of (scan_path path (reading [] []))

-- `int(…)`, of ASCII digits; none where it raises.
abbrev pub read_digits : ℕ → Text → Option ℕ
read_digits n [] = some n
read_digits n (c ∷ s) =
    let rest = read_digits (n * 10 + (c - b'0')) s in if is_digit c then rest else none

abbrev pub int_of : Text → Option ℕ
int_of [] = none
int_of (c ∷ s) = read_digits 0 (c ∷ s)

module _ {L : Type 0} where
  abbrev pub get_field : FieldSpecs L → Text → Child L
  get_field no_fields segment = no_child
  get_field (field k v fs) segment =
      let rest = get_field fs segment in if eq_text k segment then child v else rest

  abbrev pub get_choice : Choices L → ℕ → Child L
  get_choice no_choices i = no_child
  get_choice (choice c cs) zero = c
  get_choice (choice c cs) (suc i) = get_choice cs i

  abbrev pub choice_at : Choices L → Option ℕ → Child L
  choice_at cs none = no_child
  choice_at cs (some i) = get_choice cs i

  abbrev pub choice_of : Choices L → Text → Child L
  choice_of cs [] = no_child
  choice_of cs (c ∷ segment) = if eqb c b'|' then choice_at cs (int_of segment) else no_child

  -- `_descend`; None and a node that is not there are the same.
  unfoldable pub descend : Spec L → Text → Child L
  descend (object l fs) segment = get_field fs segment
  descend (select l fs) segment = get_field fs segment
  descend (array l c) segment = if eq_text segment (b'[' ∷ b']' ∷ []) then c else no_child
  descend (maybe l c) segment = if eq_text segment (b'?' ∷ []) then c else no_child
  descend (one_of l cs) segment = choice_of cs segment
  descend (leaf l) segment = no_child

  -- The loop of `_apply_replacement` over the segments.
  unfoldable pub descend_all : Child L → List Text → Child L
  unfolding descend
  descend_all c [] = c
  descend_all no_child (segment ∷ segments) = no_child
  descend_all (child node) (segment ∷ segments) = descend_all (descend node segment) segments
