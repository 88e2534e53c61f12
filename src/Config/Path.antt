-- ===== src/Config/Path.antt =====
-- havocforge/config/utils.py: `split_path` and `join_path`. A text is the list of its characters'
-- numbers here, since both walk it. What Python counts as a digit is an argument, `is_digit`.
pub mod RoundTrip
use havoc_forge.Base.{
  ℕ, String, Bool, true, false, ◌&&◌, Option, none, some, List, [], ◌∷◌, ◌++◌, leb, eqb, not,
  if◌then◌else◌,
}
use havoc_forge.Base.Find.{any, last}

abbrev pub Text : Type 0
Text = List ℕ

abbrev pub is_empty : Text → Bool
is_empty [] = true
is_empty (c ∷ s) = false

-- The local variables of the loop of `split_path`.
pub record Scan : Type 0 where
  pub out : List Text
  pub cur : Text
  pub in_brackets : Bool
  pub quoted : Bool

abbrev pub start : Scan
start = record { out = []; cur = []; in_brackets = false; quoted = false }

-- `if cur: out.append(cur)`
abbrev pub flushed : List Text → Text → List Text
flushed out [] = out
flushed out (c ∷ cur) = out ++ (c ∷ cur) ∷ []

abbrev pub outside : ℕ → Scan → Scan
outside ch st =
    if eqb ch b'.'
    then record st { out = flushed st.out st.cur; cur = [] }
    else if eqb ch b'['
    then record st { out = flushed st.out st.cur; cur = []; in_brackets = true; quoted = false }
    else record st { cur = st.cur ++ ch ∷ [] }

abbrev pub parts_of : Scan → List Text
parts_of st = flushed st.out st.cur

-- `str.isdigit` asks it of each character.
module _ (is_digit : ℕ → Bool) where
  abbrev pub all_digits : Text → Bool
  all_digits [] = true
  all_digits (c ∷ s) = is_digit c && all_digits s

  -- `content.isdigit()`
  abbrev pub isdigit : Text → Bool
  isdigit s = not (is_empty s) && all_digits s

  abbrev pub closed : Text → List Text
  closed content = (if isdigit content then b'[' ∷ (content ++ b']' ∷ []) else content) ∷ []

  abbrev pub inside : ℕ → Scan → Scan
  inside ch st =
      if eqb ch b'"'
      then record st { quoted = not st.quoted }
      else if eqb ch b']' && not st.quoted
      then record st { out = st.out ++ closed st.cur; cur = []; in_brackets = false }
      else record st { cur = st.cur ++ ch ∷ [] }

  unfoldable pub scan : Text → Scan → Scan
  scan [] st = st
  scan (ch ∷ path) st = scan path (if st.in_brackets then inside ch st else outside ch st)

  unfoldable pub split_path : Text → List Text
  unfolding scan
  split_path path = parts_of (scan path start)

abbrev pub starts_with : ℕ → Text → Bool
starts_with c [] = false
starts_with c (d ∷ s) = eqb d c

abbrev pub ends_with : ℕ → Text → Bool
ends_with c s = elim (last s) [ none ↦ false | some d ↦ eqb d c ]

abbrev pub is_bracketed : Text → Bool
is_bracketed p = starts_with b'[' p && ends_with b']' p

-- `is_valid_identifier`, which asks Python's `isidentifier` and keywords, is an argument.
module _ (is_valid_identifier : Text → Bool) where
  -- Only the last element of `out` is ever read: `none` while the list is empty.
  abbrev pub joined : Text → Text → Text
  joined text p =
      if is_bracketed p
      then text ++ p
      else if is_valid_identifier p && not (any (λ c. eqb c b'.') p)
      then if is_empty text then p else text ++ b'.' ∷ p
      else text ++ (b'[' ∷ b'"' ∷ (p ++ b'"' ∷ b']' ∷ []))

  unfoldable pub join_rest : Text → List Text → Text
  join_rest text [] = text
  join_rest text (p ∷ parts) = join_rest (joined text p) parts

  unfoldable pub join_path : List Text → Text
  unfolding join_rest
  join_path [] = []
  join_path (p ∷ parts) = join_rest p parts
