-- ===== src/Tests/Paths.antt =====
-- Paths of the configuration at concrete inputs: a name is a text of small letters.
use Prim.Native.Char.{code}
use havoc_forge.Base.{ℕ, String, Bool, true, ◌&&◌, ◌||◌, ◌≡◌, refl, [], ◌∷◌, leb, not}
use havoc_forge.Config.Path.{Text, is_empty, split_path, join_path, join_rest, scan}
use havoc_forge.Config.Path.RoundTrip.{name, index, key, split_path-join_path}

abbrev text : String → Text
text String.[] = []
text (String.◌∷◌ ch s) = code ch ∷ text s

-- Of the digits those of ASCII and the Arabic ones.
abbrev is_digit : ℕ → Bool
is_digit c = leb b'0' c && leb c b'9' || leb 1632 c && leb c 1641

abbrev small : Text → Bool
small [] = true
small (ch ∷ s) = leb b'a' ch && leb ch b'z' && small s

abbrev is_name : Text → Bool
is_name s = not (is_empty s) && small s

joined_text :
    join_path is_name (text "server" ∷ text "sinks" ∷ text "a b.c" ∷ text "[1]" ∷ text "url" ∷ [])
    ≡ text "server.sinks[\"a b.c\"][1].url"
unfolding join_path join_rest
joined_text = refl

unsplit_first : split_path is_digit (join_path is_name (text "a.b" ∷ [])) ≡ text "a" ∷ text "b" ∷ []
unfolding split_path scan join_path join_rest
unsplit_first = refl

split_path-join_path_example :
    split_path is_digit
      (join_path is_name (text "server" ∷ text "a b.c" ∷ text "[1]" ∷ text "url" ∷ []))
    ≡ text "server" ∷ text "a b.c" ∷ text "[1]" ∷ text "url" ∷ []
split_path-join_path_example =
    split_path-join_path is_digit (refl, refl) is_name b's' (text "erver")
      (text "a b.c" ∷ text "[1]" ∷ text "url" ∷ []) refl
      (
        key (text "a b.c") refl refl refl refl,
        (index (text "1") refl, (name b'u' (text "rl") refl refl, tt)),
      )
