-- ===== src/Complex/TestGate.antt =====
-- `derive_test_gate` of src/toolbench/complex.py: the Bash rule that an oracle's command grants.
use Prim.Native.Char.{Char, code}
use tool_benchmarks.Base.{String, ◌<>◌, Bool, true, false, ◌&&◌, ◌||◌, Option, none, some}
use tool_benchmarks.Base.{List, [], ◌∷◌, leb, eqb, if◌then◌else◌, string_eq, ◌==◌}

abbrev is_letter : Char → Bool
is_letter c = let n = code c in (leb b'A' n && leb n b'Z') || (leb b'a' n && leb n b'z')

abbrev is_word : Char → Bool
is_word c =
    let n = code c in is_letter c || ((leb b'0' n && leb n b'9') || (eqb n b'_' || eqb n b'-'))

-- `[A-Za-z0-9_-]*$`: `$` also matches before a line feed at the end.
word_rest : String → Bool
word_rest String.[] = true
word_rest (String.◌∷◌ c s) = (is_word c && word_rest s) || (eqb (code c) 10 && s == "")

-- `_BARE_WORD_RE.match(token)`
unfoldable pub is_bare_word : String → Bool
unfolding word_rest
is_bare_word String.[] = false
is_bare_word (String.◌∷◌ c s) = is_letter c && word_rest s

-- The tokens up to the first that is no bare word
unfoldable pub bare_words : List String → List String
unfolding is_bare_word
bare_words [] = []
bare_words (token ∷ tokens) =
    let rest = bare_words tokens in if is_bare_word token then token ∷ rest else []

-- `" ".join(tokens)`, of `first` and the tokens after it
unfoldable pub joined_from : String → List String → String
joined_from first [] = first
joined_from first (token ∷ tokens) = first <> " " <> joined_from token tokens

-- `derive_test_gate`, with none for the ValueError of an empty command.
unfoldable pub derive_test_gate : List String → Option String
unfolding bare_words joined_from
derive_test_gate [] = none
derive_test_gate (first ∷ tokens) =
    some ("Bash(" <> (joined_from first (bare_words tokens) <> ":*)"))
