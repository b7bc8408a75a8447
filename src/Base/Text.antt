-- ===== src/Base/Text.antt =====
-- The methods of Python's `str` that the program calls.
use Prim.Native.Char.{Char, code}
use Prim.Native.String.{String, [], ◌∷◌}
use Prim.Native.Nat.{ℕ, zero, suc, ◌+◌, ◌-◌, ◌*◌}
use mathlib.Core.Option.{Option, none, some}
use mathlib.Core.List.{List}
use mathlib.Core.Bool.{Bool, true, false, ◌&&◌, ◌||◌}
use tool_benchmarks.Base.Equality.{if◌then◌else◌}
use tool_benchmarks.Base.Tests.{leb, eqb, is_some}

-- `c.isspace()`
unfoldable pub is_space : Char → Bool
is_space c =
    let n = code c in
    (leb 9 n && leb n 13)
    || (leb 28 n && leb n 32)
    || eqb n 0x85
    || eqb n 0xa0
    || eqb n 0x1680
    || (leb 0x2000 n && leb n 0x200a)
    || (leb 0x2028 n && leb n 0x2029)
    || eqb n 0x202f
    || eqb n 0x205f
    || eqb n 0x3000

-- `s == ""`
abbrev pub is_empty : String → Bool
is_empty [] = true
is_empty (c ∷ s) = false

unfoldable pub lstrip : String → String
lstrip [] = []
lstrip (c ∷ s) = let rest = lstrip s in if is_space c then rest else c ∷ s

unfoldable pub rstrip : String → String
rstrip [] = []
rstrip (c ∷ s) = let rest = rstrip s in if is_empty rest && is_space c then [] else c ∷ rest

-- `s.strip()`
unfoldable pub strip : String → String
unfolding lstrip rstrip is_space
strip s = lstrip (rstrip s)

-- Put a character in front of the first piece.
abbrev pub add_char : Char → List String → List String
add_char c List.[] = List.◌∷◌ (c ∷ []) List.[]
add_char c (List.◌∷◌ piece pieces) = List.◌∷◌ (c ∷ piece) pieces

-- `s.split(c)`, for the character with this code
unfoldable pub split_on : ℕ → String → List String
split_on n [] = List.◌∷◌ [] List.[]
split_on n (c ∷ s) =
    let rest = split_on n s in if eqb (code c) n then List.◌∷◌ [] rest else add_char c rest

-- A character at which `splitlines` ends a line
abbrev pub is_break : Char → Bool
is_break c =
    let n = code c in
    (leb 10 n && leb n 13) || (leb 28 n && leb n 30) || eqb n 0x85 || (leb 0x2028 n && leb n 0x2029)

abbrev starts_with_code : ℕ → String → Bool
starts_with_code n [] = false
starts_with_code n (c ∷ s) = eqb (code c) n

-- `s.splitlines()`; the two characters CR LF end one line.
unfoldable pub splitlines : String → List String
splitlines [] = List.[]
splitlines (c ∷ s) =
    let rest = splitlines s in
    if eqb (code c) 13 && starts_with_code 10 s
    then rest
    else if is_break c
    then List.◌∷◌ [] rest
    else add_char c rest

-- `s.splitlines(keepends=True)`
unfoldable pub kept_lines : String → List String
kept_lines [] = List.[]
kept_lines (c ∷ s) =
    let rest = kept_lines s in
    if eqb (code c) 13 && starts_with_code 10 s
    then add_char c rest
    else if is_break c
    then List.◌∷◌ (c ∷ []) rest
    else add_char c rest

-- `s.partition(" ")`, without its middle
unfoldable pub partition_space : String → String × String
partition_space [] = ([], [])
partition_space (c ∷ s) =
    let (key, value) = partition_space s in if eqb (code c) 32 then ([], s) else (c ∷ key, value)

-- The characters before the first white space
unfoldable pub word : String → String
unfolding is_space
word [] = []
word (c ∷ s) = let rest = word s in if is_space c then [] else c ∷ rest

-- `s.split()[0]`, where there is one
unfoldable pub first_word : String → Option String
unfolding word lstrip is_space
first_word s = let w = word (lstrip s) in if is_empty w then none else some w

-- `s[:n]`
unfoldable pub take_chars : ℕ → String → String
take_chars zero s = []
take_chars (suc n) [] = []
take_chars (suc n) (c ∷ s) = c ∷ take_chars n s

-- `s.removeprefix(prefix)`, where `prefix` is one
unfoldable pub without_prefix : String → String → Option String
without_prefix [] s = some s
without_prefix (p ∷ ps) [] = none
without_prefix (p ∷ ps) (c ∷ s) =
    let rest = without_prefix ps s in if eqb (code p) (code c) then rest else none

-- `s.startswith(prefix)`
unfoldable pub startswith : String → String → Bool
unfolding without_prefix
startswith prefix s = is_some (without_prefix prefix s)

-- The digits of `int(s)`: one underscore may stand between two of them.
abbrev int_step : Char → ℕ × Bool → Option (ℕ × Bool)
int_step c (n, after_digit) =
    if leb 48 (code c) && leb (code c) 57
    then some (10 * n + (code c - 48), true)
    else if eqb (code c) 95 && after_digit
    then some (n, false)
    else none

unfoldable pub int_digits : ℕ × Bool → String → Option ℕ
int_digits (n, after_digit) [] = if after_digit then some n else none
int_digits st (c ∷ s) = elim (int_step c st) [ none ↦ none | some next ↦ int_digits next s ]
