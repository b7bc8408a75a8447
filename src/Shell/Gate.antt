-- ===== src/Shell/Gate.antt =====
-- `_gate_prefixes`, `_matches_prefix_at_boundary` and `_command_escapes_gate` of
-- src/toolbench/shell_safety.py: which commands a gated arm may run.
use Prim.Native.Char.{Char, code}
use Prim.Native.String.{[], ◌∷◌}
use tool_benchmarks.Base.{String, Bool, true, false, not, ◌||◌, Option, none, some, List}
use tool_benchmarks.Base.{eqb, string_eq, ◌==◌, if◌then◌else◌}
use tool_benchmarks.Base.Text.{is_empty, is_space, strip, without_prefix}
use tool_benchmarks.Base.Sorting.{any}

-- A character of `_SHELL_CHAIN_RE`
unfoldable pub is_control : Char → Bool
is_control c =
    let n = code c in
    eqb n b';'
    || eqb n b'&'
    || eqb n b'|'
    || eqb n b'`'
    || eqb n b'$'
    || eqb n b'('
    || eqb n b')'
    || eqb n b'<'
    || eqb n b'>'
    || eqb n 10

-- `_SHELL_CHAIN_RE.search(s) is not None`
unfoldable pub reaches_second : String → Bool
unfolding is_control
reaches_second [] = false
reaches_second (c ∷ s) = is_control c || reaches_second s

abbrev pub at_boundary : String → Bool
at_boundary [] = true
at_boundary (c ∷ s) = is_space c

-- `_matches_prefix_at_boundary`
unfoldable pub matches_prefix_at_boundary : String → String → Bool
unfolding without_prefix is_space
matches_prefix_at_boundary command prefix = elim (without_prefix prefix command) [
  | none ↦ false
  | some rest ↦ at_boundary rest
]

-- `_command_escapes_gate`
unfoldable pub command_escapes_gate : String → List String → Bool
unfolding matches_prefix_at_boundary reaches_second strip
command_escapes_gate command prefixes =
    if not (any (λ prefix. matches_prefix_at_boundary (strip command) prefix) prefixes)
    then true
    else reaches_second (strip command)

abbrev put_back : Char → Option String → Option String
put_back c none = none
put_back c (some s) = some (c ∷ s)

-- `s[: -len(suffix)]`, where `suffix` is one
unfoldable pub without_suffix : String → String → Option String
without_suffix suffix [] = if is_empty suffix then some [] else none
without_suffix suffix (c ∷ s) =
    let rest = without_suffix suffix s in if c ∷ s == suffix then some [] else put_back c rest

abbrev inner : Option String → Option String
inner none = none
inner (some rest) = without_suffix ":*)" rest

-- The prefix that a rule `Bash(<prefix>:*)` permits
unfoldable pub gate_prefix : String → Option String
unfolding without_prefix without_suffix
gate_prefix rule = inner (without_prefix "Bash(" rule)

abbrev keep_prefix : Option String → List String → List String
keep_prefix none prefixes = prefixes
keep_prefix (some prefix) prefixes = List.◌∷◌ prefix prefixes

-- `_gate_prefixes`, of the arm's `allowed_tools`
unfoldable pub gate_prefixes : List String → List String
unfolding gate_prefix
gate_prefixes List.[] = List.[]
gate_prefixes (List.◌∷◌ rule rules) = keep_prefix (gate_prefix rule) (gate_prefixes rules)
