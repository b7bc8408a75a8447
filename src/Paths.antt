-- ===== src/Paths.antt =====
-- Python's `os.path.normpath` on POSIX, as the program uses it: a path is taken apart at its slashes.
use Prim.Native.Char.{Char, code}
use tool_benchmarks.Base.{ℕ, String, ◌<>◌, Bool, false, not, ◌&&◌, ◌||◌}
use tool_benchmarks.Base.{List, [], ◌∷◌, ◌++◌, eqb, string_eq, ◌==◌, if◌then◌else◌}
use tool_benchmarks.Base.Text.{is_empty}

abbrev add_char : Char → List String → List String
add_char c [] = String.◌∷◌ c String.[] ∷ []
add_char c (part ∷ parts) = String.◌∷◌ c part ∷ parts

-- `s.split("/")`
unfoldable pub split_slash : String → List String
split_slash String.[] = "" ∷ []
split_slash (String.◌∷◌ c s) =
    let rest = split_slash s in if eqb (code c) b'/' then "" ∷ rest else add_char c rest

abbrev starts_with_slash : String → Bool
starts_with_slash String.[] = false
starts_with_slash (String.◌∷◌ c s) = eqb (code c) b'/'

abbrev rest_of : String → String
rest_of String.[] = ""
rest_of (String.◌∷◌ c s) = s

-- `os.path.isabs(s)`
unfoldable pub isabs : String → Bool
isabs s = starts_with_slash s

-- The slashes that a normal path begins with: one, but for exactly two.
unfoldable pub initial_slashes : String → ℕ
initial_slashes s =
    if starts_with_slash s
    then (if starts_with_slash (rest_of s) && not (starts_with_slash (rest_of (rest_of s)))
        then 2
        else 1)
    else 0

-- The components kept so far stand in `kept`, the last one first.
abbrev keep_dots : Bool → List String → List String
keep_dots rooted [] = if rooted then [] else ".." ∷ []
keep_dots rooted (last ∷ kept) = if last == ".." then ".." ∷ last ∷ kept else kept

unfoldable pub norm_components : Bool → List String → List String → List String
norm_components rooted kept [] = kept
norm_components rooted kept (part ∷ parts) =
    norm_components rooted
      (if is_empty part || part == "."
        then kept
        else if part == ".."
        then keep_dots rooted kept
        else part ∷ kept)
      parts

abbrev reversed : List String → List String → List String
reversed [] out = out
reversed (part ∷ parts) out = reversed parts (part ∷ out)

-- A normal path: its leading slashes and its components. `os.path.normpath` is its text.
pub record NormalPath : Type 0 where
  pub slashes : ℕ
  pub components : List String

unfoldable pub normalized : String → NormalPath
unfolding split_slash initial_slashes norm_components
normalized s = record {
  slashes = initial_slashes s;
  components = reversed (norm_components (not (eqb (initial_slashes s) 0)) [] (split_slash s)) [];
}

abbrev joined : List String → String
joined [] = ""
joined (part ∷ []) = part
joined (part ∷ parts) = part <> "/" <> joined parts

abbrev root_text : ℕ → String
root_text n = if eqb n 0 then "" else if eqb n 1 then "/" else "//"

-- `os.path.normpath(s)`
unfoldable pub normpath : String → String
unfolding normalized
normpath s =
    let p = normalized s in
    let text = root_text p.slashes <> joined p.components in if is_empty text then "." else text

-- `PurePosixPath(os.path.normpath(s)).parts`
unfoldable pub path_parts : String → List String
unfolding normalized
path_parts s =
    let p = normalized s in
    if eqb p.slashes 0 then p.components else root_text p.slashes ∷ p.components

abbrev plain_components : List String → List String
plain_components [] = []
plain_components (part ∷ parts) =
    let rest = plain_components parts in if is_empty part || part == "." then rest else part ∷ rest

-- `pathlib.Path(s)`, which keeps `..`
unfoldable pub path_of : String → NormalPath
unfolding split_slash initial_slashes
path_of s = record { slashes = initial_slashes s; components = plain_components (split_slash s) }

-- `path / name`, for a name without slashes
abbrev pub child : NormalPath → String → NormalPath
child p name = record p { components = p.components ++ (name ∷ []) }

-- `str(path)`
unfoldable pub path_text : NormalPath → String
path_text p =
    let text = root_text p.slashes <> joined p.components in if is_empty text then "." else text
