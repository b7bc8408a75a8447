-- ===== src/Worktrees/Porcelain.antt =====
-- `_Stanza`, `_parse_worktree_list` and `_parse_upstreams` of src/toolbench/worktrees.py.
use tool_benchmarks.Base.{String, Bool, Option, none, some, List, ◌++◌, string_eq}
use tool_benchmarks.Base.{if◌then◌else◌}
use tool_benchmarks.Base.Dict.{Dict, lookup, insert, has_key, or_start}
use tool_benchmarks.Base.Text.{
  is_empty, strip, splitlines, partition_space, split_on, without_prefix,
}
use tool_benchmarks.Paths.{NormalPath, path_of}

pub record Stanza : Type 0 where
  pub path : NormalPath
  pub head : String
  pub branch : Option String
  pub bare : Bool
  pub locked : Bool
  pub lock_reason : String
  pub prunable : Bool
  pub prunable_reason : String

-- `_short_branch`
unfoldable pub short_branch : String → String
unfolding without_prefix
short_branch ref = or_start ref (without_prefix "refs/heads/" ref)

abbrev branch_of : Option String → Option String
branch_of none = none
branch_of (some ref) = if is_empty ref then none else some (short_branch ref)

abbrev pub stanza_of : Dict String String → String → Stanza
stanza_of fields path = record {
  path = path_of path;
  head = or_start "" (lookup "HEAD" fields);
  branch = branch_of (lookup "branch" fields);
  bare = has_key "bare" fields;
  locked = has_key "locked" fields;
  lock_reason = or_start "" (lookup "locked" fields);
  prunable = has_key "prunable" fields;
  prunable_reason = or_start "" (lookup "prunable" fields);
}

-- `flush`
unfoldable pub flush : Dict String String → List Stanza
unfolding lookup path_of short_branch
flush fields = elim (lookup "worktree" fields) [
  | none ↦ List.[]
  | some path ↦ List.◌∷◌ (stanza_of fields path) List.[]
]

abbrev pub next_fields : String → Dict String String → Dict String String
next_fields line fields =
    if is_empty (strip line)
    then List.[]
    else (let (key, value) = partition_space line in insert key (strip value) fields)

-- The loop of `_parse_worktree_list`, on the lines that are left.
unfoldable pub stanzas_from : Dict String String → List String → List Stanza
unfolding flush insert strip partition_space
stanzas_from fields List.[] = flush fields
stanzas_from fields (List.◌∷◌ line lines) =
    let rest = stanzas_from (next_fields line fields) lines in
    if is_empty (strip line) then flush fields ++ rest else rest

unfoldable pub parse_worktree_list : String → List Stanza
unfolding stanzas_from splitlines
parse_worktree_list stdout = stanzas_from List.[] (splitlines stdout)

-- What a line of `for-each-ref` says of a branch: its name and its upstream, if it has two fields.
abbrev upstream_fields : List String → Option (String × String)
upstream_fields (List.◌∷◌ ref (List.◌∷◌ object List.[])) = some (short_branch ref, "")
upstream_fields (List.◌∷◌ ref (List.◌∷◌ object (List.◌∷◌ upstream rest))) =
    some (short_branch ref, upstream)
upstream_fields _ = none

abbrev add_upstream : Option (String × String) → Dict String String → Dict String String
add_upstream none d = d
add_upstream (some (branch, upstream)) d = insert branch upstream d

unfoldable pub upstreams_from : Dict String String → List String → Dict String String
unfolding short_branch insert split_on strip
upstreams_from d List.[] = d
upstreams_from d (List.◌∷◌ line lines) =
    upstreams_from
      (if is_empty (strip line) then d else add_upstream (upstream_fields (split_on 9 line)) d)
      lines

unfoldable pub parse_upstreams : String → Dict String String
unfolding upstreams_from splitlines
parse_upstreams stdout = upstreams_from List.[] (splitlines stdout)
