-- ===== src/Worktrees/Printed.antt =====
-- What git prints for `worktree list --porcelain`, by its documentation: one record for each worktree,
-- separated by blank lines; the first line of a record is `worktree <path>`, its other lines are
-- attributes. And what `_parse_worktree_list` of src/toolbench/worktrees.py reads of it.
use tool_benchmarks.Base.{◌≡◌, refl, ap, ◌∙◌, String, ◌<>◌, Bool, true, false, not, ◌&&◌, some}
use tool_benchmarks.Base.{
  List, [], ◌∷◌, ◌++◌, map, All, All-append, arith, eq_self, string_eq, ◌==◌, if◌then◌else◌,
}
use tool_benchmarks.Base.Dict.{Dict, lookup, lookup-insert}
use tool_benchmarks.Base.Text.{is_empty, strip, partition_space}
use tool_benchmarks.Paths.{NormalPath, path_of}
use tool_benchmarks.Worktrees.Porcelain.{
  Stanza, stanza_of, flush, next_fields, stanzas_from, parse_worktree_list,
}
use tool_benchmarks.Worktrees.Lines.{
  unlines, no_break, no_break-append, splitlines-unlines, partition-append, strip_worktree,
}

pub record Entry : Type 0 where
  pub path : String
  pub attributes : List String

abbrev record_lines : Entry → List String
record_lines e = ("worktree" <> (" " <> e.path)) ∷ e.attributes

-- The records; `closed` is whether a blank line stands behind the last one too.
abbrev pub printed : Bool → List Entry → List String
printed closed [] = []
printed closed (e ∷ []) = record_lines e ++ (if closed then "" ∷ [] else [])
printed closed (e ∷ entries) = record_lines e ++ ("" ∷ printed closed entries)

-- A path that is one line, without white space around it, and attributes that are other lines
abbrev pub is_attribute : String → Bool
is_attribute line =
    no_break line && (not (is_empty (strip line)) && not ((partition_space line).0 == "worktree"))

abbrev pub IsEntry : Entry → Type 0
IsEntry e =
    (no_break e.path ≡ true)
    × (strip e.path ≡ e.path)
    × All (λ (line : String). is_attribute line ≡ true) e.attributes

-- The fields of a record have this path.
abbrev HasPath : String → Dict String String → Type 0
HasPath path fields = lookup "worktree" fields ≡ some path

flush-path :
    (path : String) (fields : Dict String String)
    → HasPath path fields
    → flush fields ≡ stanza_of fields path ∷ []
unfolding flush path_of lookup
flush-path path fields h = rw (flush, h) refl

after_path :
    (path : String) (fields : Dict String String)
    → strip path ≡ path
    → HasPath path (next_fields ("worktree" <> (" " <> path)) fields)
after_path path fields h =
    rw (strip_worktree (" " <> path), partition-append "worktree" path refl, h)
      (lookup-insert "worktree" "worktree" path fields ∙ rw (eq_self {A = String} "worktree") refl)

not_blank : (line : String) → is_attribute line ≡ true → is_empty (strip line) ≡ false
not_blank line a = ground arith

not_path :
    (line : String) → is_attribute line ≡ true → ("worktree" == (partition_space line).0) ≡ false
not_path line a = ground arith

after_attribute :
    (path line : String) (fields : Dict String String)
    → is_attribute line ≡ true
    → HasPath path fields
    → HasPath path (next_fields line fields)
after_attribute path line fields a h = rw (not_blank line a) (
    lookup-insert "worktree" (partition_space line).0 (strip (partition_space line).1) fields
    ∙ rw (not_path line a) h)

-- Lines that leave the loop with fields of this path
abbrev Reads : String → Dict String String → List String → Type 0
Reads path fields lines =
    (after : Dict String String) × HasPath path after
    × ((rest : List String) → stanzas_from fields (lines ++ rest) ≡ stanzas_from after rest)

if_false {ℓ} : {A : Type ℓ} (b : Bool) (x y : A) → b ≡ false → (if b then x else y) ≡ y
if_false b x y h = rw h refl

line_read :
    (line : String) (lines : List String) (fields : Dict String String)
    → is_empty (strip line) ≡ false
    → stanzas_from fields (line ∷ lines) ≡ stanzas_from (next_fields line fields) lines
unfolding stanzas_from
line_read line lines fields h = if_false (is_empty (strip line)) _ _ h

attributes-Reads :
    (path : String) (attributes : List String) (fields : Dict String String)
    → All (λ (line : String). is_attribute line ≡ true) attributes
    → HasPath path fields
    → Reads path fields attributes
attributes-Reads path [] fields a h = (fields, h, λ rest. refl)
attributes-Reads path (line ∷ attributes) fields a h =
    let (after, k, same) =
      attributes-Reads path attributes (next_fields line fields) (a.1)
        (after_attribute path line fields (a.0) h) in
    (after, k, λ rest. line_read line (attributes ++ rest) fields (not_blank line a.0) ∙ same rest)

record-Reads : (e : Entry) → IsEntry e → Reads e.path [] (record_lines e)
record-Reads e (unbroken, stripped, a) =
    let (after, k, same) =
      attributes-Reads e.path e.attributes (next_fields ("worktree" <> (" " <> e.path)) []) a
        (after_path e.path [] stripped) in
    (
      after,
      k,
      λ rest.
          line_read ("worktree" <> (" " <> e.path)) (e.attributes ++ rest) []
            (strip_worktree (" " <> e.path))
          ∙ same rest,
    )

abbrev pub paths_of : List Stanza → List NormalPath
paths_of stanzas = map (λ (s : Stanza). s.path) stanzas

abbrev pub entry_paths : List Entry → List NormalPath
entry_paths entries = map (λ (e : Entry). path_of e.path) entries

closing-paths :
    (closed : Bool) (path : String) (fields : Dict String String)
    → HasPath path fields
    → paths_of (stanzas_from fields (if closed then "" ∷ [] else [])) ≡ path_of path ∷ []
unfolding stanzas_from flush strip
closing-paths true path fields h = ap (λ ss. paths_of (ss ++ [])) (flush-path path fields h)
closing-paths false path fields h = ap paths_of (flush-path path fields h)

between-paths :
    (path : String) (fields : Dict String String) (rest : List String)
    → HasPath path fields
    → paths_of (stanzas_from fields ("" ∷ rest)) ≡ path_of path ∷ paths_of (stanzas_from [] rest)
unfolding stanzas_from strip
between-paths path fields rest h =
    ap (λ ss. paths_of (ss ++ stanzas_from [] rest)) (flush-path path fields h)

printed-paths :
    (closed : Bool) (entries : List Entry)
    → All IsEntry entries
    → paths_of (stanzas_from [] (printed closed entries)) ≡ entry_paths entries
unfolding stanzas_from flush
printed-paths closed [] h = refl
printed-paths closed (e ∷ []) h =
    let (after, k, same) = record-Reads e (h.0) in
    ap paths_of (same (if closed then "" ∷ [] else [])) ∙ closing-paths closed e.path after k
printed-paths closed (e ∷ d ∷ entries) h =
    let (after, k, same) = record-Reads e (h.0) in
    ap paths_of (same ("" ∷ printed closed (d ∷ entries)))
    ∙ (between-paths e.path after (printed closed (d ∷ entries)) k
        ∙ ap (λ ps. path_of e.path ∷ ps) (printed-paths closed (d ∷ entries) (h.1)))

abbrev Unbroken : List String → Type 0
Unbroken lines = All (λ (line : String). no_break line ≡ true) lines

attribute-Unbroken :
    (attributes : List String)
    → All (λ (line : String). is_attribute line ≡ true) attributes
    → Unbroken attributes
attribute-Unbroken [] a = tt
attribute-Unbroken (line ∷ attributes) a =
    let here = a.0 in (ground (arith, here), attribute-Unbroken attributes (a.1))

record-Unbroken : (e : Entry) → IsEntry e → Unbroken (record_lines e)
record-Unbroken e (unbroken, stripped, a) = (
  no_break-append "worktree" (" " <> e.path) refl (no_break-append " " e.path refl unbroken),
  attribute-Unbroken e.attributes a,
)

printed-Unbroken :
    (closed : Bool) (entries : List Entry) → All IsEntry entries → Unbroken (printed closed entries)
printed-Unbroken closed [] h = tt
printed-Unbroken true (e ∷ []) h =
    All-append _ (record_lines e) _ (record-Unbroken e (h.0)) (refl, tt)
printed-Unbroken false (e ∷ []) h = All-append _ (record_lines e) _ (record-Unbroken e (h.0)) tt
printed-Unbroken closed (e ∷ d ∷ entries) h =
    All-append _ (record_lines e) _ (record-Unbroken e (h.0))
      (refl, printed-Unbroken closed (d ∷ entries) (h.1))

-- Every record that is printed is read as one stanza, the last one too, whatever its attributes.
pub parse_worktree_list-printed :
    (closed : Bool) (entries : List Entry)
    → All IsEntry entries
    → paths_of (parse_worktree_list (unlines (printed closed entries))) ≡ entry_paths entries
unfolding parse_worktree_list
parse_worktree_list-printed closed entries h =
    ap (λ lines. paths_of (stanzas_from [] lines))
      (splitlines-unlines (printed closed entries) (printed-Unbroken closed entries h))
    ∙ printed-paths closed entries h
