-- ===== src/Shell/Contained.antt =====
-- What `read_escapes` of src/toolbench/shell_safety.py lets pass.
use mathlib.Core.List.{Memᴰ}
use tool_benchmarks.Base.{
  ◌≡◌, refl, sym, ap, ◌∙◌, String, ◌<>◌, Bool, true, false, not, ◌||◌, Option, none, some,
}
use tool_benchmarks.Base.{
  List, [], ◌∷◌, string_eq, ◌==◌, if◌then◌else◌, arith, Bool-cases, inl, inr, ◌⊎◌, is_some, All,
}
use tool_benchmarks.Base.Text.{startswith, without_prefix}
use tool_benchmarks.Paths.{isabs, normpath}
use tool_benchmarks.Transcript.{ToolCall}
use tool_benchmarks.Transcript.Lines.{Decoder}
use tool_benchmarks.Base.Sorting.{any, any-sorted}
use tool_benchmarks.Base.Sorting.{text_before}
use tool_benchmarks.Shell.Prefixes.{without_prefix-append}
use tool_benchmarks.Shell.Presence.{is_any, none_of, is_any-set_of, is_any-append}
use tool_benchmarks.Shell.Reads.{
  expand_home, escaping_paths, audited_paths, structured_read_escapes, join_path, path_escapes,
  call_escapes, all_escapes, read_escapes,
}

-- The root itself, or something below it
abbrev pub Inside : String → String → Type 0
Inside root path = (path ≡ root) ⊎ ((rest : String) × (path ≡ (root <> "/") <> rest))

-- The path that a path argument stands for
abbrev pub resolved : String → String → String
resolved root path = normpath (if isabs path then path else join_path root path)

equal_of : (s t : String) → (s == t) ≡ true → s ≡ t
equal_of s t h = ground arith

starts : (p s : String) → startswith p s ≡ true → (rest : String) × (s ≡ p <> rest)
unfolding startswith
starts p s h = of_rest (without_prefix p s) h refl
  where
    of_rest :
        (r : Option String)
        → is_some r ≡ true
        → without_prefix p s ≡ r
        → (rest : String) × (s ≡ p <> rest)
    of_rest none h e = cc
    of_rest (some rest) h e = (rest, without_prefix-append p s rest e)

second_of : (a b : Bool) → not (a || b) ≡ false → a ≡ false → b ≡ true
second_of a b h k = ground arith

pub path_escapes-Inside :
    (path root : String) → path_escapes path root ≡ false → Inside root (resolved root path)
unfolding path_escapes
path_escapes-Inside path root h = elim (Bool-cases (resolved root path == root)) [
  | inl same ↦ inl (equal_of (resolved root path) root same)
  | inr other ↦ inr (
      starts (root <> "/") (resolved root path) (
        second_of (resolved root path == root) (startswith (root <> "/") (resolved root path)) h
          other))
]

module _ (expanduser : String → String) (shlex_split : String → Option (List String))
    (loads : Decoder) where
  any-escapes :
      (root : String) (calls : List ToolCall)
      → is_any (all_escapes expanduser shlex_split loads root calls)
        ≡ any (λ c. is_any (call_escapes expanduser shlex_split loads root c)) calls
  unfolding all_escapes
  any-escapes root [] = refl
  any-escapes root (c ∷ calls) =
      is_any-append (call_escapes expanduser shlex_split loads root c) _
      ∙ ap (λ b. is_any (call_escapes expanduser shlex_split loads root c) || b)
          (any-escapes root calls)

  -- The audit of a trial reports something exactly when some call has an escape.
  pub read_escapes-call_escapes :
      (calls : List ToolCall) (trial_root : String)
      → is_any (read_escapes expanduser shlex_split loads calls trial_root)
        ≡ any
            (λ c. is_any (call_escapes expanduser shlex_split loads (normpath trial_root) c))
            calls
  unfolding read_escapes
  read_escapes-call_escapes calls trial_root =
      any-sorted text_before (λ x. true) _
      ∙ is_any-set_of _
      ∙ any-escapes (normpath trial_root) calls

  -- The paths of a list of which none escapes
  escaping_paths-Inside :
      (name root : String) (paths : List String)
      → is_any (escaping_paths expanduser shlex_split name root paths) ≡ false
      → All (λ p. Inside root (resolved root (expand_home expanduser shlex_split p))) paths
  unfolding escaping_paths
  escaping_paths-Inside name root [] h = tt
  escaping_paths-Inside name root (p ∷ paths) h =
      elim (Bool-cases (path_escapes (expand_home expanduser shlex_split p) root)) [
        | inl out ↦ let no = rw out at h in cc
        | inr inside ↦ (
          path_escapes-Inside (expand_home expanduser shlex_split p) root inside,
          escaping_paths-Inside name root paths (rw inside at h),
        )
      ]

  -- If the audit of a trial reports nothing, then every path argument that it tests, of a call in the
  -- trial that is not a Bash call, resolves with `~` and `$HOME` expanded to the root or to a path that
  -- begins with the root and a slash.
  pub read_escapes-Inside :
      (calls : List ToolCall) (trial_root : String) (call : ToolCall)
      → Memᴰ call calls
      → (call.name == "Bash") ≡ false
      → read_escapes expanduser shlex_split loads calls trial_root ≡ []
      → All
          (λ p.
            Inside
              (normpath trial_root)
              (resolved (normpath trial_root) (expand_home expanduser shlex_split p)))
          (audited_paths expanduser shlex_split loads call)
  unfolding structured_read_escapes
  read_escapes-Inside calls trial_root call m n h =
      let root = normpath trial_root in
      let silent =
        none_of (λ c. is_any (call_escapes expanduser shlex_split loads root c)) call calls m
          (sym (read_escapes-call_escapes calls trial_root) ∙ ap is_any h) in
      escaping_paths-Inside call.name root (audited_paths expanduser shlex_split loads call)
        (rw n at silent)
