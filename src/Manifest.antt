-- ===== src/Manifest.antt =====
-- src/toolbench/run_manifest.py: the manifest of one orchestration run. `os.path.expanduser`, which
-- asks the operating system for home directories, is a parameter of the model.
pub mod Worktrees
use tool_benchmarks.Base.{
  ℕ, zero, suc, String, Bool, true, false, not, ◌&&◌, ◌||◌, Option, none, some,
}
use tool_benchmarks.Base.{List, [], ◌∷◌, length, ltb, string_eq, ◌==◌, if◌then◌else◌}
use tool_benchmarks.Base.Text.{is_empty}
use tool_benchmarks.Json.{Json, null, bool, int, str, arr, Items, nil, cons, Fields, get, has}
use tool_benchmarks.Json.Dumps.{show_ℤ}
use tool_benchmarks.Paths.{isabs, normpath, path_parts}

pub record RunManifest : Type 0 where
  pub run : String
  pub tickets : List String
  pub branches : List String
  pub worktrees : List String

-- Which of the refusals of `read_run_manifest` applies to the decoded object
pub data Refusal : Type 0 where
  not_a_string_list : String → Refusal
  no_branches : Refusal
  bad_run : Refusal
  bad_worktree : String → Refusal

pub data Read {ℓ} (A : Type ℓ) : Type ℓ where
  ok : A → Read A
  refused : Refusal → Read A

infixl 5 ◌>>=◌
abbrev ◌>>=◌ {ℓ κ} : {A : Type ℓ} {B : Type κ} → Read A → (A → Read B) → Read B
ok a >>= f = f a
refused r >>= f = refused r

-- `parts[: len(tree)] == tree`
unfoldable pub is_prefix : List String → List String → Bool
is_prefix [] parts = true
is_prefix (t ∷ tree) [] = false
is_prefix (t ∷ tree) (p ∷ parts) = t == p && is_prefix tree parts

string_items : String → Items → Read (List String)
string_items key nil = ok []
string_items key (cons (str s) items) = do rest ← string_items key items; ok (s ∷ rest)
string_items key (cons _ items) = refused (not_a_string_list key)

abbrev string_list : String → Json → Read (List String)
string_list key (arr items) = string_items key items
string_list key _ = refused (not_a_string_list key)

-- `_str_tuple`: an absent key reads as an empty list.
unfoldable pub str_tuple : Fields → String → Read (List String)
unfolding string_items
str_tuple fs key = if has key fs then string_list key (get key fs) else ok []

module _ (expanduser : String → String) where
  unfoldable pub parts_of : String → List String
  parts_of path = path_parts (expanduser path)

  -- The loop of `worktree_for`, with the best match so far and its length.
  unfoldable pub best_worktree : List String → List String → Option String → ℕ → Option String
  best_worktree parts [] best best_len = best
  best_worktree parts (worktree ∷ worktrees) best best_len =
      let tree = parts_of worktree in
      let better = ltb best_len (length tree) && is_prefix tree parts in
      best_worktree parts worktrees (if better then some worktree else best)
        (if better then length tree else best_len)

  unfoldable pub worktree_for : RunManifest → String → Option String
  worktree_for m cwd =
      if is_empty cwd then none else best_worktree (parts_of cwd) m.worktrees none 0

  normal_worktrees : List String → Read (List String)
  normal_worktrees [] = ok []
  normal_worktrees (raw ∷ rest) =
      let norm = normpath (expanduser raw) in
      let more = normal_worktrees rest in
      if not (isabs norm) || norm == "/"
      then refused (bad_worktree raw)
      else (do norms ← more; ok (norm ∷ norms))

  unfoldable pub worktree_tuple : Fields → Read (List String)
  unfolding normal_worktrees
  worktree_tuple fs = do raws ← str_tuple fs "worktrees"; normal_worktrees raws

  -- `str(run)` of the values that are allowed; a bool is an int to Python.
  run_text : Json → Read String
  run_text (str s) = ok s
  run_text (int n) = ok (show_ℤ n)
  run_text (bool true) = ok "True"
  run_text (bool false) = ok "False"
  run_text _ = refused bad_run

  abbrev require_branches : List String → Read (List String)
  require_branches [] = refused no_branches
  require_branches branches = ok branches

  -- `read_run_manifest`, from the decoded object on.
  unfoldable pub read_run_manifest : Fields → Read RunManifest
  unfolding run_text worktree_tuple
  read_run_manifest fs = do
    listed ← str_tuple fs "branches"
    branches ← require_branches listed
    run ← run_text (if has "run" fs then get "run" fs else str "")
    tickets ← str_tuple fs "tickets"
    worktrees ← worktree_tuple fs
    ok (record { run = run; tickets = tickets; branches = branches; worktrees = worktrees })
