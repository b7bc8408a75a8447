-- ===== src/Worktrees/Hook.antt =====
-- The `SessionStart` mode of src/toolbench/worktrees.py: `_hook_line` and `_hook`.
use tool_benchmarks.Base.{ℕ, String, ◌<>◌, Bool, false, Option, none, some}
use tool_benchmarks.Base.{List, [], ◌∷◌, length, eqb, string_eq, if◌then◌else◌, contains}
use tool_benchmarks.Json.{Json, str, obj, end, field, get}
use tool_benchmarks.Json.Dumps.{show_ℕ, dumps}
use tool_benchmarks.Outcome.{Result, ok, err}
use tool_benchmarks.Paths.{NormalPath}
use tool_benchmarks.Transcript.Lines.{Decoder}
use tool_benchmarks.Worktrees.Probes.{Runner, Clock}
use tool_benchmarks.Worktrees.Classify.{Tree, classify, reclaimable, total_megabytes}

abbrev pub hook_sources : List String
hook_sources = "startup" ∷ "resume" ∷ []

-- `_hook_line`
unfoldable pub hook_line : List Tree → String
unfolding show_ℕ total_megabytes
hook_line trees =
    show_ℕ (length trees)
    <> " reclaimable git worktree"
    <> (if eqb (length trees) 1 then "" else "s")
    <> " ("
    <> total_megabytes trees
    <> "): "
    <> "clean, unlocked, fully reachable, unclaimed by any live upstream, and "
    <> "idle 7+ days. Run `uv run toolbench worktrees "
    <> "--reclaimable-only` to see them, and reclaim with the AGENTS.md "
    <> "§ Repository integrity procedure (`git worktree remove <path>` "
    <> "**then** `git branch -d <branch>`). Nothing has been deleted."

-- The source that a payload names, if it is one that the hook answers.
abbrev pub answered : Option Json → Bool
answered (some (obj payload)) = elim (get "source" payload) [
  | str source ↦ contains hook_sources source
  | _ ↦ false
]
answered _ = false

-- The line that `_hook` prints for the candidates.
abbrev envelope : List Tree → String
envelope candidates = dumps (
    obj (
      field "hookSpecificOutput"
        (obj (
          field "hookEventName" (str "SessionStart")
            (field "additionalContext" (str (hook_line candidates)) end)))
        end))

abbrev pub announced : List Tree → Option String × ℕ
announced [] = (none, 0)
announced (candidate ∷ candidates) = (some (envelope (candidate ∷ candidates)), 0)

abbrev pub notice : Result (List Tree) → Option String × ℕ
notice (err e) = (none, 0)
notice (ok trees) = announced (reclaimable trees)

module _ (loads : Decoder) (runner : Runner) (clock : Clock) (cwd : NormalPath) where
  -- `_hook`: what it prints, if anything, and its exit status. `json.load` of the input is `loads`.
  unfoldable pub hook : String → Option String × ℕ
  unfolding hook_line reclaimable classify dumps
  hook stdin = if answered (loads stdin) then notice (classify runner cwd clock) else (none, 0)
