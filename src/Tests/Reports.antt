-- ===== src/Tests/Reports.antt =====
-- A report on one linked worktree, the hook that announces it, and a gate on two functions.
use mathlib.Core.List.{Perm}
use tool_benchmarks.Base.{
  ℕ, ◌≡◌, refl, true, false, ◌&&◌, ◌↔◌, String, List, [], ◌∷◌, ◌++◌, map, select, some, string_eq,
  contains, if◌then◌else◌, is_some, All,
}
use tool_benchmarks.Base.Dict.{NodupKeys, lookup, values}
use tool_benchmarks.Base.Int.{pos}
use tool_benchmarks.Json.{str, obj, end, field, finite}
use tool_benchmarks.Outcome.{Result, ok}
use tool_benchmarks.Paths.{NormalPath}
use tool_benchmarks.Transcript.Lines.{Decoder}
use tool_benchmarks.Worktrees.Porcelain.{Stanza, parse_worktree_list, parse_upstreams}
use tool_benchmarks.Worktrees.Probes.{Runner, Clock, CompletedProcess}
use tool_benchmarks.Worktrees.Classify.{Tree, safe, classify, tree, is_reclaimable, reclaimable}
use tool_benchmarks.Worktrees.Safety.{Removable}
use tool_benchmarks.Worktrees.Reclaimable.{
  linked_of, worktree_listing, branch_listing, Named, classify-Removable, tree-is_reclaimable,
}
use tool_benchmarks.Base.{false}
use tool_benchmarks.Worktrees.Printed.{Entry, printed}
use tool_benchmarks.Worktrees.Hook.{answered, hook}
use tool_benchmarks.Worktrees.Notice.{has_candidate, hook_lem}
use tool_benchmarks.Base.Sorting.{sorted, any}
use tool_benchmarks.Gate.Order.{Symbol, symbol_eq, before}
use tool_benchmarks.Gate.Compare.{
  FunctionComplexity, ComplexityChange, Report, le_ℤ, compare_complexity, nearest_to_threshold,
  report_gate,
}
use tool_benchmarks.Gate.Regressions.{
  is_regression, is_growth, picked, compare_complexity-picked, report_gate-fails, report_gate-same,
}
use tool_benchmarks.Base.{length}
use tool_benchmarks.Gate.Keys.{InOrder}
use tool_benchmarks.Gate.Nearest.{NoneAbove, at_most, nearest_to_threshold-NoneAbove}

abbrev repo : NormalPath
repo = record { slashes = 1; components = "r" ∷ [] }

abbrev linked : NormalPath
linked = record { slashes = 1; components = "t" ∷ [] }

abbrev exits : ℕ → String → Result CompletedProcess
exits status stdout = ok (record { returncode = pos status; stdout = stdout })

-- A repository with one linked worktree, merged, without an upstream, and long idle.
abbrev runner : Runner
runner argv =
    if contains argv "worktree"
    then exits 0
        "worktree /r\nHEAD a\nbranch refs/heads/main\n\nworktree /t\nHEAD b\nbranch refs/heads/feat\n"
    else if contains argv "--contains"
    then exits 0 "refs/heads/main\n"
    else if contains argv "refs/heads/"
    then exits 0 "refs/heads/feat\tb\t\n"
    else if contains argv "--absolute-git-dir"
    then exits 0 "/g\n"
    else if contains argv "stat"
    then exits 0 "9\n"
    else if contains argv "du"
    then exits 0 "2048\t/t\n"
    else exits 0 ""

abbrev clock : Clock
clock = record {
  float_of = λ s. some (record { value = finite (pos 9) 0; repr = "9.0" });
  days_since = λ time. ok (pos 12);
}

abbrev stanza : Stanza
stanza = record {
  path = linked;
  head = "b";
  branch = some "feat";
  bare = false;
  locked = false;
  lock_reason = "";
  prunable = false;
  prunable_reason = "";
}

abbrev idle_tree : Tree
idle_tree = record {
  path = linked;
  branch = some "feat";
  head = "b";
  verdict = safe;
  idle_days = pos 12;
  megabytes = pos 2;
  reason = "clean, unlocked; head is in refs/heads/main";
}

idle_tree_lem : tree runner repo clock [] stanza ≡ ok idle_tree
unfolding tree tool_benchmarks.Worktrees.Probes.dirty_count string_eq
    tool_benchmarks.Worktrees.Probes.containing_refs tool_benchmarks.Worktrees.Probes.is_claimed
idle_tree_lem = refl

classified : classify runner repo clock ≡ ok (idle_tree ∷ [])
unfolding classify string_eq tool_benchmarks.Worktrees.Probes.dirty_count
    tool_benchmarks.Worktrees.Probes.containing_refs tool_benchmarks.Worktrees.Probes.is_claimed
classified = refl

tree-is_reclaimable_example :
    (is_reclaimable idle_tree ≡ true) ↔ Removable runner repo clock [] stanza idle_tree
tree-is_reclaimable_example =
    tree-is_reclaimable runner repo clock [] stanza idle_tree idle_tree_lem

classify-Removable_example :
    (listing : String) × (refs : String) × (worktree_listing runner repo ≡ ok listing)
    × (branch_listing runner repo ≡ ok refs)
    × All
        (Named runner repo clock (parse_upstreams refs) (linked_of (parse_worktree_list listing)))
        (reclaimable (idle_tree ∷ []))
classify-Removable_example = classify-Removable runner repo clock (idle_tree ∷ []) classified

-- What the runner prints, as two records without a blank line behind the second
abbrev main_entry : Entry
main_entry = record { path = "/r"; attributes = "HEAD a" ∷ "branch refs/heads/main" ∷ [] }

abbrev linked_entry : Entry
linked_entry = record { path = "/t"; attributes = "HEAD b" ∷ "branch refs/heads/feat" ∷ [] }

abbrev hook_loads : Decoder
hook_loads text = some (obj (field "source" (str "startup") end))

hook_lem_example :
    let (printed, status) = hook hook_loads runner clock repo "{}" in
    (status ≡ 0)
    × (is_some printed ≡ (answered (hook_loads "{}") && has_candidate (classify runner repo clock)))
hook_lem_example = hook_lem hook_loads runner clock repo "{}"

abbrev symbol_of : String → Symbol
symbol_of name = record { path = "a.py"; qualname = name }

abbrev measured : String → ℕ → Symbol × FunctionComplexity
measured name n =
    (symbol_of name, record { symbol = symbol_of name; complexity = pos n; line = pos 1 })

abbrev old_report : Report
old_report = measured "f" 9 ∷ measured "g" 4 ∷ []

abbrev new_report : Report
new_report = measured "g" 7 ∷ measured "f" 12 ∷ []

compare_complexity-picked_example :
    let result = compare_complexity (pos 10) (pos 2) old_report new_report in
    let items = sorted (λ (a : Symbol × FunctionComplexity) b. before a.0 b.0) new_report in
    (map (λ (c : ComplexityChange). c.current) result.errors
      ≡ picked (pos 10) (pos 2) (is_regression (pos 10)) old_report items)
    × (map (λ (c : ComplexityChange). c.current) result.warnings
        ≡ picked (pos 10) (pos 2) (is_growth (pos 10) (pos 2)) old_report items)
compare_complexity-picked_example = compare_complexity-picked (pos 10) (pos 2) old_report new_report

report_gate-fails_example :
    (report_gate (compare_complexity (pos 10) (pos 2) old_report new_report)).1 ≡ (
      if any
        (λ (i : Symbol × FunctionComplexity). is_regression (pos 10) (lookup i.0 old_report) i.1)
        new_report
      then 1
      else 0)
report_gate-fails_example = report_gate-fails (pos 10) (pos 2) old_report new_report

old_keys : NodupKeys old_report
unfolding lookup symbol_eq
old_keys = (refl, (refl, tt))

report_gate-same_example :
    (report_gate (compare_complexity (pos 10) (pos 2) old_report old_report)).1 ≡ 0
report_gate-same_example = report_gate-same (pos 10) (pos 2) old_report old_keys

nearest_to_threshold-NoneAbove_example :
    let within =
      select (λ (m : FunctionComplexity). le_ℤ m.complexity (pos 10)) (values old_report) in
    let nearest = nearest_to_threshold (pos 10) (pos 1) old_report in
    (length nearest ≡ at_most 1 (length within))
    × ((left : List FunctionComplexity) × Perm within (nearest ++ left)
        × InOrder (nearest ++ left)
        × All (λ (a : FunctionComplexity). NoneAbove a left) nearest)
nearest_to_threshold-NoneAbove_example = nearest_to_threshold-NoneAbove (pos 10) 1 old_report
