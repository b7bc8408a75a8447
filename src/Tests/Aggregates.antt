-- ===== src/Tests/Aggregates.antt =====
-- The sample session in a run's statistics and in the tables.
use tool_benchmarks.Base.{
  ◌≡◌, refl, true, false, not, String, List, [], ◌∷◌, Option, none, some, string_eq, contains,
  if◌then◌else◌,
}
use tool_benchmarks.Base.Dict.{NodupKeys}
use tool_benchmarks.Base.Int.{◌+ℤ◌}
use tool_benchmarks.Transcript.{no_usage}
use tool_benchmarks.Transcript.Totals.{total}
use tool_benchmarks.Manifest.{RunManifest, parts_of, worktree_for}
use tool_benchmarks.Manifest.Worktrees.{Deepest, worktree_for-Deepest}
use tool_benchmarks.Reducer.Stats.{new_reducer}
use tool_benchmarks.Reducer.Run.{no_run_stats, absorb_run, detached_bucket}
use tool_benchmarks.Reducer.Run.Booked.{booked_read, booked_creation}
use tool_benchmarks.Reducer.Run.Conservation.{is_candidate, absorb_run-books}
use tool_benchmarks.Reducer.Tallies.{tally, add_tally}
use tool_benchmarks.Reducer.Calls.{Holds, absorb_all, calls_of, absorb_all-Holds}
use tool_benchmarks.Json.{Fields, end, field, str, arr, cons, nil}
use tool_benchmarks.Manifest.{ok, read_run_manifest}
use tool_benchmarks.Reducer.Breakdowns.{Balanced, absorb_all-Balanced}
use tool_benchmarks.Reducer.Run.Views.{missing_branches, missing_worktrees}
use tool_benchmarks.Reducer.Missing.{any_on, any_claimed, absorb_all-missing}
use tool_benchmarks.Tests.Samples.{session}

abbrev same : String → String
same path = path

abbrev manifest : RunManifest
manifest = record {
  run = "r";
  tickets = "T-1" ∷ [];
  branches = "feat" ∷ [];
  worktrees = "/work" ∷ "/work/tree" ∷ [];
}

worktree_for-Deepest_example :
    Deepest same
      (parts_of same "/work/tree/src")
      manifest.worktrees
      (worktree_for same manifest "/work/tree/src")
worktree_for-Deepest_example = worktree_for-Deepest same manifest "/work/tree/src" refl

session_keys : NodupKeys session.usage_by_branch
unfolding tool_benchmarks.Base.Dict.lookup string_eq
session_keys = (refl, (refl, tt))

sample_candidate : is_candidate same manifest session no_run_stats ≡ true
unfolding string_eq
sample_candidate = refl

absorb_run-books_example :
    let sum = total session.usage_by_branch in
    let again =
      if contains manifest.branches "HEAD"
      then detached_bucket same manifest session
      else no_usage in
    let s' = absorb_run same manifest session no_run_stats in
    (booked_read s' ≡ booked_read no_run_stats +ℤ (sum.read +ℤ again.read))
    × (booked_creation s' ≡ booked_creation no_run_stats +ℤ (sum.creation +ℤ again.creation))
absorb_run-books_example =
    absorb_run-books same manifest session no_run_stats session_keys (tt, tt) sample_candidate

absorb_all-Holds_example :
    Holds
      (add_tally (tally []) (tally (calls_of (("claude", session) ∷ []))))
      (absorb_all same (("claude", session) ∷ []) (new_reducer (some manifest)))
absorb_all-Holds_example =
    absorb_all-Holds same (("claude", session) ∷ []) (tally []) (new_reducer (some manifest))
      (record { joined = refl; by_agent = refl; by_tool = refl; by_model = refl })

absorb_all-Balanced_example :
    Balanced (absorb_all same (("claude", session) ∷ []) (new_reducer (some manifest))).inefficiency
absorb_all-Balanced_example =
    absorb_all-Balanced same (("claude", session) ∷ []) (new_reducer (some manifest))
      (record { failures = refl; oversized = refl; churn = refl; subagent = refl })

feat_listed : contains manifest.branches "feat" ≡ true
unfolding string_eq
feat_listed = refl

work_planned : contains manifest.worktrees "/work" ≡ true
unfolding string_eq
work_planned = refl

-- The usage of the session goes to the deeper worktree, so that `/work` is missing.
absorb_all-missing_example :
    let stats =
      (absorb_all same (("claude", session) ∷ []) (new_reducer (some manifest))).run_stats in
    (contains (missing_branches manifest stats) "feat"
      ≡ not (any_on "feat" (("claude", session) ∷ [])))
    × (contains (missing_worktrees manifest stats) "/work"
        ≡ not (any_claimed same manifest "/work" (("claude", session) ∷ [])))
absorb_all-missing_example =
    absorb_all-missing same manifest "feat" "/work" (("claude", session) ∷ []) feat_listed
      work_planned

work_missing : any_claimed same manifest "/work" (("claude", session) ∷ []) ≡ false
unfolding string_eq worktree_for tool_benchmarks.Manifest.best_worktree parts_of
    tool_benchmarks.Paths.path_parts tool_benchmarks.Manifest.is_prefix
work_missing = refl

abbrev manifest_fields : Fields
manifest_fields = field "run" (str "r") (
    field "branches" (arr (cons (str "feat") nil))
      (field "worktrees" (arr (cons (str "/work//tree/") nil)) end))

abbrev read_manifest : RunManifest
read_manifest = record {
  run = "r";
  tickets = [];
  branches = "feat" ∷ [];
  worktrees = "/work/tree" ∷ [];
}

manifest_read : read_run_manifest same manifest_fields ≡ ok read_manifest
unfolding read_run_manifest tool_benchmarks.Manifest.str_tuple tool_benchmarks.Json.has string_eq
    tool_benchmarks.Json.get tool_benchmarks.Paths.isabs tool_benchmarks.Paths.normpath
manifest_read = refl
