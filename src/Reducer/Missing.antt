-- ===== src/Reducer/Missing.antt =====
-- What of a manifest src/toolbench/reducer.py reports as missing: what no absorbed session showed.
use tool_benchmarks.Base.{
  ◌≡◌, refl, ap, ◌∙◌, String, Bool, true, false, not, ◌&&◌, ◌||◌, none, some,
}
use tool_benchmarks.Base.{List, [], ◌∷◌, contains, select, string_eq, arith}
use tool_benchmarks.Base.Sorting.{set_of, text_before, any}
use tool_benchmarks.Base.Membership.{contains-select, contains-set_of, contains-sorted}
use tool_benchmarks.Transcript.{ToolCall, ParseResult}
use tool_benchmarks.Manifest.{RunManifest}
use tool_benchmarks.Reducer.Stats.{Reducer, new_reducer}
use tool_benchmarks.Reducer.Run.{RunStats}
use tool_benchmarks.Reducer.Run.Views.{unseen, missing_branches, missing_worktrees}
use tool_benchmarks.Reducer.Run.Seen.{is_on, is_claimed_by, absorb_run-seen}
use tool_benchmarks.Reducer.Absorb.{absorb, Previous, absorb_call, absorb_calls, is_bad}
use tool_benchmarks.Reducer.Calls.{absorb_all}

contains-unseen :
    (listed seen : List String) (x : String)
    → contains (unseen listed seen) x ≡ (contains listed x && not (contains seen x))
contains-unseen listed seen x =
    contains-sorted text_before (select (λ y. not (contains seen y)) (set_of listed)) x
    ∙ (contains-select (λ y. not (contains seen y)) (set_of listed) x
        ∙ ap (λ b. b && not (contains seen x)) (contains-set_of listed x))

absorb_calls-run :
    (agent : String) (previous : Previous) (calls : List ToolCall) (r : Reducer)
    → ((absorb_calls agent previous calls r).run_stats ≡ r.run_stats)
      × ((absorb_calls agent previous calls r).run ≡ r.run)
unfolding absorb_calls absorb_call
absorb_calls-run agent previous [] r = (refl, refl)
absorb_calls-run agent previous (c ∷ calls) r =
    absorb_calls-run agent (some c.name, is_bad c) calls _

abbrev pub Sessions : Type 0
Sessions = List (String × ParseResult)

-- Whether one of the sessions has usage on a branch
abbrev pub any_on : String → Sessions → Bool
any_on b sessions =
    any (λ (session : String × ParseResult). is_on b session.1.usage_by_branch) sessions

module _ (expanduser : String → String) (m : RunManifest) where
  -- Whether a worktree of the manifest claims usage of one of the sessions
  abbrev pub any_claimed : String → Sessions → Bool
  any_claimed w sessions =
      any
        (λ (session : String × ParseResult).
          is_claimed_by expanduser m w session.1.detached_usage_by_cwd)
        sessions

  absorb-run_stats :
      (agent : String) (result : ParseResult) (r : Reducer)
      → r.run ≡ some m
      → ((absorb expanduser agent result r).run_stats
          ≡ tool_benchmarks.Reducer.Run.absorb_run expanduser m result r.run_stats)
        × ((absorb expanduser agent result r).run ≡ some m)
  unfolding absorb
  absorb-run_stats agent result r h =
      let (same, still) = absorb_calls-run agent (none, false) result.calls _ in
      (same ∙ rw h refl, still ∙ h)

  absorb_all-seen :
      (b w : String) (sessions : Sessions) (r : Reducer)
      → r.run ≡ some m
      → contains m.branches b ≡ true
      → (contains (absorb_all expanduser sessions r).run_stats.branches_seen b
          ≡ (contains r.run_stats.branches_seen b || any_on b sessions))
        × (contains (absorb_all expanduser sessions r).run_stats.worktrees_seen w
            ≡ (contains r.run_stats.worktrees_seen w || any_claimed w sessions))
  absorb_all-seen b w [] r h listed = (ground arith, ground arith)
  absorb_all-seen b w ((agent, result) ∷ sessions) r h listed =
      let (same, still) = absorb-run_stats agent result r h in
      let (x, y) = absorb_all-seen b w sessions (absorb expanduser agent result r) still listed in
      let (x', y') = absorb_run-seen expanduser m b w result r.run_stats listed in
      let stats = ap (λ (s : RunStats). contains s.branches_seen b) same in
      let trees = ap (λ (s : RunStats). contains s.worktrees_seen w) same in
      (ground (arith, x, stats, x'), ground (arith, y, trees, y'))

  -- For a branch and a worktree of the manifest: after the sessions of a corpus, the branch is missing
  -- exactly if no session has usage on it, and the worktree exactly if the manifest assigns it no
  -- working directory that a session has detached usage in.
  pub absorb_all-missing :
      (b w : String) (sessions : Sessions)
      → contains m.branches b ≡ true
      → contains m.worktrees w ≡ true
      → (contains
            (missing_branches m (absorb_all expanduser sessions (new_reducer (some m))).run_stats)
            b
          ≡ not (any_on b sessions))
        × (contains
              (missing_worktrees m
                (absorb_all expanduser sessions (new_reducer (some m))).run_stats)
              w
            ≡ not (any_claimed w sessions))
  unfolding missing_branches missing_worktrees
  absorb_all-missing b w sessions listed planned =
      let stats = (absorb_all expanduser sessions (new_reducer (some m))).run_stats in
      let (x, y) = absorb_all-seen b w sessions (new_reducer (some m)) refl listed in
      (
        ground (arith, contains-unseen m.branches stats.branches_seen b, x),
        ground (arith, contains-unseen m.worktrees stats.worktrees_seen w, y),
      )
