-- ===== src/Passive/Collect.antt =====
-- How src/toolbench/passive.py collects its references: the limit, the probe beyond it, and the
-- degradation to the file system.
use tool_benchmarks.Base.{
  ℕ, suc, String, ◌<>◌, Bool, true, false, not, ◌&&◌, ◌||◌, Option, none, some,
}
use tool_benchmarks.Base.{List, [], ◌∷◌, if◌then◌else◌}
use tool_benchmarks.Sources.{
  Attempt, returns, raises, running, ◌>>=◌, Class, Fault, is_runtime_error, is_os_error,
  is_value_error, Stream, ends, yields, fails, working, SkipRecord, missing_source, SessionRef,
  AgentCensus,
}
use tool_benchmarks.Sources.Listing.{Runner, Decoded, Scope}
use tool_benchmarks.Sources.Discovery.{no_census}
use tool_benchmarks.Sources.Raw.{Disk}
use tool_benchmarks.Base.Int.{ℤ, pos, ltb_ℤ}
use tool_benchmarks.Sources.Policy.{Found, IndexSource, auto, raw, iter_sessions}
use tool_benchmarks.Passive.{classify_skip}

-- Whether the limit cut the listing short: an answer, or `none` where the probe failed.
abbrev pub Truncated : Type 0
Truncated = Option Bool

-- What `_probe_truncation` returns; the exceptions that it does not catch go on.
abbrev probe_failed : Fault → Attempt Truncated
probe_failed e =
    if is_os_error e.class || (is_runtime_error e.class || is_value_error e.class)
    then returns none
    else raises e

unfoldable pub probe_truncation : Bool → Stream SessionRef → Attempt Truncated
probe_truncation exclude_subagents ends = returns (some false)
probe_truncation exclude_subagents (yields ref refs) =
    let rest = probe_truncation exclude_subagents refs in
    if exclude_subagents && ref.is_subagent then rest else returns (some true)
probe_truncation exclude_subagents (fails e) = probe_failed e
probe_truncation exclude_subagents working = running

abbrev pub limit_reached : Option ℤ → ℕ → Bool
limit_reached none n = false
limit_reached (some limit) n = not (ltb_ℤ (pos n) limit)

abbrev pub put_first : SessionRef → List SessionRef × Truncated → List SessionRef × Truncated
put_first ref (refs, truncated) = (ref ∷ refs, truncated)

-- The loop of `_collect_refs`, after `taken` references.
unfoldable pub collect_from :
    Option ℤ → Bool → ℕ → Stream SessionRef → Attempt (List SessionRef × Truncated)
unfolding probe_truncation
collect_from limit exclude_subagents taken ends = returns ([], some false)
collect_from limit exclude_subagents taken (yields ref refs) =
    let rest = collect_from limit exclude_subagents (suc taken) refs in
    if limit_reached limit (suc taken)
    then (probe_truncation exclude_subagents refs >>= λ truncated. returns (ref ∷ [], truncated))
    else (rest >>= λ found. returns (put_first ref found))
collect_from limit exclude_subagents taken (fails e) = raises e
collect_from limit exclude_subagents taken working = running

unfoldable pub collect_refs :
    Option ℤ → Bool → Stream SessionRef → Attempt (List SessionRef × Truncated)
unfolding collect_from
collect_refs limit exclude_subagents refs = collect_from limit exclude_subagents 0 refs

-- What `_discover_refs` returns
pub record Corpus : Type 0 where
  pub refs : List SessionRef
  pub fallback_reason : Option String
  pub skips : List SkipRecord
  pub census : AgentCensus
  pub limit_truncated : Truncated

-- The flags that discovery reads
pub record Selection : Type 0 where
  pub index_source : IndexSource
  pub agent : String
  pub all_projects : Bool
  pub project : Option String
  pub since : Option String
  pub limit : Option ℤ
  pub exclude_subagents : Bool

abbrev pub scope_of : Selection → Scope
scope_of s = record {
  agent = s.agent;
  project = if s.all_projects then none else s.project;
  since = s.since;
}

abbrev pub page_limit : Option ℤ → ℤ
page_limit none = pos 500
page_limit (some n) = n

abbrev pub source_skip : Selection → Fault → SkipRecord
source_skip s e = record {
  session_id = "";
  agent = s.agent;
  reason = classify_skip e.class;
  detail = e.text;
}

abbrev pub vanished : Option String → Selection → Fault → Corpus
vanished reason s e = record {
  refs = [];
  fallback_reason = reason;
  skips = record (source_skip s e) { reason = missing_source } ∷ [];
  census = no_census ("discovery source vanished mid-run: " <> e.text);
  limit_truncated = some false;
}

-- `fallback_reason` as the assignment of what `iter_sessions` returns leaves it
abbrev pub reason_bound : Attempt Found → Option String
reason_bound (returns found) = found.fallback_reason
reason_bound _ = none

module _ (loads : String → Decoded) (fuel : ℕ) (runner : Runner) (disk : Disk) (root : String) where
  -- The call of `iter_sessions`
  abbrev pub found_in : IndexSource → Selection → Attempt Found
  found_in source s =
      iter_sessions loads fuel runner disk root source (scope_of s) (page_limit s.limit)
        (not s.exclude_subagents)

  -- The body of the `try`, and of the rescan: `iter_sessions` and the collection.
  unfoldable pub found_by : IndexSource → Selection → Attempt Corpus
  found_by source s = do
    found ← found_in source s
    (refs, truncated) ← collect_refs s.limit s.exclude_subagents found.refs
    returns (record {
      refs = refs;
      fallback_reason = found.fallback_reason;
      skips = [];
      census = found.census;
      limit_truncated = truncated;
    })

  abbrev pub degraded_text : Fault → String
  degraded_text e = "agentsview failed mid-listing, degraded to raw: " <> e.text

  unfoldable pub degraded : Selection → Fault → Attempt Corpus
  unfolding found_by
  degraded s e = do
    rescan ← found_by raw s
    returns
        (record rescan { skips = source_skip s e ∷ []; fallback_reason = some (degraded_text e) })

  abbrev pub is_broken : Class → Bool
  is_broken c = is_runtime_error c || is_value_error c

  abbrev pub recovered : Class → Option String → Selection → Fault → Attempt Corpus
  recovered Class.file_not_found_error reason s e = returns (vanished reason s e)
  recovered class reason s e = if is_broken class then degraded s e else raises e

  -- Only `--index-source auto` may take another source than the one that it was asked for.
  abbrev pub recover : IndexSource → Option String → Selection → Fault → Attempt Corpus
  recover auto reason s e = recovered e.class reason s e
  recover _ reason s e = raises e

  abbrev pub or_recover : Option String → Selection → Attempt Corpus → Attempt Corpus
  or_recover reason s (returns c) = returns c
  or_recover reason s (raises e) = recover s.index_source reason s e
  or_recover reason s running = running

  unfoldable pub discover_refs : Selection → Attempt Corpus
  unfolding found_by degraded
  discover_refs s =
      or_recover (reason_bound (found_in s.index_source s)) s (found_by s.index_source s)
