-- ===== src/Sources/Policy.antt =====
-- `iter_sessions` of src/toolbench/sources.py: which source a run reads.
use tool_benchmarks.Base.{ℕ, String, Bool, Option, none, some}
use tool_benchmarks.Base.Int.{ℤ}
use tool_benchmarks.Sources.{Attempt, returns, ◌>>=◌, Stream, AgentCensus, SessionRef}
use tool_benchmarks.Sources.Listing.{Runner, Decoded, Scope}
use tool_benchmarks.Sources.Discovery.{discover_agentsview, probe_agentsview}
use tool_benchmarks.Sources.Raw.{Disk, raw_session_refs, raw_census}

pub data IndexSource : Type 0 where
  auto agentsview raw : IndexSource

-- `(refs, fallback_reason, census)`
pub record Found : Type 0 where
  pub refs : Stream SessionRef
  pub fallback_reason : Option String
  pub census : AgentCensus

module _ (loads : String → Decoded) (fuel : ℕ) (runner : Runner) (disk : Disk) (root : String) where
  unfoldable pub from_raw : Scope → Bool → Option String → Attempt Found
  from_raw scope include_subagents reason = do
    census ← raw_census disk root scope.project scope.since include_subagents
    returns (record {
      refs = raw_session_refs disk root scope.project scope.since;
      fallback_reason = reason;
      census = census;
    })

  unfoldable pub from_agentsview : Scope → ℤ → Bool → Attempt Found
  from_agentsview scope limit include_subagents = do
    (census, refs) ← discover_agentsview loads fuel runner scope limit include_subagents
    returns (record { refs = refs; fallback_reason = none; census = census })

  abbrev pub from_either : Scope → ℤ → Bool → Option String → Attempt Found
  from_either scope limit include_subagents none = from_agentsview scope limit include_subagents
  from_either scope limit include_subagents (some reason) =
      from_raw scope include_subagents (some reason)

  unfoldable pub iter_sessions : IndexSource → Scope → ℤ → Bool → Attempt Found
  unfolding from_raw from_agentsview
  iter_sessions raw scope limit include_subagents = from_raw scope include_subagents none
  iter_sessions agentsview scope limit include_subagents =
      from_agentsview scope limit include_subagents
  iter_sessions auto scope limit include_subagents = do
    reason ← probe_agentsview loads fuel runner
    from_either scope limit include_subagents reason
