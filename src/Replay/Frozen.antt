-- ===== src/Replay/Frozen.antt =====
-- A replay of what src/toolbench/passive.py froze.
use tool_benchmarks.Base.{◌≡◌, String, false, not, none, some, List, [], ◌∷◌, map, ℕ}
use tool_benchmarks.Json.{Json, obj}
use tool_benchmarks.Sources.{returns, AgentCensus, SessionRef}
use tool_benchmarks.Sources.Listing.{Runner, Decoded}
use tool_benchmarks.Sources.Raw.{Disk}
use tool_benchmarks.Passive.Collect.{Selection}
use tool_benchmarks.Freeze.{manifest_payload}
use tool_benchmarks.Freeze.Reader.{read_manifest}
use tool_benchmarks.Freeze.RoundTrip.{healed, read_manifest-payload}
use tool_benchmarks.Replay.{historical_note, restamp_note, replay}

module _ (loads : String → Decoded) (fuel : ℕ) (runner : Runner) (disk : Disk) (root : String)
    (repr : Json → String) where
  -- A run that keeps subagents and replays the manifest that such a run froze, with the census that it
  -- took, scans the references that were frozen, in their order and with their flags healed, and
  -- divides by the frozen census under a note that names it as historical. It does so whatever the
  -- source would answer now.
  pub replay-payload :
      (s : Selection) (freeze_path fingerprint : String) (ref : SessionRef) (refs : List SessionRef)
      (census : AgentCensus)
      → s.exclude_subagents ≡ false
      → census.unavailable_reason ≡ none
      → replay loads fuel runner disk root s freeze_path (
          read_manifest repr (
            obj (
              manifest_payload
                (ref ∷ refs)
                fingerprint
                (some census)
                (some (not s.exclude_subagents)))))
        ≡ returns (
            some (record {
              refs = map healed (ref ∷ refs);
              fallback_reason = none;
              skips = [];
              census = census;
              limit_truncated = some false;
              frozen_census_note = some (historical_note freeze_path);
              restamp_note = none;
            }))
  unfolding replay restamp_note
  replay-payload s freeze_path fingerprint ref refs census kept taken = rw (
    read_manifest-payload repr (ref ∷ refs) fingerprint (some census)
        (some (not s.exclude_subagents)),
    kept,
    taken,
  )
