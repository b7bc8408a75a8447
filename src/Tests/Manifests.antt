-- ===== src/Tests/Manifests.antt =====
-- Manifests that freeze the references of the small archive, and their replay.
use tool_benchmarks.Base.{◌≡◌, refl, String, true, false, none, some}
use tool_benchmarks.Base.{List, [], ◌∷◌, string_eq}
use tool_benchmarks.Base.Int.{pos}
use tool_benchmarks.Json.{Json, obj, get, has}
use tool_benchmarks.Sources.{returns, Stream, ends, yields, AgentCensus, SessionRef}
use tool_benchmarks.Sources.Listing.{
  list_argv, page_at, pages, payload_read, decode_payload, succeeded, validate_rows,
  validate_listing_row,
}
use tool_benchmarks.Sources.Discovery.{everything, discover_agentsview, classify_subagents, drain}
use tool_benchmarks.Json.Dumps.{show_ℕ}
use tool_benchmarks.Base.Sorting.{set_of, sorted}
use tool_benchmarks.Base.Text.{startswith}
use tool_benchmarks.Sources.Loading.{has_text}
use tool_benchmarks.Freeze.{manifest_payload, manifest_version}
use tool_benchmarks.Freeze.Reader.{reads, read_manifest}
use tool_benchmarks.Freeze.RoundTrip.{read_manifest-payload}
use tool_benchmarks.Replay.{historical_note, replay, restamp}
use tool_benchmarks.Replay.Frozen.{replay-payload}
use tool_benchmarks.Replay.Restamped.{one, restamp-discovered}
use tool_benchmarks.Tests.Corpora.{archive_loads, archive, ref_of, no_disk, under_auto}

abbrev taken : AgentCensus
taken = record { totals = ("codex", pos 2) ∷ []; archive_total = pos 2; unavailable_reason = none }

abbrev no_repr : Json → String
no_repr v = ""

-- The second reference lies under a directory `subagents`, and its flag is stale.
abbrev pinned : List SessionRef
pinned = ref_of "a" none false ∷ ref_of "b" (some "/r/x/subagents/b.jsonl") false ∷ []

read_manifest-payload_example :
    read_manifest no_repr (obj (manifest_payload pinned "d" (some taken) (some true)))
    ≡ reads (record {
      version = manifest_version;
      fingerprint = "d";
      count = pos 2;
      refs = ref_of "a" none false ∷ ref_of "b" (some "/r/x/subagents/b.jsonl") true ∷ [];
      census = some taken;
      census_includes_subagents = some true;
    })
unfolding has_text startswith
read_manifest-payload_example = read_manifest-payload no_repr pinned "d" (some taken) (some true)

replay-payload_example :
    replay archive_loads 5 archive no_disk "/r" under_auto "f"
      (read_manifest no_repr (obj (manifest_payload pinned "d" (some taken) (some true))))
    ≡ returns (
        some (record {
          refs = ref_of "a" none false ∷ ref_of "b" (some "/r/x/subagents/b.jsonl") true ∷ [];
          fallback_reason = none;
          skips = [];
          census = taken;
          limit_truncated = some false;
          frozen_census_note = some (historical_note "f");
          restamp_note = none;
        }))
unfolding has_text startswith
replay-payload_example =
    replay-payload archive_loads 5 archive no_disk "/r" no_repr under_auto "f" "d"
      (ref_of "a" none false) (ref_of "b" (some "/r/x/subagents/b.jsonl") false ∷ []) taken refl
      refl

abbrev found_refs : List SessionRef
found_refs = ref_of "p" none false ∷ ref_of "c" none true ∷ []

abbrev found_stream : Stream SessionRef
found_stream = yields (ref_of "p" none false) (yields (ref_of "c" none true) ends)

discovered_all :
    discover_agentsview archive_loads 5 archive everything (pos 500) true
    ≡ returns (taken, found_stream)
unfolding discover_agentsview page_at pages list_argv payload_read decode_payload succeeded
    validate_rows validate_listing_row get has string_eq show_ℕ tool_benchmarks.Json.Dumps.show_ℤ
    set_of sorted
discovered_all = refl

drained_all : drain one found_stream ≡ returns found_refs
unfolding drain
drained_all = refl

classified_all :
    classify_subagents archive_loads 5 archive everything (pos 500) ≡ returns ("p" ∷ [], "c" ∷ [])
unfolding classify_subagents page_at pages list_argv payload_read decode_payload succeeded
    validate_rows validate_listing_row get has string_eq show_ℕ tool_benchmarks.Json.Dumps.show_ℤ
    drain
classified_all = refl

restamp-discovered_example : restamp ("p" ∷ []) ("c" ∷ []) found_refs ≡ (found_refs, 0)
restamp-discovered_example =
    restamp-discovered archive_loads 5 archive everything (pos 500) true taken found_stream
      found_refs ("p" ∷ []) ("c" ∷ []) discovered_all drained_all classified_all
