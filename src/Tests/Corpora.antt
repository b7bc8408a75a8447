-- ===== src/Tests/Corpora.antt =====
-- A small archive: its listings and a scan of it.
use tool_benchmarks.Base.{◌+◌, ◌≡◌, refl, String, Bool, true, false, Option, none, some, arith}
use tool_benchmarks.Base.{List, [], ◌∷◌, contains, string_eq, ◌==◌, if◌then◌else◌, take}
use tool_benchmarks.Base.Int.{pos}
use tool_benchmarks.Json.{Json, null, str, int, arr, obj, nil, cons, end, field, get, has}
use tool_benchmarks.Transcript.{ParseResult, bare_result}
use tool_benchmarks.Reducer.Stats.{new_reducer}
use tool_benchmarks.Reducer.Absorb.{absorb}
use tool_benchmarks.Reducer.Calls.{absorb_all}
use tool_benchmarks.Sources.{
  Class, Attempt, returns, raises, SessionRef, missing_source_export, missing_source,
}
use tool_benchmarks.Sources.Listing.{
  CompletedProcess, Runner, Decoded, value, Payload, list_argv, page_at, pages, payload_read,
  decode_payload, succeeded, validate_rows, validate_listing_row,
}
use tool_benchmarks.Sources.Discovery.{everything}
use tool_benchmarks.Sources.Raw.{Disk}
use tool_benchmarks.Sources.Policy.{auto}
use tool_benchmarks.Sources.Drained.{Served, all_rows, refs_from-Served}
use tool_benchmarks.Sources.Discovery.{refs_from, rows_of, drain}
use tool_benchmarks.Sources.Listing.{all_includes}
use tool_benchmarks.Sources.{ends, yields}
use tool_benchmarks.Json.Dumps.{show_ℕ}
use tool_benchmarks.Sources.Yields.{Returned}
use tool_benchmarks.Passive.{classify_skip, skip_record_for, apply_date_range}
use tool_benchmarks.Passive.Collect.{Selection, Corpus, collect_refs, discover_refs}
use tool_benchmarks.Passive.Limit.{listing_of, collect_refs-sampled}
use tool_benchmarks.Passive.Unspliced.{FromOne, discover_refs-Unspliced}
use tool_benchmarks.Passive.Scan.{
  corpus_fingerprint, signature_of, is_skipped, ScanResult, scan_refs,
}
use tool_benchmarks.Passive.Partition.{scan_refs-Partition}
use tool_benchmarks.Passive.Counts.{scan_refs-counts}

abbrev row : String → String → Json
row id agent = obj (field "id" (str id) (field "agent" (str agent) (field "project" (str "") end)))

abbrev page : Json → Json → Json
page rows cursor =
    obj (field "sessions" rows (field "next_cursor" cursor (field "total" (int (pos 2)) end)))

-- Two pages: a parent, and its child where children are asked for.
abbrev pub archive_loads : String → Decoded
archive_loads text =
    if text == "first"
    then value (page (arr (cons (row "p" "codex") nil)) (str "next"))
    else if text == "second"
    then value (page (arr (cons (row "c" "codex") nil)) null)
    else value (page (arr nil) null)

abbrev answered : String → Attempt CompletedProcess
answered stdout = returns (record { returncode = pos 0; stdout = stdout; stderr = "" })

abbrev pub archive : Runner
archive argv =
    if contains argv "--cursor"
    then answered (if contains (take 7 argv) "--include-children" then "second" else "nothing")
    else answered "first"

abbrev pub ref_of : String → Option String → Bool → SessionRef
ref_of id path is_subagent = record {
  agent = "codex";
  source = "agentsview";
  project = "";
  session_id = id;
  path = path;
  is_subagent = is_subagent;
}

-- What the archive serves where children are asked for
abbrev served : List Payload
served =
    record {
      sessions = record { id = "p"; agent = "codex"; project = "" } ∷ [];
      next_cursor = some "next";
      total = some 2;
    }
    ∷ record {
      sessions = record { id = "c"; agent = "codex"; project = "" } ∷ [];
      next_cursor = none;
      total = some 2;
    }
    ∷ []

pages_served : Served archive_loads archive everything (pos 500) all_includes none served none
unfolding page_at list_argv payload_read decode_payload succeeded validate_rows validate_listing_row
    get has string_eq show_ℕ tool_benchmarks.Json.Dumps.show_ℤ
pages_served = (refl, (refl, tt))

refs_from-Served_example :
    (refs_from ("p" ∷ []) (pages archive_loads archive everything (pos 500) all_includes 5 none)
      ≡ yields (ref_of "p" none false) (yields (ref_of "c" none true) ends))
    × (drain rows_of (pages archive_loads archive everything (pos 500) all_includes 5 none)
        ≡ returns (all_rows served))
unfolding string_eq
refs_from-Served_example =
    refs_from-Served archive_loads archive everything (pos 500) all_includes ("p" ∷ []) served none
      5 pages_served (omega arith)

abbrev three : List SessionRef
three = ref_of "a" none false ∷ ref_of "b" none true ∷ ref_of "c" none false ∷ []

-- The limit is 1: `b` lies beyond it and is not reported, `c` is.
collect_refs-sampled_example :
    collect_refs (some (pos 1)) true (listing_of three none)
    ≡ returns (ref_of "a" none false ∷ [], some true)
collect_refs-sampled_example = collect_refs-sampled true none (pos 1) three

abbrev pub no_disk : Disk
no_disk = record {
  is_dir = λ root. false;
  expanded = λ root. root;
  session_files = λ root. [];
  bad_date = λ since. none;
}

abbrev pub under_auto : Selection
under_auto = record {
  index_source = auto;
  agent = "all";
  all_projects = true;
  project = none;
  since = none;
  limit = some (pos 1);
  exclude_subagents = false;
}

discover_refs-Unspliced_example :
    Returned
      (FromOne auto (some (pos 1)))
      (discover_refs archive_loads 5 archive no_disk "/r" under_auto)
discover_refs-Unspliced_example =
    discover_refs-Unspliced archive_loads 5 archive no_disk "/r" under_auto

abbrev empty_session : ParseResult
empty_session = bare_result [] 0

abbrev parse_sample : SessionRef → Attempt ParseResult
parse_sample ref =
    if ref.is_subagent
    then raises (record { class = missing_source_export; text = "gone" })
    else returns empty_session

abbrev same : String → String
same s = s

scan_refs-Partition_example :
    scan_refs same parse_sample none none same none [] three
    ≡ returns (record {
      reducer =
          absorb_all same
            (("codex", empty_session) ∷ ("codex", empty_session) ∷ [])
            (new_reducer none);
      fingerprint = corpus_fingerprint same (
          signature_of (ref_of "a" none false) empty_session
          ∷ signature_of (ref_of "c" none false) empty_session
          ∷ []);
      skips =
          record { session_id = "b"; agent = "codex"; reason = missing_source; detail = "gone" }
          ∷ [];
    })
unfolding is_skipped skip_record_for classify_skip apply_date_range
scan_refs-Partition_example = scan_refs-Partition same parse_sample none none same none [] three

abbrev one_scanned : ScanResult
one_scanned = record {
  reducer = absorb same "codex" empty_session (new_reducer none);
  fingerprint = corpus_fingerprint same (signature_of (ref_of "a" none false) empty_session ∷ []);
  skips = [];
}

one_scan :
    scan_refs same parse_sample none none same none [] (ref_of "a" none false ∷ [])
    ≡ returns one_scanned
unfolding scan_refs apply_date_range
one_scan = refl

scan_refs-counts_example :
    (one_scanned.reducer.sessions_scanned + 0 ≡ 1)
    × (one_scanned.fingerprint.count ≡ one_scanned.reducer.sessions_scanned)
scan_refs-counts_example =
    scan_refs-counts same parse_sample none none same none [] (ref_of "a" none false ∷ [])
      one_scanned one_scan

abbrev not_installed : Runner
not_installed argv = raises (record { class = Class.file_not_found_error; text = "absent" })

abbrev reason_kept : Attempt Corpus → Option String
reason_kept (returns corpus) = corpus.fallback_reason
reason_kept _ = none

-- Neither AgentsView nor the root of the raw files is there: the reason to fall back stays.
reason_stays :
    reason_kept (discover_refs archive_loads 5 not_installed no_disk "/r" under_auto)
    ≡ some "agentsview binary not found: absent"
unfolding discover_refs tool_benchmarks.Sources.Policy.iter_sessions
    tool_benchmarks.Sources.Discovery.probe_agentsview tool_benchmarks.Sources.Raw.raw_census
    collect_refs tool_benchmarks.Sources.Raw.raw_session_refs
reason_stays = refl
