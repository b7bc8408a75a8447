-- ===== src/Passive/Scan.antt =====
-- `_scan_refs` of src/toolbench/passive.py, with the fingerprint of src/toolbench/report.py that it
-- makes. The hash is a parameter of the model.
use tool_benchmarks.Base.{ℕ, String, ◌<>◌, ◌||◌, Option, List, [], ◌∷◌, ◌++◌, length, sum_by}
use tool_benchmarks.Base.{Bool, true, string_eq, if◌then◌else◌}
use tool_benchmarks.Base.Sorting.{sorted, text_before}
use tool_benchmarks.Json.Dumps.{show_ℕ}
use tool_benchmarks.Transcript.{ParseResult}
use tool_benchmarks.Manifest.{RunManifest}
use tool_benchmarks.Reducer.Stats.{Reducer, new_reducer}
use tool_benchmarks.Reducer.Absorb.{absorb}
use tool_benchmarks.Sources.{
  Attempt, returns, raises, running, ◌>>=◌, Class, unicode_decode_error, is_runtime_error,
  is_os_error, SkipRecord, SessionRef,
}
use tool_benchmarks.Passive.{apply_date_range, skip_record_for}

unfoldable pub session_signature : String → ℕ → ℕ → ℕ → String
session_signature session_id call_count malformed unjoinable =
    session_id <> "\t" <> show_ℕ call_count <> "\t" <> show_ℕ malformed <> "\t" <> show_ℕ unjoinable

pub record CorpusFingerprint : Type 0 where
  pub digest : String
  pub count : ℕ

-- What the hash is given: every signature, followed by a line feed.
abbrev hashed_text : List String → String
hashed_text [] = ""
hashed_text (s ∷ rest) = s <> "\n" <> hashed_text rest

-- `digest_of` is `sha256(text.encode("utf-8")).hexdigest()[:16]`.
unfoldable pub corpus_fingerprint : (String → String) → List String → CorpusFingerprint
corpus_fingerprint digest_of signatures = record {
  digest = digest_of (hashed_text (sorted text_before signatures));
  count = length (sorted text_before signatures);
}

-- The signature of a session, after the filter by date
unfoldable pub signature_of : SessionRef → ParseResult → String
unfolding session_signature
signature_of ref result =
    session_signature ref.session_id (length result.calls) result.malformed
      (sum_by (λ (e : String × ℕ). e.1) result.unjoinable)

-- `except (OSError, RuntimeError, UnicodeDecodeError)`
unfoldable pub is_skipped : Class → Bool
unfolding is_os_error is_runtime_error
is_skipped unicode_decode_error = true
is_skipped c = is_os_error c || is_runtime_error c

-- The variables of the loop
pub record ScanState : Type 0 where
  pub reducer : Reducer
  pub skips : List SkipRecord
  pub signatures : List String

pub record ScanResult : Type 0 where
  pub reducer : Reducer
  pub fingerprint : CorpusFingerprint
  pub skips : List SkipRecord

module _ (expanduser : String → String) (parse : SessionRef → Attempt ParseResult)
    (from to : Option String) where
  abbrev pub absorbed : SessionRef → ParseResult → ScanState → ScanState
  absorbed ref result s = record s {
    reducer = absorb expanduser ref.agent (apply_date_range from to result) s.reducer;
    signatures = s.signatures ++ (signature_of ref (apply_date_range from to result) ∷ []);
  }

  -- One round of the loop, with what parsing the reference does.
  unfoldable pub scanned : SessionRef → Attempt ParseResult → ScanState → Attempt ScanState
  scanned ref (returns result) s = returns (absorbed ref result s)
  scanned ref (raises e) s =
      if is_skipped e.class
      then returns (record s { skips = s.skips ++ (skip_record_for ref e ∷ []) })
      else raises e
  scanned ref running s = running

  unfoldable pub scan_from : List SessionRef → ScanState → Attempt ScanState
  unfolding scanned
  scan_from [] s = returns s
  scan_from (ref ∷ refs) s = scanned ref (parse ref) s >>= λ next. scan_from refs next

  abbrev pub before_scan : Option RunManifest → List SkipRecord → ScanState
  before_scan run skips = record { reducer = new_reducer run; skips = skips; signatures = [] }

  unfoldable pub scan_refs :
      (String → String)
      → Option RunManifest
      → List SkipRecord
      → List SessionRef
      → Attempt ScanResult
  unfolding scan_from
  scan_refs digest_of run skips refs = do
    s ← scan_from refs (before_scan run skips)
    returns (record {
      reducer = s.reducer;
      fingerprint = corpus_fingerprint digest_of s.signatures;
      skips = s.skips;
    })
