-- ===== src/Passive/Partition.antt =====
-- The scan of src/toolbench/passive.py puts every reference into the statistics or on the list of
-- skips, or stops at an exception that it does not catch.
use tool_benchmarks.Base.{◌≡◌, refl, String, Option, List, [], ◌∷◌, ◌++◌}
use tool_benchmarks.Base.{append_assoc, append-nil, if◌then◌else◌}
use tool_benchmarks.Base.{Bool-cases, inl, inr, string_eq}
use tool_benchmarks.Transcript.{ParseResult}
use tool_benchmarks.Manifest.{RunManifest}
use tool_benchmarks.Reducer.Stats.{new_reducer}
use tool_benchmarks.Reducer.Calls.{absorb_all}
use tool_benchmarks.Sources.{
  Attempt, returns, raises, running, ◌>>=◌, >>=-assoc, SkipRecord, SessionRef,
}
use tool_benchmarks.Passive.{apply_date_range, skip_record_for}
use tool_benchmarks.Passive.Scan.{
  corpus_fingerprint, signature_of, is_skipped, ScanState, absorbed, scanned, scan_from,
  before_scan, scan_refs,
}

abbrev pub by_agent : List (SessionRef × ParseResult) → List (String × ParseResult)
by_agent [] = []
by_agent ((ref, result) ∷ sessions) = (ref.agent, result) ∷ by_agent sessions

abbrev pub signatures : List (SessionRef × ParseResult) → List String
signatures [] = []
signatures ((ref, result) ∷ sessions) = signature_of ref result ∷ signatures sessions

module _ (expanduser : String → String) (parse : SessionRef → Attempt ParseResult)
    (from to : Option String) where
  abbrev pub add_parsed :
      SessionRef
      → Attempt ParseResult
      → List (SessionRef × ParseResult)
      → List (SessionRef × ParseResult)
  add_parsed ref (returns result) rest = (ref, apply_date_range from to result) ∷ rest
  add_parsed ref _ rest = rest

  -- The sessions that parsing gives, filtered by date, each with its reference
  abbrev pub parsed : List SessionRef → List (SessionRef × ParseResult)
  parsed [] = []
  parsed (ref ∷ refs) = add_parsed ref (parse ref) (parsed refs)

  abbrev pub add_skipped : SessionRef → Attempt ParseResult → List SkipRecord → List SkipRecord
  add_skipped ref (raises e) rest = skip_record_for ref e ∷ rest
  add_skipped ref _ rest = rest

  -- The references that parsing raises at, as records
  abbrev pub skipped : List SessionRef → List SkipRecord
  skipped [] = []
  skipped (ref ∷ refs) = add_skipped ref (parse ref) (skipped refs)

  abbrev pub stop : Attempt ParseResult → Attempt (Unit {0}) → Attempt (Unit {0})
  stop (returns result) rest = rest
  stop (raises e) rest = if is_skipped e.class then rest else raises e
  stop running rest = running

  -- The first reference at which the scan stops: it raises what is not caught, or does not return.
  abbrev pub stops : List SessionRef → Attempt (Unit {0})
  stops [] = returns tt
  stops (ref ∷ refs) = stop (parse ref) (stops refs)

  abbrev with_sessions : List (SessionRef × ParseResult) → List SkipRecord → ScanState → ScanState
  with_sessions sessions skips s = record {
    reducer = absorb_all expanduser (by_agent sessions) s.reducer;
    skips = s.skips ++ skips;
    signatures = s.signatures ++ signatures sessions;
  }

  abbrev Scans : List SessionRef → ScanState → Type 0
  Scans refs s =
      scan_from expanduser parse from to refs s
      ≡ (stops refs >>= λ _. returns (with_sessions (parsed refs) (skipped refs) s))

  scanned-stop :
      (ref : SessionRef) (m : Attempt ParseResult) (refs : List SessionRef) (s : ScanState)
      → ((s' : ScanState) → Scans refs s')
      → (scanned expanduser parse from to ref m s >>= λ next.
          scan_from expanduser parse from to refs next)
        ≡ (stop m (stops refs) >>= λ _.
            returns
              (with_sessions (add_parsed ref m (parsed refs)) (add_skipped ref m (skipped refs)) s))
  unfolding scanned
  scanned-stop ref (returns result) refs s ih =
      let kept = apply_date_range from to result in
      rw (append_assoc s.signatures (signature_of ref kept ∷ []) (signatures (parsed refs))) at
        (ih (absorbed expanduser parse from to ref result s))
  scanned-stop ref (raises e) refs s ih = elim (Bool-cases (is_skipped e.class)) [
    | inl caught ↦ rw caught (
        rw (append_assoc s.skips (skip_record_for ref e ∷ []) (skipped refs)) at
          (ih (record s { skips = s.skips ++ (skip_record_for ref e ∷ []) })))
    | inr uncaught ↦ rw uncaught
  ]
  scanned-stop ref running refs s ih = refl

  scan_from-Scans : (refs : List SessionRef) (s : ScanState) → Scans refs s
  unfolding scan_from
  scan_from-Scans [] s = rw (append-nil, append-nil)
  scan_from-Scans (ref ∷ refs) s = scanned-stop ref (parse ref) refs s (scan_from-Scans refs)

  -- The scan raises at the first reference whose parse raises anything but OSError, RuntimeError or
  -- UnicodeDecodeError. If there is none, then its statistics are those of the sessions that parse, in
  -- their order and filtered by date, each under its reference's agent; the skips are those it was
  -- given, followed by a typed record of every reference that did not parse; and the fingerprint is
  -- that of the signatures of just the sessions that count.
  pub scan_refs-Partition :
      (digest_of : String → String) (run : Option RunManifest) (skips : List SkipRecord)
      (refs : List SessionRef)
      → scan_refs expanduser parse from to digest_of run skips refs ≡ (
          stops refs >>= λ _. returns (record {
            reducer = absorb_all expanduser (by_agent (parsed refs)) (new_reducer run);
            fingerprint = corpus_fingerprint digest_of (signatures (parsed refs));
            skips = skips ++ skipped refs;
          }))
  unfolding scan_refs
  scan_refs-Partition digest_of run skips refs =
      rw (scan_from-Scans refs (before_scan expanduser parse from to run skips))
        (>>=-assoc (stops refs) _ _)
