-- ===== src/Passive/Counts.antt =====
-- The counts of a scan in src/toolbench/passive.py: no reference is lost and none is counted twice.
use mathlib.Core.Path.{subst}
use tool_benchmarks.Base.{
  ℕ, suc, ◌+◌, ◌≡◌, refl, sym, ap, ◌∙◌, String, Bool, Option, none, some, List, [], ◌∷◌,
}
use tool_benchmarks.Base.{arith, length, length-append, Bool-cases, inl, inr}
use tool_benchmarks.Base.Sorting.{text_before, length-sorted}
use tool_benchmarks.Transcript.{ParseResult, ToolCall}
use tool_benchmarks.Manifest.{RunManifest}
use tool_benchmarks.Reducer.Stats.{Reducer, new_reducer}
use tool_benchmarks.Reducer.Absorb.{absorb, Previous, absorb_calls, absorb_call, is_bad}
use tool_benchmarks.Reducer.Calls.{absorb_all}
use tool_benchmarks.Sources.{
  Attempt, returns, raises, running, >>=-eq-returns, raises-ne-returns, returns_inj, SkipRecord,
  SessionRef,
}
use tool_benchmarks.Passive.Scan.{corpus_fingerprint, is_skipped, ScanResult, scan_refs}
use tool_benchmarks.Passive.Partition.{
  add_parsed, parsed, add_skipped, skipped, stop, stops, by_agent, signatures, scan_refs-Partition,
}

absorb_calls-scanned :
    (agent : String) (previous : Previous) (calls : List ToolCall) (r : Reducer)
    → (absorb_calls agent previous calls r).sessions_scanned ≡ r.sessions_scanned
unfolding absorb_calls absorb_call
absorb_calls-scanned agent previous [] r = refl
absorb_calls-scanned agent previous (c ∷ calls) r =
    absorb_calls-scanned agent (some c.name, is_bad c) calls _

absorb_all-scanned :
    (expanduser : String → String) (sessions : List (String × ParseResult)) (r : Reducer)
    → (absorb_all expanduser sessions r).sessions_scanned ≡ r.sessions_scanned + length sessions
unfolding absorb
absorb_all-scanned expanduser [] r = omega arith
absorb_all-scanned expanduser ((agent, result) ∷ sessions) r = omega (
  arith,
  absorb_all-scanned expanduser sessions (absorb expanduser agent result r),
  absorb_calls-scanned agent (none, Bool.false) result.calls _,
)

length-by_agent :
    (sessions : List (SessionRef × ParseResult)) → length (by_agent sessions) ≡ length sessions
length-by_agent [] = refl
length-by_agent (_ ∷ sessions) = ap suc (length-by_agent sessions)

length-signatures :
    (sessions : List (SessionRef × ParseResult)) → length (signatures sessions) ≡ length sessions
length-signatures [] = refl
length-signatures (_ ∷ sessions) = ap suc (length-signatures sessions)

module _ (expanduser : String → String) (parse : SessionRef → Attempt ParseResult)
    (from to : Option String) where
  abbrev either : List SessionRef → ℕ
  either refs =
      length (parsed expanduser parse from to refs) + length (skipped expanduser parse from to refs)

  stop-either :
      (ref : SessionRef) (m : Attempt ParseResult) (refs : List SessionRef)
      (rest : Attempt (Unit {0}))
      → stop expanduser parse from to m rest ≡ returns tt
      → (rest ≡ returns tt)
        × (length (add_parsed expanduser parse from to ref m (parsed expanduser parse from to refs))
              + length (
                  add_skipped expanduser parse from to ref m
                    (skipped expanduser parse from to refs))
            ≡ suc (either refs))
  stop-either ref (returns result) refs rest h = (h, omega arith)
  stop-either ref (raises e) refs rest h = elim (Bool-cases (is_skipped e.class)) [
    | inl caught ↦ (rw caught at h, omega arith)
    | inr uncaught ↦ absurd (raises-ne-returns e tt (rw uncaught at h))
  ]
  stop-either ref running refs rest h = cc

  stops-either :
      (refs : List SessionRef)
      → stops expanduser parse from to refs ≡ returns tt
      → either refs ≡ length refs
  stops-either [] h = omega arith
  stops-either (ref ∷ refs) h =
      let (rest, here) = stop-either ref (parse ref) refs (stops expanduser parse from to refs) h in
      omega (arith, here, stops-either refs rest)

  -- If the scan returns, then every reference that it was given was scanned or was added to the
  -- skips, and not both; and its fingerprint counts the sessions scanned.
  pub scan_refs-counts :
      (digest_of : String → String) (run : Option RunManifest) (skips : List SkipRecord)
      (refs : List SessionRef) (r : ScanResult)
      → scan_refs expanduser parse from to digest_of run skips refs ≡ returns r
      → (r.reducer.sessions_scanned + length r.skips ≡ length refs + length skips)
        × (r.fingerprint.count ≡ r.reducer.sessions_scanned)
  unfolding corpus_fingerprint
  scan_refs-counts digest_of run skips refs r h =
      let (_, went, same) =
        >>=-eq-returns (stops expanduser parse from to refs) _
          (sym (scan_refs-Partition expanduser parse from to digest_of run skips refs) ∙ h) in
      subst
        (λ (x : ScanResult).
          (x.reducer.sessions_scanned + length x.skips ≡ length refs + length skips)
          × (x.fingerprint.count ≡ x.reducer.sessions_scanned))
        (returns_inj same)
        (
          omega (
            arith,
            absorb_all-scanned expanduser (by_agent sessions) (new_reducer run),
            length-by_agent sessions,
            length-append skips (skipped expanduser parse from to refs),
            stops-either refs went,
          ),
          omega (
            arith,
            absorb_all-scanned expanduser (by_agent sessions) (new_reducer run),
            length-by_agent sessions,
            length-signatures sessions,
            length-sorted text_before (signatures sessions),
          ),
        )
    where
      sessions : List (SessionRef × ParseResult)
      sessions = parsed expanduser parse from to refs
