-- ===== src/Adapters/Sniffing.antt =====
-- What one record says of its schema (`claims_line` of src/toolbench/parsers.py, for every parser).
use tool_benchmarks.Base.{◌≡◌, refl, Bool}
use tool_benchmarks.Base.{none, some, List, [], ◌∷◌, arith}
use tool_benchmarks.Base.{if◌then◌else◌, Bool-cases, inl, inr, string_eq, ◌&&◌, is_some}
use tool_benchmarks.Json.{Json, obj, arr, Fields, get, has, is_text, as_str, as_obj}
use tool_benchmarks.Outcome.{ok, err, type_error, ambiguous_schema, ◌>>=◌}
use tool_benchmarks.Parsers.Claude
use tool_benchmarks.Parsers.Claude.{claude, hermes_trace, hermes_trace_version}
use tool_benchmarks.Parsers.Codex
use tool_benchmarks.Parsers.Codex.Records.{is_container}
use tool_benchmarks.Adapters.{
  Parser, claude_parser, hermes_trace_parser, codex_parser, parsers, claims_line, claiming, sniff,
}

abbrev claude_claim : Fields → List Parser → List Parser
claude_claim entry rest =
    if has "sessionId" entry
    then (if is_text hermes_trace_version (get "version" entry)
        then hermes_trace_parser ∷ rest
        else claude_parser ∷ rest)
    else rest

abbrev codex_claim : Bool → List Parser
codex_claim claimed = if claimed then codex_parser ∷ [] else []

-- A record type of codex, with a dict for its payload
abbrev pub codex_claimed : Fields → Bool
codex_claimed entry =
    Codex.is_listed Codex.record_types (as_str (get "type" entry))
    && is_some (as_obj (get "payload" entry))

codex_claims :
    (entry : Fields)
    → Codex.claims_line entry
      ≡ (if is_container (get "type" entry) then err type_error else ok (codex_claimed entry))
unfolding Codex.claims_line Codex.hashed
codex_claims entry = of_type (get "type" entry)
  where
    of_type :
        (v : Json)
        → (do
          kind ← Codex.hashed v
          ok (Codex.is_listed Codex.record_types kind && is_some (as_obj (get "payload" entry))))
          ≡ (if is_container v
              then err type_error
              else ok (
                  Codex.is_listed Codex.record_types (as_str v)
                  && is_some (as_obj (get "payload" entry))))
    of_type (arr xs) = refl
    of_type (obj fs) = refl
    of_type _ = refl

claiming_lem :
    (entry : Fields) (claimed : Bool)
    → Codex.claims_line entry ≡ ok claimed
    → claiming parsers entry ≡ ok (claude_claim entry (codex_claim claimed))
unfolding claiming claims_line Claude.claims_line
claiming_lem entry claimed h = rw h (ground arith)

sniff_claimed :
    (entry : Fields) (claimed : Bool)
    → Codex.claims_line entry ≡ ok claimed
    → sniff (some (obj entry)) ≡ (
        if has "sessionId" entry
        then (if claimed
            then err ambiguous_schema
            else ok (
                some (
                  if is_text hermes_trace_version (get "version" entry)
                  then hermes_trace_parser
                  else claude_parser)))
        else ok (if claimed then some codex_parser else none))
unfolding sniff
sniff_claimed entry claimed e = rw (claiming_lem entry claimed e) (ground arith)

sniff_container :
    (entry : Fields)
    → Codex.claims_line entry ≡ err type_error
    → sniff (some (obj entry)) ≡ err type_error
unfolding sniff claiming claims_line
sniff_container entry e = rw e

-- What a decoded object says of the schema: with a list or a dict for its `type` it makes the
-- detection raise `TypeError`, whatever else it holds. Otherwise, with a `sessionId` it is ambiguous if
-- codex claims it too, and else it names the trace parser or the claude parser by its `version`; and
-- without one it names codex or nothing.
pub sniff_lem :
    (entry : Fields)
    → sniff (some (obj entry)) ≡ (
        if is_container (get "type" entry)
        then err type_error
        else if has "sessionId" entry
        then (if codex_claimed entry
            then err ambiguous_schema
            else ok (
                some (
                  if is_text hermes_trace_version (get "version" entry)
                  then hermes_trace_parser
                  else claude_parser)))
        else ok (if codex_claimed entry then some codex_parser else none))
sniff_lem entry = elim (Bool-cases (is_container (get "type" entry))) [
  | inl c ↦ rw c (sniff_container entry (rw c at (codex_claims entry)))
  | inr c ↦ rw c (sniff_claimed entry (codex_claimed entry) (rw c at (codex_claims entry)))
]
