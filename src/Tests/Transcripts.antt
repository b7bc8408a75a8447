-- ===== src/Tests/Transcripts.antt =====
-- Parses of the sample transcripts.
use tool_benchmarks.Base.{take}
use tool_benchmarks.Base.{
  ◌≡◌, refl, ◌+◌, ◌≤◌, List, [], ◌∷◌, ◌++◌, map, Option, none, some, length, string_eq,
  if◌then◌else◌,
}
use tool_benchmarks.Base.Dict.{NodupKeys}
use tool_benchmarks.Json.{obj, get, has, is_text}
use tool_benchmarks.Outcome.{Result, ok, err, map_ok, ◌>>=◌, type_error, ambiguous_schema}
use tool_benchmarks.Transcript.{ParseResult, bare_result}
use tool_benchmarks.Transcript.Lines.{json_lines, blank_lines, json_lines-accounts}
use tool_benchmarks.Transcript.Totals.{total}
use tool_benchmarks.Parsers.Usage.Partition.{bucket_of}
use tool_benchmarks.Parsers.Usage.Charges.{
  copies_of, first_copies, summed, copies_with, first_copies_once,
}
use tool_benchmarks.Parsers.Weights.{Weight, call_weight, pending_weight}
use tool_benchmarks.Parsers.Claude
use tool_benchmarks.Parsers.Claude.{claude, hermes_trace_version}
use tool_benchmarks.Parsers.Claude.Joins.{parse-opened_calls}
use tool_benchmarks.Parsers.Claude.Accounts.{session_bucket}
use tool_benchmarks.Parsers.Claude.Sessions.{parse-session_bucket, parse-partition}
use tool_benchmarks.Parsers.Claude.Untracked.{session_bucket-parse}
use tool_benchmarks.Parsers.Codex
use tool_benchmarks.Parsers.Codex.Opened.{opened_items}
use tool_benchmarks.Parsers.Codex.Joins.{parse-opened_items}
use tool_benchmarks.Parsers.Codex.Records.{
  RaisesIf, any_container_type, is_container, parse-RaisesIf,
}
use tool_benchmarks.Adapters.{
  detect_parser, detect_window, sniff, composed_parse, run_parser, claude_parser,
  hermes_trace_parser, codex_parser,
}
use tool_benchmarks.Adapters.Sniffing.{codex_claimed, sniff_lem}
use tool_benchmarks.Adapters.Window.{
  decide, text_lines, sniff_line, text_count, outcome-detect_parser, detect_parser_reads,
  composed_parse_lem,
}
use tool_benchmarks.Tests.Samples.{
  origin, untracked, tracked, opening, claude_loads, claude_lines, codex_loads, codex_lines,
}

abbrev result_of : Result ParseResult → ParseResult
result_of (ok r) = r
result_of (err e) = bare_result [] 0

abbrev claude_sample : ParseResult
claude_sample = result_of (Claude.parse claude tracked origin claude_loads claude_lines)

claude_parsed : Claude.parse claude tracked origin claude_loads claude_lines ≡ ok claude_sample
unfolding Claude.parse Claude.parse_entries Claude.parse_entry Claude.open_and_join json_lines
    tool_benchmarks.Base.Text.strip string_eq tool_benchmarks.Parsers.Usage.account_usage get
    tool_benchmarks.Parsers.Usage.already_charged tool_benchmarks.Parsers.Usage.billing_key
    tool_benchmarks.Parsers.Usage.entry_usage tool_benchmarks.Parsers.Usage.as_usage_int
    tool_benchmarks.Parsers.Turns.track_turn Claude.message_get
claude_parsed = refl

claude_distinct :
    NodupKeys
      (Claude.Opened.opened_calls claude tracked (json_lines claude_loads claude_lines).entries)
unfolding tool_benchmarks.Parsers.Claude.Opened.opened_calls json_lines
    tool_benchmarks.Base.Text.strip string_eq Claude.message_get get Claude.open_block
    tool_benchmarks.Parsers.Join.block_of_type tool_benchmarks.Parsers.Turns.track_turn
    tool_benchmarks.Base.Dict.lookup
claude_distinct = (refl, tt)

parse-session_bucket_example :
    summed (first_copies [] (copies_of (json_lines claude_loads claude_lines).entries))
    ≡ ok (session_bucket claude_sample)
parse-session_bucket_example =
    parse-session_bucket claude tracked origin claude_loads claude_lines claude_sample claude_parsed

parse-partition_example :
    (total claude_sample.usage_by_branch ≡ session_bucket claude_sample)
    × (total claude_sample.detached_usage_by_cwd ≡ bucket_of "HEAD" claude_sample.usage_by_branch)
parse-partition_example =
    parse-partition claude tracked origin claude_loads claude_lines claude_sample claude_parsed

session_bucket-parse_example :
    map_ok session_bucket (Claude.parse claude untracked origin claude_loads claude_lines)
    ≡ summed (first_copies [] (copies_of (json_lines claude_loads claude_lines).entries))
session_bucket-parse_example =
    session_bucket-parse claude untracked origin claude_loads claude_lines refl

-- Weigh each call by its input.
abbrev by_input : Weight
by_input name input_chars = input_chars

parse-opened_calls_example :
    call_weight by_input claude_sample.calls
    ≡ pending_weight by_input
        (Claude.Opened.opened_calls claude tracked (json_lines claude_loads claude_lines).entries)
parse-opened_calls_example =
    parse-opened_calls claude tracked origin claude_loads claude_lines claude_sample by_input
      claude_parsed claude_distinct

first_copies_once_example :
    copies_with "r1" (first_copies [] (copies_of (opening ∷ opening ∷ []))) ≤ 1
first_copies_once_example = first_copies_once [] "r1" (copies_of (opening ∷ opening ∷ []))

json_lines-accounts_example :
    length (json_lines claude_loads claude_lines).entries
      + (json_lines claude_loads claude_lines).malformed
      + blank_lines claude_loads claude_lines
    ≡ 4
json_lines-accounts_example = json_lines-accounts claude_loads claude_lines

abbrev codex_sample : ParseResult
codex_sample = result_of (Codex.parse origin codex_loads codex_lines)

codex_parsed : Codex.parse origin codex_loads codex_lines ≡ ok codex_sample
unfolding Codex.parse Codex.parse_entries json_lines tool_benchmarks.Base.Text.strip string_eq
    Codex.parse_entry get Codex.record_kind Codex.hashed
codex_parsed = refl

codex_distinct : NodupKeys (opened_items (json_lines codex_loads codex_lines).entries)
unfolding opened_items json_lines tool_benchmarks.Base.Text.strip string_eq get Codex.record_kind
    tool_benchmarks.Base.Dict.lookup Codex.shaped_call
codex_distinct = (refl, tt)

parse-opened_items_example :
    call_weight by_input codex_sample.calls
    ≡ pending_weight by_input (opened_items (json_lines codex_loads codex_lines).entries)
parse-opened_items_example =
    parse-opened_items origin codex_loads codex_lines codex_sample by_input codex_parsed
      codex_distinct

parse-RaisesIf_example :
    RaisesIf
      (any_container_type (json_lines codex_loads ("bad" ∷ [])).entries)
      (Codex.parse origin codex_loads ("bad" ∷ []))
parse-RaisesIf_example = parse-RaisesIf origin codex_loads ("bad" ∷ [])

outcome-detect_parser_example :
    (detect_parser claude_loads 2 claude_lines).outcome
    ≡ decide (map (sniff_line claude_loads) (take 2 (text_lines claude_loads claude_lines)))
outcome-detect_parser_example = outcome-detect_parser claude_loads 2 claude_lines

detect_parser_reads_example :
    let d = detect_parser claude_loads 2 claude_lines in
    (d.buffered ++ d.rest ≡ claude_lines) × (text_count claude_loads d.buffered ≤ 3)
detect_parser_reads_example = detect_parser_reads claude_loads 2 claude_lines

composed_parse_lem_example : composed_parse origin claude_loads claude_lines ≡ (do
  parser ←
      decide
        (map (sniff_line claude_loads) (take detect_window (text_lines claude_loads claude_lines)))
  run_parser parser origin claude_loads claude_lines)
composed_parse_lem_example = composed_parse_lem origin claude_loads claude_lines

sniff_lem_example : sniff (some (obj opening)) ≡ (
    if is_container (get "type" opening)
    then err type_error
    else if has "sessionId" opening
    then (if codex_claimed opening
        then err ambiguous_schema
        else ok (
            some (
              if is_text hermes_trace_version (get "version" opening)
              then hermes_trace_parser
              else claude_parser)))
    else ok (if codex_claimed opening then some codex_parser else none))
sniff_lem_example = sniff_lem opening
