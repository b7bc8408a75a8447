-- ===== src/Passive.antt =====
-- src/toolbench/passive.py: the scan of a corpus. Its command line, printing and the report are left
-- out; the flags are arguments of the functions that read them.
pub mod Collect
pub mod Scan
pub mod Limit
pub mod Partition
pub mod Counts
pub mod Unspliced
use tool_benchmarks.Base.{String, Bool, true, not, ◌&&◌, Option, none, some, List, [], ◌∷◌, select}
use tool_benchmarks.Base.{if◌then◌else◌}
use tool_benchmarks.Base.Text.{is_empty, take_chars}
use tool_benchmarks.Base.Sorting.{text_before}
use tool_benchmarks.Transcript.{ToolCall, ParseResult}
use tool_benchmarks.Sources.{
  Class, missing_source_export, unknown_schema, non_transcript_export, agentsview_timeout,
  unicode_decode_error, Fault, SkipReason, missing_source, no_parser, non_transcript, decode_error,
  export_failed, export_timeout, SkipRecord, SessionRef, AgentCensus,
}

-- `date_from is not None and date_part < date_from`, and the same for `date_to`
abbrev before_start : String → Option String → Bool
before_start day none = Bool.false
before_start day (some from) = text_before day from

abbrev after_end : String → Option String → Bool
after_end day none = Bool.false
after_end day (some to) = text_before to day

unfoldable pub call_in_range : Option String → Option String → String → Bool
call_in_range from to ts =
    if is_empty ts
    then true
    else not (before_start (take_chars 10 ts) from) && not (after_end (take_chars 10 ts) to)

abbrev kept_calls : Option String → Option String → ParseResult → ParseResult
kept_calls from to result = record result {
  calls = select (λ (c : ToolCall). call_in_range from to c.ts) result.calls;
}

unfoldable pub apply_date_range : Option String → Option String → ParseResult → ParseResult
unfolding call_in_range
apply_date_range none none result = result
apply_date_range from to result = kept_calls from to result

unfoldable pub filter_subagents : List SessionRef → List SessionRef
filter_subagents refs = select (λ (r : SessionRef). not r.is_subagent) refs

unfoldable pub classify_skip : Class → SkipReason
classify_skip missing_source_export = missing_source
classify_skip unknown_schema = no_parser
classify_skip non_transcript_export = non_transcript
classify_skip agentsview_timeout = export_timeout
classify_skip unicode_decode_error = decode_error
classify_skip _ = export_failed

unfoldable pub skip_record_for : SessionRef → Fault → SkipRecord
skip_record_for ref e = record {
  session_id = ref.session_id;
  agent = ref.agent;
  reason = classify_skip e.class;
  detail = e.text;
}
