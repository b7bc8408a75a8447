-- ===== src/Adapters.antt =====
-- src/toolbench/adapters.py: schema detection and the composed adapter. The loader is outside the
-- model: an adapter takes the lines that it yields.
pub mod Sniffing
pub mod Window
use tool_benchmarks.Base.{
  ℕ, suc, String, Bool, true, false, Option, none, some, List, [], ◌∷◌, ◌++◌,
}
use tool_benchmarks.Base.{leb, if◌then◌else◌}
use tool_benchmarks.Base.Text.{is_empty, strip}
use tool_benchmarks.Json.{Json, obj, Fields}
use tool_benchmarks.Outcome.{Result, ok, err, unknown_schema, ambiguous_schema, ◌>>=◌}
use tool_benchmarks.Transcript.{ParseResult}
use tool_benchmarks.Transcript.Lines.{Decoder}
use tool_benchmarks.Parsers.Pending.{Origin}
use tool_benchmarks.Parsers.Claude
use tool_benchmarks.Parsers.Claude.{Flags, claude, hermes_trace}
use tool_benchmarks.Parsers.Codex

-- The classes of `PARSERS`.
pub data Parser : Type 0 where
  claude_parser hermes_trace_parser codex_parser : Parser

abbrev pub parsers : List Parser
parsers = claude_parser ∷ hermes_trace_parser ∷ codex_parser ∷ []

abbrev pub detect_window : ℕ
detect_window = 100

unfoldable pub claims_line : Parser → Fields → Result Bool
claims_line claude_parser entry = ok (Claude.claims_line claude entry)
claims_line hermes_trace_parser entry = ok (Claude.claims_line hermes_trace entry)
claims_line codex_parser entry = Codex.claims_line entry

-- `[p for p in ps if p.claims_line(entry)]`
unfoldable pub claiming : List Parser → Fields → Result (List Parser)
claiming [] entry = ok []
claiming (p ∷ ps) entry = do
  claims ← claims_line p entry
  rest ← claiming ps entry
  ok (if claims then p ∷ rest else rest)

abbrev only_claim : List Parser → Result (Option Parser)
only_claim [] = ok none
only_claim (p ∷ []) = ok (some p)
only_claim _ = err ambiguous_schema

-- What one decoded line says: a parser, nothing, or an error.
unfoldable pub sniff : Option Json → Result (Option Parser)
sniff (some (obj entry)) = do claimed ← claiming parsers entry; only_claim claimed
sniff _ = ok none

-- How the detection ends, with what it has read by then and what it has not.
pub record Detection : Type 0 where
  pub outcome : Result Parser
  pub buffered : List String
  pub rest : List String

abbrev settle : Result (Option Parser) → List String → List String → Detection → Detection
settle (ok none) buffered rest next = next
settle (ok (some p)) buffered rest next = record {
  outcome = ok p;
  buffered = buffered;
  rest = rest;
}
settle (err e) buffered rest next = record { outcome = err e; buffered = buffered; rest = rest }

module _ (loads : Decoder) (window : ℕ) where
  -- The loop of `detect_parser`, with the lines read so far and the number of non-blank ones.
  unfoldable pub detect_from : List String → ℕ → List String → Detection
  detect_from buffered seen [] = record {
    outcome = err unknown_schema;
    buffered = buffered;
    rest = [];
  }
  detect_from buffered seen (raw ∷ lines) =
      let read = buffered ++ (raw ∷ []) in
      let line = strip raw in
      let next = detect_from read (if is_empty line then seen else suc seen) lines in
      if is_empty line
      then next
      else if leb window seen
      then record { outcome = err unknown_schema; buffered = read; rest = lines }
      else settle (sniff (loads line)) read lines next

  unfoldable pub detect_parser : List String → Detection
  unfolding detect_from
  detect_parser lines = detect_from [] 0 lines

abbrev pub plain_flags : Flags
plain_flags = record { keep_raw_input = false; track_turns = false }

unfoldable pub run_parser : Parser → Origin → Decoder → List String → Result ParseResult
run_parser claude_parser o loads lines = Claude.parse claude plain_flags o loads lines
run_parser hermes_trace_parser o loads lines = Claude.parse hermes_trace plain_flags o loads lines
run_parser codex_parser o loads lines = Codex.parse o loads lines

-- `ComposedAdapter.parse`, from the lines of its loader: the parser reads the replayed lines.
unfoldable pub composed_parse : Origin → Decoder → List String → Result ParseResult
composed_parse o loads lines = do
  let d = detect_parser loads detect_window lines
  parser ← d.outcome
  run_parser parser o loads (d.buffered ++ d.rest)
