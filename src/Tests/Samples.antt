-- ===== src/Tests/Samples.antt =====
-- Small transcripts and the decoders that read them.
use tool_benchmarks.Base.{String, none, some, List, [], ◌∷◌, string_eq, ◌==◌, if◌then◌else◌}
use tool_benchmarks.Base.{false, true}
use tool_benchmarks.Base.Int.{ℤ, pos}
use tool_benchmarks.Json.{Json, int, str, arr, obj, Items, nil, cons, Fields, end, field}
use tool_benchmarks.Transcript.{BranchUsage, ToolCall, absent_unexpected, ParseResult, bare_result}
use tool_benchmarks.Transcript.Lines.{Decoder}
use tool_benchmarks.Parsers.Pending.{Origin}
use tool_benchmarks.Parsers.Claude.{Flags}

abbrev fields : List (String × Json) → Fields
fields [] = end
fields ((key, value) ∷ rest) = field key value (fields rest)

abbrev items : List Json → Items
items [] = nil
items (value ∷ rest) = cons value (items rest)

abbrev pub origin : Origin
origin = record { agent = "claude"; source = "session.jsonl"; project = "demo" }

abbrev pub untracked : Flags
untracked = record { keep_raw_input = false; track_turns = false }

abbrev pub tracked : Flags
tracked = record { keep_raw_input = true; track_turns = true }

-- An assistant record that opens a call of `Bash` and carries usage, on a detached head.
abbrev pub opening : Fields
opening = fields (
    ("type", str "assistant")
    ∷ ("sessionId", str "s1")
    ∷ ("requestId", str "r1")
    ∷ ("timestamp", str "t0")
    ∷ ("gitBranch", str "HEAD")
    ∷ ("cwd", str "/work/tree")
    ∷ (
      "message",
      obj (
          fields (
            ("model", str "opus")
            ∷ (
              "usage",
              obj (
                  fields (
                    ("input_tokens", int (pos 7))
                    ∷ ("output_tokens", int (pos 11))
                    ∷ ("cache_read_input_tokens", int (pos 5))
                    ∷ [])),
            )
            ∷ (
              "content",
              arr (
                  items (
                    obj (
                      fields (
                        ("type", str "tool_use")
                        ∷ ("id", str "c1")
                        ∷ ("name", str "Bash")
                        ∷ ("input", str "ls")
                        ∷ []))
                    ∷ [])),
            )
            ∷ [])),
    )
    ∷ [])

-- A user record with the result of that call.
abbrev pub closing : Fields
closing = fields (
    ("type", str "user")
    ∷ ("sessionId", str "s1")
    ∷ (
      "message",
      obj (
          fields (
            (
              "content",
              arr (
                  items (
                    obj (
                      fields (
                        ("type", str "tool_result")
                        ∷ ("tool_use_id", str "c1")
                        ∷ ("content", str "main.py")
                        ∷ []))
                    ∷ [])),
            )
            ∷ [])),
    )
    ∷ [])

abbrev pub claude_loads : Decoder
claude_loads line =
    if line == "open"
    then some (obj opening)
    else if line == "close"
    then some (obj closing)
    else none

-- The response is streamed in two copies; the last line is no JSON.
abbrev pub claude_lines : List String
claude_lines = "open" ∷ "close" ∷ "" ∷ "oops" ∷ []

abbrev response_item : List (String × Json) → Fields
response_item payload =
    fields (("type", str "response_item") ∷ ("payload", obj (fields payload)) ∷ [])

abbrev pub codex_loads : Decoder
codex_loads line =
    if line == "open"
    then some (
        obj (
          response_item (
            ("type", str "function_call")
            ∷ ("call_id", str "c1")
            ∷ ("name", str "shell")
            ∷ ("arguments", str "ls")
            ∷ [])))
    else if line == "close"
    then some (
        obj (
          response_item (
            ("type", str "function_call_output")
            ∷ ("call_id", str "c1")
            ∷ ("output", str "main.py")
            ∷ [])))
    else if line == "bad"
    then some (obj (response_item (("type", arr nil) ∷ ("call_id", str "c2") ∷ [])))
    else none

abbrev pub codex_lines : List String
codex_lines = "open" ∷ "close" ∷ []

abbrev usage_of : ℤ → ℤ → BranchUsage
usage_of read output = record {
  read = read;
  creation = pos 0;
  input = pos 1;
  output = output;
  messages = pos 1;
}

abbrev pub failing_call : ToolCall
failing_call = record {
  agent = "claude";
  source = "session.jsonl";
  project = "demo";
  name = "Bash";
  input_chars = 8;
  output_chars = 40;
  session_id = "s1";
  ts = "t0";
  usage = none;
  usage_provenance = absent_unexpected;
  duration_ms = none;
  error = some "tool_error";
  model = some "opus";
  no_result = false;
  result_source = some "block_local";
  is_deferral = false;
  is_subagent_fanout = false;
  raw_input = none;
  turn_key = none;
}

-- A session that worked on a branch and, detached, in a worktree.
abbrev pub session : ParseResult
session = record (bare_result (failing_call ∷ failing_call ∷ []) 1) {
  session_cache_read_tokens = some (pos 12);
  session_cache_creation_tokens = some (pos 0);
  session_input_tokens = pos 2;
  session_output_tokens = pos 9;
  session_usage_messages = pos 2;
  usage_by_branch = ("feat", usage_of (pos 5) (pos 4)) ∷ ("HEAD", usage_of (pos 7) (pos 5)) ∷ [];
  detached_usage_by_cwd = ("/work/tree", usage_of (pos 7) (pos 5)) ∷ [];
}
