-- ===== src/Parsers/Claude.antt =====
-- `ClaudeParser` and `HermesTraceParser` of src/toolbench/parsers.py: one parse path, and a variant
-- that decides which lines are claimed and what is said of missing usage.
pub mod Opened
pub mod Joins
pub mod Accounts
pub mod Sessions
pub mod Untracked
use tool_benchmarks.Base.{
  ℕ, zero, String, Bool, true, false, not, ◌&&◌, Option, none, some, List, [], ◌∷◌, ◌++◌,
}
use tool_benchmarks.Base.{is_some, string_eq, if◌then◌else◌}
use tool_benchmarks.Base.Dict.{Dict, insert}
use tool_benchmarks.Base.Int.{ℤ, pos}
use tool_benchmarks.Json.{
  Json, null, obj, arr, str, Items, nil, cons, Fields, get, has, as_str, as_obj, is_text,
  str_or_empty,
}
use tool_benchmarks.Json.Dumps.{dumps}
use tool_benchmarks.Outcome.{Result, ok, ◌>>=◌}
use tool_benchmarks.Transcript.{
  ToolCall, UsageProvenance, present, absent_unexpected, absent_by_export, result_len, ParseResult,
  bare_result,
}
use tool_benchmarks.Transcript.Lines.{Decoder, json_lines}
use tool_benchmarks.Parsers.Pending.{Origin, PendingCall, drain_pending}
use tool_benchmarks.Parsers.Join.{block_of_type, join_results}
use tool_benchmarks.Parsers.Turns.{Turns, track_turn}
use tool_benchmarks.Parsers.Usage.{UsageTally, no_tally, account_usage}

abbrev pub hermes_trace_version : String
hermes_trace_version = "hermes-agent"

pub data Variant : Type 0 where
  claude hermes_trace : Variant

unfoldable pub claims_line : Variant → Fields → Bool
claims_line claude entry =
    has "sessionId" entry && not (is_text hermes_trace_version (get "version" entry))
claims_line hermes_trace entry =
    has "sessionId" entry && is_text hermes_trace_version (get "version" entry)

abbrev pub observed : Option Fields → UsageProvenance
observed none = absent_unexpected
observed (some usage) = present

unfoldable pub provenance : Variant → Option Fields → UsageProvenance
provenance claude usage = observed usage
provenance hermes_trace usage = absent_by_export

-- The optional arguments of `parse`.
pub record Flags : Type 0 where
  pub keep_raw_input : Bool
  pub track_turns : Bool

-- `message.get(key) if isinstance(message, dict) else None`
unfoldable pub message_get : String → Json → Json
message_get key (obj message) = get key message
message_get key _ = null

-- The call that a `tool_use` block opens, with its id; the block needs both an id and a name.
abbrev opened :
    Variant
    → Flags
    → Fields
    → Json
    → Option String
    → Fields
    → Json
    → Json
    → Option (String × PendingCall)
opened v flags entry message turn block (str id) (str name) = some (
  id,
  record {
    name = name;
    input_chars = result_len (get "input" block);
    session_id = str_or_empty (get "sessionId" entry);
    ts = str_or_empty (get "timestamp" entry);
    usage = as_obj (message_get "usage" message);
    usage_provenance = provenance v (as_obj (message_get "usage" message));
    model = as_str (message_get "model" message);
    raw_input = if flags.keep_raw_input then some (dumps (get "input" block)) else none;
    turn_key = turn;
  },
)
opened v flags entry message turn block id name = none

module _ (v : Variant) (flags : Flags) (entry : Fields) (message : Json)
    (turn : Option String) where
  abbrev open_dict : Option Fields → Option (String × PendingCall)
  open_dict none = none
  open_dict (some block) =
      if flags.track_turns && not (is_some turn)
      then none
      else opened v flags entry message turn block (get "id" block) (get "name" block)

  unfoldable pub open_block : Json → Option (String × PendingCall)
  open_block block = open_dict (block_of_type "tool_use" block)

  abbrev pub enqueue :
      Option (String × PendingCall) → Dict String PendingCall → Dict String PendingCall
  enqueue none pending = pending
  enqueue (some (id, call)) pending = insert id call pending

  unfoldable pub enqueue_blocks : Items → Dict String PendingCall → Dict String PendingCall
  enqueue_blocks nil pending = pending
  enqueue_blocks (cons block blocks) pending =
      enqueue_blocks blocks (enqueue (open_block block) pending)

  unfoldable pub enqueue_tool_uses : Json → Dict String PendingCall → Dict String PendingCall
  enqueue_tool_uses (arr blocks) pending = enqueue_blocks blocks pending
  enqueue_tool_uses _ pending = pending

pub record ParseState : Type 0 where
  pub pending : Dict String PendingCall
  pub calls : List ToolCall
  pub turns : Turns
  pub tally : UsageTally

abbrev pub start : ParseState
start = record { pending = []; calls = []; turns = []; tally = no_tally }

-- `tally.usage_messages == 0`
abbrev is_unmeasured : ℤ → Bool
is_unmeasured (pos zero) = true
is_unmeasured _ = false

module _ (v : Variant) (flags : Flags) (o : Origin) where
  -- `_enqueue_tool_uses` and `_join_results`, for one entry.
  unfoldable pub open_and_join : Fields → Option String → ParseState → ParseState
  open_and_join entry turn st =
      let message = get "message" entry in
      let content = message_get "content" message in
      let queued = enqueue_tool_uses v flags entry message turn content st.pending in
      let (finished, left) = join_results o entry content queued in
      record st { pending = left; calls = st.calls ++ finished }

  -- The body of the loop over the records.
  unfoldable pub parse_entry : ParseState → Fields → Result ParseState
  parse_entry st entry = do
    let message = get "message" entry
    tally ← account_usage st.tally entry message
    tracked ← track_turn flags.track_turns st.turns entry message (message_get "content" message)
    ok (open_and_join entry tracked.0 (record st { tally = tally; turns = tracked.1 }))

  unfoldable pub parse_entries : ParseState → List Fields → Result ParseState
  parse_entries st [] = ok st
  parse_entries st (entry ∷ entries) = do st' ← parse_entry st entry; parse_entries st' entries

  -- What follows the loop: the drain at the end of the input, and the result.
  unfoldable pub parse_result : ℕ → ParseState → ParseResult
  parse_result malformed st =
      let calls = st.calls ++ drain_pending o st.pending in
      if is_unmeasured st.tally.usage_messages
      then record (bare_result calls malformed) { turns = st.turns }
      else record (bare_result calls malformed) {
        session_cache_read_tokens = some st.tally.cache_read;
        session_cache_creation_tokens = some st.tally.cache_creation;
        session_input_tokens = st.tally.input_tokens;
        session_output_tokens = st.tally.output_tokens;
        session_usage_messages = st.tally.usage_messages;
        usage_by_branch = st.tally.by_branch;
        detached_usage_by_cwd = st.tally.detached_by_cwd;
        turns = st.turns;
      }

  unfoldable pub parse : Decoder → List String → Result ParseResult
  unfolding parse_result
  parse loads lines = do
    let records = json_lines loads lines
    st ← parse_entries start records.entries
    ok (parse_result records.malformed st)
