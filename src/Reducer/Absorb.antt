-- ===== src/Reducer/Absorb.antt =====
-- `Reducer.absorb` of src/toolbench/reducer.py and its helpers.
use tool_benchmarks.Base.{ℕ, ◌+◌, String, Bool, true, false, not, ◌&&◌, ◌||◌}
use tool_benchmarks.Base.{Option, none, some, List, [], ◌∷◌, leb, is_some, string_eq, pair_eq}
use tool_benchmarks.Base.{◌==◌, if◌then◌else◌}
use tool_benchmarks.Base.Dict.{Dict, update, add_count}
use tool_benchmarks.Base.Int.{ℤ, pos, ◌+ℤ◌, ltb_ℤ}
use tool_benchmarks.Json.{finite, infinity, nan, Json, bool, int, float, Fields, get}
use tool_benchmarks.Transcript.{
  UsageProvenance, present, ToolCall, tokens, input_tokens, ParseResult,
}
use tool_benchmarks.Manifest.{RunManifest}
use tool_benchmarks.Reducer.Run.{RunStats, absorb_run}
use tool_benchmarks.Reducer.Stats.{
  oversized_output_tokens, unknown_model, ToolStats, no_tool_stats, AgentStats, no_agent_stats,
  InefficiencyCounters, Reducer,
}

-- `isinstance(value, (int, float)) and value > 0`; a bool is an int to Python.
is_positive : Json → Bool
is_positive (bool b) = b
is_positive (int n) = ltb_ℤ (pos 0) n
is_positive (float f) = elim f.value [
  | finite m e ↦ ltb_ℤ (pos 0) m
  | infinity negative ↦ not negative
  | nan ↦ false
]
is_positive _ = false

unfoldable pub is_cache_hit : Option Fields → Bool
unfolding is_positive
is_cache_hit none = false
is_cache_hit (some usage) =
    is_positive (get "cache_read_input_tokens" usage)
    || is_positive (get "cache_creation_input_tokens" usage)

abbrev is_present : UsageProvenance → Bool
is_present present = true
is_present _ = false

abbrev pub is_error : ToolCall → Bool
is_error c = is_some c.error

abbrev pub is_bad : ToolCall → Bool
is_bad c = is_some c.error || c.no_result

abbrev pub one_if : Bool → ℕ
one_if true = 1
one_if false = 0

abbrev model_name : Option String → String
model_name none = unknown_model
model_name (some model) = if model == "" then unknown_model else model

-- What one call adds to the statistics of its tool, per agent or per model.
unfoldable pub count_tool : ToolCall → ToolStats → ToolStats
count_tool c s = record {
  calls = s.calls + 1;
  output_tokens = s.output_tokens + tokens c;
  input_tokens = s.input_tokens + input_tokens c;
  errors = s.errors + one_if (is_error c);
  no_result = s.no_result + one_if c.no_result;
  cache_hits = s.cache_hits + one_if (is_cache_hit c.usage);
  usage_missing = s.usage_missing + one_if (not (is_present c.usage_provenance));
}

unfoldable pub count_agent : ToolCall → AgentStats → AgentStats
count_agent c s = record s {
  calls = s.calls + 1;
  output_tokens = s.output_tokens + tokens c;
  input_tokens = s.input_tokens + input_tokens c;
  errors = s.errors + one_if (is_error c);
  no_result = s.no_result + one_if c.no_result;
}

-- `_bump(counter, tool)`, under a test
abbrev pub bump_if : Bool → String → Dict String ℕ → Dict String ℕ
bump_if test tool counter = if test then add_count tool 1 counter else counter

-- The call before the one at hand: its name and whether it was bad.
abbrev pub Previous : Type 0
Previous = Option String × Bool

abbrev pub is_churn : Previous → ToolCall → Bool
is_churn (none, bad) c = false
is_churn (some name, bad) c = is_bad c && bad && c.name == name

abbrev pub is_oversized : ToolCall → Bool
is_oversized c = leb oversized_output_tokens (tokens c)

unfoldable pub count_inefficiency :
    Previous → ToolCall → InefficiencyCounters → InefficiencyCounters
count_inefficiency previous c s = record {
  tool_search_calls = s.tool_search_calls + one_if c.is_deferral;
  tool_search_tokens = s.tool_search_tokens + (if c.is_deferral then tokens c else 0);
  failures = s.failures + one_if (is_error c);
  oversized_outputs = s.oversized_outputs + one_if (is_oversized c);
  subagent_fanout = s.subagent_fanout + one_if c.is_subagent_fanout;
  churn_retries = s.churn_retries + one_if (is_churn previous c);
  failures_by_tool = bump_if (is_error c) c.name s.failures_by_tool;
  oversized_by_tool = bump_if (is_oversized c) c.name s.oversized_by_tool;
  churn_by_tool = bump_if (is_churn previous c) c.name s.churn_by_tool;
  subagent_by_tool = bump_if c.is_subagent_fanout c.name s.subagent_by_tool;
}

-- The body of the loop of `_absorb_calls`.
unfoldable pub absorb_call : String → Previous → ToolCall → Reducer → Reducer
unfolding count_tool count_agent count_inefficiency
absorb_call agent previous c r = record r {
  calls_joined = r.calls_joined + 1;
  agents = update agent no_agent_stats (count_agent c) r.agents;
  tools = update (agent, c.name) no_tool_stats (count_tool c) r.tools;
  tools_by_model =
      update (agent, (model_name c.model, c.name)) no_tool_stats (count_tool c) r.tools_by_model;
  inefficiency = count_inefficiency previous c r.inefficiency;
}

unfoldable pub absorb_calls : String → Previous → List ToolCall → Reducer → Reducer
absorb_calls agent previous [] r = r
absorb_calls agent previous (c ∷ calls) r =
    absorb_calls agent (some c.name, is_bad c) calls (absorb_call agent previous c r)

-- The session counters of `absorb` and `_absorb_session_cache`, on the agent's statistics.
abbrev or_zero : Option ℤ → ℤ
or_zero none = pos 0
or_zero (some n) = n

unfoldable pub count_session : ParseResult → AgentStats → AgentStats
count_session result s =
    let measured =
      is_some result.session_cache_read_tokens || is_some result.session_cache_creation_tokens in
    let read = or_zero result.session_cache_read_tokens in
    let creation = or_zero result.session_cache_creation_tokens in
    let hit = ltb_ℤ (pos 0) read || ltb_ℤ (pos 0) creation in
    record s {
      sessions = s.sessions + 1;
      sessions_with_cache_data = s.sessions_with_cache_data + one_if measured;
      sessions_with_cache_hit = s.sessions_with_cache_hit + one_if (measured && hit);
      cache_read_tokens_total = s.cache_read_tokens_total +ℤ (if measured then read else pos 0);
      cache_creation_tokens_total =
          s.cache_creation_tokens_total +ℤ (if measured then creation else pos 0);
    }

unfoldable pub absorb_unjoinable :
    String → Dict String ℕ → Dict (String × String) ℕ → Dict (String × String) ℕ
absorb_unjoinable agent [] d = d
absorb_unjoinable agent ((kind, count) ∷ kinds) d =
    absorb_unjoinable agent kinds (add_count (agent, kind) count d)

module _ (expanduser : String → String) where
  abbrev run_absorbed : Option RunManifest → ParseResult → RunStats → RunStats
  run_absorbed none result s = s
  run_absorbed (some m) result s = absorb_run expanduser m result s

  unfoldable pub absorb : String → ParseResult → Reducer → Reducer
  unfolding absorb_unjoinable count_session absorb_calls
  absorb agent result r =
      absorb_calls agent (none, false) result.calls
        (record r {
          sessions_scanned = r.sessions_scanned + 1;
          malformed_total = r.malformed_total + result.malformed;
          unjoinable = absorb_unjoinable agent result.unjoinable r.unjoinable;
          agents = update agent no_agent_stats (count_session result) r.agents;
          run_stats = run_absorbed r.run result r.run_stats;
        })
