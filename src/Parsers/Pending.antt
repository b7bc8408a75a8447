-- ===== src/Parsers/Pending.antt =====
-- `_PendingCall`, `finish` and `_drain_pending` of src/toolbench/parsers.py.
use tool_benchmarks.Base.{ℕ, String, Bool, true, Option, none, List, [], ◌∷◌}
use tool_benchmarks.Base.{string_eq, contains}
use tool_benchmarks.Base.Dict.{Dict}
use tool_benchmarks.Json.{Fields}
use tool_benchmarks.Transcript.{ToolCall, UsageProvenance}

abbrev pub deferral_tool_names : List String
deferral_tool_names = "ToolSearch" ∷ []

abbrev pub subagent_tool_names : List String
subagent_tool_names = "Agent" ∷ "Task" ∷ "spawn_agent" ∷ []

-- The session that a parse belongs to: the keyword arguments of `parse`.
pub record Origin : Type 0 where
  pub agent : String
  pub source : String
  pub project : String

pub record PendingCall : Type 0 where
  pub name : String
  pub input_chars : ℕ
  pub session_id : String
  pub ts : String
  pub usage : Option Fields
  pub usage_provenance : UsageProvenance
  pub model : Option String
  pub raw_input : Option String
  pub turn_key : Option String

-- The keyword arguments of `finish` beside the origin.
pub record Finish : Type 0 where
  pub output_chars : ℕ
  pub error : Option String
  pub result_source : Option String
  pub no_result : Bool

unfoldable pub finish : Origin → PendingCall → Finish → ToolCall
finish o call f = record {
  agent = o.agent;
  source = o.source;
  project = o.project;
  name = call.name;
  input_chars = call.input_chars;
  output_chars = f.output_chars;
  session_id = call.session_id;
  ts = call.ts;
  usage = call.usage;
  usage_provenance = call.usage_provenance;
  duration_ms = none;
  error = f.error;
  model = call.model;
  no_result = f.no_result;
  result_source = f.result_source;
  is_deferral = contains deferral_tool_names call.name;
  is_subagent_fanout = contains subagent_tool_names call.name;
  raw_input = call.raw_input;
  turn_key = call.turn_key;
}

abbrev pub unmatched : Finish
unmatched = record { output_chars = 0; error = none; result_source = none; no_result = true }

unfoldable pub drain_pending : Origin → Dict String PendingCall → List ToolCall
unfolding finish
drain_pending o [] = []
drain_pending o ((id, call) ∷ pending) = finish o call unmatched ∷ drain_pending o pending
