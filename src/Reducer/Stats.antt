-- ===== src/Reducer/Stats.antt =====
-- The statistics that src/toolbench/reducer.py keeps: `ToolStats`, `AgentStats`,
-- `InefficiencyCounters` and the state of a `Reducer`.
use tool_benchmarks.Base.{ℕ, String}
use tool_benchmarks.Base.{Option, [], string_eq, pair_eq}
use tool_benchmarks.Base.Dict.{Dict}
use tool_benchmarks.Base.Int.{ℤ, pos}
use tool_benchmarks.Manifest.{RunManifest}
use tool_benchmarks.Reducer.Run.{RunStats, no_run_stats}

abbrev pub oversized_output_tokens : ℕ
oversized_output_tokens = 5000

abbrev pub unknown_model : String
unknown_model = "unknown"

pub record ToolStats : Type 0 where
  pub calls : ℕ
  pub output_tokens : ℕ
  pub input_tokens : ℕ
  pub errors : ℕ
  pub no_result : ℕ
  pub cache_hits : ℕ
  pub usage_missing : ℕ

abbrev pub no_tool_stats : ToolStats
no_tool_stats = record {
  calls = 0;
  output_tokens = 0;
  input_tokens = 0;
  errors = 0;
  no_result = 0;
  cache_hits = 0;
  usage_missing = 0;
}

pub record AgentStats : Type 0 where
  pub sessions : ℕ
  pub calls : ℕ
  pub output_tokens : ℕ
  pub input_tokens : ℕ
  pub errors : ℕ
  pub no_result : ℕ
  pub sessions_with_cache_data : ℕ
  pub sessions_with_cache_hit : ℕ
  pub cache_read_tokens_total : ℤ
  pub cache_creation_tokens_total : ℤ

abbrev pub no_agent_stats : AgentStats
no_agent_stats = record {
  sessions = 0;
  calls = 0;
  output_tokens = 0;
  input_tokens = 0;
  errors = 0;
  no_result = 0;
  sessions_with_cache_data = 0;
  sessions_with_cache_hit = 0;
  cache_read_tokens_total = pos 0;
  cache_creation_tokens_total = pos 0;
}

pub record InefficiencyCounters : Type 0 where
  pub tool_search_calls : ℕ
  pub tool_search_tokens : ℕ
  pub failures : ℕ
  pub oversized_outputs : ℕ
  pub subagent_fanout : ℕ
  pub churn_retries : ℕ
  pub failures_by_tool : Dict String ℕ
  pub oversized_by_tool : Dict String ℕ
  pub churn_by_tool : Dict String ℕ
  pub subagent_by_tool : Dict String ℕ

abbrev pub no_inefficiency : InefficiencyCounters
no_inefficiency = record {
  tool_search_calls = 0;
  tool_search_tokens = 0;
  failures = 0;
  oversized_outputs = 0;
  subagent_fanout = 0;
  churn_retries = 0;
  failures_by_tool = [];
  oversized_by_tool = [];
  churn_by_tool = [];
  subagent_by_tool = [];
}

pub record Reducer : Type 0 where
  pub sessions_scanned : ℕ
  pub calls_joined : ℕ
  pub malformed_total : ℕ
  pub unjoinable : Dict (String × String) ℕ
  pub agents : Dict String AgentStats
  pub tools : Dict (String × String) ToolStats
  pub tools_by_model : Dict (String × (String × String)) ToolStats
  pub inefficiency : InefficiencyCounters
  pub run : Option RunManifest
  pub run_stats : RunStats

abbrev pub new_reducer : Option RunManifest → Reducer
new_reducer run = record {
  sessions_scanned = 0;
  calls_joined = 0;
  malformed_total = 0;
  unjoinable = [];
  agents = [];
  tools = [];
  tools_by_model = [];
  inefficiency = no_inefficiency;
  run = run;
  run_stats = no_run_stats;
}
