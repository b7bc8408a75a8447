-- ===== src/Transcript.antt =====
-- src/toolbench/transcript.py: the records that parsers produce, the shared line reader and the size
-- of a tool result.
pub mod Lines
pub mod Totals
use Prim.Native.String.{count}
use mathlib.Core.List.{List, []}
use tool_benchmarks.Base.{ℕ, zero, ◌+◌, ◌/◌, String, Bool, true, false, Option, none, some}
use tool_benchmarks.Base.Dict.{Dict}
use tool_benchmarks.Base.Int.{ℤ, pos, ◌+ℤ◌}
use tool_benchmarks.Json.{
  Float, Json, null, bool, int, float, str, arr, obj, Items, nil, cons, Fields, get, as_str, as_arr,
}
use tool_benchmarks.Json.Dumps.{dumps, str_text}

-- One element of a block list: its `text` if that is a string, itself if it is a string, and
-- otherwise its JSON text.
block_len : Json → ℕ
block_len (obj fs) = elim (get "text" fs) [ str s ↦ count s | _ ↦ count (dumps (obj fs)) ]
block_len (str s) = count s
block_len v = count (dumps v)

block_list_len : Items → ℕ
block_list_len nil = 0
block_list_len (cons block blocks) = block_len block + block_list_len blocks

unfoldable pub result_len : Json → ℕ
unfolding block_list_len block_len get dumps str_text
result_len (str s) = count s
result_len (arr xs) = block_list_len xs
result_len (obj fs) = elim (get "content" fs) [
  | arr xs ↦ block_list_len xs
  | _ ↦ count (dumps (obj fs))
]
result_len v = count (str_text v)

pub data UsageProvenance : Type 0 where
  present absent_by_schema absent_by_export absent_unexpected : UsageProvenance

pub record ToolCall : Type 0 where
  pub agent : String
  pub source : String
  pub project : String
  pub name : String
  pub input_chars : ℕ
  pub output_chars : ℕ
  pub session_id : String
  pub ts : String
  pub usage : Option Fields
  pub usage_provenance : UsageProvenance
  pub duration_ms : Option Float
  pub error : Option String
  pub model : Option String
  pub no_result : Bool
  pub result_source : Option String
  pub is_deferral : Bool
  pub is_subagent_fanout : Bool
  pub raw_input : Option String
  pub turn_key : Option String

abbrev pub tokens : ToolCall → ℕ
tokens c = c.output_chars / 4

abbrev pub input_tokens : ToolCall → ℕ
input_tokens c = c.input_chars / 4

pub record TurnStats : Type 0 where
  pub tool_uses : ℕ
  pub non_tool_output : Bool

abbrev pub no_turn : TurnStats
no_turn = record { tool_uses = 0; non_tool_output = false }

abbrev pub detached_branch : String
detached_branch = "HEAD"

pub record BranchUsage : Type 0 where
  pub read : ℤ
  pub creation : ℤ
  pub input : ℤ
  pub output : ℤ
  pub messages : ℤ

abbrev pub no_usage : BranchUsage
no_usage = record {
  read = pos 0;
  creation = pos 0;
  input = pos 0;
  output = pos 0;
  messages = pos 0;
}

pub record ParseResult : Type 0 where
  pub calls : List ToolCall
  pub malformed : ℕ
  pub session_cache_read_tokens : Option ℤ
  pub session_cache_creation_tokens : Option ℤ
  pub session_input_tokens : ℤ
  pub session_output_tokens : ℤ
  pub session_usage_messages : ℤ
  pub usage_by_branch : Dict String BranchUsage
  pub detached_usage_by_cwd : Dict String BranchUsage
  pub unjoinable : Dict String ℕ
  pub turns : Dict String TurnStats

-- The defaults of the fields that follow `malformed`.
abbrev pub bare_result : List ToolCall → ℕ → ParseResult
bare_result calls malformed = record {
  calls = calls;
  malformed = malformed;
  session_cache_read_tokens = none;
  session_cache_creation_tokens = none;
  session_input_tokens = pos 0;
  session_output_tokens = pos 0;
  session_usage_messages = pos 0;
  usage_by_branch = [];
  detached_usage_by_cwd = [];
  unjoinable = [];
  turns = [];
}
