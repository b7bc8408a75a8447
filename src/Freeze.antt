-- ===== src/Freeze.antt =====
-- src/toolbench/freeze.py: what a freeze manifest says, as the JSON value between `json.dumps` and
-- `json.loads`. The order of an object's keys, which `sort_keys` changes in the file, is that of the
-- code.
pub mod Reader
pub mod RoundTrip
use tool_benchmarks.Base.{ℕ, String, Bool, true, false, Option, none, some, List, [], ◌∷◌, length}
use tool_benchmarks.Base.{if◌then◌else◌, ◌||◌, ◌⊎◌, inl, inr}
use tool_benchmarks.Base.Dict.{Dict}
use tool_benchmarks.Base.Int.{ℤ, pos}
use tool_benchmarks.Base.Text.{strip}
use tool_benchmarks.Json.{
  Json, null, bool, int, float, str, arr, obj, Items, nil, cons, Fields, end, field, get, has,
  as_str,
}
use tool_benchmarks.Json.Dumps.{str_text}
use tool_benchmarks.Outcome.{Result, ok, err, Error}
use tool_benchmarks.Parsers.Usage.{truncated}
use tool_benchmarks.Worktrees.Probes.{int_of}
use tool_benchmarks.Sources.{AgentCensus, SessionRef}
use tool_benchmarks.Sources.Loading.{has_text}

abbrev pub manifest_version : String
manifest_version = "toolbench-freeze-2"

abbrev json_of_option : Option String → Json
json_of_option none = null
json_of_option (some s) = str s

unfoldable pub ref_to_dict : SessionRef → Fields
ref_to_dict r = field "agent" (str r.agent) (
    field "source" (str r.source) (
      field "project" (str r.project) (
        field "session_id" (str r.session_id)
          (field "path" (json_of_option r.path) (field "is_subagent" (bool r.is_subagent) end)))))

unfoldable pub totals_to_dict : Dict String ℤ → Fields
totals_to_dict [] = end
totals_to_dict ((agent, n) ∷ totals) = field agent (int n) (totals_to_dict totals)

unfoldable pub census_to_dict : AgentCensus → Fields
unfolding totals_to_dict
census_to_dict c = field "totals" (obj (totals_to_dict c.totals)) (
    field "archive_total" (int c.archive_total)
      (field "unavailable_reason" (json_of_option c.unavailable_reason) end))

unfoldable pub ref_items : List SessionRef → Items
unfolding ref_to_dict
ref_items [] = nil
ref_items (r ∷ refs) = cons (obj (ref_to_dict r)) (ref_items refs)

abbrev filter_fields : Option Bool → Fields
filter_fields none = end
filter_fields (some b) = field "census_includes_subagents" (bool b) end

census_fields : Option AgentCensus → Option Bool → Fields
unfolding census_to_dict
census_fields none includes = end
census_fields (some c) includes = field "census" (obj (census_to_dict c)) (filter_fields includes)

-- The payload of `write_manifest`
unfoldable pub manifest_payload :
    List SessionRef → String → Option AgentCensus → Option Bool → Fields
unfolding census_fields ref_items
manifest_payload refs fingerprint census includes = field "version" (str manifest_version) (
    field "fingerprint" (str fingerprint) (
      field "count" (int (pos (length refs)))
        (field "refs" (arr (ref_items refs)) (census_fields census includes))))
