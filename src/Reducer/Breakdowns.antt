-- ===== src/Reducer/Breakdowns.antt =====
-- The counters of inefficiencies in src/toolbench/reducer.py and their breakdowns by tool.
use tool_benchmarks.Base.{
  ℕ, ◌+◌, ◌≡◌, String, Bool, true, false, List, [], ◌∷◌, arith, sum_by, string_eq, none, some,
}
use tool_benchmarks.Base.Dict.{Dict, sum-add_count}
use tool_benchmarks.Transcript.{ToolCall, ParseResult}
use tool_benchmarks.Reducer.Stats.{InefficiencyCounters, Reducer}
use tool_benchmarks.Reducer.Absorb.{
  one_if, bump_if, Previous, is_bad, is_error, is_oversized, is_churn, count_inefficiency,
  absorb_call, absorb_calls, absorb,
}
use tool_benchmarks.Reducer.Calls.{absorb_all}

-- The sum of a breakdown
abbrev pub counted : Dict String ℕ → ℕ
counted d = sum_by (λ (e : String × ℕ). e.1) d

-- Every counter is the sum of its breakdown.
pub record Balanced (s : InefficiencyCounters) : Type 0 where
  pub failures : s.failures ≡ counted s.failures_by_tool
  pub oversized : s.oversized_outputs ≡ counted s.oversized_by_tool
  pub churn : s.churn_retries ≡ counted s.churn_by_tool
  pub subagent : s.subagent_fanout ≡ counted s.subagent_by_tool

counted-bump_if :
    (test : Bool) (tool : String) (d : Dict String ℕ) (n : ℕ)
    → n ≡ counted d
    → n + one_if test ≡ counted (bump_if test tool d)
counted-bump_if true tool d n h = omega (arith, sum-add_count tool 1 d)
counted-bump_if false tool d n h = omega arith

count_inefficiency-Balanced :
    (previous : Previous) (c : ToolCall) (s : InefficiencyCounters)
    → Balanced s
    → Balanced (count_inefficiency previous c s)
unfolding count_inefficiency
count_inefficiency-Balanced previous c s h = record {
  failures = counted-bump_if (is_error c) c.name s.failures_by_tool s.failures h.failures;
  oversized =
      counted-bump_if (is_oversized c) c.name s.oversized_by_tool s.oversized_outputs h.oversized;
  churn = counted-bump_if (is_churn previous c) c.name s.churn_by_tool s.churn_retries h.churn;
  subagent =
      counted-bump_if c.is_subagent_fanout c.name s.subagent_by_tool s.subagent_fanout h.subagent;
}

absorb_calls-Balanced :
    (agent : String) (previous : Previous) (calls : List ToolCall) (r : Reducer)
    → Balanced r.inefficiency
    → Balanced (absorb_calls agent previous calls r).inefficiency
unfolding absorb_calls absorb_call
absorb_calls-Balanced agent previous [] r h = h
absorb_calls-Balanced agent previous (c ∷ calls) r h =
    absorb_calls-Balanced agent (some c.name, is_bad c) calls _
      (count_inefficiency-Balanced previous c r.inefficiency h)

-- If the counters of failures, oversized outputs, churn retries and subagents are the sums of their
-- breakdowns by tool, then they still are after any list of sessions is absorbed.
pub absorb_all-Balanced :
    (expanduser : String → String) (sessions : List (String × ParseResult)) (r : Reducer)
    → Balanced r.inefficiency
    → Balanced (absorb_all expanduser sessions r).inefficiency
unfolding absorb
absorb_all-Balanced expanduser [] r h = h
absorb_all-Balanced expanduser ((agent, result) ∷ sessions) r h =
    absorb_all-Balanced expanduser sessions (absorb expanduser agent result r)
      (absorb_calls-Balanced agent (none, false) result.calls _ h)
