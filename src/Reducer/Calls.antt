-- ===== src/Reducer/Calls.antt =====
-- The tables of src/toolbench/reducer.py count every call once: by agent, by tool and by model.
use mathlib.Core.Path.{subst}
use tool_benchmarks.Base.{◌+◌, ◌≡◌, ◌∙◌, ap, String, false}
use tool_benchmarks.Base.{none, some, List, [], ◌∷◌, arith, string_eq, pair_eq}
use tool_benchmarks.Base.{◌++◌}
use tool_benchmarks.Transcript.{ToolCall, ParseResult}
use tool_benchmarks.Reducer.Stats.{Reducer}
use tool_benchmarks.Reducer.Absorb.{is_bad, Previous, absorb_call, absorb_calls, absorb}
use tool_benchmarks.Reducer.Tallies.{
  Tally, tally, agents_tally, tools_tally, add_tally, tally_path, count_agent-tally,
  count_tool-tally, count_session-tally,
}

-- The tables of a reducer all hold one tally, and `calls_joined` is its number of calls.
pub record Holds (t : Tally) (r : Reducer) : Type 0 where
  pub joined : r.calls_joined ≡ t.calls
  pub by_agent : agents_tally r.agents ≡ t
  pub by_tool : tools_tally r.tools ≡ t
  pub by_model : tools_tally r.tools_by_model ≡ t

absorb_call-Holds :
    (agent : String) (previous : Previous) (c : ToolCall) (t : Tally) (r : Reducer)
    → Holds t r
    → Holds (add_tally t (tally (c ∷ []))) (absorb_call agent previous c r)
unfolding absorb_call
absorb_call-Holds agent previous c t r h = record {
  joined = ap (λ n. n + 1) h.joined;
  by_agent = count_agent-tally agent c r.agents ∙ ap (λ s. add_tally s (tally (c ∷ []))) h.by_agent;
  by_tool = count_tool-tally _ c r.tools ∙ ap (λ s. add_tally s (tally (c ∷ []))) h.by_tool;
  by_model =
      count_tool-tally _ c r.tools_by_model ∙ ap (λ s. add_tally s (tally (c ∷ []))) h.by_model;
}

add_tally-cons :
    (t : Tally) (c : ToolCall) (calls : List ToolCall)
    → add_tally (add_tally t (tally (c ∷ []))) (tally calls) ≡ add_tally t (tally (c ∷ calls))
add_tally-cons t c calls =
    tally_path _ _ (omega arith) (omega arith) (omega arith) (omega arith) (omega arith)

absorb_calls-Holds :
    (agent : String) (previous : Previous) (calls : List ToolCall) (t : Tally) (r : Reducer)
    → Holds t r
    → Holds (add_tally t (tally calls)) (absorb_calls agent previous calls r)
unfolding absorb_calls
absorb_calls-Holds agent previous [] t r h =
    subst (λ s. Holds s r)
      (tally_path _ _ (omega arith) (omega arith) (omega arith) (omega arith) (omega arith)) h
absorb_calls-Holds agent previous (c ∷ calls) t r h =
    subst (λ s. Holds s (absorb_calls agent previous (c ∷ calls) r)) (add_tally-cons t c calls)
      (absorb_calls-Holds agent (some c.name, is_bad c) calls _ _
        (absorb_call-Holds agent previous c t r h))

-- The parsed sessions of a corpus, with the agent of each, absorbed in turn.
abbrev pub absorb_all : (String → String) → List (String × ParseResult) → Reducer → Reducer
absorb_all expanduser [] r = r
absorb_all expanduser ((agent, result) ∷ sessions) r =
    absorb_all expanduser sessions (absorb expanduser agent result r)

abbrev pub calls_of : List (String × ParseResult) → List ToolCall
calls_of [] = []
calls_of ((agent, result) ∷ sessions) = result.calls ++ calls_of sessions

absorb-Holds :
    (expanduser : String → String) (agent : String) (result : ParseResult) (t : Tally) (r : Reducer)
    → Holds t r
    → Holds (add_tally t (tally result.calls)) (absorb expanduser agent result r)
unfolding absorb
absorb-Holds expanduser agent result t r h =
    absorb_calls-Holds agent (none, false) result.calls t _
      (record {
        joined = h.joined;
        by_agent = count_session-tally agent result r.agents ∙ h.by_agent;
        by_tool = h.by_tool;
        by_model = h.by_model;
      })

add_tally-append :
    (t : Tally) (xs ys : List ToolCall)
    → add_tally (add_tally t (tally xs)) (tally ys) ≡ add_tally t (tally (xs ++ ys))
add_tally-append t [] ys =
    tally_path _ _ (omega arith) (omega arith) (omega arith) (omega arith) (omega arith)
add_tally-append t (x ∷ xs) ys =
    let ih = add_tally-append t xs ys in
    tally_path _ _ (omega (arith, ap (λ (s : Tally). s.calls) ih))
      (omega (arith, ap (λ (s : Tally). s.output_tokens) ih))
      (omega (arith, ap (λ (s : Tally). s.input_tokens) ih))
      (omega (arith, ap (λ (s : Tally). s.errors) ih))
      (omega (arith, ap (λ (s : Tally). s.no_result) ih))

-- If the tables by agent, by tool and by model hold one tally, and `calls_joined` is its number of
-- calls, then after any list of sessions is absorbed they hold that tally plus the calls of all the
-- sessions: the number of calls, the tokens both ways, the errors and the missing results.
pub absorb_all-Holds :
    (expanduser : String → String) (sessions : List (String × ParseResult)) (t : Tally)
    (r : Reducer)
    → Holds t r
    → Holds (add_tally t (tally (calls_of sessions))) (absorb_all expanduser sessions r)
absorb_all-Holds expanduser [] t r h =
    subst (λ s. Holds s r)
      (tally_path _ _ (omega arith) (omega arith) (omega arith) (omega arith) (omega arith)) h
absorb_all-Holds expanduser ((agent, result) ∷ sessions) t r h =
    subst (λ s. Holds s (absorb_all expanduser sessions (absorb expanduser agent result r)))
      (add_tally-append t result.calls (calls_of sessions))
      (absorb_all-Holds expanduser sessions _ _ (absorb-Holds expanduser agent result t r h))
