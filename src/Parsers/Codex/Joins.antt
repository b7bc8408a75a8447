-- ===== src/Parsers/Codex/Joins.antt =====
-- Every call that a codex transcript opens comes out of the parse once; records that cannot be
-- joined are counted apart; a `type` that cannot be hashed ends the parse.
use mathlib.Core.Path.{subst}
use tool_benchmarks.Base.{◌≡◌, String}
use tool_benchmarks.Base.{List, arith, string_eq, sum_by-append}
use tool_benchmarks.Base.Dict.{NodupKeys}
use tool_benchmarks.Outcome.{ok, >>=-eq-ok}
use tool_benchmarks.Transcript.{ToolCall, ParseResult}
use tool_benchmarks.Transcript.Lines.{Decoder, json_lines}
use tool_benchmarks.Parsers.Pending.{Origin, drain_pending}
use tool_benchmarks.Parsers.Weights.{Weight, call_weight, pending_weight, Absent-nil, weight-drain}
use tool_benchmarks.Parsers.Codex.{start, parse_entries, parse}
use tool_benchmarks.Parsers.Codex.Opened.{opened_items, result_inj}
use tool_benchmarks.Parsers.Codex.Growth.{parse_entries-weight}

-- If the ids under which a codex transcript opens calls differ and the parse returns, its calls are the
-- calls that the transcript opens, as many of each name and input size, joined to an output or not.
pub parse-opened_items :
    (o : Origin) (loads : Decoder) (lines : List String) (r : ParseResult) (w : Weight)
    → parse o loads lines ≡ ok r
    → NodupKeys (opened_items (json_lines loads lines).entries)
    → call_weight w r.calls ≡ pending_weight w (opened_items (json_lines loads lines).entries)
unfolding parse
parse-opened_items o loads lines r w e n =
    let entries = (json_lines loads lines).entries in
    let (st, es, er) = >>=-eq-ok (parse_entries o start entries) _ e in
    subst (λ (s : ParseResult). call_weight w s.calls ≡ pending_weight w (opened_items entries))
      (result_inj er)
      (omega (
        arith,
        parse_entries-weight o w start entries st es n (Absent-nil _),
        sum_by-append (λ (c : ToolCall). w c.name c.input_chars) st.calls
            (drain_pending o st.pending),
        weight-drain w o st.pending,
      ))
