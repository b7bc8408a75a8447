-- ===== src/Parsers/Claude/Joins.antt =====
-- Every opened call of a transcript comes out of the parse once: joined, or drained at the end.
use mathlib.Core.Path.{subst}
use tool_benchmarks.Base.{ℕ, ◌+◌, ◌≡◌, sym, ap, String, Option}
use tool_benchmarks.Base.{List, [], ◌∷◌, ◌++◌, arith, sum_by-append, string_eq}
use tool_benchmarks.Base.Dict.{Dict, NodupKeys}
use tool_benchmarks.Json.{Fields, get}
use tool_benchmarks.Outcome.{ok_inj, ok, >>=-eq-ok}
use tool_benchmarks.Transcript.{ToolCall, ParseResult}
use tool_benchmarks.Transcript.Lines.{Decoder, json_lines}
use tool_benchmarks.Parsers.Pending.{Origin, PendingCall, drain_pending}
use tool_benchmarks.Parsers.Join.{join_blocks, join_results, result_blocks}
use tool_benchmarks.Parsers.Turns.{track_turn}
use tool_benchmarks.Parsers.Usage.{account_usage}
use tool_benchmarks.Parsers.Weights.{
  Weight, call_weight, pending_weight, insert_all, Absent, Absent-nil, Absent-insert_all,
  weight-insert_all, weight-append, NodupKeys-end, weight-drain, Conserves-join_blocks,
  Absent-join_blocks,
}
use tool_benchmarks.Parsers.Claude.{
  Variant, Flags, message_get, enqueue_tool_uses, ParseState, start, open_and_join, parse_entry,
  parse_entries, parse_result, parse,
}
use tool_benchmarks.Parsers.Claude.Opened.{
  entry_turn, entry_turn_lem, opened_entry, opened_calls, enqueue_tool_uses-eq,
}

module _ (v : Variant) (flags : Flags) (o : Origin) (w : Weight) where
  abbrev state_weight : ParseState → ℕ
  state_weight st = call_weight w st.calls + pending_weight w st.pending

  queued : Fields → Option String → Dict String PendingCall → Dict String PendingCall
  queued entry turn pending =
      let message = get "message" entry in
      enqueue_tool_uses v flags entry message turn (message_get "content" message) pending

  queued-eq :
      (entry : Fields) (turn : Option String) (pending : Dict String PendingCall)
      → queued entry turn pending ≡ insert_all (opened_entry v flags entry turn) pending
  unfolding queued opened_entry
  queued-eq entry turn pending =
      enqueue_tool_uses-eq v flags entry (get "message" entry)
        (message_get "content" (get "message" entry)) turn pending

  open_and_join_weight :
      (entry : Fields) (turn : Option String) (st : ParseState) (ys : Dict String PendingCall)
      → NodupKeys (opened_entry v flags entry turn ++ ys)
      → Absent (opened_entry v flags entry turn ++ ys) st.pending
      → (state_weight (open_and_join v flags o entry turn st)
          ≡ state_weight st + pending_weight w (opened_entry v flags entry turn))
        × Absent ys (open_and_join v flags o entry turn st).pending
  unfolding open_and_join queued join_results
  open_and_join_weight entry turn st ys n h =
      let content = message_get "content" (get "message" entry) in
      let blocks = result_blocks entry content in
      let q = queued entry turn st.pending in
      let eq = queued-eq entry turn st.pending in
      let opened = opened_entry v flags entry turn in
      (
        omega (
          arith,
          sum_by-append (λ (c : ToolCall). w c.name c.input_chars) st.calls
              (join_blocks o entry blocks q).0,
          Conserves-join_blocks w o entry blocks q,
          weight-insert_all w opened ys st.pending n h,
          ap (pending_weight w) eq,
        ),
        Absent-join_blocks o entry blocks ys q
            (subst (Absent ys) (sym eq) (Absent-insert_all opened ys st.pending n h)),
      )

  -- The weight of what a step makes of a state, and what stays open to later entries.
  record Grows (st st' : ParseState) (opened ys : Dict String PendingCall) : Type 0 where
    weight : state_weight st' ≡ state_weight st + pending_weight w opened
    absent : Absent ys st'.pending

  parse_entry-Grows :
      (st : ParseState) (entry : Fields) (st' : ParseState) (ys : Dict String PendingCall)
      → parse_entry v flags o st entry ≡ ok st'
      → NodupKeys (opened_entry v flags entry (entry_turn flags entry) ++ ys)
      → Absent (opened_entry v flags entry (entry_turn flags entry) ++ ys) st.pending
      → Grows st st' (opened_entry v flags entry (entry_turn flags entry)) ys
  unfolding parse_entry entry_turn
  parse_entry-Grows st entry st' ys e n h =
      let message = get "message" entry in
      let (tally, _, e') = >>=-eq-ok (account_usage st.tally entry message) _ e in
      let (tracked, et, e'') =
        >>=-eq-ok
          (track_turn flags.track_turns st.turns entry message (message_get "content" message)) _
          e' in
      let turn = entry_turn_lem flags.track_turns st.turns entry message _ tracked et in
      subst (λ s. Grows st s (opened_entry v flags entry (entry_turn flags entry)) ys) (ok_inj e'')
        (subst
          (λ t.
            Grows st
              (open_and_join v flags o entry t (record st { tally = tally; turns = tracked.1 }))
              (opened_entry v flags entry (entry_turn flags entry)) ys)
          turn
          (let grown =
              open_and_join_weight entry (entry_turn flags entry)
                (record st { tally = tally; turns = tracked.1 }) ys n h in
            record { weight = grown.0; absent = grown.1 }))

  pub parse_entries-weight :
      (st : ParseState) (entries : List Fields) (st' : ParseState)
      → parse_entries v flags o st entries ≡ ok st'
      → NodupKeys (opened_calls v flags entries)
      → Absent (opened_calls v flags entries) st.pending
      → state_weight st' ≡ state_weight st + pending_weight w (opened_calls v flags entries)
  unfolding parse_entries opened_calls
  parse_entries-weight st [] st' e n h =
      subst (λ s. state_weight s ≡ state_weight st + 0) (ok_inj e) (omega arith)
  parse_entries-weight st (entry ∷ entries) st' e n h =
      let (s, es, e') = >>=-eq-ok (parse_entry v flags o st entry) _ e in
      let rest = opened_calls v flags entries in
      let opened = opened_entry v flags entry (entry_turn flags entry) in
      let g = parse_entry-Grows st entry s rest es n h in
      omega (
        arith,
        parse_entries-weight s entries st' e' (NodupKeys-end opened rest n) g.absent,
        g.weight,
        weight-append w opened rest,
      )

result_inj : {s t : ParseResult} → ok s ≡ ok t → s ≡ t
result_inj h = cc

calls-parse_result :
    (v : Variant) (flags : Flags) (o : Origin) (malformed : ℕ) (st : ParseState)
    → (parse_result v flags o malformed st).calls ≡ st.calls ++ drain_pending o st.pending
unfolding parse_result
calls-parse_result v flags o malformed st = ground arith

-- If the `tool_use` ids of a transcript differ and the parse returns, its calls are the calls that the
-- transcript opens, as many of each name and input size, joined to a result or not.
pub parse-opened_calls :
    (v : Variant) (flags : Flags) (o : Origin) (loads : Decoder) (lines : List String)
    (r : ParseResult) (w : Weight)
    → parse v flags o loads lines ≡ ok r
    → NodupKeys (opened_calls v flags (json_lines loads lines).entries)
    → call_weight w r.calls
      ≡ pending_weight w (opened_calls v flags (json_lines loads lines).entries)
unfolding parse
parse-opened_calls v flags o loads lines r w e n =
    let entries = (json_lines loads lines).entries in
    let (st, es, er) = >>=-eq-ok (parse_entries v flags o start entries) _ e in
    subst
      (λ (s : ParseResult). call_weight w s.calls ≡ pending_weight w (opened_calls v flags entries))
      (result_inj er)
      (rw calls-parse_result (
        omega (
          arith,
          parse_entries-weight v flags o w start entries st es n (Absent-nil _),
          sum_by-append (λ (c : ToolCall). w c.name c.input_chars) st.calls
              (drain_pending o st.pending),
          weight-drain w o st.pending,
        )))
