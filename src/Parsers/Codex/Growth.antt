-- ===== src/Parsers/Codex/Growth.antt =====
-- How each record of a codex transcript changes the weight of the calls, pending and finished
-- (`CodexParser` of src/toolbench/parsers.py).
use mathlib.Core.Path.{subst}
use tool_benchmarks.Base.{ℕ, ◌+◌, ◌≡◌, String, Bool, true, false, Option, none}
use tool_benchmarks.Base.{some, List, [], ◌∷◌, ◌++◌, arith, string_eq, sum_by-append}
use tool_benchmarks.Base.{if◌then◌else◌}
use tool_benchmarks.Base.Dict.{Dict, NodupKeys, add_count}
use tool_benchmarks.Json.{Fields, get, as_str, as_obj, str_or_empty}
use tool_benchmarks.Outcome.{ok_inj, ok, >>=-eq-ok}
use tool_benchmarks.Transcript.{ToolCall}
use tool_benchmarks.Parsers.Pending.{Origin, PendingCall}
use tool_benchmarks.Parsers.Join.{Joined, join_id}
use tool_benchmarks.Parsers.Weights.{
  Weight, call_weight, pending_weight, Absent, Absent-insert, Absent-join_id, weight-insert,
  weight-append, NodupKeys-end, Conserves-join_id,
}
use tool_benchmarks.Parsers.Codex.{
  CodexState, hashed, entry_at, call_shapes, output_fields, shaped_call, open_call, close_call,
  keyed_item, item_with_id, absorb_response_item, payload_entry, parse_entry, parse_entries,
  output_finish, RecordKind, session_meta_record, turn_context_record, response_item_record,
  other_record, record_kind, entry_of_kind, is_listed, named, unjoinable_types,
}
use tool_benchmarks.Parsers.Codex.Opened.{
  opened_by, opened_shape, opened_with_id, opened_payload, opened_kind, opened_item, opened_entry,
  opened_items, hashed_lem, calls-session_meta, pending-session_meta, calls-turn_context,
  pending-turn_context,
}

module _ (o : Origin) (w : Weight) where
  abbrev pub state_weight : CodexState → ℕ
  state_weight st = call_weight w st.calls + pending_weight w st.pending

  -- What a record makes of a state, and what stays open to later records.
  pub record Grows (st st' : CodexState) (opened ys : Dict String PendingCall) : Type 0 where
    weight : state_weight st' ≡ state_weight st + pending_weight w opened
    absent : Absent ys st'.pending

  pub Grows-same :
      (st : CodexState) (ys : Dict String PendingCall) → Absent ys st.pending → Grows st st [] ys
  Grows-same st ys h = record { weight = omega arith; absent = h }

  pub Grows-open :
      (st : CodexState) (id ts : String) (payload : Fields) (shape : String × Option String)
      (ys : Dict String PendingCall)
      → NodupKeys (opened_by id (shaped_call "" none "" payload shape) ++ ys)
      → Absent (opened_by id (shaped_call "" none "" payload shape) ++ ys) st.pending
      → Grows st
          (open_call id (shaped_call st.session_id st.model ts payload shape) st)
          (opened_by id (shaped_call "" none "" payload shape))
          ys
  unfolding shaped_call
  Grows-open st id ts payload (input_field, fixed) ys n h =
      by_name (named fixed (get "name" payload)) n h
    where
      call_named : String → Option String → String → Option String → Option PendingCall
      call_named session_id model ts none = none
      call_named session_id model ts (some name) =
          shaped_call session_id model ts payload (input_field, some name)

      by_name :
          (name : Option String)
          → NodupKeys (opened_by id (call_named "" none "" name) ++ ys)
          → Absent (opened_by id (call_named "" none "" name) ++ ys) st.pending
          → Grows st
              (open_call id (call_named st.session_id st.model ts name) st)
              (opened_by id (call_named "" none "" name))
              ys
      by_name none n h = Grows-same st ys h
      by_name (some name) n h = record {
        weight = omega (arith, weight-insert w id _ st.pending h.0);
        absent = Absent-insert id _ ys st.pending n.0 h.1;
      }

  pub Grows-close :
      (st : CodexState) (id : String) (payload : Fields) (field : Option String)
      (ys : Dict String PendingCall)
      → Absent ys st.pending
      → Grows st (close_call o id payload field st) [] ys
  Grows-close st id payload none ys h = Grows-same st ys h
  Grows-close st id payload (some field) ys h =
      let f = output_finish payload field in
      let j : Joined = join_id o f (some id) st.pending in
      record {
        weight = omega (
          arith,
          Conserves-join_id w o f (some id) st.pending,
          sum_by-append (λ (c : ToolCall). w c.name c.input_chars) st.calls j.0,
        );
        absent = Absent-join_id o f (some id) ys st.pending h;
      }

  pub Grows-keyed :
      (st : CodexState) (id ts : String) (payload : Fields) (kind : Option String)
      (shape : Option (String × Option String)) (ys : Dict String PendingCall)
      → NodupKeys (opened_shape id payload shape ++ ys)
      → Absent (opened_shape id payload shape ++ ys) st.pending
      → Grows st (keyed_item o id ts payload kind shape st) (opened_shape id payload shape) ys
  Grows-keyed st id ts payload kind none ys n h =
      Grows-close st id payload (entry_at output_fields kind) ys h
  Grows-keyed st id ts payload kind (some shape) ys n h = Grows-open st id ts payload shape ys n h

  pub Grows-item :
      (st : CodexState) (id : Option String) (ts : String) (payload : Fields) (st' : CodexState)
      (ys : Dict String PendingCall)
      → item_with_id o id ts payload st ≡ ok st'
      → NodupKeys (opened_with_id payload id ++ ys)
      → Absent (opened_with_id payload id ++ ys) st.pending
      → Grows st st' (opened_with_id payload id) ys
  Grows-item st none ts payload st' ys e n h =
      subst (λ s. Grows st s [] ys) (ok_inj e) (Grows-same st ys h)
  Grows-item st (some id) ts payload st' ys e n h =
      let (kind, ek, e') = >>=-eq-ok (hashed (get "type" payload)) _ e in
      let is_kind = hashed_lem (get "type" payload) kind ek in
      subst (λ s. Grows st s (opened_with_id payload (some id)) ys) (ok_inj e')
        (rw is_kind (
          Grows-keyed st id ts payload (as_str (get "type" payload))
            (entry_at call_shapes (as_str (get "type" payload))) ys n h))

  pub Grows-absorb :
      (st : CodexState) (ts : String) (payload : Fields) (st' : CodexState)
      (ys : Dict String PendingCall)
      → absorb_response_item o ts payload st ≡ ok st'
      → NodupKeys (opened_payload payload ++ ys)
      → Absent (opened_payload payload ++ ys) st.pending
      → Grows st st' (opened_payload payload) ys
  unfolding absorb_response_item
  Grows-absorb st ts payload st' ys =
      tested (is_listed unjoinable_types (as_str (get "type" payload)))
    where
      tested :
          (listed : Bool)
          → (if listed
              then ok (record st {
                unjoinable = add_count (str_or_empty (get "type" payload)) 1 st.unjoinable;
              })
              else item_with_id o (as_str (get "call_id" payload)) ts payload st)
            ≡ ok st'
          → NodupKeys (
              (if listed then [] else opened_with_id payload (as_str (get "call_id" payload)))
              ++ ys)
          → Absent
              ((if listed then [] else opened_with_id payload (as_str (get "call_id" payload)))
                ++ ys)
              st.pending
          → Grows st st'
              (if listed then [] else opened_with_id payload (as_str (get "call_id" payload)))
              ys
      tested true e n h =
          subst (λ s. Grows st s [] ys) (ok_inj e) (record { weight = omega arith; absent = h })
      tested false e n h = Grows-item st (as_str (get "call_id" payload)) ts payload st' ys e n h

  pub Grows-kind :
      (kind : RecordKind) (st : CodexState) (entry payload : Fields) (st' : CodexState)
      (ys : Dict String PendingCall)
      → entry_of_kind o kind entry payload st ≡ ok st'
      → NodupKeys (opened_kind kind payload ++ ys)
      → Absent (opened_kind kind payload ++ ys) st.pending
      → Grows st st' (opened_kind kind payload) ys
  Grows-kind session_meta_record st entry payload st' ys e n h =
      subst (λ s. Grows st s [] ys) (ok_inj e)
        (record {
          weight =
              rw (calls-session_meta o payload st, pending-session_meta o payload st) (omega arith);
          absent = rw (pending-session_meta o payload st) h;
        })
  Grows-kind turn_context_record st entry payload st' ys e n h =
      subst (λ s. Grows st s [] ys) (ok_inj e)
        (record {
          weight =
              rw (calls-turn_context o payload st, pending-turn_context o payload st) (omega arith);
          absent = rw (pending-turn_context o payload st) h;
        })
  Grows-kind response_item_record st entry payload st' ys e n h =
      Grows-absorb st (str_or_empty (get "timestamp" entry)) payload st' ys e n h
  Grows-kind other_record st entry payload st' ys e n h =
      subst (λ s. Grows st s [] ys) (ok_inj e) (Grows-same st ys h)

  pub Grows-entry :
      (st : CodexState) (entry : Fields) (st' : CodexState) (ys : Dict String PendingCall)
      → parse_entry o st entry ≡ ok st'
      → NodupKeys (opened_entry entry ++ ys)
      → Absent (opened_entry entry ++ ys) st.pending
      → Grows st st' (opened_entry entry) ys
  unfolding parse_entry opened_entry
  Grows-entry st entry st' ys = on_payload (as_obj (get "payload" entry))
    where
      on_payload :
          (payload : Option Fields)
          → payload_entry o entry payload st ≡ ok st'
          → NodupKeys (opened_item entry payload ++ ys)
          → Absent (opened_item entry payload ++ ys) st.pending
          → Grows st st' (opened_item entry payload) ys
      on_payload none e n h = subst (λ s. Grows st s [] ys) (ok_inj e) (Grows-same st ys h)
      on_payload (some payload) e n h =
          Grows-kind (record_kind (get "type" entry)) st entry payload st' ys e n h

  pub parse_entries-weight :
      (st : CodexState) (entries : List Fields) (st' : CodexState)
      → parse_entries o st entries ≡ ok st'
      → NodupKeys (opened_items entries)
      → Absent (opened_items entries) st.pending
      → state_weight st' ≡ state_weight st + pending_weight w (opened_items entries)
  unfolding parse_entries opened_items
  parse_entries-weight st [] st' e n h =
      subst (λ s. state_weight s ≡ state_weight st + 0) (ok_inj e) (omega arith)
  parse_entries-weight st (entry ∷ entries) st' e n h =
      let (s, es, e') = >>=-eq-ok (parse_entry o st entry) _ e in
      let rest = opened_items entries in
      let opened = opened_entry entry in
      let g = Grows-entry st entry s rest es n h in
      omega (
        arith,
        parse_entries-weight s entries st' e' (NodupKeys-end opened rest n) g.absent,
        g.weight,
        weight-append w opened rest,
      )
