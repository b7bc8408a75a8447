-- ===== src/Parsers/Codex/Opened.antt =====
-- The calls that a codex transcript opens, read off its records, and what its other records leave
-- alone (`CodexParser` of src/toolbench/parsers.py).
use tool_benchmarks.Base.{◌≡◌, String, Option, none}
use tool_benchmarks.Base.{some, List, [], ◌∷◌, ◌++◌, arith, string_eq}
use tool_benchmarks.Base.{if◌then◌else◌}
use tool_benchmarks.Base.Dict.{Dict}
use tool_benchmarks.Json.{Json, str, obj, arr, Fields, get, as_str, as_obj}
use tool_benchmarks.Outcome.{ok}
use tool_benchmarks.Transcript.{ParseResult}
use tool_benchmarks.Parsers.Pending.{Origin, PendingCall}
use tool_benchmarks.Parsers.Codex.{
  CodexState, hashed, entry_at, call_shapes, shaped_call, RecordKind, response_item_record,
  record_kind, session_meta, turn_context, is_listed, unjoinable_types,
}

abbrev pub opened_by : String → Option PendingCall → Dict String PendingCall
opened_by id none = []
opened_by id (some call) = (id, call) ∷ []

abbrev pub opened_shape :
    String → Fields → Option (String × Option String) → Dict String PendingCall
opened_shape id payload none = []
opened_shape id payload (some shape) = opened_by id (shaped_call "" none "" payload shape)

abbrev pub opened_with_id : Fields → Option String → Dict String PendingCall
opened_with_id payload none = []
opened_with_id payload (some id) =
    opened_shape id payload (entry_at call_shapes (as_str (get "type" payload)))

abbrev pub opened_payload : Fields → Dict String PendingCall
opened_payload payload =
    if is_listed unjoinable_types (as_str (get "type" payload))
    then []
    else opened_with_id payload (as_str (get "call_id" payload))

abbrev pub opened_kind : RecordKind → Fields → Dict String PendingCall
opened_kind response_item_record payload = opened_payload payload
opened_kind _ payload = []

abbrev pub opened_item : Fields → Option Fields → Dict String PendingCall
opened_item entry none = []
opened_item entry (some payload) = opened_kind (record_kind (get "type" entry)) payload

-- The call that an entry opens, with its id; its session and model do not matter here.
unfoldable pub opened_entry : Fields → Dict String PendingCall
opened_entry entry = opened_item entry (as_obj (get "payload" entry))

-- The calls that a transcript opens, in order.
unfoldable pub opened_items : List Fields → Dict String PendingCall
unfolding opened_entry
opened_items [] = []
opened_items (entry ∷ entries) = opened_entry entry ++ opened_items entries

pub result_inj : {s t : ParseResult} → ok s ≡ ok t → s ≡ t
result_inj h = cc

pub hashed_lem : (v : Json) (kind : Option String) → hashed v ≡ ok kind → kind ≡ as_str v
unfolding hashed
hashed_lem (arr xs) kind h = cc
hashed_lem (obj fs) kind h = cc
hashed_lem (str s) kind h = cc
hashed_lem _ kind h = cc

module _ (o : Origin) (payload : Fields) (st : CodexState) where
  pub calls-session_meta : (session_meta o payload st).calls ≡ st.calls
  unfolding session_meta
  calls-session_meta = ground arith

  pub pending-session_meta : (session_meta o payload st).pending ≡ st.pending
  unfolding session_meta
  pending-session_meta = ground arith

  pub calls-turn_context : (turn_context o payload st).calls ≡ st.calls
  unfolding turn_context
  calls-turn_context = ground arith

  pub pending-turn_context : (turn_context o payload st).pending ≡ st.pending
  unfolding turn_context
  pending-turn_context = ground arith
