-- ===== src/Parsers/Codex.antt =====
-- `CodexParser` of src/toolbench/parsers.py. `in` on a set or a dict raises `TypeError` for a list or
-- a dict, which Python cannot hash.
pub mod Opened
pub mod Growth
pub mod Joins
pub mod Records
use tool_benchmarks.Base.{ℕ, String, Bool, true, false, Option, none, some, List, [], ◌∷◌, ◌++◌}
use tool_benchmarks.Base.{is_some, ◌&&◌, contains, string_eq, ◌==◌, if◌then◌else◌}
use tool_benchmarks.Base.Dict.{Dict, lookup, insert, add_count}
use tool_benchmarks.Base.Text.{is_empty}
use tool_benchmarks.Json.{
  Json, null, obj, arr, str, Fields, get, as_str, as_obj, is_text, str_or_empty, truthy,
}
use tool_benchmarks.Outcome.{Result, ok, err, type_error, ◌>>=◌}
use tool_benchmarks.Transcript.{ToolCall, absent_by_schema, result_len, ParseResult, bare_result}
use tool_benchmarks.Transcript.Lines.{Decoder, json_lines}
use tool_benchmarks.Parsers.Pending.{Origin, PendingCall, Finish, drain_pending}
use tool_benchmarks.Parsers.Join.{Joined, join_id}

-- `v in s`, for a set or a dict with string keys, as the key
unfoldable pub hashed : Json → Result (Option String)
hashed (arr xs) = err type_error
hashed (obj fs) = err type_error
hashed v = ok (as_str v)

abbrev pub record_types : List String
record_types = "session_meta" ∷ "response_item" ∷ "event_msg" ∷ "turn_context" ∷ "compacted" ∷ []

abbrev pub call_shapes : Dict String (String × Option String)
call_shapes =
    ("function_call", ("arguments", none))
    ∷ ("custom_tool_call", ("input", none))
    ∷ ("tool_search_call", ("arguments", some "ToolSearch"))
    ∷ []

abbrev pub output_fields : Dict String String
output_fields =
    ("function_call_output", "output")
    ∷ ("custom_tool_call_output", "output")
    ∷ ("tool_search_output", "tools")
    ∷ []

abbrev pub unjoinable_types : List String
unjoinable_types = "web_search_call" ∷ []

abbrev pub is_listed : List String → Option String → Bool
is_listed names none = false
is_listed names (some name) = contains names name

abbrev entry_at {ℓ} : {V : Type ℓ} → Dict String V → Option String → Option V
entry_at d none = none
entry_at d (some key) = lookup key d

unfoldable pub claims_line : Fields → Result Bool
unfolding hashed
claims_line entry = do
  kind ← hashed (get "type" entry)
  ok (is_listed record_types kind && is_some (as_obj (get "payload" entry)))

pub record CodexState : Type 0 where
  pub pending : Dict String PendingCall
  pub calls : List ToolCall
  pub unjoinable : Dict String ℕ
  pub session_id : String
  pub model : Option String

abbrev pub start : CodexState
start = record { pending = []; calls = []; unjoinable = []; session_id = ""; model = none }

abbrev named : Option String → Json → Option String
named none name = as_str name
named (some fixed) name = some fixed

-- The pending call of a call shape, if it has a name.
unfoldable pub shaped_call :
    String → Option String → String → Fields → String × Option String → Option PendingCall
shaped_call session_id model ts payload (input_field, fixed) =
    elim (named fixed (get "name" payload)) [
      | none ↦ none
      | some name ↦ some (record {
        name = name;
        input_chars = result_len (get input_field payload);
        session_id = session_id;
        ts = ts;
        usage = none;
        usage_provenance = absent_by_schema;
        model = model;
        raw_input = none;
        turn_key = none;
      })
    ]

abbrev pub open_call : String → Option PendingCall → CodexState → CodexState
open_call id none st = st
open_call id (some call) st = record st { pending = insert id call st.pending }

abbrev pub output_finish : Fields → String → Finish
output_finish payload output_field = record {
  output_chars = result_len (get output_field payload);
  error = none;
  result_source = some "payload";
  no_result = false;
}

abbrev pub keep_joined : Joined → CodexState → CodexState
keep_joined (calls, pending) st = record st { pending = pending; calls = st.calls ++ calls }

-- The record kinds that the loop tells apart.
pub data RecordKind : Type 0 where
  session_meta_record turn_context_record response_item_record other_record : RecordKind

unfoldable pub record_kind : Json → RecordKind
record_kind kind =
    if is_text "session_meta" kind
    then session_meta_record
    else if is_text "turn_context" kind
    then turn_context_record
    else if is_text "response_item" kind
    then response_item_record
    else other_record

module _ (o : Origin) where
  abbrev pub close_call : String → Fields → Option String → CodexState → CodexState
  close_call id payload none st = st
  close_call id payload (some output_field) st =
      keep_joined (join_id o (output_finish payload output_field) (some id) st.pending) st

  -- What a record with a string `call_id` does: open a call of a known shape, or close one.
  abbrev pub keyed_item :
      String
      → String
      → Fields
      → Option String
      → Option (String × Option String)
      → CodexState
      → CodexState
  keyed_item id ts payload kind none st = close_call id payload (entry_at output_fields kind) st
  keyed_item id ts payload kind (some shape) st =
      open_call id (shaped_call st.session_id st.model ts payload shape) st

  abbrev pub item_with_id : Option String → String → Fields → CodexState → Result CodexState
  item_with_id none ts payload st = ok st
  item_with_id (some id) ts payload st = do
    kind ← hashed (get "type" payload)
    ok (keyed_item id ts payload kind (entry_at call_shapes kind) st)

  unfoldable pub absorb_response_item : String → Fields → CodexState → Result CodexState
  absorb_response_item ts payload st =
      if is_listed unjoinable_types (as_str (get "type" payload))
      then ok
          (record st { unjoinable = add_count (str_or_empty (get "type" payload)) 1 st.unjoinable })
      else item_with_id (as_str (get "call_id" payload)) ts payload st

  abbrev session_named : Option String → CodexState → CodexState
  session_named none st = st
  session_named (some id) st = record st { session_id = id }

  unfoldable pub session_meta : Fields → CodexState → CodexState
  session_meta payload st =
      let found =
        if truthy (get "id" payload) then get "id" payload else get "session_id" payload in
      if is_empty st.session_id then session_named (as_str found) st else st

  abbrev model_named : Option String → CodexState → CodexState
  model_named none st = st
  model_named (some model) st = record st { model = some model }

  unfoldable pub turn_context : Fields → CodexState → CodexState
  turn_context payload st = model_named (as_str (get "model" payload)) st

  abbrev pub entry_of_kind : RecordKind → Fields → Fields → CodexState → Result CodexState
  entry_of_kind session_meta_record entry payload st = ok (session_meta payload st)
  entry_of_kind turn_context_record entry payload st = ok (turn_context payload st)
  entry_of_kind response_item_record entry payload st =
      absorb_response_item (str_or_empty (get "timestamp" entry)) payload st
  entry_of_kind other_record entry payload st = ok st

  abbrev pub payload_entry : Fields → Option Fields → CodexState → Result CodexState
  payload_entry entry none st = ok st
  payload_entry entry (some payload) st =
      entry_of_kind (record_kind (get "type" entry)) entry payload st

  unfoldable pub parse_entry : CodexState → Fields → Result CodexState
  unfolding absorb_response_item session_meta turn_context
  parse_entry st entry = payload_entry entry (as_obj (get "payload" entry)) st

  unfoldable pub parse_entries : CodexState → List Fields → Result CodexState
  parse_entries st [] = ok st
  parse_entries st (entry ∷ entries) = do st' ← parse_entry st entry; parse_entries st' entries

  unfoldable pub parse : Decoder → List String → Result ParseResult
  parse loads lines = do
    let records = json_lines loads lines
    st ← parse_entries start records.entries
    ok (record (bare_result (st.calls ++ drain_pending o st.pending) records.malformed) {
      unjoinable = st.unjoinable;
    })
