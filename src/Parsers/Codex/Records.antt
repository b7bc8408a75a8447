-- ===== src/Parsers/Codex/Records.antt =====
-- When `CodexParser.parse` returns, and what it counts apart.
use tool_benchmarks.Base.{◌≡◌, refl, String, Bool, true, false, Option, none}
use tool_benchmarks.Base.{some, List, [], ◌∷◌, ◌||◌, string_eq, is_some, ◌&&◌}
use tool_benchmarks.Base.{Bool-cases, inl, inr, ◌++◌}
use tool_benchmarks.Base.Dict.{add_count}
use tool_benchmarks.Json.{Json, arr, obj, Fields, get, as_str, as_obj, str_or_empty}
use tool_benchmarks.Outcome.{Result, ok, err, type_error, ◌>>=◌}
use tool_benchmarks.Transcript.{ParseResult, bare_result}
use tool_benchmarks.Transcript.Lines.{Decoder, json_lines}
use tool_benchmarks.Parsers.Pending.{Origin, drain_pending}
use tool_benchmarks.Parsers.Codex.{
  CodexState, start, hashed, entry_at, call_shapes, keyed_item, item_with_id, absorb_response_item,
  RecordKind, response_item_record, record_kind, entry_of_kind, payload_entry, parse_entry,
  parse_entries, parse, is_listed, unjoinable_types,
}

-- A list or a dict, which Python cannot hash
abbrev pub is_container : Json → Bool
is_container (arr xs) = true
is_container (obj fs) = true
is_container _ = false

abbrev container_of_kind : RecordKind → Fields → Bool
container_of_kind response_item_record payload =
    is_some (as_str (get "call_id" payload)) && is_container (get "type" payload)
container_of_kind _ payload = false

abbrev container_payload : Json → Option Fields → Bool
container_payload kind none = false
container_payload kind (some payload) = container_of_kind (record_kind kind) payload

-- A response item with a `call_id` whose `type` is a list or a dict
abbrev has_container_type : Fields → Bool
has_container_type entry = container_payload (get "type" entry) (as_obj (get "payload" entry))

abbrev pub any_container_type : List Fields → Bool
any_container_type [] = false
any_container_type (entry ∷ entries) = has_container_type entry || any_container_type entries

-- A result that is an error by a test, and a value otherwise
abbrev pub RaisesIf {ℓ} : {A : Type ℓ} → Bool → Result A → Type ℓ
RaisesIf true r = r ≡ err type_error
RaisesIf {A = A} false r = (a : A) × (r ≡ ok a)

listed_no_container :
    (v : Json) → is_listed unjoinable_types (as_str v) ≡ true → is_container v ≡ false
listed_no_container (arr xs) h = cc
listed_no_container (obj fs) h = cc
listed_no_container _ h = refl

module _ (o : Origin) where
  RaisesIf-item :
      (id : Option String) (ts : String) (payload : Fields) (st : CodexState)
      → RaisesIf (is_some id && is_container (get "type" payload)) (item_with_id o id ts payload st)
  unfolding hashed
  RaisesIf-item none ts payload st = (st, refl)
  RaisesIf-item (some id) ts payload st = by_type (get "type" payload)
    where
      by_type :
          (v : Json)
          → RaisesIf (is_container v) (do
            kind ← hashed v
            ok (keyed_item o id ts payload kind (entry_at call_shapes kind) st))
      by_type (arr xs) = refl
      by_type (obj fs) = refl
      by_type _ = (_, refl)

  RaisesIf-absorb :
      (ts : String) (payload : Fields) (st : CodexState)
      → RaisesIf
          (container_of_kind response_item_record payload)
          (absorb_response_item o ts payload st)
  unfolding absorb_response_item
  RaisesIf-absorb ts payload st =
      elim (Bool-cases (is_listed unjoinable_types (as_str (get "type" payload)))) [
        | inl listed ↦
            rw (listed, listed_no_container (get "type" payload) listed)
              (by_id (as_str (get "call_id" payload)))
        | inr other ↦ rw other (RaisesIf-item (as_str (get "call_id" payload)) ts payload st)
      ]
    where
      by_id :
          (id : Option String)
          → RaisesIf (is_some id && false) (
              ok (record st {
                unjoinable = add_count (str_or_empty (get "type" payload)) 1 st.unjoinable;
              }))
      by_id none = (_, refl)
      by_id (some id) = (_, refl)

  RaisesIf-kind :
      (kind : RecordKind) (entry payload : Fields) (st : CodexState)
      → RaisesIf (container_of_kind kind payload) (entry_of_kind o kind entry payload st)
  RaisesIf-kind response_item_record entry payload st =
      RaisesIf-absorb (str_or_empty (get "timestamp" entry)) payload st
  RaisesIf-kind _ entry payload st = (_, refl)

  RaisesIf-entry :
      (st : CodexState) (entry : Fields)
      → RaisesIf (has_container_type entry) (parse_entry o st entry)
  unfolding parse_entry
  RaisesIf-entry st entry = on_payload (as_obj (get "payload" entry))
    where
      on_payload :
          (payload : Option Fields)
          → RaisesIf
              (container_payload (get "type" entry) payload)
              (payload_entry o entry payload st)
      on_payload none = (_, refl)
      on_payload (some payload) = RaisesIf-kind (record_kind (get "type" entry)) entry payload st

  RaisesIf-entries :
      (st : CodexState) (entries : List Fields)
      → RaisesIf (any_container_type entries) (parse_entries o st entries)
  unfolding parse_entries
  RaisesIf-entries st [] = (st, refl)
  RaisesIf-entries st (entry ∷ entries) =
      stepped (has_container_type entry) (parse_entry o st entry) (RaisesIf-entry st entry)
        (λ s. RaisesIf-entries s entries)
    where
      stepped :
          (b : Bool) (r : Result CodexState)
          → RaisesIf b r
          → ((s : CodexState) → RaisesIf (any_container_type entries) (parse_entries o s entries))
          → RaisesIf (b || any_container_type entries) (do s ← r; parse_entries o s entries)
      stepped true r h ih = rw h
      stepped false r h ih = rw h.1 (ih h.0)

  -- The parse raises `TypeError` exactly when some response item with a `call_id` has a list or a dict
  -- for its `type`; on every other input it returns.
  pub parse-RaisesIf :
      (loads : Decoder) (lines : List String)
      → RaisesIf (any_container_type (json_lines loads lines).entries) (parse o loads lines)
  unfolding parse
  parse-RaisesIf loads lines =
      parsed (any_container_type (json_lines loads lines).entries)
        (parse_entries o start (json_lines loads lines).entries)
        (RaisesIf-entries start (json_lines loads lines).entries)
    where
      result : CodexState → ParseResult
      result st =
          record (bare_result (st.calls ++ drain_pending o st.pending)
            (json_lines loads lines).malformed) { unjoinable = st.unjoinable }

      parsed :
          (b : Bool) (r : Result CodexState) → RaisesIf b r → RaisesIf b (do st ← r; ok (result st))
      parsed true r h = rw h
      parsed false r h = (result h.0, rw h.1)
