-- ===== src/Sources/Listing.antt =====
-- One listing of sessions in src/toolbench/sources.py: its command, the validation of a response and
-- the cursor pages. `json.loads` is a parameter, with the message of its refusal.
use tool_benchmarks.Base.{
  ℕ, zero, suc, String, ◌<>◌, Bool, true, false, not, ◌&&◌, Option, none, some,
}
use tool_benchmarks.Base.{List, [], ◌∷◌, ◌++◌, eqb, if◌then◌else◌, string_eq, ◌==◌}
use tool_benchmarks.Base.Int.{ℤ, pos, negsuc}
use tool_benchmarks.Base.Text.{is_empty, strip}
use tool_benchmarks.Json.{Json, null, int, str, arr, obj, Items, nil, cons, Fields, get, has}
use tool_benchmarks.Json.Dumps.{show_ℕ, show_ℤ}
use tool_benchmarks.Sources.{
  Attempt, returns, raises, running, ◌>>=◌, Fault, malformed_agentsview_response, runtime_error,
  Stream, ends, yields, fails, working,
}

-- `subprocess.CompletedProcess`
pub record CompletedProcess : Type 0 where
  pub returncode : ℤ
  pub stdout : String
  pub stderr : String

-- `Runner`: what running a command does.
abbrev pub Runner : Type 0
Runner = List String → Attempt CompletedProcess

-- `json.loads`: a value, or the message of its JSONDecodeError.
pub data Decoded : Type 0 where
  value : Json → Decoded
  invalid : String → Decoded

-- The filters of a listing
pub record Scope : Type 0 where
  pub agent : String
  pub project : Option String
  pub since : Option String

abbrev pub all_includes : List String
all_includes = "--include-children" ∷ "--include-automated" ∷ "--include-one-shot" ∷ []

abbrev pub probe_includes : List String
probe_includes = "--include-automated" ∷ "--include-one-shot" ∷ []

abbrev pub option : String → Option String → List String
option flag none = []
option flag (some v) = flag ∷ v ∷ []

unfoldable pub list_argv : Scope → ℤ → List String → Option String → List String
list_argv scope limit includes cursor =
    ("agentsview" ∷ "session" ∷ "list" ∷ "--json" ∷ "--limit" ∷ show_ℤ limit ∷ includes)
    ++ ((if scope.agent == "all" then [] else "--agent" ∷ scope.agent ∷ [])
        ++ (option "--project" scope.project
            ++ (option "--date-from" scope.since ++ option "--cursor" cursor)))

-- A row of a listing that has been validated
pub record Row : Type 0 where
  pub id : String
  pub agent : String
  pub project : String

-- A payload that has been validated: `next_cursor` is `payload.get("next_cursor") or None`.
pub record Payload : Type 0 where
  pub sessions : List Row
  pub next_cursor : Option String
  pub total : Option ℕ

abbrev malformed {ℓ} : {A : Type ℓ} → String → Attempt A
malformed text = raises (record { class = malformed_agentsview_response; text = text })

abbrev row_text : ℕ → String
row_text index = "agentsview session list row " <> show_ℕ index

abbrev wanted : Bool → String
wanted may_be_empty = if may_be_empty then "a string" else "a non-empty string"

abbrev checked_text : ℕ → String → Bool → Json → Attempt String
checked_text index name may_be_empty (str s) =
    if not may_be_empty && is_empty s
    then malformed (row_text index <> " field `" <> name <> "` must be " <> wanted may_be_empty)
    else returns s
checked_text index name may_be_empty _ =
    malformed (row_text index <> " field `" <> name <> "` must be " <> wanted may_be_empty)

-- One round of the loop of `_validate_listing_row`, with the value that it checks.
row_field : ℕ → String → Bool → Fields → Attempt String
row_field index name may_be_empty row =
    if has name row
    then checked_text index name may_be_empty (get name row)
    else malformed (row_text index <> " is missing required field `" <> name <> "`")

unfoldable pub validate_listing_row : ℕ → Json → Attempt Row
unfolding row_field
validate_listing_row index (obj row) = do
  id ← row_field index "id" false row
  agent ← row_field index "agent" false row
  project ← row_field index "project" true row
  returns (record { id = id; agent = agent; project = project })
validate_listing_row index _ = malformed (row_text index <> " must be a JSON object")

unfoldable pub validate_rows : ℕ → Items → Attempt (List Row)
validate_rows index nil = returns []
validate_rows index (cons row rows) = do
  first ← validate_listing_row index row
  rest ← validate_rows (suc index) rows
  returns (first ∷ rest)

abbrev payload_text : String
payload_text = "agentsview session list payload"

listed_rows : Json → Attempt (List Row)
listed_rows (arr rows) = validate_rows 0 rows
listed_rows _ = malformed (payload_text <> " field `sessions` must be a list")

cursor_of : Json → Attempt (Option String)
cursor_of null = returns none
cursor_of (str s) = returns (if is_empty s then none else some s)
cursor_of _ = malformed (payload_text <> " field `next_cursor` must be a string or null")

total_of : Json → Attempt (Option ℕ)
total_of (int (pos n)) = returns (some n)
total_of _ = malformed (payload_text <> " field `total` must be a non-negative integer")

absent_total : Bool → Attempt (Option ℕ)
absent_total require_total =
    if require_total
    then malformed (payload_text <> " is missing required field `total`")
    else returns none

payload_of : Bool → Json → Attempt Payload
unfolding listed_rows cursor_of total_of absent_total
payload_of require_total (obj raw) = do
  sessions ← listed_rows (get "sessions" raw)
  cursor ← cursor_of (get "next_cursor" raw)
  total ← if has "total" raw then total_of (get "total" raw) else absent_total require_total
  returns (record { sessions = sessions; next_cursor = cursor; total = total })
payload_of require_total _ = malformed (payload_text <> " must be a JSON object")

unfoldable pub succeeded : CompletedProcess → Bool
succeeded proc = elim proc.returncode [ pos n ↦ eqb n 0 | negsuc n ↦ false ]

abbrev list_failed : CompletedProcess → Fault
list_failed proc = record {
  class = runtime_error;
  text = "agentsview session list failed (" <> show_ℤ proc.returncode <> "): " <> strip proc.stderr;
}

-- `if not cursor: break`
abbrev pub go_on : Option String → (Option String → Stream Payload) → Stream Payload
go_on none more = ends
go_on (some cursor) more = more (some cursor)

-- What a request for a page makes the listing do
abbrev pub page_stream : Attempt Payload → (Option String → Stream Payload) → Stream Payload
page_stream (returns page) more = yields page (go_on page.next_cursor more)
page_stream (raises e) more = fails e
page_stream running more = working

module _ (loads : String → Decoded) where
  -- `_decode_agentsview_list_payload`
  unfoldable pub decode_payload : Bool → String → Attempt Payload
  unfolding payload_of
  decode_payload require_total stdout = elim (loads stdout) [
    | value raw ↦ payload_of require_total raw
    | invalid text ↦ malformed ("agentsview session list returned invalid JSON: " <> text)
  ]

  -- The payload of a listing that ran, if it succeeded.
  unfoldable pub payload_read : Bool → CompletedProcess → Attempt Payload
  payload_read require_total proc =
      if succeeded proc then decode_payload require_total proc.stdout else raises (list_failed proc)

  module _ (runner : Runner) (scope : Scope) (limit : ℤ) (includes : List String) where
    -- One round of the loop of `_agentsview_pages`
    unfoldable pub page_at : Option String → Attempt Payload
    page_at cursor = do
      proc ← runner (list_argv scope limit includes cursor)
      payload_read false proc

    -- The loop itself, with fuel: a cursor that is still open when it is used up is `working`. The
    -- text of stderr, which is only searched for a warning to print, is left out.
    unfoldable pub pages : ℕ → Option String → Stream Payload
    pages zero cursor = working
    pages (suc fuel) cursor = page_stream (page_at cursor) (pages fuel)
