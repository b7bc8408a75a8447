-- ===== src/Parsers/Turns.antt =====
-- The turn tracking of src/toolbench/parsers.py: `_claude_turn_key`, `_is_assistant_message`,
-- `_emits_non_tool_output` and `_track_turn`.
use tool_benchmarks.Base.{◌+◌, String, ◌<>◌, Bool, true, false, not, ◌&&◌, ◌||◌}
use tool_benchmarks.Base.{Option, none, some, string_eq, if◌then◌else◌}
use tool_benchmarks.Base.Dict.{Dict, update}
use tool_benchmarks.Base.Text.{is_empty, strip}
use tool_benchmarks.Json.{Json, obj, arr, str, Items, nil, cons, Fields, get, is_text}
use tool_benchmarks.Outcome.{Result, ok, err, turn_key_error, ◌>>=◌}
use tool_benchmarks.Transcript.{TurnStats, no_turn}

unfoldable pub claude_turn_key : Fields → Result String
claude_turn_key entry = elim (get "requestId" entry) [
  | str s ↦ if is_empty s then err turn_key_error else ok ("req:" <> s)
  | _ ↦ err turn_key_error
]

unfoldable pub is_assistant_message : Fields → Fields → Bool
is_assistant_message entry message =
    not (is_text "user" (get "type" entry)) && not (is_text "user" (get "role" message))

abbrev has_text : Json → Bool
has_text (str s) = not (is_empty (strip s))
has_text _ = false

unfoldable pub emits_non_tool_output : Fields → Bool
emits_non_tool_output block =
    let kind = get "type" block in
    if is_text "text" kind
    then has_text (get "text" block)
    else is_text "thinking" kind || is_text "redacted_thinking" kind

count_block : Json → TurnStats → TurnStats
count_block (obj block) stats =
    if is_text "tool_use" (get "type" block)
    then record stats { tool_uses = stats.tool_uses + 1 }
    else record stats { non_tool_output = stats.non_tool_output || emits_non_tool_output block }
count_block _ stats = stats

unfoldable pub count_blocks : Items → TurnStats → TurnStats
unfolding count_block emits_non_tool_output
count_blocks nil stats = stats
count_blocks (cons block blocks) stats = count_blocks blocks (count_block block stats)

abbrev pub Turns : Type 0
Turns = Dict String TurnStats

abbrev keyed_turn : Turns → Items → String → Option String × Turns
keyed_turn turns blocks key = (some key, update key no_turn (count_blocks blocks) turns)

-- The turn key of an assistant record and the turns with its blocks counted, or no key.
unfoldable pub track_turn : Bool → Turns → Fields → Json → Json → Result (Option String × Turns)
unfolding claude_turn_key is_assistant_message
track_turn true turns entry (obj message) (arr blocks) =
    if is_assistant_message entry message
    then (do key ← claude_turn_key entry; ok (keyed_turn turns blocks key))
    else ok (none, turns)
track_turn _ turns entry message content = ok (none, turns)
