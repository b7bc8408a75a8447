-- ===== src/Shell/Audit.antt =====
-- `_tool_input`, `_bash_command` and `arm_violations` of src/toolbench/shell_safety.py. The raw input
-- of a call is decoded by the parameter that stands for `json.loads`.
use tool_benchmarks.Base.{String, ◌<>◌, Bool, true, false, not, ◌&&◌, ◌||◌, Option, none, some}
use tool_benchmarks.Base.{List, [], ◌∷◌, ◌++◌, contains, select, string_eq, ◌==◌, if◌then◌else◌}
use tool_benchmarks.Base.Text.{startswith}
use tool_benchmarks.Json.{Json, obj, Fields, get, as_str}
use tool_benchmarks.Transcript.{ToolCall}
use tool_benchmarks.Transcript.Lines.{Decoder}
use tool_benchmarks.Base.Sorting.{sorted}
use tool_benchmarks.Base.Sorting.{text_before, set_of}
use tool_benchmarks.Shell.Gate.{gate_prefixes, command_escapes_gate}

abbrev pub banned_tools : List String
banned_tools = "Task" ∷ "Agent" ∷ []

abbrev pub is_nonempty : List String → Bool
is_nonempty [] = false
is_nonempty (x ∷ xs) = true

abbrev pub add_violation : Option String → List String → List String
add_violation none violations = violations
add_violation (some violation) violations = violation ∷ violations

module _ (loads : Decoder) where
  abbrev as_dict : Option Json → Option Fields
  as_dict (some (obj payload)) = some payload
  as_dict _ = none

  -- `_tool_input`
  unfoldable pub tool_input : ToolCall → Option Fields
  tool_input call = elim call.raw_input [ none ↦ none | some raw ↦ as_dict (loads raw) ]

  abbrev command_of : Option Fields → Option String
  command_of none = none
  command_of (some payload) = as_str (get "command" payload)

  -- `_bash_command`
  unfoldable pub bash_command : ToolCall → Option String
  unfolding tool_input
  bash_command call = command_of (tool_input call)

  module _ (allowed_tools : List String) where
    abbrev pub plain_tools : List String
    plain_tools = select (λ name. not (startswith "Bash(" name)) allowed_tools

    -- Whether the arm has a gate and no full shell.
    abbrev pub is_gated : Bool
    is_gated = not (contains plain_tools "Bash") && is_nonempty (gate_prefixes allowed_tools)

    abbrev pub granted : List String
    granted =
        if is_nonempty (gate_prefixes allowed_tools) then "Bash" ∷ plain_tools else plain_tools

    -- A name in `(used - granted) | (used & set(BANNED_TOOLS))`
    abbrev pub is_forbidden : String → Bool
    is_forbidden name = not (contains granted name) || contains banned_tools name

    abbrev pub escaping : Option String → Option String
    escaping none = some "Bash:<unreadable command>"
    escaping (some command) =
        if command_escapes_gate command (gate_prefixes allowed_tools)
        then some ("Bash:" <> command)
        else none

    -- What the loop over the calls of a gated arm adds for one call.
    unfoldable pub gate_violation : ToolCall → Option String
    gate_violation call =
        if not is_gated
        then none
        else if call.name == "Bash"
        then escaping (bash_command call)
        else none

    unfoldable pub gate_violations : List ToolCall → List String
    unfolding gate_violation
    gate_violations [] = []
    gate_violations (call ∷ calls) = add_violation (gate_violation call) (gate_violations calls)

    unfoldable pub forbidden_names : List ToolCall → List String
    forbidden_names [] = []
    forbidden_names (call ∷ calls) =
        let rest = forbidden_names calls in
        if is_forbidden call.name then call.name ∷ rest else rest

    -- `arm_violations`
    unfoldable pub arm_violations : List ToolCall → List String
    unfolding sorted set_of forbidden_names gate_violations
    arm_violations calls =
        sorted text_before (set_of (forbidden_names calls ++ gate_violations calls))
