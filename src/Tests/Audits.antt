-- ===== src/Tests/Audits.antt =====
-- Audits of small trials.
use mathlib.Core.List.{Memᴰ}
use tool_benchmarks.Base.{
  ◌≡◌, refl, true, false, String, List, [], ◌∷◌, Option, none, some, string_eq, ◌==◌, All,
}
use tool_benchmarks.Json.{Json, str, obj, end, field}
use tool_benchmarks.Paths.{normpath}
use tool_benchmarks.Transcript.{ToolCall}
use tool_benchmarks.Transcript.Lines.{Decoder}
use tool_benchmarks.Shell.Gate.{gate_prefixes, command_escapes_gate}
use tool_benchmarks.Shell.Audit.{bash_command, is_gated, arm_violations}
use tool_benchmarks.Shell.Permitted.{Permitted, arm_violations-Permitted}
use tool_benchmarks.Base.{◌↔◌}
use tool_benchmarks.Shell.Lawful.{Lawful, arm_violations-Lawful}
use tool_benchmarks.Shell.Reads.{expand_home, audited_paths, read_escapes}
use tool_benchmarks.Shell.Contained.{Inside, resolved, read_escapes-Inside}
use tool_benchmarks.Tests.Samples.{failing_call}

abbrev call_of : String → ToolCall
call_of name = record failing_call { name = name; raw_input = some "input" }

abbrev bash_loads : Decoder
bash_loads text = some (obj (field "command" (str "npx vitest run a.test.ts") end))

abbrev arm : List String
arm = "Read" ∷ "Bash(npx vitest run:*)" ∷ []

-- A call of a listed tool is lawful, and one of a banned tool is not.
arm_violations-Lawful_example :
    (arm_violations bash_loads arm (call_of "Read" ∷ call_of "Task" ∷ []) ≡ [])
    ↔ All (Lawful bash_loads arm) (call_of "Read" ∷ call_of "Task" ∷ [])
arm_violations-Lawful_example =
    arm_violations-Lawful bash_loads arm (call_of "Read" ∷ call_of "Task" ∷ [])

no_violations : arm_violations bash_loads arm (call_of "Bash" ∷ []) ≡ []
unfolding arm_violations gate_prefixes string_eq tool_benchmarks.Base.Text.startswith bash_command
    tool_benchmarks.Json.get tool_benchmarks.Shell.Gate.command_escapes_gate
no_violations = refl

gated_arm : is_gated bash_loads arm ≡ true
unfolding tool_benchmarks.Base.Text.startswith string_eq gate_prefixes
gated_arm = refl

arm_violations-Permitted_example :
    (text : String) × (bash_command bash_loads (call_of "Bash") ≡ some text)
    × Permitted (gate_prefixes arm) text
unfolding string_eq
arm_violations-Permitted_example =
    arm_violations-Permitted bash_loads arm (call_of "Bash" ∷ []) (call_of "Bash") (Memᴰ.head refl)
      gated_arm refl no_violations

abbrev read_loads : Decoder
read_loads text = some (obj (field "file_path" (str "src/../a.ts") end))

abbrev same : String → String
same path = path

abbrev no_split : String → Option (List String)
no_split command = none

no_escapes : read_escapes same no_split read_loads (call_of "Read" ∷ []) "/trial/" ≡ []
unfolding read_escapes string_eq tool_benchmarks.Shell.Audit.tool_input tool_benchmarks.Json.has
    tool_benchmarks.Json.get tool_benchmarks.Shell.Reads.path_escapes expand_home
no_escapes = refl

not_bash : ((call_of "Read").name == "Bash") ≡ false
unfolding string_eq
not_bash = refl

read_escapes-Inside_example :
    All
      (λ p.
        Inside (normpath "/trial/") (resolved (normpath "/trial/") (expand_home same no_split p)))
      (audited_paths same no_split read_loads (call_of "Read"))
read_escapes-Inside_example =
    read_escapes-Inside same no_split read_loads (call_of "Read" ∷ []) "/trial/" (call_of "Read")
      (Memᴰ.head refl) not_bash no_escapes

gate_runs : command_escapes_gate "npx vitest runx" (gate_prefixes arm) ≡ true
unfolding command_escapes_gate gate_prefixes string_eq
gate_runs = refl

normpath_runs : normpath "/a/./b/../c//d" ≡ "/a/c/d"
unfolding normpath string_eq
normpath_runs = refl
