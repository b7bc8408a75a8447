-- ===== src/Tests/Trials.antt =====
-- Small trials, their scores and their profile.
use mathlib.Core.List.{Memᴰ}
use tool_benchmarks.Base.{
  ℕ, ◌≡◌, refl, String, Bool, true, false, Option, none, some, List, [], ◌∷◌, length, sum_by,
  string_eq, ◌==◌, if◌then◌else◌,
}
use tool_benchmarks.Base.Int.{pos}
use tool_benchmarks.Json.{Json, str, int, arr, obj, nil, cons, end, field, get}
use tool_benchmarks.Outcome.{Result, ok}
use tool_benchmarks.Transcript.{ToolCall, tokens}
use tool_benchmarks.Transcript.Lines.{Decoder, json_lines}
use tool_benchmarks.Complex.{ArmSpec, Truth, TrialResult, void}
use tool_benchmarks.Base.Text.{strip}
use tool_benchmarks.Shell.Gate.{reaches_second, command_escapes_gate, gate_prefixes}
use tool_benchmarks.Complex.TestGate.{bare_words, joined_from, derive_test_gate}
use tool_benchmarks.Complex.Granted.{derive_test_gate-permits}
use tool_benchmarks.Complex.Locate.{find_located}
use tool_benchmarks.Complex.Score.{load_calls, TrialOf, score_trial}
use tool_benchmarks.Complex.Split.{Costs, Kept, score_trial-Costs, score_trial-Kept}
use tool_benchmarks.Complex.Profile.{ProfileRow, build_profile}
use tool_benchmarks.Complex.Counted.{count, is_unsolved, is_unlocated_fix, build_profile-counts}
use tool_benchmarks.Tests.Samples.{failing_call, claude_loads}

abbrev claim : Json
claim = obj (
    field "file" (str "src/a.ts") (
      field "symbol" (str "Store.load")
        (field "lines" (arr (cons (int (pos 10)) (cons (int (pos 12)) nil))) end)))

-- An assistant record that claims a location
abbrev claiming : Json
claiming = obj (
    field "type" (str "assistant") (
      field "timestamp" (str "t5") (
        field "message"
          (obj (
            field "content"
              (arr (
                cons
                  (obj (field "type" (str "text") (field "text" (str "so LOCATED: {..} end") end)))
                  nil))
              end))
          end)))

abbrev read_input : Json
read_input = obj (field "file_path" (str "/trial/src/../src/a.ts") end)

-- An assistant record that opens a call of `Read`
abbrev reading : Json
reading = obj (
    field "type" (str "assistant") (
      field "timestamp" (str "t0") (
        field "message"
          (obj (
            field "content"
              (arr (
                cons
                  (obj (
                    field "type" (str "tool_use") (
                      field "id" (str "c1")
                        (field "name" (str "Read") (field "input" read_input end)))))
                  nil))
              end))
          end)))

abbrev input_text : String
input_text = "{\"file_path\": \"/trial/src/../src/a.ts\"}"

abbrev trial_loads : Decoder
trial_loads text =
    if text == "claiming"
    then some claiming
    else if text == "reading"
    then some reading
    else if text == "{..}"
    then some claim
    else if text == input_text
    then some read_input
    else claude_loads text

abbrev trial_lines : List String
trial_lines = "claiming" ∷ "reading" ∷ "close" ∷ []

abbrev truth : Truth
truth = record { file = "src/a.ts"; symbol = "load"; first_line = pos 8; last_line = pos 11 }

abbrev gated_arm : ArmSpec
gated_arm = record { name = "native"; allowed_tools = "Read" ∷ "Bash(npx vitest run:*)" ∷ [] }

abbrev trial : TrialOf
trial = record { defect_id = "D1"; repo = "wids"; truth = truth; arm = gated_arm; trial = 1 }

abbrev no_repr : Json → String
no_repr v = ""

abbrev same : String → String
same path = path

abbrev no_split : String → Option (List String)
no_split command = none

abbrev scored_sample : Result TrialResult
scored_sample = score_trial trial_loads no_repr same no_split trial true "/trial" "demo" trial_lines

abbrev sample : TrialResult
sample = record {
  defect_id = "D1";
  repo = "wids";
  arm = "native";
  trial = 1;
  located = true;
  fixed = true;
  n1 = some 1;
  n2 = some 0;
  total = 1;
  steps = 1;
  violations = [];
  read_escapes = [];
}

abbrev the_call : ToolCall
the_call = record failing_call {
  agent = "claude-code";
  source = "raw";
  name = "Read";
  input_chars = 39;
  output_chars = 7;
  session_id = "";
  error = none;
  model = none;
  raw_input = some input_text;
}

calls_loaded : load_calls trial_loads "demo" trial_lines ≡ ok (the_call ∷ [])
unfolding load_calls string_eq tool_benchmarks.Adapters.detect_parser json_lines
    tool_benchmarks.Base.Text.strip get tool_benchmarks.Parsers.Claude.parse
    tool_benchmarks.Adapters.sniff tool_benchmarks.Adapters.claiming
    tool_benchmarks.Adapters.claims_line tool_benchmarks.Parsers.Codex.claims_line
    tool_benchmarks.Parsers.Claude.claims_line tool_benchmarks.Json.has
    tool_benchmarks.Parsers.Claude.parse_entries tool_benchmarks.Parsers.Claude.parse_entry
    tool_benchmarks.Parsers.Usage.account_usage tool_benchmarks.Parsers.Turns.track_turn
    tool_benchmarks.Parsers.Usage.already_charged tool_benchmarks.Parsers.Usage.billing_key
    tool_benchmarks.Parsers.Claude.open_and_join tool_benchmarks.Parsers.Usage.entry_usage
    tool_benchmarks.Parsers.Usage.as_usage_int tool_benchmarks.Parsers.Usage.charge
    tool_benchmarks.Base.Int.◌+ℤ◌ tool_benchmarks.Parsers.Join.join_results
    tool_benchmarks.Parsers.Join.join_blocks tool_benchmarks.Parsers.Join.result_blocks
    tool_benchmarks.Parsers.Claude.message_get tool_benchmarks.Parsers.Join.join_id
    tool_benchmarks.Parsers.Join.result_id tool_benchmarks.Base.Dict.lookup
    tool_benchmarks.Parsers.Claude.enqueue_tool_uses tool_benchmarks.Parsers.Claude.enqueue_blocks
    tool_benchmarks.Parsers.Claude.open_block tool_benchmarks.Base.Dict.insert
    tool_benchmarks.Parsers.Pending.drain_pending tool_benchmarks.Base.Dict.erase
    tool_benchmarks.Transcript.result_len tool_benchmarks.Parsers.Join.block_finish
    tool_benchmarks.Parsers.Claude.provenance tool_benchmarks.Json.Dumps.dumps
    tool_benchmarks.Parsers.Join.result_payload tool_benchmarks.Json.truthy
calls_loaded = refl

trial_scored : scored_sample ≡ ok sample
unfolding score_trial find_located tool_benchmarks.Complex.Locate.located_in
    tool_benchmarks.Complex.Locate.blocks_claim tool_benchmarks.Complex.Locate.text_claim
    tool_benchmarks.Complex.Locate.located_correct tool_benchmarks.Shell.Audit.arm_violations
    tool_benchmarks.Shell.Reads.read_escapes string_eq tool_benchmarks.Shell.Gate.gate_prefixes
    tool_benchmarks.Base.Text.startswith get tool_benchmarks.Base.Text.strip json_lines
    tool_benchmarks.Complex.Locate.name_path_matches tool_benchmarks.Json.truthy
    tool_benchmarks.Base.Int.◌-ℤ◌ tool_benchmarks.Shell.Audit.bash_command
    tool_benchmarks.Base.Int.◌+ℤ◌ tool_benchmarks.Freeze.Reader.py_str
    tool_benchmarks.Shell.Reads.all_escapes tool_benchmarks.Shell.Reads.structured_read_escapes
    tool_benchmarks.Shell.Reads.audited_paths tool_benchmarks.Shell.Reads.escaping_paths
    tool_benchmarks.Shell.Reads.path_escapes tool_benchmarks.Shell.Reads.expand_home
    tool_benchmarks.Shell.Audit.tool_input tool_benchmarks.Json.has
    tool_benchmarks.Shell.Audit.forbidden_names tool_benchmarks.Shell.Audit.gate_violations
trial_scored = rw calls_loaded refl

not_void : void sample ≡ false
unfolding void
not_void = refl

score_trial-Costs_example :
    (r : TrialResult) × (score_trial trial_loads no_repr same no_split trial true "/trial" "demo"
        trial_lines
      ≡ ok r)
    × Costs truth (find_located trial_loads no_repr trial_lines) (the_call ∷ []) r
    × (r.total ≡ sum_by tokens (the_call ∷ []))
    × (r.steps ≡ 1)
score_trial-Costs_example =
    score_trial-Costs trial_loads no_repr same no_split trial true "/trial" "demo" trial_lines
      (the_call ∷ []) calls_loaded

score_trial-Kept_example :
    Kept trial_loads no_repr same no_split gated_arm.allowed_tools "/trial" the_call
score_trial-Kept_example =
    score_trial-Kept trial_loads no_repr same no_split trial true "/trial" "demo" trial_lines sample
      (the_call ∷ []) the_call trial_scored calls_loaded not_void (Memᴰ.head refl)

abbrev void_trial : TrialResult
void_trial = record sample { violations = "Grep" ∷ [] }

abbrev lost_trial : TrialResult
lost_trial = record sample { arm = "serena"; located = false; n1 = none; n2 = none }

abbrev trials : List TrialResult
trials = sample ∷ void_trial ∷ lost_trial ∷ []

build_profile-counts_example :
    (sum_by (λ (row : ProfileRow). row.trials) (build_profile trials) ≡ 3)
    × (sum_by (λ (row : ProfileRow). row.void) (build_profile trials) ≡ count void trials)
    × (sum_by (λ (row : ProfileRow). row.unsolved) (build_profile trials)
        ≡ count is_unsolved trials)
    × (sum_by (λ (row : ProfileRow). row.fixed_unlocated) (build_profile trials)
        ≡ count is_unlocated_fix trials)
build_profile-counts_example = build_profile-counts trials

abbrev oracle_tokens : List String
oracle_tokens = "vitest" ∷ "run" ∷ "a.test.ts" ∷ []

oracle_rule : derive_test_gate ("npx" ∷ oracle_tokens) ≡ some "Bash(npx vitest run:*)"
unfolding derive_test_gate
oracle_rule = refl

oracle_stripped : strip (joined_from "npx" oracle_tokens) ≡ joined_from "npx" oracle_tokens
unfolding strip joined_from
oracle_stripped = refl

oracle_single : reaches_second (joined_from "npx" oracle_tokens) ≡ false
unfolding reaches_second joined_from
oracle_single = refl

derive_test_gate-permits_example :
    (gate_prefixes ("Bash(npx vitest run:*)" ∷ [])
      ≡ joined_from "npx" (bare_words oracle_tokens) ∷ [])
    × (command_escapes_gate
          (joined_from "npx" oracle_tokens)
          (gate_prefixes ("Bash(npx vitest run:*)" ∷ []))
        ≡ false)
derive_test_gate-permits_example =
    derive_test_gate-permits "npx" oracle_tokens "Bash(npx vitest run:*)" oracle_rule
      oracle_stripped oracle_single
