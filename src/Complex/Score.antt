-- ===== src/Complex/Score.antt =====
-- `load_calls` and `score_trial` of src/toolbench/complex.py.
use tool_benchmarks.Base.{ℕ, String, Bool, true, false, not, Option, none, some, List, ◌++◌}
use tool_benchmarks.Base.{length, select, sum_by, if◌then◌else◌}
use tool_benchmarks.Base.Sorting.{text_before}
use tool_benchmarks.Json.{Json}
use tool_benchmarks.Outcome.{Result, ok, ◌>>=◌}
use tool_benchmarks.Transcript.{ToolCall, tokens}
use tool_benchmarks.Transcript.Lines.{Decoder}
use tool_benchmarks.Parsers.Pending.{Origin}
use tool_benchmarks.Parsers.Claude
use tool_benchmarks.Parsers.Claude.{Flags, claude}
use tool_benchmarks.Adapters.{detect_window, detect_parser}
use tool_benchmarks.Shell.Audit.{arm_violations}
use tool_benchmarks.Shell.Reads.{read_escapes}
use tool_benchmarks.Complex.{ArmSpec, Truth, TrialResult}
use tool_benchmarks.Complex.Locate.{Hit, find_located, located_correct}

abbrev raw_input_kept : Flags
raw_input_kept = record { keep_raw_input = true; track_turns = false }

abbrev trial_origin : String → Origin
trial_origin project = record { agent = "claude-code"; source = "raw"; project = project }

-- `load_calls`, from the lines of the session: a schema has to be found, and the claude parser reads
-- whatever it is.
unfoldable pub load_calls : Decoder → String → List String → Result (List ToolCall)
load_calls loads project lines = do
  let d = detect_parser loads detect_window lines
  parser ← d.outcome
  result ← Claude.parse claude raw_input_kept (trial_origin project) loads (d.buffered ++ d.rest)
  ok result.calls

abbrev pub before_claim : String → ToolCall → Bool
before_claim located_ts call = text_before call.ts located_ts

-- `sum(call.tokens for call in calls if test(call))`
abbrev pub tokens_where : (ToolCall → Bool) → List ToolCall → ℕ
tokens_where test calls = sum_by tokens (select test calls)

-- The timestamp of a claim that is correct
abbrev pub correct_hit : Truth → Option Hit → Option String
correct_hit truth none = none
correct_hit truth (some (ts, claim)) = if located_correct claim truth then some ts else none

abbrev is_located : Option String → Bool
is_located none = false
is_located (some ts) = true

abbrev tokens_before : Option String → List ToolCall → Option ℕ
tokens_before none calls = none
tokens_before (some ts) calls = some (tokens_where (before_claim ts) calls)

abbrev tokens_from : Option String → List ToolCall → Option ℕ
tokens_from none calls = none
tokens_from (some ts) calls = some (tokens_where (λ call. not (before_claim ts call)) calls)

-- The identity of a trial: its defect, with the ground truth, and its arm and number.
pub record TrialOf : Type 0 where
  pub defect_id : String
  pub repo : String
  pub truth : Truth
  pub arm : ArmSpec
  pub trial : ℕ

module _ (loads : Decoder) (repr : Json → String) (expanduser : String → String)
    (shlex_split : String → Option (List String)) where
  abbrev pub scored : TrialOf → Bool → String → List ToolCall → Option String → TrialResult
  scored t fixed trial_root calls ts = record {
    defect_id = t.defect_id;
    repo = t.repo;
    arm = t.arm.name;
    trial = t.trial;
    located = is_located ts;
    fixed = fixed;
    n1 = tokens_before ts calls;
    n2 = tokens_from ts calls;
    total = sum_by tokens calls;
    steps = length calls;
    violations = arm_violations loads t.arm.allowed_tools calls;
    read_escapes = read_escapes expanduser shlex_split loads calls trial_root;
  }

  -- `score_trial`, from the lines of the session and the name of its directory
  unfoldable pub score_trial : TrialOf → Bool → String → String → List String → Result TrialResult
  unfolding load_calls
  score_trial t fixed trial_root project lines = do
    calls ← load_calls loads project lines
    ok (scored t fixed trial_root calls (correct_hit t.truth (find_located loads repr lines)))
