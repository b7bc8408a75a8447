-- ===== src/Sources/Raw.antt =====
-- Discovery of files in src/toolbench/sources.py. The file system is a parameter of the model.
use tool_benchmarks.Base.{ℕ, suc, String, ◌<>◌, Bool, false, Option, none, some, List, [], ◌∷◌}
use tool_benchmarks.Base.{contains, string_eq, ◌==◌, if◌then◌else◌}
use tool_benchmarks.Base.Int.{pos}
use tool_benchmarks.Sources.{
  Attempt, returns, raises, running, ◌>>=◌, Class, file_not_found_error, value_error, Stream, ends,
  yields, fails, working, AgentCensus, SessionRef,
}
use tool_benchmarks.Sources.Discovery.{no_census}

-- A file below a root: `rel.parts`, `path.stem`, `str(path)` and whether its `st_mtime` is before a
-- time, which asks the file system and may raise.
pub record SessionFile : Type 0 where
  pub parts : List String
  pub stem : String
  pub path : String
  pub modified_before : String → Attempt Bool

-- `Path(root).expanduser().is_dir()`, its text, the sorted files `*.jsonl` below it, and the
-- ValueError of `datetime.fromisoformat`, if it raises.
pub record Disk : Type 0 where
  pub is_dir : String → Bool
  pub expanded : String → String
  pub session_files : String → List SessionFile
  pub bad_date : String → Option String

-- `parts[1:-1]`
abbrev without_last : List String → List String
without_last [] = []
without_last (p ∷ []) = []
without_last (p ∷ ps) = p ∷ without_last ps

abbrev middle_parts : List String → List String
middle_parts [] = []
middle_parts (p ∷ ps) = without_last ps

unfoldable pub project_and_subagent : List String → Attempt (String × Bool)
project_and_subagent [] =
    raises (record { class = value_error; text = "session path is not under root" })
project_and_subagent (project ∷ parts) =
    returns (project, contains (without_last parts) "subagents")

-- `len(rel.parts) >= 2 and rel.parts[0] == project`, where a project is asked for
abbrev of_project : Option String → List String → Bool
of_project none parts = Bool.true
of_project (some project) [] = false
of_project (some project) (p ∷ []) = false
of_project (some project) (p ∷ _) = p == project

abbrev keep_recent : Attempt Bool → SessionFile → Stream SessionFile → Stream SessionFile
keep_recent (returns before) file rest = if before then rest else yields file rest
keep_recent (raises e) file rest = fails e
keep_recent running file rest = working

abbrev recent : Option String → SessionFile → Stream SessionFile → Stream SessionFile
recent none file rest = yields file rest
recent (some since) file rest = keep_recent (file.modified_before since) file rest

-- The loop of `iter_session_files`
unfoldable pub matching_files :
    Option String → Option String → List SessionFile → Stream SessionFile
matching_files project since [] = ends
matching_files project since (file ∷ files) =
    let rest = matching_files project since files in
    if of_project project file.parts then recent since file rest else rest

abbrev bad_since : Disk → Option String → Option String
bad_since disk none = none
bad_since disk (some since) = disk.bad_date since

unfoldable pub iter_session_files :
    Disk → String → Option String → Option String → Stream SessionFile
unfolding matching_files
iter_session_files disk root project since =
    if disk.is_dir root
    then elim (bad_since disk since) [
      | none ↦ matching_files project since (disk.session_files root)
      | some text ↦ fails (record { class = value_error; text = text })
    ]
    else fails (record {
      class = file_not_found_error;
      text = "raw session root not found: " <> disk.expanded root;
    })

abbrev pub raw_agent : String
raw_agent = "claude-code"

abbrev pub raw_ref : SessionFile → String × Bool → SessionRef
raw_ref file (project, is_subagent) = record {
  agent = raw_agent;
  source = "raw";
  project = project;
  session_id = file.stem;
  path = some file.path;
  is_subagent = is_subagent;
}

abbrev pub ref_then : SessionFile → Attempt (String × Bool) → Stream SessionRef → Stream SessionRef
ref_then file (returns found) rest = yields (raw_ref file found) rest
ref_then file (raises e) rest = fails e
ref_then file running rest = working

-- The loop of `_raw_session_refs`
unfoldable pub raw_refs_of : Stream SessionFile → Stream SessionRef
raw_refs_of ends = ends
raw_refs_of (yields file files) =
    ref_then file (project_and_subagent file.parts) (raw_refs_of files)
raw_refs_of (fails e) = fails e
raw_refs_of working = working

unfoldable pub raw_session_refs : Disk → String → Option String → Option String → Stream SessionRef
unfolding raw_refs_of iter_session_files project_and_subagent
raw_session_refs disk root project since = raw_refs_of (iter_session_files disk root project since)

-- The sums that `_raw_census` counts by
unfoldable pub count_files : Bool → Stream SessionFile → Attempt ℕ
unfolding project_and_subagent
count_files include_subagents ends = returns 0
count_files include_subagents (yields file files) = do
  found ← if include_subagents then returns ("", false) else project_and_subagent file.parts
  n ← count_files include_subagents files
  returns (if found.1 then n else suc n)
count_files include_subagents (fails e) = raises e
count_files include_subagents working = running

abbrev counted : ℕ → AgentCensus
counted n = record {
  totals = (raw_agent, pos n) ∷ [];
  archive_total = pos n;
  unavailable_reason = none;
}

abbrev or_missing_root : Attempt ℕ → Attempt AgentCensus
or_missing_root (returns n) = returns (counted n)
or_missing_root (raises e) = elim e.class [
  | Class.file_not_found_error ↦ returns (no_census e.text)
  | _ ↦ raises e
]
or_missing_root running = running

unfoldable pub raw_census :
    Disk → String → Option String → Option String → Bool → Attempt AgentCensus
unfolding count_files iter_session_files
raw_census disk root project since include_subagents =
    or_missing_root (count_files include_subagents (iter_session_files disk root project since))
