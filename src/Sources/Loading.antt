-- ===== src/Sources/Loading.antt =====
-- The loaders of src/toolbench/sources.py, the adapters of src/toolbench/adapters.py that use them and
-- `pick_adapter` of src/toolbench/registry.py. Reading a file, the database of hermes and the
-- messages of the parsers' exceptions are parameters of the model.
use Prim.Native.Char.{code}
use tool_benchmarks.Base.{ℕ, String, ◌<>◌, Bool, false, ◌&&◌, ◌||◌, not, none, some}
use tool_benchmarks.Base.{List, [], ◌∷◌, eqb, string_eq, ◌==◌, if◌then◌else◌, is_some}
use tool_benchmarks.Base.Text.{strip, take_chars, startswith, kept_lines}
use tool_benchmarks.Json.Dumps.{show_ℤ}
use tool_benchmarks.Outcome.{Result, ok, err, Error}
use tool_benchmarks.Transcript.{ParseResult}
use tool_benchmarks.Transcript.Lines.{Decoder}
use tool_benchmarks.Parsers.Pending.{Origin}
use tool_benchmarks.Adapters.{composed_parse}
use tool_benchmarks.Sources.{
  Attempt, returns, raises, ◌>>=◌, Class, missing_source_export, non_transcript_export,
  runtime_error, unknown_schema, ambiguous_schema, value_error, other, SessionRef,
}
use tool_benchmarks.Sources.Listing.{CompletedProcess, Runner, succeeded}

-- The character with code 0 in a text: `"\x00" in sample`
unfoldable pub looks_binary : String → Bool
looks_binary String.[] = false
looks_binary (String.◌∷◌ c s) = eqb (code c) 0 || looks_binary s

abbrev pub sniff_len : ℕ
sniff_len = 8192

-- `fragment in text`
unfoldable pub has_text : String → String → Bool
has_text fragment String.[] = startswith fragment ""
has_text fragment (String.◌∷◌ c s) = startswith fragment (String.◌∷◌ c s) || has_text fragment s

-- What the loaders and the adapters ask of the rest of the system: whether a path exists, whether its
-- first bytes hold a NUL, its lines, and a session of hermes.
pub record Store : Type 0 where
  pub exists : String → Bool
  pub path_looks_binary : String → Attempt Bool
  pub lines_of : String → Attempt (List String)
  pub parse_hermes_session : SessionRef → Attempt ParseResult
  pub message_of : Error → String

abbrev fault {ℓ} : {A : Type ℓ} → Class → String → Attempt A
fault class text = raises (record { class = class; text = text })

module _ (store : Store) where
  open store use {exists, path_looks_binary, lines_of, parse_hermes_session, message_of}

  -- `RawFileLoader.lines`
  unfoldable pub raw_lines : String → Attempt (List String)
  raw_lines path =
      if exists path
      then (path_looks_binary path >>= λ binary.
          if binary
          then fault non_transcript_export ("non-transcript payload (binary content): " <> path)
          else lines_of path)
      else fault missing_source_export ("source file not found: " <> path)

  abbrev export_failed_text : CompletedProcess → String
  export_failed_text proc =
      "agentsview session export failed (" <> show_ℤ proc.returncode <> "): " <> strip proc.stderr

  exported_lines : CompletedProcess → Attempt (List String)
  exported_lines proc =
      if not (succeeded proc)
      then (if has_text "source file not found" proc.stderr
          then fault missing_source_export (export_failed_text proc)
          else fault runtime_error (export_failed_text proc))
      else if looks_binary (take_chars sniff_len proc.stdout)
      then fault non_transcript_export "non-transcript payload (binary content) from session export"
      else returns (kept_lines proc.stdout)

  -- `AgentsViewLoader.lines`
  unfoldable pub exported : Runner → String → Attempt (List String)
  unfolding exported_lines
  exported runner session_id = do
    proc ← runner ("agentsview" ∷ "session" ∷ "export" ∷ session_id ∷ [])
    exported_lines proc

  -- `ComposedAdapter._loader` and the lines of the loader that it picks
  unfoldable pub session_lines : Runner → SessionRef → Attempt (List String)
  session_lines runner ref = elim ref.path [
    | some path ↦ raw_lines path
    | none ↦ exported runner ref.session_id
  ]

  -- The class of an exception of a parser
  unfoldable pub class_of : Error → Class
  class_of Error.unknown_schema = unknown_schema
  class_of Error.ambiguous_schema = ambiguous_schema
  class_of Error.turn_key_error = value_error
  class_of Error.value_error = value_error
  class_of Error.worktree_probe_failed = runtime_error
  class_of _ = other

  unfoldable pub attempt_of : Result ParseResult → Attempt ParseResult
  attempt_of (ok result) = returns result
  attempt_of (err e) = fault (class_of e) (message_of e)

  abbrev pub origin_of : SessionRef → Origin
  origin_of ref = record { agent = ref.agent; source = ref.source; project = ref.project }

  -- `ComposedAdapter.parse`
  unfoldable pub composed : Decoder → Runner → SessionRef → Attempt ParseResult
  unfolding attempt_of
  composed loads runner ref = do
    lines ← session_lines runner ref
    attempt_of (composed_parse (origin_of ref) loads lines)

  -- `HermesAdapter.claims`
  unfoldable pub hermes_claims : SessionRef → Bool
  hermes_claims ref = ref.agent == "hermes" && not (is_some ref.path)

  -- `pick_adapter(ref, runner).parse(ref)`: the adapter of hermes is asked first, the composed one
  -- claims everything.
  unfoldable pub parse_ref : Decoder → Runner → SessionRef → Attempt ParseResult
  parse_ref loads runner ref =
      if hermes_claims ref then parse_hermes_session ref else composed loads runner ref
