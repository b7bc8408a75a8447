-- ===== src/Replay.antt =====
-- src/toolbench/replay.py, and how src/toolbench/passive.py resolves its corpus: by a replay of a freeze
-- manifest, or by discovery and a freeze. The text that is printed for a fatal error is left out.
pub mod Frozen
pub mod Restamped
use tool_benchmarks.Base.{
  ℕ, zero, suc, String, ◌<>◌, Bool, true, false, not, ◌&&◌, ◌||◌, Option, none, some, List, [], ◌∷◌,
}
use tool_benchmarks.Base.{contains, select, string_eq, ◌==◌, if◌then◌else◌}
use tool_benchmarks.Base.Sorting.{any}
use tool_benchmarks.Json.{Json}
use tool_benchmarks.Json.Dumps.{show_ℕ}
use tool_benchmarks.Sources.{
  Attempt, returns, raises, running, ◌>>=◌, Class, Fault, file_not_found_error, other,
  is_runtime_error, is_value_error, AgentCensus, SessionRef, SkipRecord,
}
use tool_benchmarks.Sources.Listing.{Runner, Decoded}
use tool_benchmarks.Sources.Discovery.{classify_subagents, no_census}
use tool_benchmarks.Sources.Raw.{Disk}
use tool_benchmarks.Passive.{filter_subagents}
use tool_benchmarks.Passive.Collect.{
  Truncated, Corpus, Selection, scope_of, page_limit, discover_refs,
}
use tool_benchmarks.Freeze.Reader.{CorpusManifest, Reading, reads, refused, crashes}

-- A reference as the live archive classifies it, and whether it could not
abbrev pub restamped : List String → List String → SessionRef → SessionRef × Bool
restamped parents children ref =
    if not (ref.source == "agentsview")
    then (ref, false)
    else if contains children ref.session_id
    then (record ref { is_subagent = true }, false)
    else if contains parents ref.session_id
    then (record ref { is_subagent = false }, false)
    else (ref, true)

abbrev put_restamped : SessionRef × Bool → List SessionRef × ℕ → List SessionRef × ℕ
put_restamped (ref, unclassifiable) (refs, n) = (ref ∷ refs, if unclassifiable then suc n else n)

-- The loop of `_restamp_agentsview_subagents`
unfoldable pub restamp : List String → List String → List SessionRef → List SessionRef × ℕ
restamp parents children [] = ([], 0)
restamp parents children (ref ∷ refs) =
    put_restamped (restamped parents children ref) (restamp parents children refs)

abbrev from_index : SessionRef → Bool
from_index ref = ref.source == "agentsview"

unfoldable pub restamp_note : ℕ → Option String
restamp_note zero = none
restamp_note (suc m) = some (
    "**Subagent flags kept from freeze**: "
    <> show_ℕ (suc m)
    <> " AgentsView ref(s) were absent from the live archive listing and could not be re-classified, so their frozen is_subagent flag was kept; the --exclude-subagents count may rest on stale flags.")

-- What `_resolve_corpus` returns
pub record ResolvedCorpus : Type 0 where
  pub refs : List SessionRef
  pub fallback_reason : Option String
  pub skips : List SkipRecord
  pub census : AgentCensus
  pub limit_truncated : Truncated
  pub frozen_census_note : Option String
  pub restamp_note : Option String

abbrev replay_text : String → String
replay_text freeze_path = "frozen corpus replay (" <> freeze_path <> "): "

abbrev population : Bool → String
population included = if included then "included subagents" else "excluded subagents"

abbrev replayed_population : Bool → String
replayed_population excluded = if excluded then "excludes subagents" else "includes subagents"

abbrev pub historical_note : String → String
historical_note freeze_path =
    "- **Historical denominator**: the archive census above was recorded at freeze time ("
    <> freeze_path
    <> "), not re-measured for this replay. The live archive has almost certainly changed size since -- these fractions describe the corpus as it was WHEN FROZEN, not the archive today."

abbrev same_flag : Bool → Bool → Bool
same_flag true b = b
same_flag false b = not b

-- A census that was taken, under the population that its freeze selected
abbrev usable_census : String → Bool → AgentCensus → Bool → AgentCensus × Option String
usable_census freeze_path excluded census included =
    if same_flag included (not excluded) then (census, some (historical_note freeze_path)) else (
      no_census (
          replay_text freeze_path
          <> "the freeze-time census "
          <> population included
          <> ", but this replay "
          <> replayed_population excluded),
      none,
    )

abbrev filtered_census :
    String → String → Bool → AgentCensus → Option Bool → AgentCensus × Option String
filtered_census freeze_path version excluded census (some included) =
    usable_census freeze_path excluded census included
filtered_census freeze_path version excluded census none = (
  no_census (
      replay_text freeze_path
      <> "manifest format "
      <> version
      <> " recorded a census without its subagent population filter"),
  none,
)

abbrev taken_census :
    String → String → Bool → AgentCensus → Option String → Option Bool → AgentCensus × Option String
taken_census freeze_path version excluded census none includes =
    filtered_census freeze_path version excluded census includes
taken_census freeze_path version excluded census (some reason) includes = (
  no_census (
      replay_text freeze_path
      <> "the census recorded at freeze time was itself unavailable: "
      <> reason),
  none,
)

abbrev recorded_census :
    String → String → Bool → Option AgentCensus → Option Bool → AgentCensus × Option String
recorded_census freeze_path version excluded (some c) includes =
    taken_census freeze_path version excluded c c.unavailable_reason includes
recorded_census freeze_path version excluded none includes = (
  no_census (
      replay_text freeze_path
      <> "manifest format "
      <> version
      <> " recorded no archive census; no denominator was recorded at freeze time"),
  none,
)

-- `_replay_census`, for a run with `--exclude-subagents` or without
unfoldable pub replay_census : String → Bool → CorpusManifest → AgentCensus × Option String
replay_census freeze_path excluded m =
    recorded_census freeze_path m.version excluded m.census m.census_includes_subagents

-- `except (FileNotFoundError, RuntimeError, ValueError)`: the fatal error that is printed
abbrev is_fatal : Class → Bool
is_fatal Class.file_not_found_error = true
is_fatal c = is_runtime_error c || is_value_error c

abbrev or_fatal {ℓ} : {A : Type ℓ} → Attempt (Option A) → Attempt (Option A)
or_fatal (returns a) = returns a
or_fatal (raises e) = if is_fatal e.class then returns none else raises e
or_fatal running = running

module _ (loads : String → Decoded) (fuel : ℕ) (runner : Runner) (disk : Disk) (root : String) where
  -- `_restamp_agentsview_subagents`
  unfoldable pub restamp_subagents : Selection → List SessionRef → Attempt (List SessionRef × ℕ)
  restamp_subagents s refs =
      if not s.exclude_subagents || not (any from_index refs)
      then returns (refs, 0)
      else (classify_subagents loads fuel runner (scope_of s) (page_limit s.limit) >>= λ ids.
          returns (restamp ids.0 ids.1 refs))

  abbrev replayed :
      Selection → String → CorpusManifest → List SessionRef × ℕ → Option ResolvedCorpus
  replayed s freeze_path m (refs, unclassifiable) =
      let (census, note) = replay_census freeze_path s.exclude_subagents m in
      some (record {
        refs = refs;
        fallback_reason = none;
        skips = [];
        census = census;
        limit_truncated = some false;
        frozen_census_note = note;
        restamp_note = restamp_note unclassifiable;
      })

  -- The references of a manifest that pins none are refused.
  abbrev replay_pinned :
      Selection → String → CorpusManifest → List SessionRef → Attempt (Option ResolvedCorpus)
  replay_pinned s freeze_path m [] = returns none
  replay_pinned s freeze_path m refs =
      or_fatal (restamp_subagents s refs >>= λ stamped. returns (replayed s freeze_path m stamped))

  -- The branch of `_resolve_corpus` that replays what `read_manifest` reads
  unfoldable pub replay :
      Selection → String → Reading CorpusManifest → Attempt (Option ResolvedCorpus)
  unfolding restamp_subagents replay_census
  replay s freeze_path (reads m) = replay_pinned s freeze_path m m.refs
  replay s freeze_path (refused r) = returns none
  replay s freeze_path crashes = raises (record { class = other; text = "" })

  abbrev effective : Selection → List SessionRef → List SessionRef
  effective s refs = if s.exclude_subagents then filter_subagents refs else refs

  abbrev discovered : Corpus → ResolvedCorpus
  discovered c = record {
    refs = c.refs;
    fallback_reason = c.fallback_reason;
    skips = c.skips;
    census = c.census;
    limit_truncated = c.limit_truncated;
    frozen_census_note = none;
    restamp_note = none;
  }

  -- A freeze that would scan nothing is refused; `written` is whether the file could be written.
  abbrev freeze_or_refuse : Corpus → Bool → List SessionRef → Option ResolvedCorpus
  freeze_or_refuse c written [] = none
  freeze_or_refuse c written refs = if written then some (discovered c) else none

  abbrev frozen : Selection → Option String → Bool → Corpus → Option ResolvedCorpus
  frozen s none written c = some (discovered c)
  frozen s (some path) written c = freeze_or_refuse c written (effective s c.refs)

  -- The branch of `_resolve_corpus` that discovers and freezes
  unfoldable pub discover : Selection → Option String → Bool → Attempt (Option ResolvedCorpus)
  discover s freeze_path written =
      or_fatal (discover_refs loads fuel runner disk root s >>= λ c. returns (some c)) >>= λ found.
      returns (elim found [ none ↦ none | some c ↦ frozen s freeze_path written c ])
