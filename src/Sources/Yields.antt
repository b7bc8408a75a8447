-- ===== src/Sources/Yields.antt =====
-- What the iterators of src/toolbench/sources.py yield: a reference of AgentsView or of the file system,
-- by the source that was asked for.
use tool_benchmarks.Base.{ℕ, ◌≡◌, refl, String, Bool, true, false, Option, none, some}
use tool_benchmarks.Base.{List, [], ◌∷◌, map, is_some}
use tool_benchmarks.Base.{if◌then◌else◌, ◌⊎◌, inl, inr}
use tool_benchmarks.Base.Int.{ℤ}
use tool_benchmarks.Sources.{
  Attempt, returns, raises, running, ◌>>=◌, Fault, Stream, ends, yields, fails, working, SessionRef,
  AgentCensus,
}
use tool_benchmarks.Sources.Listing.{Runner, Decoded, Scope, Row, Payload, all_includes}
use tool_benchmarks.Sources.Discovery.{
  append_stream, row_ref, refs_from, discover_agentsview, probe_agentsview, probe_pass,
  or_no_census, agent_census, census_includes, agents_seen, parent_ids, listing,
}
use tool_benchmarks.Sources.Raw.{
  Disk, SessionFile, project_and_subagent, ref_then, raw_refs_of, raw_session_refs, raw_census,
}
use tool_benchmarks.Sources.Policy.{
  IndexSource, auto, agentsview, raw, Found, from_raw, from_agentsview, from_either, iter_sessions,
}

-- What a call returns, if it returns, has the property.
abbrev pub Returned {ℓ κ} : {A : Type ℓ} → (A → Type κ) → Attempt A → Type κ
Returned P (returns a) = P a
Returned P (raises e) = Unit
Returned P running = Unit

pub Returned-bind {ℓ κ μ ν} :
    {A : Type ℓ} {B : Type κ} (P : A → Type μ) (Q : B → Type ν) (m : Attempt A) (f : A → Attempt B)
    → Returned P m
    → ((a : A) → P a → Returned Q (f a))
    → Returned Q (m >>= f)
Returned-bind P Q (returns a) f h next = next a h
Returned-bind P Q (raises e) f h next = tt
Returned-bind P Q running f h next = tt

-- Where the last step has the property whatever the first one returned
pub Returned-last {ℓ κ ν} :
    {A : Type ℓ} {B : Type κ} (Q : B → Type ν) (m : Attempt A) (f : A → Attempt B)
    → ((a : A) → Returned Q (f a))
    → Returned Q (m >>= f)
Returned-last Q (returns a) f last = last a
Returned-last Q (raises e) f last = tt
Returned-last Q running f last = tt

pub Returned-map {ℓ κ μ} :
    {A : Type ℓ} (P : A → Type κ) (Q : A → Type μ) (m : Attempt A)
    → ((a : A) → P a → Q a)
    → Returned P m
    → Returned Q m
Returned-map P Q (returns a) next h = next a h
Returned-map P Q (raises e) next h = tt
Returned-map P Q running next h = tt

pub Returned-if {ℓ κ} :
    {A : Type ℓ} (Q : A → Type κ) (test : Bool) (m : Attempt A) (e : Fault)
    → Returned Q m
    → Returned Q (if test then m else raises e)
Returned-if Q true m e h = h
Returned-if Q false m e h = tt

-- Every value that an iterator yields has the property.
abbrev pub StreamAll {ℓ κ} : {A : Type ℓ} → (A → Type κ) → Stream A → Type κ
StreamAll P ends = Unit
StreamAll P (yields a s) = P a × StreamAll P s
StreamAll P (fails e) = Unit
StreamAll P working = Unit

-- A reference of AgentsView has no path, one of the file system has one.
abbrev pub IsIndexed : SessionRef → Type 0
IsIndexed ref = (ref.source ≡ "agentsview") × (ref.path ≡ none)

abbrev pub IsFile : SessionRef → Type 0
IsFile ref = (ref.source ≡ "raw") × (is_some ref.path ≡ true)

pub append_stream-IsIndexed :
    (parents : List String) (rows : List Row) (s : Stream SessionRef)
    → StreamAll IsIndexed s
    → StreamAll IsIndexed (append_stream (map (row_ref parents) rows) s)
append_stream-IsIndexed parents [] s h = h
append_stream-IsIndexed parents (row ∷ rows) s h =
    ((refl, refl), append_stream-IsIndexed parents rows s h)

pub refs_from-IsIndexed :
    (parents : List String) (s : Stream Payload) → StreamAll IsIndexed (refs_from parents s)
unfolding refs_from
refs_from-IsIndexed parents ends = tt
refs_from-IsIndexed parents (yields page s) =
    append_stream-IsIndexed parents page.sessions _ (refs_from-IsIndexed parents s)
refs_from-IsIndexed parents (fails e) = tt
refs_from-IsIndexed parents working = tt

pub ref_then-IsFile :
    (file : SessionFile) (m : Attempt (String × Bool)) (rest : Stream SessionRef)
    → StreamAll IsFile rest
    → StreamAll IsFile (ref_then file m rest)
ref_then-IsFile file (returns found) rest h = ((refl, refl), h)
ref_then-IsFile file (raises e) rest h = tt
ref_then-IsFile file running rest h = tt

pub raw_refs_of-IsFile : (files : Stream SessionFile) → StreamAll IsFile (raw_refs_of files)
unfolding raw_refs_of
raw_refs_of-IsFile ends = tt
raw_refs_of-IsFile (yields file files) =
    ref_then-IsFile file (project_and_subagent file.parts) _ (raw_refs_of-IsFile files)
raw_refs_of-IsFile (fails e) = tt
raw_refs_of-IsFile working = tt

-- What a source gives: `auto` reads files only if it names a reason to fall back.
abbrev pub FromSource : IndexSource → Stream SessionRef → Option String → Type 0
FromSource raw refs reason = StreamAll IsFile refs
FromSource agentsview refs reason = StreamAll IsIndexed refs
FromSource auto refs reason =
    StreamAll IsIndexed refs ⊎ (StreamAll IsFile refs × (is_some reason ≡ true))

abbrev pub FilesFound : Option String → Found → Type 0
FilesFound reason f = StreamAll IsFile f.refs × (f.fallback_reason ≡ reason)

abbrev pub DiscoveredIndexed : AgentCensus × Stream SessionRef → Type 0
DiscoveredIndexed p = StreamAll IsIndexed p.1

abbrev pub IndexFound : Found → Type 0
IndexFound f = StreamAll IsIndexed f.refs

abbrev pub SourceFound : IndexSource → Found → Type 0
SourceFound source f = FromSource source f.refs f.fallback_reason

module _ (loads : String → Decoded) (fuel : ℕ) (runner : Runner) (disk : Disk) (root : String) where
  pub from_raw-IsFile :
      (scope : Scope) (include_subagents : Bool) (reason : Option String)
      → Returned
          (FilesFound reason)
          (from_raw loads fuel runner disk root scope include_subagents reason)
  unfolding from_raw raw_session_refs
  from_raw-IsFile scope include_subagents reason =
      Returned-last (FilesFound reason)
        (raw_census disk root scope.project scope.since include_subagents) _
        (λ census. (raw_refs_of-IsFile _, refl))

  pub discover_agentsview-IsIndexed :
      (scope : Scope) (limit : ℤ) (include_subagents : Bool)
      → Returned DiscoveredIndexed
          (discover_agentsview loads fuel runner scope limit include_subagents)
  unfolding discover_agentsview
  discover_agentsview-IsIndexed scope limit include_subagents =
      Returned-last DiscoveredIndexed (probe_pass loads fuel runner scope limit) _ λ probed.
        Returned-last DiscoveredIndexed
          (or_no_census (
            agent_census loads fuel runner scope
              (census_includes loads fuel runner include_subagents)
              (agents_seen loads fuel runner probed)))
          _
          λ census.
            refs_from-IsIndexed (parent_ids loads fuel runner probed)
              (listing loads fuel runner scope limit all_includes)

  pub from_agentsview-IsIndexed :
      (scope : Scope) (limit : ℤ) (include_subagents : Bool)
      → Returned IndexFound
          (from_agentsview loads fuel runner disk root scope limit include_subagents)
  unfolding from_agentsview
  from_agentsview-IsIndexed scope limit include_subagents =
      Returned-bind DiscoveredIndexed IndexFound
        (discover_agentsview loads fuel runner scope limit include_subagents) _
        (discover_agentsview-IsIndexed scope limit include_subagents) (λ p h. h)

  pub iter_sessions-FromSource :
      (source : IndexSource) (scope : Scope) (limit : ℤ) (include_subagents : Bool)
      → Returned
          (SourceFound source)
          (iter_sessions loads fuel runner disk root source scope limit include_subagents)
  unfolding iter_sessions
  iter_sessions-FromSource raw scope limit include_subagents =
      Returned-map (FilesFound none) (SourceFound raw) _ (λ f h. h.0)
        (from_raw-IsFile scope include_subagents none)
  iter_sessions-FromSource agentsview scope limit include_subagents =
      from_agentsview-IsIndexed scope limit include_subagents
  iter_sessions-FromSource auto scope limit include_subagents =
      Returned-last (SourceFound auto) (probe_agentsview loads fuel runner) _ either
    where
      either :
          (reason : Option String)
          → Returned
              (SourceFound auto)
              (from_either loads fuel runner disk root scope limit include_subagents reason)
      either none =
          Returned-map IndexFound (SourceFound auto) _ (λ f h. inl h)
            (from_agentsview-IsIndexed scope limit include_subagents)
      either (some reason) =
          Returned-map (FilesFound (some reason)) (SourceFound auto) _ (λ f h. inr (h.0, rw h.1))
            (from_raw-IsFile scope include_subagents (some reason))
