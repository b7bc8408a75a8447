-- ===== src/Sources/Discovery.antt =====
-- Discovery through AgentsView in src/toolbench/sources.py: the parent probe, the census and the
-- references. `fuel` bounds the pages of one listing. Sets are lists: only membership is asked.
use tool_benchmarks.Base.{
  ℕ, String, ◌<>◌, Bool, true, false, not, ◌||◌, Option, none, some, List, [], ◌∷◌, ◌++◌, map,
}
use tool_benchmarks.Base.{contains, select, string_eq, if◌then◌else◌}
use tool_benchmarks.Base.Dict.{Dict}
use tool_benchmarks.Base.Int.{ℤ, pos}
use tool_benchmarks.Base.Sorting.{set_of, sorted, text_before}
use tool_benchmarks.Sources.{
  Attempt, returns, raises, running, ◌>>=◌, Class, is_runtime_error, is_value_error, Stream, ends,
  yields, fails, working, AgentCensus, SessionRef, value_error,
}
use tool_benchmarks.Sources.Listing.{
  CompletedProcess, Runner, Decoded, Scope, Row, Payload, all_includes, probe_includes, list_argv,
  payload_read, pages, decode_payload, succeeded,
}
use tool_benchmarks.Json.Dumps.{show_ℤ}
use tool_benchmarks.Base.Text.{strip}

-- `[x for page in stream for x in f(page)]`
unfoldable pub drain {ℓ κ} : {A : Type ℓ} {B : Type κ} → (A → List B) → Stream A → Attempt (List B)
drain f ends = returns []
drain f (yields a s) = drain f s >>= λ rest. returns (f a ++ rest)
drain f (fails e) = raises e
drain f working = running

abbrev pub ids_of : Payload → List String
ids_of page = map (λ (r : Row). r.id) page.sessions

abbrev pub agents_of : Payload → List String
agents_of page = map (λ (r : Row). r.agent) page.sessions

abbrev pub rows_of : Payload → List Row
rows_of page = page.sessions

abbrev pub everything : Scope
everything = record { agent = "all"; project = none; since = none }

-- `parent_ids`, and what is left of `ids` without them
abbrev pub without : List String → List String → List String
without parents ids = select (λ id. not (contains parents id)) ids

abbrev pub no_census : String → AgentCensus
no_census reason = record { totals = []; archive_total = pos 0; unavailable_reason = some reason }

-- `except (RuntimeError, ValueError) as exc`, around the census
unfoldable pub or_no_census : Attempt AgentCensus → Attempt AgentCensus
or_no_census (returns c) = returns c
or_no_census (raises e) =
    if is_runtime_error e.class || is_value_error e.class
    then returns (no_census e.text)
    else raises e
or_no_census running = running

abbrev pub row_ref : List String → Row → SessionRef
row_ref parents row = record {
  agent = row.agent;
  source = "agentsview";
  project = row.project;
  session_id = row.id;
  path = none;
  is_subagent = not (contains parents row.id);
}

abbrev pub append_stream {ℓ} : {A : Type ℓ} → List A → Stream A → Stream A
append_stream [] s = s
append_stream (x ∷ xs) s = yields x (append_stream xs s)

-- The loop of `_yield_refs`
unfoldable pub refs_from : List String → Stream Payload → Stream SessionRef
refs_from parents ends = ends
refs_from parents (yields page s) =
    append_stream (map (row_ref parents) page.sessions) (refs_from parents s)
refs_from parents (fails e) = fails e
refs_from parents working = working

module _ (loads : String → Decoded) (fuel : ℕ) (runner : Runner) where
  abbrev pub listing : Scope → ℤ → List String → Stream Payload
  listing scope limit includes = pages loads runner scope limit includes fuel none

  -- The ids and the agents of the rows that the child-excluded listing has
  unfoldable pub probe_pass : Scope → ℤ → Attempt (List Row)
  unfolding drain
  probe_pass scope limit = drain rows_of (listing scope limit probe_includes)

  abbrev pub parent_ids : List Row → List String
  parent_ids rows = map (λ (r : Row). r.id) rows

  abbrev pub agents_seen : List Row → List String
  agents_seen rows = set_of (map (λ (r : Row). r.agent) rows)

  -- `(parent_ids, child_ids)`
  unfoldable pub classify_subagents : Scope → ℤ → Attempt (List String × List String)
  unfolding probe_pass drain
  classify_subagents scope limit = do
    probed ← probe_pass scope limit
    all ← drain ids_of (listing scope limit all_includes)
    returns (parent_ids probed, without (parent_ids probed) all)

  unfoldable pub agent_universe : ℤ → Attempt (List String)
  unfolding drain
  agent_universe limit = drain agents_of (listing everything limit all_includes)

  -- The assertion that a total is there holds, since it was required.
  required : Option ℕ → Attempt ℤ
  required (some n) = returns (pos n)
  required none = raises (record { class = value_error; text = "" })

  unfoldable pub list_total : Scope → List String → Attempt ℤ
  unfolding required
  list_total scope includes = do
    proc ← runner (list_argv scope (pos 1) includes none)
    page ← payload_read loads true proc
    required page.total

  unfoldable pub agent_totals : Scope → List String → List String → Attempt (Dict String ℤ)
  agent_totals scope includes [] = returns []
  agent_totals scope includes (a ∷ agents) = do
    n ← list_total (record scope { agent = a }) includes
    rest ← agent_totals scope includes agents
    returns ((a, n) ∷ rest)

  unfoldable pub agent_census : Scope → List String → List String → Attempt AgentCensus
  unfolding agent_totals list_total
  agent_census scope includes agents = do
    totals ← agent_totals scope includes (sorted text_before agents)
    archive_total ← list_total scope includes
    returns (record { totals = totals; archive_total = archive_total; unavailable_reason = none })

  abbrev pub census_includes : Bool → List String
  census_includes include_subagents = if include_subagents then all_includes else probe_includes

  unfoldable pub discover_agentsview : Scope → ℤ → Bool → Attempt (AgentCensus × Stream SessionRef)
  unfolding probe_pass agent_census or_no_census refs_from
  discover_agentsview scope limit include_subagents = do
    probed ← probe_pass scope limit
    census ←
        or_no_census (agent_census scope (census_includes include_subagents) (agents_seen probed))
    returns (census, refs_from (parent_ids probed) (listing scope limit all_includes))

  -- Why AgentsView is not available, if it is not
  unavailable_of : Attempt CompletedProcess → Attempt (Option String)
  unavailable_of (returns proc) =
      if succeeded proc
      then elim (decode_payload loads false proc.stdout) [
        | returns page ↦ returns none
        | raises e ↦ returns (some e.text)
        | running ↦ running
      ]
      else returns
          (some ("agentsview exited " <> show_ℤ proc.returncode <> ": " <> strip proc.stderr))
  unavailable_of (raises e) = elim e.class [
    | Class.file_not_found_error ↦ returns (some ("agentsview binary not found: " <> e.text))
    | Class.agentsview_timeout ↦ returns (some e.text)
    | _ ↦ raises e
  ]
  unavailable_of running = running

  unfoldable pub probe_agentsview : Attempt (Option String)
  unfolding unavailable_of
  probe_agentsview = unavailable_of (runner (list_argv everything (pos 1) [] none))
