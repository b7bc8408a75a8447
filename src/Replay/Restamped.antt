-- ===== src/Replay/Restamped.antt =====
-- The two ways in which src/toolbench classifies subagents, at discovery and at a replay, agree.
use tool_benchmarks.Base.{
  ◌≡◌, refl, ap, ◌∙◌, sym, String, Bool, true, false, not, List, [], ◌∷◌, ◌++◌, map, ℕ, arith,
}
use tool_benchmarks.Base.{contains, string_eq, eq_self, Bool-cases, inl, inr, All}
use tool_benchmarks.Base.Membership.{contains-select}
use tool_benchmarks.Base.Int.{ℤ}
use tool_benchmarks.Sources.{
  Attempt, returns, raises, running, ◌>>=◌, Stream, ends, yields, fails, working, AgentCensus,
  SessionRef, returns_inj, >>=-eq-returns, >>=-returns, >>=-assoc,
}
use tool_benchmarks.Sources.Listing.{Runner, Decoded, Scope, Row, Payload, all_includes}
use tool_benchmarks.Sources.Discovery.{
  drain, ids_of, rows_of, without, row_ref, append_stream, refs_from, listing, parent_ids,
  probe_pass, classify_subagents, discover_agentsview, or_no_census, agent_census, census_includes,
  agents_seen,
}
use tool_benchmarks.Replay.{restamped, restamp}

abbrev pub one {ℓ} : {A : Type ℓ} → A → List A
one x = x ∷ []

abbrev id_of : Row → String
id_of row = row.id

row_restamped :
    (parents ids : List String) (row : Row)
    → contains ids row.id ≡ true
    → restamped parents (without parents ids) (row_ref parents row) ≡ (row_ref parents row, false)
row_restamped parents ids row listed = elim (Bool-cases (contains parents row.id)) [
  | inl parent ↦ rw (here, eq_self {A = String} "agentsview", parent)
  | inr child ↦ rw (here, eq_self {A = String} "agentsview", child)
]
  where
    here : contains (without parents ids) row.id ≡ not (contains parents row.id)
    here = rw (contains-select (λ id. not (contains parents id)) ids row.id, listed)

abbrev Listed : List String → List Row → Type 0
Listed ids rows = All (λ (row : Row). contains ids row.id ≡ true) rows

Listed-cons :
    (i : String) (ids : List String) (rows : List Row) → Listed ids rows → Listed (i ∷ ids) rows
Listed-cons i ids [] h = tt
Listed-cons i ids (row ∷ rows) h = (ground arith, Listed-cons i ids rows h.1)

Listed-ids : (rows : List Row) → Listed (map id_of rows) rows
Listed-ids [] = tt
Listed-ids (row ∷ rows) =
    (rw (eq_self row.id), Listed-cons row.id (map id_of rows) rows (Listed-ids rows))

restamp-rows :
    (parents ids : List String) (rows : List Row)
    → Listed ids rows
    → restamp parents (without parents ids) (map (row_ref parents) rows)
      ≡ (map (row_ref parents) rows, 0)
unfolding restamp
restamp-rows parents ids [] h = refl
restamp-rows parents ids (row ∷ rows) h =
    rw (row_restamped parents ids row h.0, restamp-rows parents ids rows h.1)

map-append : {A B : Type 0} (f : A → B) (xs ys : List A) → map f (xs ++ ys) ≡ map f xs ++ map f ys
map-append f [] ys = refl
map-append f (x ∷ xs) ys = ap (λ l. f x ∷ l) (map-append f xs ys)

-- What is drained from the references, and the ids, are those of the rows.
drain-append_stream :
    {A : Type 0} (xs : List A) (s : Stream A)
    → drain one (append_stream xs s) ≡ (drain one s >>= λ rest. returns (xs ++ rest))
unfolding drain
drain-append_stream [] s = sym (>>=-returns (drain one s))
drain-append_stream (x ∷ xs) s = rw (drain-append_stream xs s) (>>=-assoc (drain one s) _ _)

regroup :
    {A B : Type 0} (f : A → B) (xs : List A) (m : Attempt (List A))
    → (m >>= λ ys. returns (map f ys)) >>= (λ ys. returns (map f xs ++ ys))
      ≡ ((m >>= λ ys. returns (xs ++ ys)) >>= λ ys. returns (map f ys))
regroup f xs (returns ys) = ap returns (sym (map-append f xs ys))
regroup f xs (raises e) = refl
regroup f xs running = refl

drain-refs_from :
    (parents : List String) (s : Stream Payload)
    → drain one (refs_from parents s)
      ≡ (drain rows_of s >>= λ rows. returns (map (row_ref parents) rows))
unfolding drain refs_from
drain-refs_from parents ends = refl
drain-refs_from parents (yields page s) =
    drain-append_stream (map (row_ref parents) page.sessions) (refs_from parents s)
    ∙ rw (drain-refs_from parents s) (regroup (row_ref parents) page.sessions (drain rows_of s))
drain-refs_from parents (fails e) = refl
drain-refs_from parents working = refl

drain-ids_of :
    (s : Stream Payload) → drain ids_of s ≡ (drain rows_of s >>= λ rows. returns (map id_of rows))
unfolding drain
drain-ids_of ends = refl
drain-ids_of (yields page s) = rw (drain-ids_of s) (regroup id_of page.sessions (drain rows_of s))
drain-ids_of (fails e) = refl
drain-ids_of working = refl

restamp_same :
    (s : Stream Payload) (stamped : List String) (refs : List SessionRef)
    (parents ids children : List String)
    → drain one (refs_from stamped s) ≡ returns refs
    → drain ids_of s ≡ returns ids
    → stamped ≡ parents
    → children ≡ without parents ids
    → restamp parents children refs ≡ (refs, 0)
restamp_same s stamped refs parents ids children drained listed same rest =
    let (rows, read, refs_are) =
      >>=-eq-returns (drain rows_of s) _ (sym (drain-refs_from stamped s) ∙ drained) in
    let ids_are : map id_of rows ≡ ids = returns_inj (rw read at (sym (drain-ids_of s) ∙ listed)) in
    rw (rest, ← ids_are, ← returns_inj refs_are, same)
      (restamp-rows parents (map id_of rows) rows (Listed-ids rows))

module _ (loads : String → Decoded) (fuel : ℕ) (runner : Runner) where
  discovered_stream :
      (scope : Scope) (limit : ℤ) (include_subagents : Bool) (census : AgentCensus)
      (stream : Stream SessionRef)
      → discover_agentsview loads fuel runner scope limit include_subagents
        ≡ returns (census, stream)
      → (probed : List Row) × (probe_pass loads fuel runner scope limit ≡ returns probed)
        × (refs_from
              (parent_ids loads fuel runner probed)
              (listing loads fuel runner scope limit all_includes)
            ≡ stream)
  unfolding discover_agentsview
  discovered_stream scope limit include_subagents census stream found =
      let (probed, hp, after) = >>=-eq-returns (probe_pass loads fuel runner scope limit) _ found in
      let (_, _, last) =
        >>=-eq-returns
          (or_no_census (
            agent_census loads fuel runner scope
              (census_includes loads fuel runner include_subagents)
              (agents_seen loads fuel runner probed)))
          _ after in
      (probed, hp, ap (λ (p : AgentCensus × Stream SessionRef). p.1) (returns_inj last))

  classified_ids :
      (scope : Scope) (limit : ℤ) (parents children : List String)
      → classify_subagents loads fuel runner scope limit ≡ returns (parents, children)
      → (probed : List Row) × (ids : List String) × (probe_pass loads fuel runner scope limit
          ≡ returns probed)
        × (drain ids_of (listing loads fuel runner scope limit all_includes) ≡ returns ids)
        × (parent_ids loads fuel runner probed ≡ parents)
        × (children ≡ without parents ids)
  unfolding classify_subagents
  classified_ids scope limit parents children asked =
      let (probed, hp, after) = >>=-eq-returns (probe_pass loads fuel runner scope limit) _ asked in
      let (ids, hi, last) =
        >>=-eq-returns (drain ids_of (listing loads fuel runner scope limit all_includes)) _
          after in
      let are_parents = ap (λ (p : List String × List String). p.0) (returns_inj last) in
      let are_children = ap (λ (p : List String × List String). p.1) (returns_inj last) in
      (probed, ids, hp, hi, are_parents, sym are_children ∙ ap (λ p. without p ids) are_parents)

  -- The references that discovery through AgentsView gives are flagged as the archive classifies them:
  -- if the same archive is asked again, then a restamp leaves all of them as they are and finds none
  -- that it cannot classify.
  pub restamp-discovered :
      (scope : Scope) (limit : ℤ) (include_subagents : Bool) (census : AgentCensus)
      (stream : Stream SessionRef) (refs : List SessionRef) (parents children : List String)
      → discover_agentsview loads fuel runner scope limit include_subagents
        ≡ returns (census, stream)
      → drain one stream ≡ returns refs
      → classify_subagents loads fuel runner scope limit ≡ returns (parents, children)
      → restamp parents children refs ≡ (refs, 0)
  restamp-discovered scope limit include_subagents census stream refs parents children found drained
        asked =
      let (probed, hp, same_stream) =
        discovered_stream scope limit include_subagents census stream found in
      let (probed', ids, hp', listed, are_parents, are_children) =
        classified_ids scope limit parents children asked in
      restamp_same (listing loads fuel runner scope limit all_includes)
        (parent_ids loads fuel runner probed) refs parents ids children
        (ap (drain one) same_stream ∙ drained) listed
        (ap (parent_ids loads fuel runner) (returns_inj (sym hp ∙ hp')) ∙ are_parents) are_children
