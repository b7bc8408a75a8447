-- ===== src/Passive/Unspliced.antt =====
-- The references that discovery in src/toolbench/passive.py gives come from one source.
use tool_benchmarks.Base.{ℕ, suc, ◌≤◌, ◌-◌, ◌≡◌, refl, String, Bool, true, not, Option, none, some}
use tool_benchmarks.Base.{List, [], arith, length, All, is_some}
use tool_benchmarks.Base.{Bool-cases, ◌⊎◌, inl, inr}
use tool_benchmarks.Sources.{
  Attempt, returns, raises, running, Class, Fault, Stream, ends, yields, fails, working, SessionRef,
}
use tool_benchmarks.Sources.Listing.{Runner, Decoded}
use tool_benchmarks.Sources.Raw.{Disk}
use tool_benchmarks.Sources.Policy.{IndexSource, auto, agentsview, raw, iter_sessions}
use tool_benchmarks.Passive.Collect.{
  Truncated, probe_truncation, collect_from, collect_refs, Corpus, Selection, scope_of, page_limit,
  reason_bound, found_in, limit_reached, found_by, degraded, is_broken, recovered, recover,
  or_recover, discover_refs,
}
use tool_benchmarks.Base.Int.{ℤ}
use tool_benchmarks.Passive.Limit.{at_least_one, at_least_one_pos, reached-at_least_one}
use tool_benchmarks.Sources.Yields.{
  Returned, Returned-bind, Returned-last, Returned-map, Returned-if, StreamAll, IsIndexed, IsFile,
  FromSource, SourceFound, iter_sessions-FromSource,
}

-- At most `limit` references, `taken` of them before these; but a limit that is reached before the
-- first is noticed after it.
abbrev Within : Option ℤ → ℕ → List SessionRef → Type 0
Within none taken refs = Unit
Within (some limit) taken refs = length refs ≤ suc (at_least_one limit - suc taken)

collect_from-All :
    (P : SessionRef → Type 0) (limit : Option ℤ) (exclude_subagents : Bool) (taken : ℕ)
    (s : Stream SessionRef)
    → StreamAll P s
    → Returned
        (λ (found : List SessionRef × Truncated). All P found.0 × Within limit taken found.0)
        (collect_from limit exclude_subagents taken s)
unfolding collect_from
collect_from-All P none ex taken ends h = (tt, tt)
collect_from-All P (some n) ex taken ends h = (tt, omega arith)
collect_from-All P none ex taken (yields ref s) h =
    Returned-bind _ _ (collect_from none ex (suc taken) s) _
      (collect_from-All P none ex (suc taken) s h.1) (λ found k. ((h.0, k.0), tt))
collect_from-All P (some n) ex taken (yields ref s) h =
    elim (Bool-cases (limit_reached (some n) (suc taken))) [
      | inl full ↦
          rw full
            (Returned-last _ (probe_truncation ex s) _ (λ truncated. ((h.0, tt), omega arith)))
      | inr room ↦ rw room (
          Returned-bind _ _ (collect_from (some n) ex (suc taken) s) _
            (collect_from-All P (some n) ex (suc taken) s h.1)
            (λ found k.
              ((h.0, k.0), let fits = k.1 in ground (arith, fits, reached-at_least_one n taken))))
    ]
collect_from-All P limit ex taken (fails e) h = tt
collect_from-All P limit ex taken working h = tt

-- The same of the references that were collected, which are no more than the limit.
abbrev pub OneSource : IndexSource → List SessionRef → Option String → Type 0
OneSource raw refs reason = All IsFile refs
OneSource agentsview refs reason = All IsIndexed refs
OneSource auto refs reason = All IsIndexed refs ⊎ (All IsFile refs × (is_some reason ≡ true))

abbrev pub AtMost : Option ℤ → List SessionRef → Type 0
AtMost none refs = Unit
AtMost (some limit) refs = length refs ≤ at_least_one limit

AtMost-Within :
    (limit : Option ℤ) (refs : List SessionRef) → Within limit 0 refs → AtMost limit refs
AtMost-Within none refs h = tt
AtMost-Within (some n) refs h = omega (arith, at_least_one_pos n)

abbrev pub FromOne : IndexSource → Option ℤ → Corpus → Type 0
FromOne source limit c = OneSource source c.refs c.fallback_reason × AtMost limit c.refs

collect_refs-OneSource :
    (source : IndexSource) (limit : Option ℤ) (exclude_subagents : Bool) (s : Stream SessionRef)
    (reason : Option String)
    → FromSource source s reason
    → Returned
        (λ (p : List SessionRef × Truncated). OneSource source p.0 reason × AtMost limit p.0)
        (collect_refs limit exclude_subagents s)
unfolding collect_refs
collect_refs-OneSource raw limit ex s reason h =
    Returned-map _ _ (collect_from limit ex 0 s) (λ p k. (k.0, AtMost-Within limit p.0 k.1))
      (collect_from-All IsFile limit ex 0 s h)
collect_refs-OneSource agentsview limit ex s reason h =
    Returned-map _ _ (collect_from limit ex 0 s) (λ p k. (k.0, AtMost-Within limit p.0 k.1))
      (collect_from-All IsIndexed limit ex 0 s h)
collect_refs-OneSource auto limit ex s reason (inl h) =
    Returned-map _ _ (collect_from limit ex 0 s) (λ p k. (inl k.0, AtMost-Within limit p.0 k.1))
      (collect_from-All IsIndexed limit ex 0 s h)
collect_refs-OneSource auto limit ex s reason (inr (h, named)) =
    Returned-map _ _ (collect_from limit ex 0 s)
      (λ p k. (inr (k.0, named), AtMost-Within limit p.0 k.1))
      (collect_from-All IsFile limit ex 0 s h)

module _ (loads : String → Decoded) (fuel : ℕ) (runner : Runner) (disk : Disk) (root : String) where
  found_by-FromOne :
      (source : IndexSource) (s : Selection)
      → Returned (FromOne source s.limit) (found_by loads fuel runner disk root source s)
  unfolding found_by
  found_by-FromOne source s =
      Returned-bind (SourceFound source) (FromOne source s.limit)
        (iter_sessions loads fuel runner disk root source (scope_of s) (page_limit s.limit)
          (not s.exclude_subagents))
        _
        (iter_sessions-FromSource loads fuel runner disk root source (scope_of s)
          (page_limit s.limit) (not s.exclude_subagents))
        λ found h.
          Returned-bind
            (λ (p : List SessionRef × Truncated).
              OneSource source p.0 found.fallback_reason × AtMost s.limit p.0)
            (FromOne source s.limit) (collect_refs s.limit s.exclude_subagents found.refs) _
            (collect_refs-OneSource source s.limit s.exclude_subagents found.refs
              found.fallback_reason h)
            (λ p k. k)

  degraded-Unspliced :
      (s : Selection) (e : Fault)
      → Returned (FromOne auto s.limit) (degraded loads fuel runner disk root s e)
  unfolding degraded
  degraded-Unspliced s e =
      Returned-bind (FromOne raw s.limit) (FromOne auto s.limit)
        (found_by loads fuel runner disk root raw s) _ (found_by-FromOne raw s)
        (λ c h. (inr (h.0, refl), h.1))

  AtMost-nil : (limit : Option ℤ) → AtMost limit []
  AtMost-nil none = tt
  AtMost-nil (some n) = omega arith

  recovered-Unspliced :
      (class : Class) (reason : Option String) (s : Selection) (e : Fault)
      → Returned (FromOne auto s.limit) (recovered loads fuel runner disk root class reason s e)
  recovered-Unspliced Class.file_not_found_error reason s e = (inl tt, AtMost-nil s.limit)
  recovered-Unspliced class reason s e =
      Returned-if (FromOne auto s.limit) (is_broken loads fuel runner disk root class)
        (degraded loads fuel runner disk root s e) e (degraded-Unspliced s e)

  recover-Unspliced :
      (source : IndexSource) (reason : Option String) (s : Selection) (e : Fault)
      → Returned (FromOne source s.limit) (recover loads fuel runner disk root source reason s e)
  recover-Unspliced auto reason s e = recovered-Unspliced e.class reason s e
  recover-Unspliced agentsview reason s e = tt
  recover-Unspliced raw reason s e = tt

  or_recover-Unspliced :
      (reason : Option String) (s : Selection) (m : Attempt Corpus)
      → Returned (FromOne s.index_source s.limit) m
      → Returned
          (FromOne s.index_source s.limit)
          (or_recover loads fuel runner disk root reason s m)
  or_recover-Unspliced reason s (returns c) h = h
  or_recover-Unspliced reason s (raises e) h = recover-Unspliced s.index_source reason s e
  or_recover-Unspliced reason s running h = tt

  -- If discovery returns, then its references are all of AgentsView or all of the file system, never a
  -- part of each, also where a listing broke half-way: of AgentsView where it was asked for, of the
  -- file system where that was asked for, and under `auto` of the file system only if the corpus
  -- names a reason to fall back. There are no more of them than the limit, or than one if
  -- the limit is below 1.
  pub discover_refs-Unspliced :
      (s : Selection)
      → Returned (FromOne s.index_source s.limit) (discover_refs loads fuel runner disk root s)
  unfolding discover_refs
  discover_refs-Unspliced s =
      or_recover-Unspliced (reason_bound (found_in loads fuel runner disk root s.index_source s)) s
        (found_by loads fuel runner disk root s.index_source s) (found_by-FromOne s.index_source s)
