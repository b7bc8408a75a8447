-- ===== src/Reducer/Run/Conservation.antt =====
-- Where the tokens of a candidate session go: to the run, to `unattributed` or to `detached`.
use tool_benchmarks.Base.{◌+◌, ◌≡◌, refl, ◌∙◌, ap, String, Bool, true, not, ◌||◌}
use tool_benchmarks.Base.{Option, none, some, [], ◌∷◌, arith, contains, string_eq, ◌==◌, All, ◌⊎◌}
use tool_benchmarks.Base.{if◌then◌else◌, Bool-cases, inl, inr}
use tool_benchmarks.Base.Dict.{Dict, lookup, NodupKeys}
use tool_benchmarks.Base.Int.{pos, ◌+ℤ◌, int_laws}
use tool_benchmarks.Transcript.{BranchUsage, no_usage, detached_branch, ParseResult}
use tool_benchmarks.Transcript.Totals.{plus, minus, total, minus-plus, minus-plus_self}
use tool_benchmarks.Manifest.{RunManifest, worktree_for}
use tool_benchmarks.Reducer.Run.{
  RunStats, is_zero, spent_anything, claim, claim_detached, book_detached, fold_if_claimed,
  fold_branch, fold_branches, see_branches, has_run_branch, detached_bucket, absorb_candidate,
  absorb_run,
}
use tool_benchmarks.Reducer.Run.Booked.{
  booked_read, booked_creation, Booked, bucket, IsCounted, idle_zero, counted_nonzero, Booked-trans,
  Booked-plus, IsClaim, IsClaim-plus, not_skipped, books_sum,
}

module _ (expanduser : String → String) (m : RunManifest) where
  Booked-claim :
      (d : Dict String BranchUsage) (claimed : BranchUsage) (s : RunStats)
      → Booked s (claim_detached expanduser m d (claimed, s)).1 (pos 0) (pos 0)
  unfolding claim_detached
  Booked-claim [] claimed s = omega int_laws
  Booked-claim ((cwd, u) ∷ d) claimed s =
      elim (worktree_for expanduser m cwd)
        as (λ w.
          Booked s (claim_detached expanduser m d (claim w u (claimed, s))).1 (pos 0) (pos 0)) [
            | none ↦ Booked-claim d claimed s
            | some w ↦ Booked-claim d (plus claimed u) _
          ]

  Booked-book :
      (u : BranchUsage) (s : RunStats) → Booked s (book_detached expanduser m u s) u.read u.creation
  unfolding book_detached
  Booked-book u s = elim (Bool-cases (spent_anything u)) [
    | inl spent ↦ rw spent (omega int_laws)
    | inr idle ↦ rw (idle, (idle_zero u idle).0, (idle_zero u idle).1) (omega int_laws)
  ]

  -- What the loop books of a branch bucket: nothing of the detached one, unless the run lists it.
  abbrev counted : String → BranchUsage → BranchUsage
  counted b u = if contains m.branches b then u else if b == detached_branch then no_usage else u

  Booked-branch :
      (b : String) (u : BranchUsage) (s : RunStats)
      → Booked s (fold_branch expanduser m b u s) (counted b u).read (counted b u).creation
  unfolding fold_branch
  Booked-branch b u s = elim (Bool-cases (contains m.branches b)) [
    | inl listed ↦ rw listed (omega int_laws)
    | inr other ↦ elim (Bool-cases (b == detached_branch)) [
      | inl head ↦ rw (other, head) (omega int_laws)
      | inr named ↦ rw (other, named) (omega int_laws)
    ]
  ]

  -- The detached bucket, if the run does not list the detached branch.
  abbrev skipped : BranchUsage → BranchUsage
  skipped u = if contains m.branches detached_branch then no_usage else u

  -- One bucket more is what the loop books of it more.
  counted-cons :
      (b : String) (u : BranchUsage) (d : Dict String BranchUsage)
      → NodupKeys ((b, u) ∷ d)
      → minus (total ((b, u) ∷ d)) (skipped (bucket ((b, u) ∷ d)))
        ≡ plus (counted b u) (minus (total d) (skipped (bucket d)))
  unfolding lookup
  counted-cons b u d n = ground (
    arith,
    minus-plus u (total d) no_usage,
    minus-plus_self u (total d),
    minus-plus u (total d) (bucket d),
  )

  Booked-branches :
      (d : Dict String BranchUsage) (s : RunStats)
      → NodupKeys d
      → let left = minus (total d) (skipped (bucket d)) in
        Booked s (fold_branches expanduser m d s) left.read left.creation
  unfolding fold_branches lookup
  Booked-branches [] s n = elim (Bool-cases (contains m.branches detached_branch)) [
    | inl listed ↦ rw listed (unfold minus in omega int_laws)
    | inr other ↦ rw other (unfold minus in omega int_laws)
  ]
  Booked-branches ((b, u) ∷ d) s n = rw (counted-cons b u d n) (
      Booked-plus s (fold_branch expanduser m b u s)
        (fold_branches expanduser m d (fold_branch expanduser m b u s)) (counted b u)
        (minus (total d) (skipped (bucket d))) (Booked-branch b u s)
        (Booked-branches d (fold_branch expanduser m b u s) n.1))

  Booked-claimed :
      (u : BranchUsage) (s : RunStats)
      → (u ≡ no_usage) ⊎ IsCounted u.messages
      → Booked s (fold_if_claimed expanduser m u s) u.read u.creation
  unfolding fold_if_claimed
  Booked-claimed u s (inl e) = rw e (omega int_laws)
  Booked-claimed u s (inr c) = rw (counted_nonzero u.messages c) (omega int_laws)

  IsClaim-detached :
      (d : Dict String BranchUsage) (claimed : BranchUsage) (s : RunStats)
      → All (λ (e : String × BranchUsage). IsCounted e.1.messages) d
      → IsClaim claimed
      → IsClaim (claim_detached expanduser m d (claimed, s)).0
  unfolding claim_detached
  IsClaim-detached [] claimed s c h = h
  IsClaim-detached ((cwd, u) ∷ d) claimed s c h =
      by_worktree (worktree_for expanduser m cwd) (λ a t. IsClaim-detached d a t c.1)
    where
      by_worktree :
          (w : Option String)
          → ((a : BranchUsage) (t : RunStats)
              → IsClaim a
              → IsClaim (claim_detached expanduser m d (a, t)).0)
          → IsClaim (claim_detached expanduser m d (claim w u (claimed, s))).0
      by_worktree none ih = ih claimed s h
      by_worktree (some w) ih = ih _ _ (IsClaim-plus claimed u h c.0)

  -- The usage that the run's worktrees claim of a session's detached entries
  abbrev pub claimed_usage : ParseResult → RunStats → BranchUsage
  claimed_usage result s =
      (claim_detached expanduser m result.detached_usage_by_cwd (no_usage, s)).0

  -- An entry on a run branch, or a detached entry inside a manifest worktree
  abbrev pub is_candidate : ParseResult → RunStats → Bool
  is_candidate result s =
      has_run_branch expanduser m result.usage_by_branch
      || not (is_zero (claimed_usage result s).messages)

  abbrev seen_candidate : ParseResult → RunStats → RunStats
  seen_candidate result s = record s {
    candidate_sessions = s.candidate_sessions + 1;
    branches_seen = see_branches expanduser m result.usage_by_branch s.branches_seen;
  }

  -- The tokens of a session that no branch is left to carry: its detached ones, or none.
  abbrev left_over : ParseResult → BranchUsage
  left_over result = minus (total result.usage_by_branch) (skipped (bucket result.usage_by_branch))

  Booked-candidate :
      (result : ParseResult) (claimed : BranchUsage) (s : RunStats)
      → NodupKeys result.usage_by_branch
      → IsClaim claimed
      → (has_run_branch expanduser m result.usage_by_branch || not (is_zero claimed.messages))
        ≡ true
      → Booked s
          (absorb_candidate expanduser m result claimed s)
          (claimed.read +ℤ (left_over result).read)
          (claimed.creation +ℤ (left_over result).creation)
  unfolding absorb_candidate
  Booked-candidate result claimed s n c h =
      let t = seen_candidate result s in
      let t' = fold_if_claimed expanduser m claimed t in
      rw
        (not_skipped (has_run_branch expanduser m result.usage_by_branch) (is_zero claimed.messages)
          h)
        (Booked-trans t t' (fold_branches expanduser m result.usage_by_branch t') claimed.read
          claimed.creation (left_over result).read (left_over result).creation
          (Booked-claimed claimed t c) (Booked-branches result.usage_by_branch t' n))

  -- For a candidate session (it has an entry on a run branch, or a detached entry in a listed worktree)
  -- whose branch buckets have different names and whose `cwd` buckets each hold a message, the cache
  -- reads and creations that the statistics hold, added over the run, the unattributed and the detached
  -- part, grow by those of all of the session's branch buckets, each counted once; but if the run lists
  -- the detached branch itself, the detached bucket is counted a second time.
  pub absorb_run-books :
      (result : ParseResult) (s : RunStats)
      → NodupKeys result.usage_by_branch
      → All (λ (e : String × BranchUsage). IsCounted e.1.messages) result.detached_usage_by_cwd
      → is_candidate result s ≡ true
      → let sum = total result.usage_by_branch in
        let again =
          if contains m.branches detached_branch
          then detached_bucket expanduser m result
          else no_usage in
        let s' = absorb_run expanduser m result s in
        (booked_read s' ≡ booked_read s +ℤ (sum.read +ℤ again.read))
        × (booked_creation s' ≡ booked_creation s +ℤ (sum.creation +ℤ again.creation))
  unfolding absorb_run
  absorb_run-books result s n c h =
      let (claimed, s') = claim_detached expanduser m result.detached_usage_by_cwd (no_usage, s) in
      let outside = minus (detached_bucket expanduser m result) claimed in
      let left = left_over result in
      let t = book_detached expanduser m outside s' in
      let v = absorb_candidate expanduser m result claimed t in
      let candidate =
        Booked-candidate result claimed t n
          (IsClaim-detached result.detached_usage_by_cwd no_usage s c (inl refl)) h in
      let booked =
        Booked-trans s s' v (pos 0) (pos 0) (outside.read +ℤ (claimed.read +ℤ left.read))
          (outside.creation +ℤ (claimed.creation +ℤ left.creation))
          (Booked-claim result.detached_usage_by_cwd no_usage s)
          (Booked-trans s' t v outside.read outside.creation (claimed.read +ℤ left.read)
            (claimed.creation +ℤ left.creation) (Booked-book outside s') candidate) in
      let sums =
        books_sum (total result.usage_by_branch) (detached_bucket expanduser m result) claimed
          (contains m.branches detached_branch) in
      (
        booked.0 ∙ ap (λ n. booked_read s +ℤ n) sums.0,
        booked.1 ∙ ap (λ n. booked_creation s +ℤ n) sums.1,
      )
