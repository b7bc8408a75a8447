-- ===== src/Reducer/Run/Seen.antt =====
-- The sets of branches and worktrees of `RunStats` in src/toolbench/reducer.py.
use tool_benchmarks.Base.{
  ◌≡◌, refl, ap, ◌∙◌, String, Bool, true, false, not, ◌&&◌, ◌||◌, Option, none, some,
}
use tool_benchmarks.Base.{List, [], ◌∷◌, contains, string_eq, ◌==◌, arith, Bool-cases, inl, inr}
use tool_benchmarks.Base.Dict.{Dict}
use tool_benchmarks.Transcript.{BranchUsage, no_usage, ParseResult}
use tool_benchmarks.Transcript.Totals.{minus}
use tool_benchmarks.Manifest.{RunManifest, worktree_for}
use tool_benchmarks.Reducer.Run.{
  RunStats, add_seen, claim, claim_detached, book_detached, fold_if_claimed, fold_branch,
  fold_branches, fold_claimed, see_branches, has_run_branch, detached_bucket, absorb_candidate,
  absorb_run, spent_anything, is_zero,
}

contains-add_seen :
    (x : String) (s : List String) (y : String)
    → contains (add_seen x s) y ≡ (y == x || contains s y)
contains-add_seen x s y = ground arith

-- Whether usage stands under a branch
abbrev pub is_on : String → Dict String BranchUsage → Bool
is_on b [] = false
is_on b ((branch, _) ∷ d) = b == branch || is_on b d

abbrev is_some_equal : String → Option String → Bool
is_some_equal w none = false
is_some_equal w (some x) = w == x

claim-branches :
    (o : Option String) (u : BranchUsage) (st : BranchUsage × RunStats)
    → (claim o u st).1.branches_seen ≡ st.1.branches_seen
claim-branches none u st = refl
claim-branches (some w) u st = refl

claim-worktrees :
    (w : String) (o : Option String) (u : BranchUsage) (st : BranchUsage × RunStats)
    → contains (claim o u st).1.worktrees_seen w
      ≡ (is_some_equal w o || contains st.1.worktrees_seen w)
claim-worktrees w none u st = refl
claim-worktrees w (some x) u st = contains-add_seen x st.1.worktrees_seen w

and_not-true : (a b : Bool) → (not a && b) ≡ true → a ≡ false
and_not-true false b h = refl
and_not-true true b h = cc

module _ (expanduser : String → String) (m : RunManifest) where
  -- Whether a worktree claims usage of a working directory
  abbrev pub is_claimed_by : String → Dict String BranchUsage → Bool
  is_claimed_by w [] = false
  is_claimed_by w ((cwd, _) ∷ d) =
      is_some_equal w (worktree_for expanduser m cwd) || is_claimed_by w d

  differs :
      (b branch : String)
      → contains m.branches b ≡ true
      → contains m.branches branch ≡ false
      → (b == branch) ≡ false
  differs b branch h other = ground arith

  claim_detached-branches :
      (d : Dict String BranchUsage) (st : BranchUsage × RunStats)
      → (claim_detached expanduser m d st).1.branches_seen ≡ st.1.branches_seen
  unfolding claim_detached
  claim_detached-branches [] st = refl
  claim_detached-branches ((cwd, u) ∷ d) st =
      claim_detached-branches d (claim (worktree_for expanduser m cwd) u st)
      ∙ claim-branches (worktree_for expanduser m cwd) u st

  claim_detached-worktrees :
      (w : String) (d : Dict String BranchUsage) (st : BranchUsage × RunStats)
      → contains (claim_detached expanduser m d st).1.worktrees_seen w
        ≡ (contains st.1.worktrees_seen w || is_claimed_by w d)
  unfolding claim_detached
  claim_detached-worktrees w [] st = ground arith
  claim_detached-worktrees w ((cwd, u) ∷ d) st = ground (
    arith,
    claim_detached-worktrees w d (claim (worktree_for expanduser m cwd) u st),
    claim-worktrees w (worktree_for expanduser m cwd) u st,
  )

  see_branches-contains :
      (b : String) (d : Dict String BranchUsage) (seen : List String)
      → contains m.branches b ≡ true
      → contains (see_branches expanduser m d seen) b ≡ (contains seen b || is_on b d)
  unfolding see_branches
  see_branches-contains b [] seen h = ground arith
  see_branches-contains b ((branch, u) ∷ d) seen h =
      elim (Bool-cases (contains m.branches branch)) [
        | inl known ↦ rw known (
            ground (
              arith,
              see_branches-contains b d (add_seen branch seen) h,
              contains-add_seen branch seen b,
            ))
        | inr other ↦
            rw other (ground (arith, see_branches-contains b d seen h, differs b branch h other))
      ]

  -- The run's sets of branches and worktrees are those of other statistics.
  abbrev SameSeen : RunStats → RunStats → Type 0
  SameSeen s s' = (s.branches_seen ≡ s'.branches_seen) × (s.worktrees_seen ≡ s'.worktrees_seen)

  fold_branch-SameSeen :
      (branch : String) (u : BranchUsage) (s : RunStats)
      → SameSeen (fold_branch expanduser m branch u s) s
  unfolding fold_branch
  fold_branch-SameSeen branch u s = ground arith

  fold_branches-SameSeen :
      (d : Dict String BranchUsage) (s : RunStats) → SameSeen (fold_branches expanduser m d s) s
  unfolding fold_branches
  fold_branches-SameSeen [] s = (refl, refl)
  fold_branches-SameSeen ((branch, u) ∷ d) s =
      let (a, b) = fold_branches-SameSeen d (fold_branch expanduser m branch u s) in
      let (a', b') = fold_branch-SameSeen branch u s in (a ∙ a', b ∙ b')

  book_detached-SameSeen :
      (u : BranchUsage) (s : RunStats) → SameSeen (book_detached expanduser m u s) s
  unfolding book_detached
  book_detached-SameSeen u s = elim (Bool-cases (spent_anything u)) [
    | inl spent ↦ rw spent (refl, refl)
    | inr idle ↦ rw idle (refl, refl)
  ]

  fold_if_claimed-SameSeen :
      (u : BranchUsage) (s : RunStats) → SameSeen (fold_if_claimed expanduser m u s) s
  unfolding fold_if_claimed fold_claimed
  fold_if_claimed-SameSeen u s = elim (Bool-cases (is_zero u.messages)) [
    | inl none_claimed ↦ rw none_claimed (refl, refl)
    | inr claimed ↦ rw claimed (refl, refl)
  ]

  has_run_branch-is_on :
      (b : String) (d : Dict String BranchUsage)
      → contains m.branches b ≡ true
      → has_run_branch expanduser m d ≡ false
      → is_on b d ≡ false
  has_run_branch-is_on b [] h none_on = refl
  has_run_branch-is_on b ((branch, u) ∷ d) h none_on =
      elim (Bool-cases (contains m.branches branch)) [
        | inl known ↦ let on = rw known at none_on in cc
        | inr other ↦
            rw (differs b branch h other) (has_run_branch-is_on b d h (rw other at none_on))
      ]

  absorb_candidate-seen :
      (b : String) (result : ParseResult) (claimed : BranchUsage) (s : RunStats)
      → contains m.branches b ≡ true
      → (contains (absorb_candidate expanduser m result claimed s).branches_seen b
          ≡ (contains s.branches_seen b || is_on b result.usage_by_branch))
        × ((absorb_candidate expanduser m result claimed s).worktrees_seen ≡ s.worktrees_seen)
  unfolding absorb_candidate
  absorb_candidate-seen b result claimed s h =
      elim (Bool-cases
        (not (has_run_branch expanduser m result.usage_by_branch) && is_zero claimed.messages)) [
          | inl stops ↦ rw stops (
            ground
                (arith, has_run_branch-is_on b result.usage_by_branch h (and_not-true _ _ stops)),
            refl,
          )
          | inr goes_on ↦ rw goes_on (
            ap (λ (seen : List String). contains seen b)
                  ((fold_branches-SameSeen result.usage_by_branch _).0
                    ∙ (fold_if_claimed-SameSeen claimed _).0)
                ∙ see_branches-contains b result.usage_by_branch s.branches_seen h,
            (fold_branches-SameSeen result.usage_by_branch _).1
                ∙ (fold_if_claimed-SameSeen claimed _).1,
          )
        ]

  -- A session shows the branches that it has usage on and the worktrees that claim its usage.
  pub absorb_run-seen :
      (b w : String) (result : ParseResult) (s : RunStats)
      → contains m.branches b ≡ true
      → (contains (absorb_run expanduser m result s).branches_seen b
          ≡ (contains s.branches_seen b || is_on b result.usage_by_branch))
        × (contains (absorb_run expanduser m result s).worktrees_seen w
            ≡ (contains s.worktrees_seen w || is_claimed_by w result.detached_usage_by_cwd))
  unfolding absorb_run
  absorb_run-seen b w result s h =
      let st = claim_detached expanduser m result.detached_usage_by_cwd (no_usage, s) in
      let rest = minus (detached_bucket expanduser m result) st.0 in
      let (a, e) = absorb_candidate-seen b result st.0 (book_detached expanduser m rest st.1) h in
      let (a', e') = book_detached-SameSeen rest st.1 in
      (
        a
            ∙ ap (λ (seen : List String). contains seen b || is_on b result.usage_by_branch)
                (a' ∙ claim_detached-branches result.detached_usage_by_cwd (no_usage, s)),
        ap (λ (seen : List String). contains seen w) (e ∙ e')
            ∙ claim_detached-worktrees w result.detached_usage_by_cwd (no_usage, s),
      )
