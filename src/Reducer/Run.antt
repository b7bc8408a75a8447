-- ===== src/Reducer/Run.antt =====
-- The run attribution of src/toolbench/reducer.py: `RunStats`, `_absorb_run` and its helpers.
pub mod Booked
pub mod Conservation
pub mod Views
pub mod Seen
use tool_benchmarks.Base.{ℕ, zero, suc, ◌+◌, String, Bool, true, false, not, ◌&&◌, ◌||◌}
use tool_benchmarks.Base.{
  Option, none, some, List, [], ◌∷◌, contains, string_eq, ◌==◌, if◌then◌else◌,
}
use tool_benchmarks.Base.Dict.{Dict, lookup, or_start}
use tool_benchmarks.Base.Int.{ℤ, pos, ◌+ℤ◌}
use tool_benchmarks.Transcript.{BranchUsage, no_usage, detached_branch, ParseResult}
use tool_benchmarks.Transcript.Totals.{plus, minus}
use tool_benchmarks.Manifest.{RunManifest, worktree_for}

pub record RunStats : Type 0 where
  pub read : ℤ
  pub creation : ℤ
  pub input : ℤ
  pub output : ℤ
  pub candidate_sessions : ℕ
  pub unattributed_read : ℤ
  pub unattributed_creation : ℤ
  pub detached_sessions : ℕ
  pub detached_read : ℤ
  pub detached_creation : ℤ
  pub detached_input : ℤ
  pub detached_output : ℤ
  pub worktree_sessions : ℕ
  pub worktree_read : ℤ
  pub worktree_creation : ℤ
  pub branches_seen : List String
  pub worktrees_seen : List String

abbrev pub no_run_stats : RunStats
no_run_stats = record {
  read = pos 0;
  creation = pos 0;
  input = pos 0;
  output = pos 0;
  candidate_sessions = 0;
  unattributed_read = pos 0;
  unattributed_creation = pos 0;
  detached_sessions = 0;
  detached_read = pos 0;
  detached_creation = pos 0;
  detached_input = pos 0;
  detached_output = pos 0;
  worktree_sessions = 0;
  worktree_read = pos 0;
  worktree_creation = pos 0;
  branches_seen = [];
  worktrees_seen = [];
}

abbrev pub is_zero : ℤ → Bool
is_zero (pos zero) = true
is_zero _ = false

-- `_spent_anything`
unfoldable pub spent_anything : BranchUsage → Bool
spent_anything u =
    not (is_zero u.read)
    || not (is_zero u.creation)
    || not (is_zero u.input)
    || not (is_zero u.output)

-- `s.add(x)`
abbrev pub add_seen : String → List String → List String
add_seen x s = if contains s x then s else x ∷ s

abbrev pub claim : Option String → BranchUsage → BranchUsage × RunStats → BranchUsage × RunStats
claim none usage (claimed, s) = (claimed, s)
claim (some worktree) usage (claimed, s) =
    (plus claimed usage, record s { worktrees_seen = add_seen worktree s.worktrees_seen })

module _ (expanduser : String → String) (m : RunManifest) where
  -- The loop of `_claim_detached`.
  unfoldable pub claim_detached :
      Dict String BranchUsage → BranchUsage × RunStats → BranchUsage × RunStats
  claim_detached [] st = st
  claim_detached ((cwd, usage) ∷ d) st =
      claim_detached d (claim (worktree_for expanduser m cwd) usage st)

  unfoldable pub book_detached : BranchUsage → RunStats → RunStats
  book_detached u s =
      if spent_anything u
      then record s {
        detached_sessions = s.detached_sessions + 1;
        detached_read = s.detached_read +ℤ u.read;
        detached_creation = s.detached_creation +ℤ u.creation;
        detached_input = s.detached_input +ℤ u.input;
        detached_output = s.detached_output +ℤ u.output;
      }
      else s

  unfoldable pub fold_claimed : BranchUsage → RunStats → RunStats
  fold_claimed u s = record s {
    worktree_sessions = s.worktree_sessions + 1;
    worktree_read = s.worktree_read +ℤ u.read;
    worktree_creation = s.worktree_creation +ℤ u.creation;
    read = s.read +ℤ u.read;
    creation = s.creation +ℤ u.creation;
    input = s.input +ℤ u.input;
    output = s.output +ℤ u.output;
  }

  -- `if claimed.messages: self._fold_claimed(claimed)`
  unfoldable pub fold_if_claimed : BranchUsage → RunStats → RunStats
  unfolding fold_claimed
  fold_if_claimed u s = if is_zero u.messages then s else fold_claimed u s

  abbrev run_branch : BranchUsage → RunStats → RunStats
  run_branch u s = record s {
    read = s.read +ℤ u.read;
    creation = s.creation +ℤ u.creation;
    input = s.input +ℤ u.input;
    output = s.output +ℤ u.output;
  }

  abbrev other_branch : BranchUsage → RunStats → RunStats
  other_branch u s = record s {
    unattributed_read = s.unattributed_read +ℤ u.read;
    unattributed_creation = s.unattributed_creation +ℤ u.creation;
  }

  -- The body of the loop over the branches of a candidate session.
  unfoldable pub fold_branch : String → BranchUsage → RunStats → RunStats
  fold_branch branch u s =
      if contains m.branches branch
      then run_branch u s
      else if branch == detached_branch
      then s
      else other_branch u s

  unfoldable pub fold_branches : Dict String BranchUsage → RunStats → RunStats
  fold_branches [] s = s
  fold_branches ((branch, u) ∷ d) s = fold_branches d (fold_branch branch u s)

  -- `{b for b in usage_by_branch if b in branches}`, added to `branches_seen`
  unfoldable pub see_branches : Dict String BranchUsage → List String → List String
  see_branches [] seen = seen
  see_branches ((branch, u) ∷ d) seen =
      see_branches d (if contains m.branches branch then add_seen branch seen else seen)

  abbrev pub has_run_branch : Dict String BranchUsage → Bool
  has_run_branch [] = false
  has_run_branch ((branch, u) ∷ d) = contains m.branches branch || has_run_branch d

  abbrev pub detached_bucket : ParseResult → BranchUsage
  detached_bucket result = or_start no_usage (lookup detached_branch result.usage_by_branch)

  -- `_absorb_run` from the candidate test on.
  unfoldable pub absorb_candidate : ParseResult → BranchUsage → RunStats → RunStats
  absorb_candidate result claimed s =
      if not (has_run_branch result.usage_by_branch) && is_zero claimed.messages
      then s
      else fold_branches result.usage_by_branch (
          fold_if_claimed claimed (record s {
            candidate_sessions = s.candidate_sessions + 1;
            branches_seen = see_branches result.usage_by_branch s.branches_seen;
          }))

  unfoldable pub absorb_run : ParseResult → RunStats → RunStats
  unfolding claim_detached book_detached absorb_candidate fold_branches fold_if_claimed
  absorb_run result s =
      let (claimed, s') = claim_detached result.detached_usage_by_cwd (no_usage, s) in
      absorb_candidate result claimed (book_detached (minus (detached_bucket result) claimed) s')
