-- ===== src/Worktrees/Classify.antt =====
-- The verdicts of src/toolbench/worktrees.py: `_verdict`, `_reachability`, `_collect`, `classify`,
-- `reclaimable` and `_total_megabytes`.
use tool_benchmarks.Base.{
  ℕ, zero, suc, ◌-◌, String, ◌<>◌, Bool, true, false, ◌&&◌, Option, none, some,
}
use tool_benchmarks.Base.{List, [], ◌∷◌, length, leb, eqb, select, string_eq, if◌then◌else◌}
use tool_benchmarks.Base.Dict.{Dict, lookup, or_start}
use tool_benchmarks.Base.Int.{ℤ, pos, negsuc, ◌+ℤ◌}
use tool_benchmarks.Base.Text.{is_empty, take_chars}
use tool_benchmarks.Json.Dumps.{show_ℕ, show_ℤ}
use tool_benchmarks.Outcome.{Result, ok, ◌>>=◌}
use tool_benchmarks.Paths.{NormalPath, path_text}
use tool_benchmarks.Worktrees.Porcelain.{Stanza, parse_worktree_list, parse_upstreams}
use tool_benchmarks.Worktrees.Probes.{
  Runner, Clock, unknown, check, containing_refs, is_claimed, dirty_count, idle_days, megabytes,
}

pub data Verdict : Type 0 where
  safe dirty locked unique_work claimed : Verdict

pub record Tree : Type 0 where
  pub path : NormalPath
  pub branch : Option String
  pub head : String
  pub verdict : Verdict
  pub idle_days : ℤ
  pub megabytes : ℤ
  pub reason : String

-- The threshold `IDLE_DAYS`
abbrev pub idle_threshold : ℕ
idle_threshold = 7

abbrev or_text : String → String → String
or_text default s = if is_empty s then default else s

abbrev recorded : String → String
recorded upstream =
    if is_empty upstream
    then "no upstream recorded"
    else "upstream " <> upstream <> " does not contain it"

abbrev more_refs : ℕ → String
more_refs zero = ""
more_refs (suc n) = " (+" <> show_ℕ (suc n) <> " more)"

-- The upstream recorded for a branch, if any.
abbrev pub upstream_of : Option String → Dict String String → String
upstream_of branch upstreams = or_start "" (lookup (or_start "" branch) upstreams)

abbrev plural_entry : ℕ → String
plural_entry n = if eqb n 1 then "entry" else "entries"

abbrev prefixed : String → Verdict × String → Verdict × String
prefixed text (verdict, reason) = (verdict, text <> reason)

module _ (runner : Runner) (repo : NormalPath) where
  -- What `_reachability` says, given the refs that contain the head.
  unfoldable pub judged : Stanza → Dict String String → List String → Result (Verdict × String)
  unfolding show_ℕ lookup take_chars
  judged stanza upstreams [] = ok (
    unique_work,
    "head "
        <> take_chars 7 stanza.head
        <> " is in no other ref; "
        <> recorded (upstream_of stanza.branch upstreams),
  )
  judged stanza upstreams (first ∷ more) =
      is_claimed runner stanza.branch repo upstreams >>= λ is_ours. ok (
        if is_ours
        then (
          claimed,
          "live upstream "
              <> upstream_of stanza.branch upstreams
              <> " still backs the branch; somebody's checkout, never a candidate at any age",
        )
        else (safe, "head is in " <> first <> more_refs (length more)))

  -- `_reachability`
  unfoldable pub reachability : Stanza → Dict String String → Result (Verdict × String)
  unfolding judged
  reachability stanza upstreams =
      containing_refs runner repo stanza.head >>= judged stanza upstreams

  abbrev pub clean_verdict : Stanza → Dict String String → ℕ → Result (Verdict × String)
  clean_verdict stanza upstreams zero =
      reachability stanza upstreams >>= λ r. ok (prefixed "clean, unlocked; " r)
  clean_verdict stanza upstreams (suc n) = ok (
    dirty,
    show_ℕ (suc n)
        <> " modified or untracked "
        <> plural_entry (suc n)
        <> "; git worktree remove refuses",
  )

  -- `_verdict`
  unfoldable pub verdict : Stanza → Dict String String → Result (Verdict × String)
  unfolding reachability show_ℕ
  verdict stanza upstreams =
      if stanza.locked
      then ok (
        locked,
        "locked ("
            <> or_text "no reason recorded" stanza.lock_reason
            <> "); removal needs --force twice",
      )
      else if stanza.prunable
      then (reachability stanza upstreams >>= λ r. ok (
          prefixed ("prunable (" <> or_text "working tree missing" stanza.prunable_reason <> "); ")
            r))
      else (dirty_count runner stanza.path >>= clean_verdict stanza upstreams)

  module _ (clock : Clock) where
    -- The age and the size of a tree.
    abbrev pub measured : Stanza → Result (ℤ × ℤ)
    measured stanza =
        if stanza.prunable
        then ok (unknown, unknown)
        else (idle_days runner clock stanza.path >>= λ days.
            megabytes runner stanza.path >>= λ size. ok (days, size))

    abbrev pub tree_of : Stanza → Verdict × String → ℤ × ℤ → Tree
    tree_of stanza (verdict, reason) (days, size) = record {
      path = stanza.path;
      branch = stanza.branch;
      head = stanza.head;
      verdict = verdict;
      idle_days = days;
      megabytes = size;
      reason = reason;
    }

    -- The body of the loop of `_collect`.
    unfoldable pub tree : Dict String String → Stanza → Result Tree
    unfolding verdict idle_days megabytes
    tree upstreams stanza =
        verdict stanza upstreams >>= λ v. measured stanza >>= λ m. ok (tree_of stanza v m)

    unfoldable pub trees : Dict String String → List Stanza → Result (List Tree)
    unfolding tree
    trees upstreams [] = ok []
    trees upstreams (stanza ∷ stanzas) =
        let rest = trees upstreams stanzas in
        tree upstreams stanza >>= λ t. rest >>= λ ts. ok (t ∷ ts)

    abbrev pub split_main : Dict String String → List Stanza → Result (Option Stanza × List Tree)
    split_main upstreams [] = ok (none, [])
    split_main upstreams (main_checkout ∷ linked) =
        trees upstreams linked >>= λ ts. ok (some main_checkout, ts)

    -- `_collect`
    unfoldable pub collect : Result (Option Stanza × List Tree)
    unfolding trees check parse_worktree_list parse_upstreams
    collect =
        runner ("git" ∷ "-C" ∷ path_text repo ∷ "worktree" ∷ "list" ∷ "--porcelain" ∷ [])
        >>= check
        >>= λ listing.
            runner (
              "git"
              ∷ "-C"
              ∷ path_text repo
              ∷ "for-each-ref"
              ∷ "--format=%(refname)%09%(objectname)%09%(upstream)"
              ∷ "refs/heads/"
              ∷ [])
            >>= check
            >>= λ refs. split_main (parse_upstreams refs) (parse_worktree_list listing)

    -- `classify`
    unfoldable pub classify : Result (List Tree)
    unfolding collect
    classify = collect >>= λ c. ok c.1

abbrev pub is_safe : Verdict → Bool
is_safe safe = true
is_safe _ = false

-- The test of `reclaimable`; the sentinel for an unknown age is the only -1.
abbrev pub is_reclaimable : Tree → Bool
is_reclaimable tree =
    is_safe tree.verdict
    && elim tree.idle_days [ pos days ↦ leb idle_threshold days | negsuc n ↦ false ]

-- `reclaimable`
unfoldable pub reclaimable : List Tree → List Tree
reclaimable trees = select is_reclaimable trees

-- `[tree.megabytes for tree in trees if tree.megabytes != UNKNOWN]`
unfoldable pub measured_sizes : List Tree → List ℤ
measured_sizes [] = []
measured_sizes (tree ∷ trees) =
    let rest = measured_sizes trees in
    elim tree.megabytes [
      | pos size ↦ pos size ∷ rest
      | negsuc n ↦ elim n [ zero ↦ rest | suc m ↦ negsuc (suc m) ∷ rest ]
    ]

abbrev sum_ℤ : List ℤ → ℤ
sum_ℤ [] = pos 0
sum_ℤ (n ∷ ns) = n +ℤ sum_ℤ ns

-- `_total_megabytes`
unfoldable pub total_megabytes : List Tree → String
unfolding measured_sizes show_ℤ show_ℕ
total_megabytes trees =
    let sizes = measured_sizes trees in
    let missing = length trees - length sizes in
    if eqb missing 0
    then show_ℤ (sum_ℤ sizes) <> " MB"
    else show_ℤ (sum_ℤ sizes) <> "+ MB (" <> show_ℕ missing <> " unmeasured)"
