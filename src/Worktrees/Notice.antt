-- ===== src/Worktrees/Notice.antt =====
-- When the `SessionStart` hook of src/toolbench/worktrees.py speaks.
use tool_benchmarks.Base.{◌≡◌, refl, String, Bool, false, ◌&&◌, ◌||◌, List, [], ◌∷◌}
use tool_benchmarks.Base.{is_some, Bool-cases, inl, inr}
use tool_benchmarks.Outcome.{Result, ok, err}
use tool_benchmarks.Paths.{NormalPath}
use tool_benchmarks.Transcript.Lines.{Decoder}
use tool_benchmarks.Worktrees.Probes.{Runner, Clock}
use tool_benchmarks.Worktrees.Classify.{Tree, classify, is_reclaimable, reclaimable}
use tool_benchmarks.Worktrees.Hook.{answered, notice, announced, hook}

-- Some classified tree is reclaimable; a failure has none.
abbrev pub any_reclaimable : List Tree → Bool
any_reclaimable [] = false
any_reclaimable (t ∷ ts) = is_reclaimable t || any_reclaimable ts

abbrev pub has_candidate : Result (List Tree) → Bool
has_candidate (ok ts) = any_reclaimable ts
has_candidate (err e) = false

announced_lem : (ts : List Tree) → (announced ts).1 ≡ 0
announced_lem [] = refl
announced_lem (t ∷ ts) = refl

announced-reclaimable :
    (ts : List Tree) → is_some (announced (reclaimable ts)).0 ≡ any_reclaimable ts
unfolding reclaimable
announced-reclaimable [] = refl
announced-reclaimable (t ∷ ts) = elim (Bool-cases (is_reclaimable t)) [
  | inl r ↦ rw r refl
  | inr r ↦ rw r (announced-reclaimable ts)
]

notice_lem :
    (r : Result (List Tree)) → ((notice r).1 ≡ 0) × (is_some (notice r).0 ≡ has_candidate r)
notice_lem (ok ts) = (announced_lem (reclaimable ts), announced-reclaimable ts)
notice_lem (err e) = (refl, refl)

-- The hook exits with 0 on every input, and it prints something exactly when the payload is an object
-- whose `source` is one that it answers and the classification returns with a reclaimable tree.
pub hook_lem :
    (loads : Decoder) (runner : Runner) (clock : Clock) (cwd : NormalPath) (stdin : String)
    → let (printed, status) = hook loads runner clock cwd stdin in
      (status ≡ 0)
      × (is_some printed ≡ (answered (loads stdin) && has_candidate (classify runner cwd clock)))
unfolding hook
hook_lem loads runner clock cwd stdin = elim (Bool-cases (answered (loads stdin))) [
  | inl a ↦ rw a (notice_lem (classify runner cwd clock))
  | inr a ↦ rw a (refl, refl)
]
