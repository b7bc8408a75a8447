-- ===== src/Reducer/Run/Views.antt =====
-- The derived views of `RunStats` in src/toolbench/reducer.py. A quotient is kept as its two terms.
use tool_benchmarks.Base.{zero, String, not, List, [], ◌∷◌, contains, select, string_eq}
use tool_benchmarks.Base.Int.{ℤ, pos, negsuc, ◌+ℤ◌}
use tool_benchmarks.Base.Sorting.{set_of, sorted, text_before}
use tool_benchmarks.Outcome.{Result, ok, err, value_error}
use tool_benchmarks.Manifest.{RunManifest}
use tool_benchmarks.Reducer.Run.{RunStats}

unfoldable pub total_cache : RunStats → ℤ
total_cache s = s.read +ℤ s.creation

unfoldable pub quotients : RunStats → ℤ → List (String × (ℤ × ℤ))
unfolding total_cache
quotients s n =
    ("cache_read", (s.read, n))
    ∷ ("cache_creation", (s.creation, n))
    ∷ ("total_cache", (total_cache s, n))
    ∷ []

unfoldable pub per_ticket : RunStats → ℤ → Result (List (String × (ℤ × ℤ)))
unfolding quotients
per_ticket s (pos zero) = err value_error
per_ticket s (negsuc n) = err value_error
per_ticket s n = ok (quotients s n)

-- `sorted(set(listed) - seen)`
abbrev pub unseen : List String → List String → List String
unseen listed seen = sorted text_before (select (λ x. not (contains seen x)) (set_of listed))

unfoldable pub missing_branches : RunManifest → RunStats → List String
unfolding sorted set_of
missing_branches m s = unseen m.branches s.branches_seen

unfoldable pub missing_worktrees : RunManifest → RunStats → List String
unfolding sorted set_of
missing_worktrees m s = unseen m.worktrees s.worktrees_seen
