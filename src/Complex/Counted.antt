-- ===== src/Complex/Counted.antt =====
-- The counts in the profile of src/toolbench/complex.py: every trial stands in one row.
use tool_benchmarks.Base.{ℕ, suc, ◌+◌, ◌≡◌, refl, sym, ap, ◌∙◌, Bool, not, ◌&&◌, List, [], ◌∷◌}
use tool_benchmarks.Base.{arith, length, select, sum_by, string_eq, pair_eq}
use tool_benchmarks.Base.Dict.{Dict, update}
use tool_benchmarks.Base.Sorting.{sorted, insert_sorted}
use tool_benchmarks.Reducer.Tallies.{sum-update}
use tool_benchmarks.Complex.{TrialResult, void}
use tool_benchmarks.Complex.Profile.{
  Cell, cell_of, put_trial, grouped_from, cell_before, ProfileRow, is_valid, profile_row, rows_of,
  build_profile,
}

abbrev pub count : (TrialResult → Bool) → List TrialResult → ℕ
count test trials = length (select test trials)

count-put_trial :
    (test : TrialResult → Bool) (r : TrialResult) (trials : List TrialResult)
    → count test (put_trial r trials) ≡ count test trials + count test (r ∷ [])
count-put_trial test r [] = omega arith
count-put_trial test r (t ∷ trials) = ground (arith, count-put_trial test r trials)

count-cons :
    (test : TrialResult → Bool) (r : TrialResult) (trials : List TrialResult)
    → count test (r ∷ trials) ≡ count test (r ∷ []) + count test trials
count-cons test r trials = ground arith

abbrev counted : (TrialResult → Bool) → Dict Cell (List TrialResult) → ℕ
counted test cells = sum_by (λ (c : Cell × List TrialResult). count test c.1) cells

counted-grouped_from :
    (test : TrialResult → Bool) (cells : Dict Cell (List TrialResult)) (results : List TrialResult)
    → counted test (grouped_from cells results) ≡ counted test cells + count test results
unfolding grouped_from
counted-grouped_from test cells [] = omega arith
counted-grouped_from test cells (r ∷ results) = omega (
  arith,
  counted-grouped_from test (update (cell_of r) [] (put_trial r) cells) results,
  sum-update (count test) (put_trial r) (cell_of r) [] (count test (r ∷ [])) refl
      (count-put_trial test r) cells,
  count-cons test r results,
)

sum_by-insert_sorted {ℓ} :
    {A : Type ℓ} (f : A → ℕ) (less : A → A → Bool) (x : A) (xs : List A)
    → sum_by f (insert_sorted less x xs) ≡ f x + sum_by f xs
unfolding insert_sorted
sum_by-insert_sorted f less x [] = refl
sum_by-insert_sorted f less x (y ∷ ys) = ground (arith, sum_by-insert_sorted f less x ys)

sum_by-sorted {ℓ} :
    {A : Type ℓ} (f : A → ℕ) (less : A → A → Bool) (xs : List A)
    → sum_by f (sorted less xs) ≡ sum_by f xs
unfolding sorted
sum_by-sorted f less [] = refl
sum_by-sorted f less (x ∷ xs) =
    omega (arith, sum_by-insert_sorted f less x (sorted less xs), sum_by-sorted f less xs)

sum_by-rows_of :
    (f : ProfileRow → ℕ) (test : TrialResult → Bool) (cells : List (Cell × List TrialResult))
    → ((c : Cell × List TrialResult) → f (profile_row c) ≡ count test c.1)
    → sum_by f (rows_of cells) ≡ counted test cells
sum_by-rows_of f test [] h = refl
sum_by-rows_of f test (c ∷ cells) h = omega (arith, h c, sum_by-rows_of f test cells h)

-- A count of each row adds up to that of all results.
sum_by-build_profile :
    (f : ProfileRow → ℕ) (test : TrialResult → Bool) (results : List TrialResult)
    → ((c : Cell × List TrialResult) → f (profile_row c) ≡ count test c.1)
    → sum_by f (build_profile results) ≡ count test results
unfolding build_profile
sum_by-build_profile f test results h = omega (
  arith,
  sum_by-rows_of f test (sorted cell_before (grouped_from [] results)) h,
  sum_by-sorted (λ (c : Cell × List TrialResult). count test c.1) cell_before
      (grouped_from [] results),
  counted-grouped_from test [] results,
)

abbrev any_trial : TrialResult → Bool
any_trial t = Bool.true

count-any : (trials : List TrialResult) → length trials ≡ count any_trial trials
count-any [] = refl
count-any (t ∷ trials) = ap suc (count-any trials)

abbrev pub is_unsolved : TrialResult → Bool
is_unsolved t = is_valid t && not t.fixed

abbrev pub is_unlocated_fix : TrialResult → Bool
is_unlocated_fix t = is_valid t && (t.fixed && not t.located)

valid_split :
    (trials : List TrialResult)
    → length (select is_valid trials)
      ≡ count is_unsolved trials
        + length (select (λ (t : TrialResult). t.fixed) (select is_valid trials))
valid_split [] = refl
valid_split (t ∷ trials) = ground (arith, valid_split trials)

unlocated-select :
    (trials : List TrialResult)
    → length (
        select
          (λ (t : TrialResult). not t.located)
          (select (λ (t : TrialResult). t.fixed) (select is_valid trials)))
      ≡ count is_unlocated_fix trials
unlocated-select [] = refl
unlocated-select (t ∷ trials) = ground (arith, unlocated-select trials)

-- The rows count every trial once: their trials add up to the number of results, their void trials to
-- the number of void results, their unsolved ones to that of the valid results that were not fixed,
-- and their fixed, unlocated ones to that of the valid results that were fixed but not located.
pub build_profile-counts :
    (results : List TrialResult)
    → (sum_by (λ (row : ProfileRow). row.trials) (build_profile results) ≡ length results)
      × (sum_by (λ (row : ProfileRow). row.void) (build_profile results) ≡ count void results)
      × (sum_by (λ (row : ProfileRow). row.unsolved) (build_profile results)
          ≡ count is_unsolved results)
      × (sum_by (λ (row : ProfileRow). row.fixed_unlocated) (build_profile results)
          ≡ count is_unlocated_fix results)
unfolding profile_row
build_profile-counts results = (
  sum_by-build_profile (λ (row : ProfileRow). row.trials) any_trial results (λ c. count-any c.1)
      ∙ sym (count-any results),
  sum_by-build_profile (λ (row : ProfileRow). row.void) void results (λ c. refl),
  sum_by-build_profile (λ (row : ProfileRow). row.unsolved) is_unsolved results
      (λ c. omega (arith, valid_split c.1)),
  sum_by-build_profile (λ (row : ProfileRow). row.fixed_unlocated) is_unlocated_fix results
      (λ c. unlocated-select c.1),
)
