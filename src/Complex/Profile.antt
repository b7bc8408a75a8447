-- ===== src/Complex/Profile.antt =====
-- `build_profile` of src/toolbench/complex.py: one row for each repository, defect and arm. A rate is
-- kept as its two counts, with none for the 0.0 of a cell without valid trials.
use tool_benchmarks.Base.{
  ℕ, zero, suc, ◌+◌, ◌-◌, ◌/◌, ◌%◌, String, Bool, not, ◌&&◌, ◌||◌, Option, none, some,
}
use tool_benchmarks.Base.{List, [], ◌∷◌, ◌++◌, length, select, eqb, ltb, if◌then◌else◌, ◌==◌}
use tool_benchmarks.Base.{string_eq, pair_eq}
use tool_benchmarks.Base.Dict.{Dict, update}
use tool_benchmarks.Base.Sorting.{sorted, set_of, text_before}
use tool_benchmarks.Complex.{TrialResult, void}

abbrev pub Cell : Type 0
Cell = String × (String × String)

abbrev pub cell_of : TrialResult → Cell
cell_of r = (r.repo, (r.defect_id, r.arm))

abbrev pub put_trial : TrialResult → List TrialResult → List TrialResult
put_trial r trials = trials ++ (r ∷ [])

-- `grouped`, with the results still to be added
unfoldable pub grouped_from :
    Dict Cell (List TrialResult) → List TrialResult → Dict Cell (List TrialResult)
grouped_from grouped [] = grouped
grouped_from grouped (r ∷ results) =
    grouped_from (update (cell_of r) [] (put_trial r) grouped) results

abbrev then_by : Bool → Bool → Bool → Bool
then_by less same later = less || (same && later)

-- The order of tuples of strings, on the keys
abbrev pub cell_before : Cell × List TrialResult → Cell × List TrialResult → Bool
cell_before ((repo, (defect, arm)), _) ((repo', (defect', arm')), _) =
    then_by (text_before repo repo') (repo == repo')
      (then_by (text_before defect defect') (defect == defect') (text_before arm arm'))

abbrev nth_or_zero : ℕ → List ℕ → ℕ
nth_or_zero n [] = 0
nth_or_zero zero (x ∷ xs) = x
nth_or_zero (suc n) (x ∷ xs) = nth_or_zero n xs

-- `int(statistics.median(values))` of sorted values: of two middle ones, half their sum.
abbrev middle : List ℕ → ℕ
middle values =
    let half = length values / 2 in
    if eqb (length values % 2) 1
    then nth_or_zero half values
    else (nth_or_zero (half - 1) values + nth_or_zero half values) / 2

unfoldable pub median_or_none : List ℕ → Option ℕ
unfolding sorted
median_or_none [] = none
median_or_none values = some (middle (sorted ltb values))

-- `[f(t) for t in trials if f(t) is not None]`
abbrev put_some : Option ℕ → List ℕ → List ℕ
put_some none rest = rest
put_some (some n) rest = n ∷ rest

abbrev present : (TrialResult → Option ℕ) → List TrialResult → List ℕ
present f [] = []
present f (t ∷ trials) = put_some (f t) (present f trials)

abbrev all_names : (TrialResult → List String) → List TrialResult → List String
all_names f [] = []
all_names f (t ∷ trials) = f t ++ all_names f trials

abbrev rate : ℕ → ℕ → Option (ℕ × ℕ)
rate n valid = if eqb valid 0 then none else some (n, valid)

pub record ProfileRow : Type 0 where
  pub repo : String
  pub defect_id : String
  pub arm : String
  pub trials : ℕ
  pub locate_rate : Option (ℕ × ℕ)
  pub fix_rate : Option (ℕ × ℕ)
  pub median_n1 : Option ℕ
  pub median_n2 : Option ℕ
  pub unsolved : ℕ
  pub fixed_unlocated : ℕ
  pub violations : List String
  pub void : ℕ
  pub read_escapes : List String

abbrev pub is_valid : TrialResult → Bool
is_valid t = not (void t)

-- One round of the loop over the sorted cells
unfoldable pub profile_row : Cell × List TrialResult → ProfileRow
unfolding void median_or_none sorted set_of
profile_row ((repo, (defect_id, arm)), trials) =
    let valid = select is_valid trials in
    let located = select (λ (t : TrialResult). t.located) valid in
    let fixed = select (λ (t : TrialResult). t.fixed) valid in
    record {
      repo = repo;
      defect_id = defect_id;
      arm = arm;
      trials = length trials;
      locate_rate = rate (length located) (length valid);
      fix_rate = rate (length fixed) (length valid);
      median_n1 = median_or_none (present (λ (t : TrialResult). t.n1) located);
      median_n2 = median_or_none (
          present (λ (t : TrialResult). t.n2)
            (select (λ (t : TrialResult). t.located && t.fixed) valid));
      unsolved = length valid - length fixed;
      fixed_unlocated = length (select (λ (t : TrialResult). not t.located) fixed);
      violations =
          sorted text_before (set_of (all_names (λ (t : TrialResult). t.violations) trials));
      void = length (select void trials);
      read_escapes =
          sorted text_before (set_of (all_names (λ (t : TrialResult). t.read_escapes) trials));
    }

abbrev pub rows_of : List (Cell × List TrialResult) → List ProfileRow
rows_of [] = []
rows_of (cell ∷ cells) = profile_row cell ∷ rows_of cells

unfoldable pub build_profile : List TrialResult → List ProfileRow
unfolding sorted grouped_from profile_row
build_profile results = rows_of (sorted cell_before (grouped_from [] results))
