-- ===== src/Gate/Regressions.antt =====
-- Which functions `compare_complexity` of src/toolbench/complexity_gate.py reports.
use tool_benchmarks.Base.{ℕ, ◌≡◌, refl, ap, ◌∙◌, Bool, true, false, ◌&&◌}
use tool_benchmarks.Base.{
  Option, none, some, List, [], ◌∷◌, map, if◌then◌else◌, arith, Bool-cases, inl, inr, All, eq_self,
}
use tool_benchmarks.Base.Dict.{lookup, NodupKeys}
use tool_benchmarks.Base.Int.{ℤ, ◌-ℤ◌, ltb_ℤ}
use tool_benchmarks.Base.Sorting.{sorted, any, any-sorted}
use tool_benchmarks.Gate.Order.{Symbol, symbol_eq, before}
use tool_benchmarks.Gate.Compare.{
  FunctionComplexity, ComplexityChange, GateResult, Report, le_ℤ, compare_new, compare_old,
  compare_one, compare_items, compare_complexity, report_gate,
}
use tool_benchmarks.Gate.Branches.{
  crossed, grew, branch_lem, map-branch, error_branch, warning_branch,
}

-- Over the threshold, and new or grown.
abbrev pub is_regression : ℤ → Option FunctionComplexity → FunctionComplexity → Bool
is_regression threshold none measured = ltb_ℤ threshold measured.complexity
is_regression threshold (some old) measured =
    ltb_ℤ threshold measured.complexity && ltb_ℤ old.complexity measured.complexity

-- Within the threshold, and grown by the warning delta or more.
abbrev pub is_growth : ℤ → ℤ → Option FunctionComplexity → FunctionComplexity → Bool
is_growth threshold delta none measured = false
is_growth threshold delta (some old) measured =
    le_ℤ measured.complexity threshold && le_ℤ delta (measured.complexity -ℤ old.complexity)

lookup-cons :
    (k : Symbol) (v : FunctionComplexity) (d : Report) (i : Symbol × FunctionComplexity)
    → lookup k d ≡ none
    → lookup i.0 d ≡ some i.1
    → lookup i.0 ((k, v) ∷ d) ≡ some i.1
unfolding lookup
lookup-cons k v d i n e = ground arith

All-cons :
    (k : Symbol) (v : FunctionComplexity) (d items : Report)
    → lookup k d ≡ none
    → All (λ (i : Symbol × FunctionComplexity). lookup i.0 d ≡ some i.1) items
    → All (λ (i : Symbol × FunctionComplexity). lookup i.0 ((k, v) ∷ d) ≡ some i.1) items
All-cons k v d [] n h = tt
All-cons k v d (i ∷ items) n (e, h) = (lookup-cons k v d i n e, All-cons k v d items n h)

lookup-All :
    (d : Report)
    → NodupKeys d
    → All (λ (i : Symbol × FunctionComplexity). lookup i.0 d ≡ some i.1) d
unfolding lookup
lookup-All [] n = tt
lookup-All ((k, v) ∷ d) (fresh, n) = (rw (eq_self k) refl, All-cons k v d d fresh (lookup-All d n))

module _ (threshold delta : ℤ) where
  abbrev named : List ComplexityChange → List FunctionComplexity
  named cs = map (λ (c : ComplexityChange). c.current) cs

  compare_one-errors :
      (old : Option FunctionComplexity) (m : FunctionComplexity) (rest : GateResult)
      → named (compare_one threshold delta old m rest).errors
        ≡ (if is_regression threshold old m then m ∷ named rest.errors else named rest.errors)
  unfolding compare_one compare_new compare_old
  compare_one-errors none m rest = elim (Bool-cases (ltb_ℤ threshold m.complexity)) [
    | inl over ↦ rw over refl
    | inr within ↦ rw within refl
  ]
  compare_one-errors (some old) m rest =
      map-branch (λ (r : GateResult). named r.errors) (ltb_ℤ threshold m.complexity)
        (ltb_ℤ threshold old.complexity) (ltb_ℤ old.complexity m.complexity)
        (le_ℤ delta (m.complexity -ℤ old.complexity)) _ _ _ _
      ∙ branch_lem (ltb_ℤ threshold m.complexity) (ltb_ℤ threshold old.complexity)
          (ltb_ℤ old.complexity m.complexity) (le_ℤ delta (m.complexity -ℤ old.complexity)) _ _ _
          (crossed threshold old.complexity m.complexity)
          (grew threshold old.complexity m.complexity)
      ∙ error_branch (ltb_ℤ threshold m.complexity) (ltb_ℤ old.complexity m.complexity)
          (le_ℤ delta (m.complexity -ℤ old.complexity)) _ _

  compare_one-warnings :
      (old : Option FunctionComplexity) (m : FunctionComplexity) (rest : GateResult)
      → named (compare_one threshold delta old m rest).warnings
        ≡ (if is_growth threshold delta old m then m ∷ named rest.warnings else named rest.warnings)
  unfolding compare_one compare_new compare_old
  compare_one-warnings none m rest = elim (Bool-cases (ltb_ℤ threshold m.complexity)) [
    | inl over ↦ rw over refl
    | inr within ↦ rw within refl
  ]
  compare_one-warnings (some old) m rest =
      map-branch (λ (r : GateResult). named r.warnings) (ltb_ℤ threshold m.complexity)
        (ltb_ℤ threshold old.complexity) (ltb_ℤ old.complexity m.complexity)
        (le_ℤ delta (m.complexity -ℤ old.complexity)) _ _ _ _
      ∙ branch_lem (ltb_ℤ threshold m.complexity) (ltb_ℤ threshold old.complexity)
          (ltb_ℤ old.complexity m.complexity) (le_ℤ delta (m.complexity -ℤ old.complexity)) _ _ _
          (crossed threshold old.complexity m.complexity)
          (grew threshold old.complexity m.complexity)
      ∙ warning_branch (ltb_ℤ threshold m.complexity) (ltb_ℤ old.complexity m.complexity)
          (le_ℤ delta (m.complexity -ℤ old.complexity)) _ _

  -- The functions of a report that pass a test of their old and their new measurement.
  abbrev pub picked :
      (Option FunctionComplexity → FunctionComplexity → Bool)
      → Report
      → Report
      → List FunctionComplexity
  picked test previous [] = []
  picked test previous ((symbol, m) ∷ items) =
      let rest = picked test previous items in
      if test (lookup symbol previous) m then m ∷ rest else rest

  compare_items-picked :
      (previous items : Report)
      → let result = compare_items threshold delta previous items in
        (named result.errors ≡ picked (is_regression threshold) previous items)
        × (named result.warnings ≡ picked (is_growth threshold delta) previous items)
  unfolding compare_items
  compare_items-picked previous [] = (refl, refl)
  compare_items-picked previous ((symbol, m) ∷ items) =
      let (e, w) = compare_items-picked previous items in
      let old = lookup symbol previous in
      let rest = compare_items threshold delta previous items in
      (
        compare_one-errors old m rest
            ∙ ap (λ ms. if is_regression threshold old m then m ∷ ms else ms) e,
        compare_one-warnings old m rest
            ∙ ap (λ ms. if is_growth threshold delta old m then m ∷ ms else ms) w,
      )

  -- The functions in the errors are, in the order of the sorted report, those over the threshold that
  -- are new or have grown; and the functions in the warnings are those within the threshold that have
  -- grown by the warning delta or more.
  pub compare_complexity-picked :
      (previous current : Report)
      → let result = compare_complexity threshold delta previous current in
        let items = sorted (λ (a : Symbol × FunctionComplexity) b. before a.0 b.0) current in
        (map (λ (c : ComplexityChange). c.current) result.errors
          ≡ picked (is_regression threshold) previous items)
        × (map (λ (c : ComplexityChange). c.current) result.warnings
            ≡ picked (is_growth threshold delta) previous items)
  unfolding compare_complexity
  compare_complexity-picked previous current =
      compare_items-picked previous
        (sorted (λ (a : Symbol × FunctionComplexity) b. before a.0 b.0) current)

  status_of :
      (r : GateResult) → (report_gate r).1 ≡ (if any (λ m. true) (named r.errors) then 1 else 0)
  unfolding report_gate
  status_of r =
      elim r.errors
        as (λ es.
          (elim es as (λ _. ℕ) [ [] ↦ 0 | c ∷ cs ↦ 1 ])
          ≡ (if any (λ m. true) (named es) then 1 else 0)) [ [] ↦ refl | c ∷ cs ↦ refl ]

  any-picked :
      (test : Option FunctionComplexity → FunctionComplexity → Bool) (previous items : Report)
      → any (λ m. true) (picked test previous items)
        ≡ any (λ (i : Symbol × FunctionComplexity). test (lookup i.0 previous) i.1) items
  any-picked test previous [] = refl
  any-picked test previous ((symbol, m) ∷ items) =
      elim (Bool-cases (test (lookup symbol previous) m)) [
        | inl passes ↦ rw passes refl
        | inr fails ↦ rw fails (any-picked test previous items)
      ]

  -- The gate exits with 1 if some function of the current report is over the threshold and is new or
  -- has grown, and with 0 if there is none.
  pub report_gate-fails :
      (previous current : Report)
      → (report_gate (compare_complexity threshold delta previous current)).1 ≡ (
          if any
            (λ (i : Symbol × FunctionComplexity). is_regression threshold (lookup i.0 previous) i.1)
            current
          then 1
          else 0)
  report_gate-fails previous current =
      status_of (compare_complexity threshold delta previous current)
      ∙ ap (λ ms. if any (λ m. true) ms then 1 else 0)
          (compare_complexity-picked previous current).0
      ∙ ap (λ b. if b then 1 else 0)
          (any-picked (is_regression threshold) previous _ ∙ any-sorted _ _ current)

  -- No function has grown that is looked up in its own report.
  none_grown :
      (report items : Report)
      → All (λ (i : Symbol × FunctionComplexity). lookup i.0 report ≡ some i.1) items
      → any
          (λ (i : Symbol × FunctionComplexity). is_regression threshold (lookup i.0 report) i.1)
          items
        ≡ false
  none_grown report [] h = refl
  none_grown report ((symbol, m) ∷ items) (e, h) = rw (e, not_larger m) (none_grown report items h)
    where
      not_larger :
          (m : FunctionComplexity)
          → (ltb_ℤ threshold m.complexity && ltb_ℤ m.complexity m.complexity) ≡ false
      not_larger m = ground arith

  -- A report without repeated symbols passes the gate against itself, whatever the threshold.
  pub report_gate-same :
      (report : Report)
      → NodupKeys report
      → (report_gate (compare_complexity threshold delta report report)).1 ≡ 0
  report_gate-same report n =
      report_gate-fails report report
      ∙ ap (λ b. if b then 1 else 0) (none_grown report report (lookup-All report n))
