-- ===== src/Gate/Compare.antt =====
-- `compare_complexity`, `nearest_to_threshold`, `format_annotations` and the exit status of `main` in
-- src/toolbench/complexity_gate.py.
use tool_benchmarks.Base.{ℕ, String, ◌<>◌, Bool, true, false, not, ◌&&◌, Option, none, some}
use tool_benchmarks.Base.{List, [], ◌∷◌, ◌++◌, length, select, map, if◌then◌else◌}
use tool_benchmarks.Base.Dict.{Dict, values, lookup}
use tool_benchmarks.Base.Int.{ℤ, ◌-ℤ◌, ltb_ℤ}
use tool_benchmarks.Base.Sorting.{sorted}
use tool_benchmarks.Gate.Order.{Symbol, symbol_eq, before, slice_to}
use tool_benchmarks.Json.Dumps.{show_ℕ, show_ℤ}

pub record FunctionComplexity : Type 0 where
  pub symbol : Symbol
  pub complexity : ℤ
  pub line : ℤ

pub record ComplexityChange : Type 0 where
  pub current : FunctionComplexity
  pub previous : Option ℤ
  pub reason : String

pub record GateResult : Type 0 where
  pub errors : List ComplexityChange
  pub warnings : List ComplexityChange

-- A report, which Python maps from symbols
abbrev pub Report : Type 0
Report = Dict Symbol FunctionComplexity

abbrev change : FunctionComplexity → Option ℤ → String → ComplexityChange
change measured previous reason = record {
  current = measured;
  previous = previous;
  reason = reason;
}

-- `a <= b`
abbrev pub le_ℤ : ℤ → ℤ → Bool
le_ℤ a b = not (ltb_ℤ b a)

abbrev with_error : ComplexityChange → GateResult → GateResult
with_error c r = record r { errors = c ∷ r.errors }

abbrev with_warning : ComplexityChange → GateResult → GateResult
with_warning c r = record r { warnings = c ∷ r.warnings }

module _ (threshold warning_delta : ℤ) where
  -- What the loop of `compare_complexity` adds for a function without an old measurement.
  unfoldable pub compare_new : FunctionComplexity → GateResult → GateResult
  unfolding show_ℤ
  compare_new measured rest =
      if ltb_ℤ threshold measured.complexity
      then with_error (change measured none ("new function exceeds " <> show_ℤ threshold)) rest
      else rest

  -- The same for a function with one.
  unfoldable pub compare_old : FunctionComplexity → FunctionComplexity → GateResult → GateResult
  unfolding show_ℤ
  compare_old measured old rest =
      if le_ℤ old.complexity threshold && ltb_ℤ threshold measured.complexity
      then with_error
          (change measured (some old.complexity) ("complexity crossed " <> show_ℤ threshold)) rest
      else if ltb_ℤ threshold old.complexity && ltb_ℤ old.complexity measured.complexity
      then with_error (change measured (some old.complexity) "legacy hotspot increased") rest
      else if le_ℤ measured.complexity threshold
          && le_ℤ warning_delta (measured.complexity -ℤ old.complexity)
      then with_warning
          (change measured (some old.complexity)
            ("complexity increased by " <> show_ℤ (measured.complexity -ℤ old.complexity)))
          rest
      else rest

  unfoldable pub compare_one :
      Option FunctionComplexity → FunctionComplexity → GateResult → GateResult
  unfolding compare_new compare_old
  compare_one none measured rest = compare_new measured rest
  compare_one (some old) measured rest = compare_old measured old rest

  unfoldable pub compare_items : Report → Report → GateResult
  unfolding compare_one lookup
  compare_items previous [] = record { errors = []; warnings = [] }
  compare_items previous ((symbol, measured) ∷ items) =
      compare_one (lookup symbol previous) measured (compare_items previous items)

  -- `compare_complexity`
  unfoldable pub compare_complexity : Report → Report → GateResult
  unfolding compare_items sorted
  compare_complexity previous current =
      compare_items previous
        (sorted (λ (a : Symbol × FunctionComplexity) b. before a.0 b.0) current)

-- The sort key `(-m.complexity, m.symbol)`
abbrev pub nearer : FunctionComplexity → FunctionComplexity → Bool
nearer a b =
    if ltb_ℤ b.complexity a.complexity
    then true
    else if ltb_ℤ a.complexity b.complexity
    then false
    else before a.symbol b.symbol

-- `nearest_to_threshold`
unfoldable pub nearest_to_threshold : ℤ → ℤ → Report → List FunctionComplexity
unfolding sorted slice_to before
nearest_to_threshold threshold count report = slice_to count (
    sorted nearer
      (select (λ (m : FunctionComplexity). le_ℤ m.complexity threshold) (values report)))

abbrev before_text : Option ℤ → String
before_text none = "new"
before_text (some n) = show_ℤ n

abbrev annotation : String → ComplexityChange → String
annotation level c =
    "::"
    <> level
    <> " file="
    <> c.current.symbol.path
    <> ",line="
    <> show_ℤ c.current.line
    <> "::"
    <> c.current.symbol.qualname
    <> " complexity "
    <> before_text c.previous
    <> " -> "
    <> show_ℤ c.current.complexity
    <> "; "
    <> c.reason

-- `format_annotations`
unfoldable pub format_annotations : GateResult → List String
unfolding show_ℤ
format_annotations r = map (annotation "error") r.errors ++ map (annotation "warning") r.warnings

-- What `main` prints, and its exit status
unfoldable pub report_gate : GateResult → List String × ℕ
unfolding format_annotations show_ℕ
report_gate r = (
  format_annotations r
      ++ (("Complexity regression gate: "
            <> show_ℕ (length r.errors)
            <> " error(s), "
            <> show_ℕ (length r.warnings)
            <> " warning(s).")
          ∷ []),
  elim r.errors [ [] ↦ 0 | c ∷ cs ↦ 1 ],
)
