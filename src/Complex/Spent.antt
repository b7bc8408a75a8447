-- ===== src/Complex/Spent.antt =====
-- The two halves of a trial's tokens in src/toolbench/complex.py.
use tool_benchmarks.Base.{◌+◌, ◌≡◌, refl, ℕ, String, not, List, [], ◌∷◌}
use tool_benchmarks.Base.{arith, sum_by, Bool-cases, inl, inr, if◌then◌else◌}
use tool_benchmarks.Base.Sorting.{text_before}
use tool_benchmarks.Transcript.{ToolCall, tokens}
use tool_benchmarks.Complex.Score.{before_claim, tokens_where}

-- The tokens of the calls that a time comes after, and of the others.
abbrev pub spent_before : String → List ToolCall → ℕ
spent_before ts calls = sum_by (λ (c : ToolCall). if text_before c.ts ts then tokens c else 0) calls

abbrev pub spent_from : String → List ToolCall → ℕ
spent_from ts calls = sum_by (λ (c : ToolCall). if text_before c.ts ts then 0 else tokens c) calls

pub tokens_where-before :
    (ts : String) (calls : List ToolCall)
    → tokens_where (before_claim ts) calls ≡ spent_before ts calls
tokens_where-before ts [] = refl
tokens_where-before ts (c ∷ calls) = elim (Bool-cases (text_before c.ts ts)) [
  | inl before ↦ rw before (omega (arith, tokens_where-before ts calls))
  | inr after ↦ rw after (omega (arith, tokens_where-before ts calls))
]

pub tokens_where-from :
    (ts : String) (calls : List ToolCall)
    → tokens_where (λ c. not (before_claim ts c)) calls ≡ spent_from ts calls
tokens_where-from ts [] = refl
tokens_where-from ts (c ∷ calls) = elim (Bool-cases (text_before c.ts ts)) [
  | inl before ↦ rw before (omega (arith, tokens_where-from ts calls))
  | inr after ↦ rw after (omega (arith, tokens_where-from ts calls))
]

pub spent_split :
    (ts : String) (calls : List ToolCall)
    → spent_before ts calls + spent_from ts calls ≡ sum_by tokens calls
spent_split ts [] = omega arith
spent_split ts (c ∷ calls) = elim (Bool-cases (text_before c.ts ts)) [
  | inl before ↦ rw before (omega (arith, spent_split ts calls))
  | inr after ↦ rw after (omega (arith, spent_split ts calls))
]
