-- ===== src/Reducer/Tallies.antt =====
-- What calls amount to, and how the tables of src/toolbench/reducer.py add up to it.
use tool_benchmarks.Base.{ℕ, ◌+◌, ◌≡◌, refl, sym, ap, ◌∙◌, String}
use tool_benchmarks.Base.{List, [], ◌∷◌, arith, string_eq, pair_eq, Eq, ◌==◌, sum_by, length}
use tool_benchmarks.Base.{Bool-cases, inl, inr}
use tool_benchmarks.Base.Dict.{Dict, update}
use tool_benchmarks.Transcript.{ToolCall, tokens, input_tokens, ParseResult}
use tool_benchmarks.Reducer.Stats.{ToolStats, no_tool_stats, AgentStats, no_agent_stats}
use tool_benchmarks.Reducer.Absorb.{is_error, one_if, count_tool, count_agent, count_session}

-- What a list of calls amounts to.
pub record Tally : Type 0 where
  pub calls : ℕ
  pub output_tokens : ℕ
  pub input_tokens : ℕ
  pub errors : ℕ
  pub no_result : ℕ

abbrev pub tally : List ToolCall → Tally
tally calls = record {
  calls = length calls;
  output_tokens = sum_by tokens calls;
  input_tokens = sum_by input_tokens calls;
  errors = sum_by (λ (c : ToolCall). one_if (is_error c)) calls;
  no_result = sum_by (λ (c : ToolCall). one_if c.no_result) calls;
}

-- The columns of a table that a tally sums, and their sums.
pub record Columns {κ} (V : Type κ) : Type κ where
  pub calls : V → ℕ
  pub output_tokens : V → ℕ
  pub input_tokens : V → ℕ
  pub errors : V → ℕ
  pub no_result : V → ℕ

abbrev pub row_tally {κ} : {V : Type κ} → Columns V → V → Tally
row_tally f v = record {
  calls = f.calls v;
  output_tokens = f.output_tokens v;
  input_tokens = f.input_tokens v;
  errors = f.errors v;
  no_result = f.no_result v;
}

abbrev pub table_tally {ℓ κ} : {K : Type ℓ} {V : Type κ} → Columns V → Dict K V → Tally
table_tally {K = K} {V = V} f d = record {
  calls = sum_by (λ (r : K × V). f.calls r.1) d;
  output_tokens = sum_by (λ (r : K × V). f.output_tokens r.1) d;
  input_tokens = sum_by (λ (r : K × V). f.input_tokens r.1) d;
  errors = sum_by (λ (r : K × V). f.errors r.1) d;
  no_result = sum_by (λ (r : K × V). f.no_result r.1) d;
}

abbrev pub agents_tally : Dict String AgentStats → Tally
agents_tally d =
    table_tally
      (record {
        calls = λ s. s.calls;
        output_tokens = λ s. s.output_tokens;
        input_tokens = λ s. s.input_tokens;
        errors = λ s. s.errors;
        no_result = λ s. s.no_result;
      })
      d

abbrev pub tools_tally {ℓ} : {K : Type ℓ} → Dict K ToolStats → Tally
tools_tally d =
    table_tally
      (record {
        calls = λ s. s.calls;
        output_tokens = λ s. s.output_tokens;
        input_tokens = λ s. s.input_tokens;
        errors = λ s. s.errors;
        no_result = λ s. s.no_result;
      })
      d

abbrev pub add_tally : Tally → Tally → Tally
add_tally a b = record {
  calls = a.calls + b.calls;
  output_tokens = a.output_tokens + b.output_tokens;
  input_tokens = a.input_tokens + b.input_tokens;
  errors = a.errors + b.errors;
  no_result = a.no_result + b.no_result;
}

pub tally_path :
    (a b : Tally)
    → a.calls ≡ b.calls
    → a.output_tokens ≡ b.output_tokens
    → a.input_tokens ≡ b.input_tokens
    → a.errors ≡ b.errors
    → a.no_result ≡ b.no_result
    → a ≡ b
tally_path a b c o i e n = λ t. record {
  calls = c t;
  output_tokens = o t;
  input_tokens = i t;
  errors = e t;
  no_result = n t;
}

-- A column of a table grows by what its row grows by.
pub sum-update {ℓ κ} :
    {K : Type ℓ} ⦃e : Eq K⦄ {V : Type κ} (f : V → ℕ) (g : V → V) (k : K) (start : V) (n : ℕ)
    → f start ≡ 0
    → ((v : V) → f (g v) ≡ f v + n)
    → (d : Dict K V)
    → sum_by (λ (r : K × V). f r.1) (update k start g d) ≡ sum_by (λ (r : K × V). f r.1) d + n
unfolding update
sum-update f g k start n z h [] = omega (arith, h start)
sum-update f g k start n z h ((j, v) ∷ d) = elim (Bool-cases (k == j)) [
  | inl same ↦ rw (same, h v) (omega arith)
  | inr other ↦ rw (other, sum-update f g k start n z h d) (omega arith)
]

pub add_tally-nil : (t : Tally) → add_tally t (tally []) ≡ t
add_tally-nil t =
    tally_path _ _ (omega arith) (omega arith) (omega arith) (omega arith) (omega arith)

-- A table grows by what the row that is updated grows by, if a new row starts at nothing.
pub table_tally-update {ℓ κ} :
    {K : Type ℓ} ⦃e : Eq K⦄ {V : Type κ} (f : Columns V) (g : V → V) (k : K) (start : V) (t : Tally)
    → row_tally f start ≡ tally []
    → ((v : V) → row_tally f (g v) ≡ add_tally (row_tally f v) t)
    → (d : Dict K V) → table_tally f (update k start g d) ≡ add_tally (table_tally f d) t
table_tally-update f g k start t z h d =
    tally_path _ _
      (sum-update f.calls g k start t.calls (ap (λ (s : Tally). s.calls) z)
        (λ v. ap (λ (s : Tally). s.calls) (h v)) d)
      (sum-update f.output_tokens g k start t.output_tokens (ap (λ (s : Tally). s.output_tokens) z)
        (λ v. ap (λ (s : Tally). s.output_tokens) (h v)) d)
      (sum-update f.input_tokens g k start t.input_tokens (ap (λ (s : Tally). s.input_tokens) z)
        (λ v. ap (λ (s : Tally). s.input_tokens) (h v)) d)
      (sum-update f.errors g k start t.errors (ap (λ (s : Tally). s.errors) z)
        (λ v. ap (λ (s : Tally). s.errors) (h v)) d)
      (sum-update f.no_result g k start t.no_result (ap (λ (s : Tally). s.no_result) z)
        (λ v. ap (λ (s : Tally). s.no_result) (h v)) d)

pub count_agent-tally :
    (agent : String) (c : ToolCall) (d : Dict String AgentStats)
    → agents_tally (update agent no_agent_stats (count_agent c) d)
      ≡ add_tally (agents_tally d) (tally (c ∷ []))
unfolding count_agent
count_agent-tally agent c d =
    table_tally-update _ (count_agent c) agent no_agent_stats (tally (c ∷ [])) refl
      (λ v. tally_path _ _ refl (omega arith) (omega arith) (omega arith) (omega arith)) d

pub count_tool-tally {ℓ} :
    {K : Type ℓ} ⦃e : Eq K⦄ (k : K) (c : ToolCall) (d : Dict K ToolStats)
    → tools_tally (update k no_tool_stats (count_tool c) d)
      ≡ add_tally (tools_tally d) (tally (c ∷ []))
unfolding count_tool
count_tool-tally k c d =
    table_tally-update _ (count_tool c) k no_tool_stats (tally (c ∷ [])) refl
      (λ v. tally_path _ _ refl (omega arith) (omega arith) (omega arith) (omega arith)) d

pub count_session-tally :
    (agent : String) (result : ParseResult) (d : Dict String AgentStats)
    → agents_tally (update agent no_agent_stats (count_session result) d) ≡ agents_tally d
unfolding count_session
count_session-tally agent result d =
    table_tally-update _ (count_session result) agent no_agent_stats (tally []) refl
      (λ v. sym (add_tally-nil _)) d
    ∙ add_tally-nil (agents_tally d)
