-- ===== src/Complex.antt =====
-- src/toolbench/complex.py: the defects, arms and trials of the locate-then-fix probe.
pub mod TestGate
pub mod Granted
pub mod Locate
pub mod Score
pub mod Spent
pub mod Split
pub mod Profile
pub mod Counted
use tool_benchmarks.Base.{ℕ, String, Bool, ◌||◌, not, Option, List, [], ◌∷◌, ◌++◌, map, ◌<>◌}
use tool_benchmarks.Base.Int.{ℤ}

abbrev pub baseline_tools : List String
baseline_tools = "Read" ∷ "TodoWrite" ∷ []

abbrev pub serena_tools : List String
serena_tools =
    map (λ (name : String). "mcp__plugin_serena_serena__" <> name)
      ("find_symbol" ∷ "find_referencing_symbols" ∷ "find_file" ∷ "search_for_pattern"
        ∷ "get_symbols_overview" ∷ "list_dir" ∷ "read_file" ∷ "replace_symbol_body"
        ∷ "insert_after_symbol" ∷ "insert_before_symbol" ∷ "replace_content" ∷ [])

abbrev pub native_tools : List String
native_tools = "Grep" ∷ "Glob" ∷ "Edit" ∷ []

pub record ArmSpec : Type 0 where
  pub name : String
  pub allowed_tools : List String

-- `lines` is the pair of the first and the last line.
pub record Truth : Type 0 where
  pub file : String
  pub symbol : String
  pub first_line : ℤ
  pub last_line : ℤ

pub record TrialResult : Type 0 where
  pub defect_id : String
  pub repo : String
  pub arm : String
  pub trial : ℕ
  pub located : Bool
  pub fixed : Bool
  pub n1 : Option ℕ
  pub n2 : Option ℕ
  pub total : ℕ
  pub steps : ℕ
  pub violations : List String
  pub read_escapes : List String

abbrev is_nonempty : List String → Bool
is_nonempty [] = Bool.false
is_nonempty (x ∷ xs) = Bool.true

-- `TrialResult.void`
unfoldable pub void : TrialResult → Bool
void r = is_nonempty r.violations || is_nonempty r.read_escapes

-- `build_arms`
unfoldable pub build_arms : String → List ArmSpec
build_arms test_gate =
    let base = baseline_tools ++ (test_gate ∷ []) in
    record { name = "serena"; allowed_tools = base ++ serena_tools }
    ∷ record { name = "native"; allowed_tools = base ++ native_tools }
    ∷ record { name = "bash"; allowed_tools = baseline_tools ++ ("Bash" ∷ []) }
    ∷ record {
      name = "control";
      allowed_tools = base ++ (serena_tools ++ (native_tools ++ ("Bash" ∷ [])));
    }
    ∷ []
