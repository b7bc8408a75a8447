-- ===== src/Sources.antt =====
-- src/toolbench/sources.py: the records of discovery, and the exceptions that its code and the code
-- that it calls raise, with their messages.
pub mod Listing
pub mod Discovery
pub mod Raw
pub mod Policy
pub mod Loading
pub mod Drained
pub mod Yields
use tool_benchmarks.Base.{String, Bool, true, false, Option, [], ◌∷◌, ◌≡◌, refl, ◌⊎◌, inl, inr}
use tool_benchmarks.Base.Dict.{Dict}
use tool_benchmarks.Base.Int.{ℤ, pos, ◌+ℤ◌, ◌-ℤ◌}

-- The exception classes: those of sources.py, those of adapters.py, and Python's. An exception of
-- any other class is `other`.
pub data Class : Type 0 where
  missing_source_export non_transcript_export agentsview_timeout : Class
  unknown_schema ambiguous_schema runtime_error : Class
  file_not_found_error os_error : Class
  malformed_agentsview_response unicode_decode_error value_error : Class
  other : Class

-- An exception: its class and `str(exc)`
pub record Fault : Type 0 where
  pub class : Class
  pub text : String

-- What a call does: it returns a value, raises, or is still running when the fuel of the model is
-- used up.
pub data Attempt {ℓ} (A : Type ℓ) : Type ℓ where
  returns : A → Attempt A
  raises : Fault → Attempt A
  running : Attempt A

-- What an iterator does as it is drained: it ends, yields a value and goes on, raises, or is still
-- at work when the fuel of the model is used up.
pub data Stream {ℓ} (A : Type ℓ) : Type ℓ where
  ends : Stream A
  yields : A → Stream A → Stream A
  fails : Fault → Stream A
  working : Stream A

infixl 5 ◌>>=◌
abbrev pub ◌>>=◌ {ℓ κ} : {A : Type ℓ} {B : Type κ} → Attempt A → (A → Attempt B) → Attempt B
returns a >>= f = f a
raises e >>= f = raises e
running >>= f = running

-- To split on a computed attempt and keep the equation.
pub Attempt-cases {ℓ} :
    {A : Type ℓ} (m : Attempt A)
    → ((a : A) × (m ≡ returns a)) ⊎ (((e : Fault) × (m ≡ raises e)) ⊎ (m ≡ running))
Attempt-cases (returns a) = inl (a, refl)
Attempt-cases (raises e) = inr (inl (e, refl))
Attempt-cases running = inr (inr refl)

module _ {ℓ} {A : Type ℓ} where
  pub returns_inj : {a b : A} → returns a ≡ returns b → a ≡ b
  returns_inj h = cc

  pub raises-ne-returns : (e : Fault) (a : A) → raises e ≡ returns a → ⊥
  raises-ne-returns e a h = cc

-- What a chain returns is what its last step returns, on what its first one does.
pub >>=-eq-returns {ℓ κ} :
    {A : Type ℓ} {B : Type κ} (m : Attempt A) (f : A → Attempt B) {b : B}
    → (m >>= f) ≡ returns b
    → (a : A) × (m ≡ returns a) × (f a ≡ returns b)
>>=-eq-returns (returns a) f h = (a, refl, h)
>>=-eq-returns (raises e) f h = cc
>>=-eq-returns running f h = cc

pub >>=-returns {ℓ} : {A : Type ℓ} (m : Attempt A) → (m >>= returns) ≡ m
>>=-returns (returns a) = refl
>>=-returns (raises e) = refl
>>=-returns running = refl

-- Chains of steps may be regrouped.
pub >>=-assoc {ℓ κ μ} :
    {A : Type ℓ} {B : Type κ} {C : Type μ} (m : Attempt A) (f : A → Attempt B) (g : B → Attempt C)
    → (m >>= f >>= g) ≡ (m >>= λ a. f a >>= g)
>>=-assoc (returns a) f g = refl
>>=-assoc (raises e) f g = refl
>>=-assoc running f g = refl

-- `isinstance(exc, RuntimeError)`, and the same for OSError and ValueError
unfoldable pub is_runtime_error : Class → Bool
is_runtime_error missing_source_export = true
is_runtime_error non_transcript_export = true
is_runtime_error agentsview_timeout = true
is_runtime_error unknown_schema = true
is_runtime_error ambiguous_schema = true
is_runtime_error runtime_error = true
is_runtime_error _ = false

unfoldable pub is_os_error : Class → Bool
is_os_error file_not_found_error = true
is_os_error os_error = true
is_os_error _ = false

unfoldable pub is_value_error : Class → Bool
is_value_error malformed_agentsview_response = true
is_value_error unicode_decode_error = true
is_value_error value_error = true
is_value_error _ = false

pub data SkipReason : Type 0 where
  missing_source no_parser non_transcript decode_error export_failed export_timeout : SkipReason

pub record SkipRecord : Type 0 where
  pub session_id : String
  pub agent : String
  pub reason : SkipReason
  pub detail : String

pub record AgentCensus : Type 0 where
  pub totals : Dict String ℤ
  pub archive_total : ℤ
  pub unavailable_reason : Option String

-- `sum(d.values())`
unfoldable pub total_of : Dict String ℤ → ℤ
total_of [] = pos 0
total_of ((k, n) ∷ d) = n +ℤ total_of d

unfoldable pub residual : AgentCensus → ℤ
unfolding total_of
residual c = c.archive_total -ℤ total_of c.totals

pub record SessionRef : Type 0 where
  pub agent : String
  pub source : String
  pub project : String
  pub session_id : String
  pub path : Option String
  pub is_subagent : Bool
