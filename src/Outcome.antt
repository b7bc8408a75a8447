-- ===== src/Outcome.antt =====
-- Results that may be an exception, for the code of src/toolbench that raises.
use tool_benchmarks.Base.{◌≡◌, refl}

-- The exception classes, by name: those that src/toolbench defines, those that Python raises, and
-- `runner_error` for any that an injected `Runner` raises.
pub data Error : Type 0 where
  turn_key_error unknown_schema ambiguous_schema : Error
  type_error overflow_error value_error : Error
  worktree_probe_failed runner_error : Error

pub data Result {ℓ} (A : Type ℓ) : Type ℓ where
  ok : A → Result A
  err : Error → Result A

module _ {ℓ κ} {A : Type ℓ} {B : Type κ} where
  abbrev pub map_ok : (A → B) → Result A → Result B
  map_ok f (ok value) = ok (f value)
  map_ok f (err raised) = err raised

  -- What follows a call that may raise: an exception skips it.
  infixl 5 ◌>>=◌
  abbrev pub ◌>>=◌ : Result A → (A → Result B) → Result B
  ok value >>= rest = rest value
  err raised >>= rest = err raised

  -- What a chain returns is what its last step returns, on what its first one does.
  pub >>=-eq-ok :
      (first : Result A) (rest : A → Result B) {b : B}
      → (first >>= rest) ≡ ok b
      → (value : A) × (first ≡ ok value) × (rest value ≡ ok b)
  >>=-eq-ok (ok value) rest h = (value, refl, h)
  >>=-eq-ok (err raised) rest h = cc

pub ok_inj {ℓ} : {A : Type ℓ} {a b : A} → ok a ≡ ok b → a ≡ b
ok_inj h = cc

-- Chains of steps may be regrouped.
pub >>=-assoc {ℓ κ μ} :
    {A : Type ℓ} {B : Type κ} {C : Type μ} (m : Result A) (f : A → Result B) (g : B → Result C)
    → (m >>= f >>= g) ≡ (m >>= λ a. f a >>= g)
>>=-assoc (ok value) f g = refl
>>=-assoc (err raised) f g = refl
