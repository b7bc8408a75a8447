-- ===== src/Shell/Prefixes.antt =====
-- `removeprefix` and `startswith` of the strings that src/toolbench/shell_safety.py tests.
use text.Mathlib.TextEquality.{Char-path}
use text.Mathlib.TextLemmas.{nil-append, cons-append}
use Prim.Native.Char.{Char, code}
use tool_benchmarks.Base.{some-injective, ◌≡◌, sym, ◌∙◌, String, ◌<>◌, true, refl, some}
use tool_benchmarks.Base.{string_eq, arith, Bool-cases, inl, inr, eqb}
use tool_benchmarks.Base.Text.{without_prefix}
use tool_benchmarks.Shell.Gate.{at_boundary, matches_prefix_at_boundary}

same_char : (c d : Char) → eqb (code c) (code d) ≡ true → c ≡ d
same_char c d h = Char-path c d (ground arith)

pub without_prefix-append :
    (prefix s rest : String) → without_prefix prefix s ≡ some rest → s ≡ prefix <> rest
unfolding without_prefix
without_prefix-append String.[] s rest h = some-injective _ _ h ∙ sym (nil-append rest)
without_prefix-append (String.◌∷◌ p ps) String.[] rest h = cc
without_prefix-append (String.◌∷◌ p ps) (String.◌∷◌ c s) rest h =
    elim (Bool-cases (eqb (code p) (code c))) [
      | inl e ↦
          let q = sym (same_char p c e) in
          let tails = without_prefix-append ps s rest (rw e at h) in
          (λ i. String.◌∷◌ (q i) (tails i)) ∙ sym (cons-append p ps rest)
      | inr d ↦ let no = rw d at h in cc
    ]

-- A prefix is found in front of any text.
pub without_prefix-of_append : (p s : String) → without_prefix p (p <> s) ≡ some s
unfolding without_prefix
without_prefix-of_append String.[] s = rw (nil-append s) refl
without_prefix-of_append (String.◌∷◌ c p) s =
    rw (cons-append c p s, without_prefix-of_append p s) (ground arith)

pub matches-of_append :
    (p rest : String) → at_boundary rest ≡ true → matches_prefix_at_boundary (p <> rest) p ≡ true
unfolding matches_prefix_at_boundary
matches-of_append p rest b = rw (matches_prefix_at_boundary, without_prefix-of_append p rest) b
