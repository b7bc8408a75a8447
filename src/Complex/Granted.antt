-- ===== src/Complex/Granted.antt =====
-- The Bash rule that src/toolbench/complex.py derives from an oracle's command, against the gate of
-- src/toolbench/shell_safety.py that reads it.
use text.Mathlib.TextLemmas.{
  nil-append, cons-append, append-nil, append_assoc, append_cancel_right, cons-ne-nil,
}
use Prim.Native.Char.{Char}
use tool_benchmarks.Base.{
  some-injective, ◌≡◌, refl, sym, ap, ◌∙◌, String, ◌<>◌, Bool, true, false, Option, some, none,
}
use tool_benchmarks.Base.{
  List, [], ◌∷◌, string_eq, arith, Bool-cases, inl, inr, eqb, eq_self, ◌==◌, if◌then◌else◌,
}
use tool_benchmarks.Base.Text.{strip, without_prefix}
use tool_benchmarks.Shell.Gate.{
  at_boundary, reaches_second, matches_prefix_at_boundary, command_escapes_gate, without_suffix,
  gate_prefix, gate_prefixes,
}
use tool_benchmarks.Shell.Prefixes.{without_prefix-of_append, matches-of_append}
use tool_benchmarks.Complex.TestGate.{is_bare_word, bare_words, joined_from, derive_test_gate}

whole_suffix : (p suffix : String) (c : Char) → (String.◌∷◌ c (p <> suffix) == suffix) ≡ false
whole_suffix p suffix c = elim (Bool-cases (String.◌∷◌ c (p <> suffix) == suffix)) [
  | inr differ ↦ differ
  | inl same ↦ absurd (
      cons-ne-nil c p (
        append_cancel_right (String.◌∷◌ c p) "" suffix
          (cons-append c p suffix ∙ (ground (arith, same) ∙ sym (nil-append suffix)))))
]

without_suffix-of_append : (p : String) → without_suffix ":*)" (p <> ":*)") ≡ some p
unfolding without_suffix
without_suffix-of_append String.[] = rw (eq_self {A = String} ":*)") refl
without_suffix-of_append (String.◌∷◌ c p) =
    rw (cons-append c p ":*)", whole_suffix p ":*)" c, without_suffix-of_append p) refl

-- The words of a command that its gate leaves out
joined-bare_words :
    (first : String) (tokens : List String)
    → (rest : String) × (joined_from first tokens ≡ joined_from first (bare_words tokens) <> rest)
      × (at_boundary rest ≡ true)
unfolding bare_words joined_from tool_benchmarks.Base.Text.is_space
joined-bare_words first [] = ("", sym (append-nil first), refl)
joined-bare_words first (token ∷ tokens) = elim (Bool-cases (is_bare_word token)) [
  | inl bare ↦
      let (rest, e, b) = joined-bare_words token tokens in
      (
        rest,
        rw (bare, e)
            (ap (λ (s : String). first <> s)
                (sym (append_assoc " " (joined_from token (bare_words tokens)) rest))
              ∙ sym (append_assoc first (" " <> joined_from token (bare_words tokens)) rest)),
        b,
      )
  | inr other ↦ (
    " " <> joined_from token tokens,
    rw other refl,
    rw (cons-append " " "" (joined_from token tokens)) refl,
  )
]

gate_prefix-of_rule : (p : String) → gate_prefix ("Bash(" <> (p <> ":*)")) ≡ some p
unfolding gate_prefix
gate_prefix-of_rule p =
    rw (without_prefix-of_append "Bash(" (p <> ":*)")) (without_suffix-of_append p)

granted_prefix :
    (p rule : String) → rule ≡ "Bash(" <> (p <> ":*)") → gate_prefixes (rule ∷ []) ≡ p ∷ []
unfolding gate_prefixes
granted_prefix p rule h = rw (h, gate_prefix-of_rule p) refl

permitted :
    (p rest line : String)
    → line ≡ p <> rest
    → at_boundary rest ≡ true
    → strip line ≡ line
    → reaches_second line ≡ false
    → command_escapes_gate line (p ∷ []) ≡ false
unfolding command_escapes_gate
permitted p rest line e b stripped single =
    let m : matches_prefix_at_boundary line p ≡ true = rw e (matches-of_append p rest b) in
    rw (stripped, m) single

-- The rule derived from an oracle's command grants one prefix, the command's first words, and permits
-- the command itself, if its line is stripped and has no shell operator.
pub derive_test_gate-permits :
    (first : String) (tokens : List String) (rule : String)
    → derive_test_gate (first ∷ tokens) ≡ some rule
    → strip (joined_from first tokens) ≡ joined_from first tokens
    → reaches_second (joined_from first tokens) ≡ false
    → (gate_prefixes (rule ∷ []) ≡ joined_from first (bare_words tokens) ∷ [])
      × (command_escapes_gate (joined_from first tokens) (gate_prefixes (rule ∷ [])) ≡ false)
unfolding derive_test_gate
derive_test_gate-permits first tokens rule h stripped single =
    let (rest, e, b) = joined-bare_words first tokens in
    let grants =
      granted_prefix (joined_from first (bare_words tokens)) rule (sym (some-injective _ _ h)) in
    (
      grants,
      rw grants (
          permitted (joined_from first (bare_words tokens)) rest (joined_from first tokens) e b
            stripped single),
    )
