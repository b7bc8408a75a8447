-- ===== src/Transcript/Totals.antt =====
-- Sums of `BranchUsage` records (`_plus` and `_minus` of src/toolbench/reducer.py) and of the buckets
-- of a dict.
use tool_benchmarks.Base.{◌≡◌, sym, ◌∙◌, ap, String, [], ◌∷◌}
use tool_benchmarks.Base.{string_eq, ◌==◌, Bool-cases, inl, inr}
use tool_benchmarks.Base.Dict.{Dict, update}
use tool_benchmarks.Base.Int.{◌+ℤ◌, ◌-ℤ◌, int_laws}
use tool_benchmarks.Transcript.{BranchUsage, no_usage}

unfoldable pub plus : BranchUsage → BranchUsage → BranchUsage
plus a b = record {
  read = a.read +ℤ b.read;
  creation = a.creation +ℤ b.creation;
  input = a.input +ℤ b.input;
  output = a.output +ℤ b.output;
  messages = a.messages +ℤ b.messages;
}

unfoldable pub minus : BranchUsage → BranchUsage → BranchUsage
minus a b = record {
  read = a.read -ℤ b.read;
  creation = a.creation -ℤ b.creation;
  input = a.input -ℤ b.input;
  output = a.output -ℤ b.output;
  messages = a.messages -ℤ b.messages;
}

pub usage_path :
    (a b : BranchUsage)
    → a.read ≡ b.read
    → a.creation ≡ b.creation
    → a.input ≡ b.input
    → a.output ≡ b.output
    → a.messages ≡ b.messages
    → a ≡ b
usage_path a b r c i o m =
    λ t. record { read = r t; creation = c t; input = i t; output = o t; messages = m t }

pub plus_assoc : (a b c : BranchUsage) → plus (plus a b) c ≡ plus a (plus b c)
unfolding plus
plus_assoc a b c =
    usage_path _ _ (omega int_laws) (omega int_laws) (omega int_laws) (omega int_laws)
      (omega int_laws)

pub plus_comm : (a b : BranchUsage) → plus a b ≡ plus b a
unfolding plus
plus_comm a b =
    usage_path _ _ (omega int_laws) (omega int_laws) (omega int_laws) (omega int_laws)
      (omega int_laws)

pub plus-no_usage : (a : BranchUsage) → plus a no_usage ≡ a
unfolding plus
plus-no_usage a =
    usage_path _ _ (omega int_laws) (omega int_laws) (omega int_laws) (omega int_laws)
      (omega int_laws)

pub plus-minus : (a b : BranchUsage) → plus (minus a b) b ≡ a
unfolding plus minus
plus-minus a b =
    usage_path _ _ (omega int_laws) (omega int_laws) (omega int_laws) (omega int_laws)
      (omega int_laws)

pub minus-plus : (u t x : BranchUsage) → minus (plus u t) x ≡ plus u (minus t x)
unfolding plus minus
minus-plus u t x =
    usage_path _ _ (omega int_laws) (omega int_laws) (omega int_laws) (omega int_laws)
      (omega int_laws)

pub minus-plus_self : (u t : BranchUsage) → minus (plus u t) u ≡ plus no_usage (minus t no_usage)
unfolding plus minus
minus-plus_self u t =
    usage_path _ _ (omega int_laws) (omega int_laws) (omega int_laws) (omega int_laws)
      (omega int_laws)

-- The sum of the buckets.
abbrev pub total : Dict String BranchUsage → BranchUsage
total [] = no_usage
total ((k, u) ∷ d) = plus u (total d)

plus_swap : (a b c : BranchUsage) → plus (plus a b) c ≡ plus (plus a c) b
plus_swap a b c = plus_assoc a b c ∙ ap (plus a) (plus_comm b c) ∙ sym (plus_assoc a c b)

-- Adding to one bucket adds to the sum, whichever bucket it is and whether or not it is new.
pub total-update :
    (k : String) (u : BranchUsage) (d : Dict String BranchUsage)
    → total (update k no_usage (λ b. plus b u) d) ≡ plus (total d) u
unfolding update
total-update k u [] = plus-no_usage (plus no_usage u)
total-update k u ((j, b) ∷ d) = elim (Bool-cases (k == j)) [
  | inl same ↦ rw same (plus_swap b u (total d))
  | inr other ↦ rw (other, total-update k u d) (sym_assoc b (total d) u)
]
  where
    sym_assoc : (x y z : BranchUsage) → plus x (plus y z) ≡ plus (plus x y) z
    sym_assoc x y z = rw plus_assoc
