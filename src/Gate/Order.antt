-- ===== src/Gate/Order.antt =====
-- `Symbol` of src/toolbench/complexity_gate.py with its order, and Python's slices.
use Prim.Native.String.{compare}
use tool_benchmarks.Base.{ℕ, zero, suc, ◌-◌, ap, String, Bool, false, List, [], ◌∷◌}
use tool_benchmarks.Base.{Eq, string_eq, pair_eq, length}
use tool_benchmarks.Base.Sorting.{is_lt}
use tool_benchmarks.Base.Int.{ℤ, pos, negsuc}

pub record Symbol : Type 0 where
  pub path : String
  pub qualname : String

abbrev fields_of : Symbol → String × String
fields_of s = (s.path, s.qualname)

symbol_dec : Discrete Symbol
symbol_dec a b = elim (pair_eq.dec (fields_of a) (fields_of b)) [
  | yes p ↦ yes (λ i. record { path = (p i).0; qualname = (p i).1 })
  | no n ↦ no (λ p. n (ap fields_of p))
]

instance unfoldable pub symbol_eq : Eq Symbol
unfolding symbol_dec pair_eq string_eq
symbol_eq = record { dec = symbol_dec }

-- `a < b` on the dataclass: by the path, then by the qualified name
unfoldable pub before : Symbol → Symbol → Bool
before a b = is_lt (compare a.path b.path) (is_lt (compare a.qualname b.qualname) false)

unfoldable pub take {ℓ} : {A : Type ℓ} → ℕ → List A → List A
take zero xs = []
take (suc n) [] = []
take (suc n) (x ∷ xs) = x ∷ take n xs

-- `xs[:n]`
unfoldable pub slice_to {ℓ} : {A : Type ℓ} → ℤ → List A → List A
unfolding take
slice_to (pos n) xs = take n xs
slice_to (negsuc n) xs = take (length xs - suc n) xs
