-- ===== src/Gate/Keys.antt =====
-- The order of the sort key in `nearest_to_threshold` of src/toolbench/complexity_gate.py.
use tool_benchmarks.Base.{◌≡◌, ◌⊎◌, inl, inr, Bool-cases, true, false, arith, List, [], ◌∷◌}
use tool_benchmarks.Base.Int.{ℤ, ltb_ℤ, eq_of_parts}
use tool_benchmarks.Base.Sorting.{insert_sorted, sorted}
use tool_benchmarks.Gate.Order.{before}
use tool_benchmarks.Gate.Asymmetry.{before-asymmetric}
use tool_benchmarks.Gate.Compare.{FunctionComplexity, nearer}

same_ℤ : (a b : ℤ) → ltb_ℤ a b ≡ false → ltb_ℤ b a ≡ false → a ≡ b
same_ℤ a b h k = eq_of_parts a b (ground arith)

-- The key `(-complexity, symbol)` of the first is not above that of the second.
abbrev pub KeyLe : FunctionComplexity → FunctionComplexity → Type 0
KeyLe a b =
    (ltb_ℤ b.complexity a.complexity ≡ true)
    ⊎ ((a.complexity ≡ b.complexity) × (before b.symbol a.symbol ≡ false))

abbrev pub InOrder : List FunctionComplexity → Type 0
InOrder [] = Unit
InOrder (a ∷ []) = Unit
InOrder (a ∷ b ∷ rest) = KeyLe a b × InOrder (b ∷ rest)

not_nearer-KeyLe : (a b : FunctionComplexity) → nearer b a ≡ false → KeyLe a b
not_nearer-KeyLe a b h = elim (Bool-cases (ltb_ℤ b.complexity a.complexity)) [
  | inl l ↦ inl l
  | inr g ↦ elim (Bool-cases (ltb_ℤ a.complexity b.complexity)) [
    | inl l ↦ let no = rw (l) at h in cc
    | inr e ↦ inr (same_ℤ a.complexity b.complexity e g, rw (e, g) at h)
  ]
]

nearer-KeyLe : (a b : FunctionComplexity) → nearer a b ≡ true → KeyLe a b
nearer-KeyLe a b h = elim (Bool-cases (ltb_ℤ b.complexity a.complexity)) [
  | inl l ↦ inl l
  | inr g ↦ elim (Bool-cases (ltb_ℤ a.complexity b.complexity)) [
    | inl l ↦ let no = rw (g, l) at h in cc
    | inr e ↦
        inr (
          same_ℤ a.complexity b.complexity e g,
          before-asymmetric a.symbol b.symbol (rw (g, e) at h),
        )
  ]
]

-- A function that is put behind another one, which may precede it, keeps the order.
behind :
    (a x : FunctionComplexity) (xs : List FunctionComplexity)
    → KeyLe a x
    → InOrder (a ∷ xs)
    → InOrder (insert_sorted nearer x xs)
    → InOrder (a ∷ insert_sorted nearer x xs)
unfolding insert_sorted
behind a x [] h o i = (h, tt)
behind a x (y ∷ ys) h o i = elim (Bool-cases (nearer y x)) [
  | inl first ↦ rw first (o.0, rw first at i)
  | inr later ↦ rw later (h, rw later at i)
]

tail-InOrder :
    (a : FunctionComplexity) (xs : List FunctionComplexity) → InOrder (a ∷ xs) → InOrder xs
tail-InOrder a [] o = tt
tail-InOrder a (b ∷ xs) o = o.1

insert_sorted-InOrder :
    (x : FunctionComplexity) (xs : List FunctionComplexity)
    → InOrder xs
    → InOrder (insert_sorted nearer x xs)
unfolding insert_sorted
insert_sorted-InOrder x [] o = tt
insert_sorted-InOrder x (y ∷ ys) o = elim (Bool-cases (nearer y x)) [
  | inl first ↦
      rw first (
        behind y x ys (nearer-KeyLe y x first) o (insert_sorted-InOrder x ys (tail-InOrder y ys o)))
  | inr later ↦ rw later (not_nearer-KeyLe x y later, o)
]

pub sorted-InOrder : (xs : List FunctionComplexity) → InOrder (sorted nearer xs)
unfolding sorted
sorted-InOrder [] = tt
sorted-InOrder (x ∷ xs) = insert_sorted-InOrder x (sorted nearer xs) (sorted-InOrder xs)
