-- ===== src/Gate/Nearest.antt =====
-- Which functions `nearest_to_threshold` of src/toolbench/complexity_gate.py names.
use mathlib.Core.List.{Perm}
use mathlib.Core.List.Perm
use mathlib.Core.Path.{subst}
use tool_benchmarks.Base.{ℕ, zero, suc, ◌≡◌, refl, ap, sym, true, false}
use tool_benchmarks.Base.{List, [], ◌∷◌, ◌++◌, select, arith, Bool-cases, inl, inr, All}
use tool_benchmarks.Base.Dict.{values}
use tool_benchmarks.Base.Int.{ℤ, pos, ◌≤ℤ◌, ltb_ℤ}
use tool_benchmarks.Base.Sorting.{insert_sorted, sorted, length-sorted}
use tool_benchmarks.Base.{length, leb, if◌then◌else◌, ◌∙◌}
use tool_benchmarks.Gate.Order.{take, slice_to}
use tool_benchmarks.Gate.Keys.{InOrder, sorted-InOrder}
use tool_benchmarks.Gate.Compare.{FunctionComplexity, Report, le_ℤ, nearer, nearest_to_threshold}

insert_sorted-Perm :
    (x : FunctionComplexity) (xs : List FunctionComplexity)
    → Perm (x ∷ xs) (insert_sorted nearer x xs)
unfolding insert_sorted
insert_sorted-Perm x [] = Perm.refl _
insert_sorted-Perm x (y ∷ ys) = elim (Bool-cases (nearer y x)) [
  | inl first ↦ rw first (Perm.trans (Perm.swap y x ys) (Perm.cons y (insert_sorted-Perm x ys)))
  | inr later ↦ rw later (Perm.refl _)
]

sorted-Perm : (xs : List FunctionComplexity) → Perm xs (sorted nearer xs)
unfolding sorted
sorted-Perm [] = Perm.refl _
sorted-Perm (x ∷ xs) =
    Perm.trans (Perm.cons x (sorted-Perm xs)) (insert_sorted-Perm x (sorted nearer xs))

-- No function of a list is more complex than this one.
abbrev pub NoneAbove : FunctionComplexity → List FunctionComplexity → Type 0
NoneAbove a bs = All (λ (b : FunctionComplexity). b.complexity ≤ℤ a.complexity) bs

abbrev Descending : List FunctionComplexity → Type 0
Descending [] = Unit
Descending (x ∷ xs) = NoneAbove x xs × Descending xs

nearer_le : (a b : FunctionComplexity) → nearer a b ≡ true → b.complexity ≤ℤ a.complexity
nearer_le a b h = elim (Bool-cases (ltb_ℤ b.complexity a.complexity)) [
  | inl l ↦ ground arith
  | inr g ↦ elim (Bool-cases (ltb_ℤ a.complexity b.complexity)) [
    | inl l ↦ let no = rw (g, l) at h in cc
    | inr e ↦ ground arith
  ]
]

not_nearer_le : (a b : FunctionComplexity) → nearer a b ≡ false → a.complexity ≤ℤ b.complexity
not_nearer_le a b h = elim (Bool-cases (ltb_ℤ b.complexity a.complexity)) [
  | inl l ↦ let no = rw l at h in cc
  | inr g ↦ ground arith
]

abbrev pub at_most : ℕ → ℕ → ℕ
at_most n m = if leb n m then n else m

NoneAbove-weaken :
    (a b : FunctionComplexity) (cs : List FunctionComplexity)
    → a.complexity ≤ℤ b.complexity
    → NoneAbove a cs
    → NoneAbove b cs
NoneAbove-weaken a b [] h n = tt
NoneAbove-weaken a b (c ∷ cs) h (l, n) = (omega arith, NoneAbove-weaken a b cs h n)

NoneAbove-insert :
    (a x : FunctionComplexity) (xs : List FunctionComplexity)
    → x.complexity ≤ℤ a.complexity
    → NoneAbove a xs
    → NoneAbove a (insert_sorted nearer x xs)
unfolding insert_sorted
NoneAbove-insert a x [] h n = (h, tt)
NoneAbove-insert a x (y ∷ ys) h (l, n) = elim (Bool-cases (nearer y x)) [
  | inl first ↦ rw first (l, NoneAbove-insert a x ys h n)
  | inr later ↦ rw later (h, (l, n))
]

insert_sorted-Descending :
    (x : FunctionComplexity) (xs : List FunctionComplexity)
    → Descending xs
    → Descending (insert_sorted nearer x xs)
unfolding insert_sorted
insert_sorted-Descending x [] d = (tt, tt)
insert_sorted-Descending x (y ∷ ys) (n, d) = elim (Bool-cases (nearer y x)) [
  | inl first ↦
      rw first (NoneAbove-insert y x ys (nearer_le y x first) n, insert_sorted-Descending x ys d)
  | inr later ↦
      let l = not_nearer_le y x later in rw later ((l, NoneAbove-weaken y x ys l n), (n, d))
]

sorted-Descending : (xs : List FunctionComplexity) → Descending (sorted nearer xs)
unfolding sorted
sorted-Descending [] = tt
sorted-Descending (x ∷ xs) = insert_sorted-Descending x (sorted nearer xs) (sorted-Descending xs)

drop : ℕ → List FunctionComplexity → List FunctionComplexity
drop zero xs = xs
drop (suc n) [] = []
drop (suc n) (x ∷ xs) = drop n xs

take-drop : (n : ℕ) (xs : List FunctionComplexity) → (take n xs ++ drop n xs) ≡ xs
unfolding take drop
take-drop zero xs = refl
take-drop (suc n) [] = refl
take-drop (suc n) (x ∷ xs) = ap (λ ys. x ∷ ys) (take-drop n xs)

NoneAbove-drop :
    (a : FunctionComplexity) (n : ℕ) (xs : List FunctionComplexity)
    → NoneAbove a xs
    → NoneAbove a (drop n xs)
unfolding drop
NoneAbove-drop a zero xs h = h
NoneAbove-drop a (suc n) [] h = tt
NoneAbove-drop a (suc n) (x ∷ xs) (l, h) = NoneAbove-drop a n xs h

taken-NoneAbove :
    (n : ℕ) (xs : List FunctionComplexity)
    → Descending xs
    → All (λ (a : FunctionComplexity). NoneAbove a (drop n xs)) (take n xs)
unfolding take drop
taken-NoneAbove zero xs d = tt
taken-NoneAbove (suc n) [] d = tt
taken-NoneAbove (suc n) (x ∷ xs) (h, d) = (NoneAbove-drop x n xs h, taken-NoneAbove n xs d)

length-take : (n : ℕ) (xs : List FunctionComplexity) → length (take n xs) ≡ at_most n (length xs)
unfolding take
length-take zero xs = ground arith
length-take (suc n) [] = ground arith
length-take (suc n) (x ∷ xs) = ground (arith, length-take n xs)

-- For a count that is not negative: as many functions are named as the count says, or all that are
-- within the threshold if there are fewer. Those named and then those left over are, up to order, the
-- functions within the threshold; they stand in the order of complexity, the highest first, and where
-- it is equal in that of the symbols; and none that is left over is more complex than one named.
pub nearest_to_threshold-NoneAbove :
    (threshold : ℤ) (n : ℕ) (report : Report)
    → let within =
        select (λ (m : FunctionComplexity). le_ℤ m.complexity threshold) (values report) in
      let nearest = nearest_to_threshold threshold (pos n) report in
      (length nearest ≡ at_most n (length within))
      × ((left : List FunctionComplexity) × Perm within (nearest ++ left)
          × InOrder (nearest ++ left)
          × All (λ (a : FunctionComplexity). NoneAbove a left) nearest)
unfolding nearest_to_threshold slice_to
nearest_to_threshold-NoneAbove threshold n report =
    let within = select (λ (m : FunctionComplexity). le_ℤ m.complexity threshold) (values report) in
    let whole = sym (take-drop n (sorted nearer within)) in
    (
      length-take n (sorted nearer within) ∙ ap (at_most n) (length-sorted nearer within),
      (
        drop n (sorted nearer within),
        subst (λ ys. Perm within ys) whole (sorted-Perm within),
        subst InOrder whole (sorted-InOrder within),
        taken-NoneAbove n (sorted nearer within) (sorted-Descending within),
      ),
    )
