-- ===== src/Base/Sorting.antt =====
-- Python's `sorted`, which is stable, by a strict order, the order of its strings, `any` and `set`.
use Prim.Native.Nat.{suc, Ordering}
use Prim.Native.String.{String, compare}
use mathlib.Core.Path.{◌≡◌, refl, ap, ◌∙◌}
use mathlib.Core.Bool.{Bool, true, false, ◌||◌}
use mathlib.Core.List.{List, [], ◌∷◌}
use native.Mathlib.Omega.{arith}
use tool_benchmarks.Base.Lists.{length}
use tool_benchmarks.Base.Equality.{contains, string_eq, if◌then◌else◌}

abbrev pub is_lt : Ordering → Bool → Bool
is_lt Ordering.lt rest = true
is_lt Ordering.eq rest = rest
is_lt Ordering.gt rest = false

-- `s < t`
abbrev pub text_before : String → String → Bool
text_before s t = is_lt (compare s t) false

-- `set(xs)`
unfoldable pub set_of : List String → List String
set_of [] = []
set_of (x ∷ xs) = let rest = set_of xs in if contains rest x then rest else x ∷ rest

module _ {ℓ} {A : Type ℓ} (less : A → A → Bool) where
  -- Put `x`, which came before them, among sorted values: it goes in front of its equals.
  unfoldable pub insert_sorted : A → List A → List A
  insert_sorted x [] = x ∷ []
  insert_sorted x (y ∷ ys) =
      let rest = insert_sorted x ys in if less y x then y ∷ rest else x ∷ y ∷ ys

  -- `sorted`
  unfoldable pub sorted : List A → List A
  unfolding insert_sorted
  sorted [] = []
  sorted (x ∷ xs) = insert_sorted x (sorted xs)

-- `any(test(x) for x in xs)`
abbrev pub any {ℓ} : {A : Type ℓ} → (A → Bool) → List A → Bool
any test [] = false
any test (x ∷ xs) = test x || any test xs

any-insert_sorted {ℓ} :
    {A : Type ℓ} (less : A → A → Bool) (test : A → Bool) (x : A) (xs : List A)
    → any test (insert_sorted less x xs) ≡ (test x || any test xs)
unfolding insert_sorted
any-insert_sorted less test x [] = refl
any-insert_sorted less test x (y ∷ ys) = ground (arith, any-insert_sorted less test x ys)

-- Sorting loses nothing and makes nothing up.
pub any-sorted {ℓ} :
    {A : Type ℓ} (less : A → A → Bool) (test : A → Bool) (xs : List A)
    → any test (sorted less xs) ≡ any test xs
unfolding sorted
any-sorted less test [] = refl
any-sorted less test (x ∷ xs) =
    rw (any-insert_sorted less test x (sorted less xs), any-sorted less test xs) refl

length-insert_sorted {ℓ} :
    {A : Type ℓ} (less : A → A → Bool) (x : A) (xs : List A)
    → length (insert_sorted less x xs) ≡ suc (length xs)
unfolding insert_sorted
length-insert_sorted less x [] = refl
length-insert_sorted less x (y ∷ ys) = ground (arith, length-insert_sorted less x ys)

pub length-sorted {ℓ} :
    {A : Type ℓ} (less : A → A → Bool) (xs : List A) → length (sorted less xs) ≡ length xs
unfolding sorted
length-sorted less [] = refl
length-sorted less (x ∷ xs) =
    length-insert_sorted less x (sorted less xs) ∙ ap suc (length-sorted less xs)
