-- ===== src/Gate/Asymmetry.antt =====
-- The order of texts and symbols that src/toolbench/complexity_gate.py sorts by is asymmetric.
use Prim.Native.Char.{code}
use Prim.Native.Nat.{Ordering, compare as compare_ℕ}
use Prim.Native.String.{compare, then}
use Prim.Native.String.compare as Laws
use tool_benchmarks.Base.{ℕ, ◌≡◌, refl, String, true, false, arith}
use tool_benchmarks.Base.Sorting.{is_lt}
use tool_benchmarks.Gate.Order.{Symbol, before}

abbrev swapped : Ordering → Ordering
swapped Ordering.lt = Ordering.gt
swapped Ordering.eq = Ordering.eq
swapped Ordering.gt = Ordering.lt

then-swapped : (o p : Ordering) → then (swapped o) (swapped p) ≡ swapped (then o p)
then-swapped Ordering.lt p = refl
then-swapped Ordering.eq p = refl
then-swapped Ordering.gt p = refl

is_lt-swapped :
    (o p : Ordering)
    → is_lt o (is_lt p false) ≡ true
    → is_lt (swapped o) (is_lt (swapped p) false) ≡ false
is_lt-swapped Ordering.lt p h = refl
is_lt-swapped Ordering.eq Ordering.lt h = refl
is_lt-swapped Ordering.eq Ordering.eq h = cc
is_lt-swapped Ordering.eq Ordering.gt h = cc
is_lt-swapped Ordering.gt p h = cc

compare_ℕ-swapped : (m n : ℕ) → compare_ℕ n m ≡ swapped (compare_ℕ m n)
compare_ℕ-swapped m n = ground arith

compare-swapped : (s t : String) → compare t s ≡ swapped (compare s t)
compare-swapped String.[] String.[] = refl
compare-swapped String.[] (String.◌∷◌ d t) = rw (Laws.nil-cons d t, Laws.cons-nil d t) refl
compare-swapped (String.◌∷◌ c s) String.[] = rw (Laws.nil-cons c s, Laws.cons-nil c s) refl
compare-swapped (String.◌∷◌ c s) (String.◌∷◌ d t) =
    rw
      (
        Laws.cons-cons c d s t,
        Laws.cons-cons d c t s,
        compare-swapped s t,
        compare_ℕ-swapped (code c) (code d),
      )
      (then-swapped (compare_ℕ (code c) (code d)) (compare s t))

pub before-asymmetric : (a b : Symbol) → before a b ≡ true → before b a ≡ false
unfolding before
before-asymmetric a b h =
    rw (compare-swapped a.path b.path, compare-swapped a.qualname b.qualname)
      (is_lt-swapped (compare a.path b.path) (compare a.qualname b.qualname) h)
