-- ===== src/Base/Membership.antt =====
-- `in` of the lists that Python's `set`, `sorted` and comprehensions give.
use Prim.Native.String.{String}
use mathlib.Core.Path.{◌≡◌, refl}
use mathlib.Core.Bool.{Bool, ◌&&◌, ◌||◌}
use mathlib.Core.List.{List, [], ◌∷◌}
use native.Mathlib.Omega.{arith}
use tool_benchmarks.Base.Equality.{contains, string_eq, ◌==◌}
use tool_benchmarks.Base.Lists.{select}
use tool_benchmarks.Base.Sorting.{insert_sorted, sorted, set_of}

pub contains-select :
    (test : String → Bool) (xs : List String) (x : String)
    → contains (select test xs) x ≡ (contains xs x && test x)
contains-select test [] x = refl
contains-select test (y ∷ xs) x = ground (arith, contains-select test xs x)

pub contains-set_of : (xs : List String) (x : String) → contains (set_of xs) x ≡ contains xs x
unfolding set_of
contains-set_of [] x = refl
contains-set_of (y ∷ xs) x = ground (arith, contains-set_of xs x)

contains-insert_sorted :
    (less : String → String → Bool) (y : String) (xs : List String) (x : String)
    → contains (insert_sorted less y xs) x ≡ (x == y || contains xs x)
unfolding insert_sorted
contains-insert_sorted less y [] x = refl
contains-insert_sorted less y (z ∷ xs) x = ground (arith, contains-insert_sorted less y xs x)

pub contains-sorted :
    (less : String → String → Bool) (xs : List String) (x : String)
    → contains (sorted less xs) x ≡ contains xs x
unfolding sorted
contains-sorted less [] x = refl
contains-sorted less (y ∷ xs) x =
    rw (contains-insert_sorted less y (sorted less xs) x, contains-sorted less xs x) refl
