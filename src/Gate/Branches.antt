-- ===== src/Gate/Branches.antt =====
-- The chain of tests in `compare_complexity` of src/toolbench/complexity_gate.py, as tests on Booleans.
use tool_benchmarks.Base.{◌≡◌, refl, Bool, true, false, not, ◌&&◌}
use tool_benchmarks.Base.{if◌then◌else◌, arith}
use tool_benchmarks.Base.Int.{ℤ, ltb_ℤ}
use tool_benchmarks.Gate.Order.{symbol_eq}

pub crossed : (t old m : ℤ) → ltb_ℤ t old ≡ false → ltb_ℤ t m ≡ true → ltb_ℤ old m ≡ true
crossed t old m h k = ground arith

pub grew : (t old m : ℤ) → ltb_ℤ t old ≡ true → ltb_ℤ old m ≡ true → ltb_ℤ t m ≡ true
grew t old m h k = ground arith

-- The tests of the loop, as Booleans: the function is over the threshold, its old measurement is, it
-- has grown, and it has grown by the delta.
abbrev pub branch {ℓ} : {A : Type ℓ} → Bool → Bool → Bool → Bool → A → A → A → A → A
branch over was_over larger much cross hot warn quiet =
    if not was_over && over
    then cross
    else if was_over && larger
    then hot
    else if not over && much
    then warn
    else quiet

pub branch_lem {ℓ} :
    {A : Type ℓ} (over was_over larger much : Bool) (e w q : A)
    → (was_over ≡ false → over ≡ true → larger ≡ true)
    → (was_over ≡ true → larger ≡ true → over ≡ true)
    → branch over was_over larger much e e w q
      ≡ (if over && larger then e else if not over && much then w else q)
branch_lem true true true much e w q h k = refl
branch_lem true true false much e w q h k = refl
branch_lem true false true much e w q h k = refl
branch_lem true false false much e w q h k = let no = h refl refl in cc
branch_lem false true true much e w q h k = let no = k refl refl in cc
branch_lem false true false much e w q h k = refl
branch_lem false false larger much e w q h k = refl

pub map-branch {ℓ κ} :
    {A : Type ℓ} {B : Type κ} (f : A → B) (over was_over larger much : Bool) (a b c d : A)
    → f (branch over was_over larger much a b c d)
      ≡ branch over was_over larger much (f a) (f b) (f c) (f d)
map-branch f over was_over larger much a b c d = ground arith

pub error_branch {ℓ} :
    {A : Type ℓ} (over larger much : Bool) (e q : A)
    → (if over && larger then e else if not over && much then q else q)
      ≡ (if over && larger then e else q)
error_branch over larger much e q = ground arith

pub warning_branch {ℓ} :
    {A : Type ℓ} (over larger much : Bool) (w q : A)
    → (if over && larger then q else if not over && much then w else q)
      ≡ (if not over && much then w else q)
warning_branch over larger much w q = ground arith
