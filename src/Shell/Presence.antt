-- ===== src/Shell/Presence.antt =====
-- Whether a list of violations holds any, through the steps by which src/toolbench/shell_safety.py
-- collects them.
use mathlib.Core.List.{Memᴰ}
use tool_benchmarks.Base.{
  ◌≡◌, refl, ap, ◌∙◌, String, Bool, true, false, not, ◌&&◌, ◌||◌, Option, none, some,
}
use tool_benchmarks.Base.{
  List, [], ◌∷◌, ◌++◌, contains, string_eq, if◌then◌else◌, arith, Bool-cases, inl, inr, is_some,
}
use tool_benchmarks.Transcript.{ToolCall}
use tool_benchmarks.Base.Sorting.{any}
use tool_benchmarks.Base.Sorting.{set_of}
use tool_benchmarks.Shell.Audit.{add_violation}

pub or_left : (a b : Bool) → (a || b) ≡ false → a ≡ false
or_left a b h = ground arith

pub or_right : (a b : Bool) → (a || b) ≡ false → b ≡ false
or_right a b h = ground arith

pub none_of :
    (test : ToolCall → Bool) (call : ToolCall) (calls : List ToolCall)
    → Memᴰ call calls
    → any test calls ≡ false
    → test call ≡ false
none_of test call [] m h = elim m [ ]
none_of test call (c ∷ calls) (Memᴰ.head e) h = ap test e ∙ or_left (test c) (any test calls) h
none_of test call (c ∷ calls) (Memᴰ.tail m) h =
    none_of test call calls m (or_right (test c) (any test calls) h)

-- Any element at all
abbrev pub is_any : List String → Bool
is_any xs = any (λ x. true) xs

pub contains-is_any : (xs : List String) (x : String) → contains xs x ≡ true → is_any xs ≡ true
contains-is_any [] x h = cc
contains-is_any (y ∷ xs) x h = refl

pub is_any-set_of : (xs : List String) → is_any (set_of xs) ≡ is_any xs
unfolding set_of
is_any-set_of [] = refl
is_any-set_of (x ∷ xs) = elim (Bool-cases (contains (set_of xs) x)) [
  | inl old ↦ rw old (contains-is_any (set_of xs) x old)
  | inr new ↦ rw new refl
]

pub is_any-append : (xs ys : List String) → is_any (xs ++ ys) ≡ (is_any xs || is_any ys)
is_any-append [] ys = refl
is_any-append (x ∷ xs) ys = refl

pub is_any-if :
    (b : Bool) (x : String) (xs : List String)
    → is_any (if b then x ∷ xs else xs) ≡ (b || is_any xs)
is_any-if true x xs = refl
is_any-if false x xs = refl

pub is_any-add :
    (o : Option String) (xs : List String) → is_any (add_violation o xs) ≡ (is_some o || is_any xs)
is_any-add none xs = refl
is_any-add (some x) xs = refl

pub is_some-if :
    (gated bash : Bool) (o : Option String)
    → is_some (if not gated then none else if bash then o else none) ≡ (gated && bash && is_some o)
is_some-if true true o = refl
is_some-if true false o = refl
is_some-if false bash o = refl

pub or_swap : (a b c d : Bool) → ((a || b) || (c || d)) ≡ ((a || c) || (b || d))
or_swap a b c d = ground arith

pub any-or :
    (f g : ToolCall → Bool) (xs : List ToolCall) → (any f xs || any g xs) ≡ any (λ x. f x || g x) xs
any-or f g [] = refl
any-or f g (x ∷ xs) =
    or_swap (f x) (any f xs) (g x) (any g xs) ∙ ap (λ b. (f x || g x) || b) (any-or f g xs)
