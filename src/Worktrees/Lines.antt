-- ===== src/Worktrees/Lines.antt =====
-- The lines of a text and their first words, as src/toolbench/worktrees.py takes them apart.
use Prim.Native.Char.{code}
use text.Mathlib.TextLemmas.{nil-append, cons-append}
use tool_benchmarks.Base.{◌≡◌, refl, ap, ◌∙◌, String, ◌<>◌, Bool, true, false, not, ◌&&◌}
use tool_benchmarks.Base.{List, [], ◌∷◌, All, arith, eqb, string_eq, if◌then◌else◌}
use tool_benchmarks.Base.Text.{
  is_empty, is_space, is_break, strip, lstrip, rstrip, splitlines, partition_space,
}

-- Each line, with a line feed behind it
abbrev pub unlines : List String → String
unlines [] = ""
unlines (line ∷ lines) = line <> ("\n" <> unlines lines)

abbrev pub no_break : String → Bool
no_break String.[] = true
no_break (String.◌∷◌ c s) = not (is_break c) && no_break s

and_right : (a b : Bool) → (a && b) ≡ true → b ≡ true
and_right a b h = ground arith

splitlines-line :
    (line rest : String)
    → no_break line ≡ true
    → splitlines (line <> ("\n" <> rest)) ≡ line ∷ splitlines rest
unfolding splitlines
splitlines-line String.[] rest h =
    rw (nil-append ("\n" <> rest), cons-append "\n" "" rest, nil-append rest) refl
splitlines-line (String.◌∷◌ c s) rest h =
    rw
      (
        cons-append c s ("\n" <> rest),
        splitlines-line s rest (and_right (not (is_break c)) (no_break s) h),
      )
      (ground arith)

pub no_break-append :
    (s t : String) → no_break s ≡ true → no_break t ≡ true → no_break (s <> t) ≡ true
no_break-append String.[] t h k = rw (nil-append t) k
no_break-append (String.◌∷◌ c s) t h k =
    rw (cons-append c s t) (ground (arith, no_break-append s t))

pub splitlines-unlines :
    (lines : List String)
    → All (λ (line : String). no_break line ≡ true) lines
    → splitlines (unlines lines) ≡ lines
unfolding splitlines
splitlines-unlines [] h = refl
splitlines-unlines (line ∷ lines) h =
    splitlines-line line (unlines lines) (h.0)
    ∙ ap (λ ls. line ∷ ls) (splitlines-unlines lines (h.1))

abbrev pub no_space : String → Bool
no_space String.[] = true
no_space (String.◌∷◌ c s) = not (eqb (code c) 32) && no_space s

pub partition-append :
    (key value : String)
    → no_space key ≡ true
    → partition_space (key <> (" " <> value)) ≡ (key, value)
unfolding partition_space
partition-append String.[] value h =
    rw (nil-append (" " <> value), cons-append " " "" value, nil-append value) refl
partition-append (String.◌∷◌ c s) value h =
    rw
      (
        cons-append c s (" " <> value),
        partition-append s value (and_right (not (eqb (code c) 32)) (no_space s) h),
      )
      (ground arith)

pub strip_worktree : (s : String) → is_empty (strip ("worktree" <> s)) ≡ false
unfolding strip lstrip rstrip is_space
strip_worktree s = rw (cons-append "w" "orktree" s) (cases (rstrip ("orktree" <> s)))
  where
    cases :
        (r : String)
        → is_empty (lstrip (if is_empty r && is_space "w" then "" else String.◌∷◌ "w" r)) ≡ false
    cases String.[] = refl
    cases (String.◌∷◌ c r) = refl
