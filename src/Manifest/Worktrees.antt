-- ===== src/Manifest/Worktrees.antt =====
-- Which worktree a directory belongs to.
use mathlib.Core.Path.{subst}
use tool_benchmarks.Base.{
  ℕ, ◌≤◌, ◌<◌, ◌≡◌, refl, sym, String, Bool, true, false, ◌&&◌, Option, none, some,
}
use tool_benchmarks.Base.{List, [], ◌∷◌, length, ltb, contains, string_eq, eq_self, arith}
use tool_benchmarks.Base.{Bool-cases, inl, inr, ◌⊎◌, All}
use tool_benchmarks.Base.Text.{is_empty}
use tool_benchmarks.Manifest.{RunManifest, is_prefix, parts_of, best_worktree, worktree_for}

module _ (expanduser : String → String) (parts : List String) where
  abbrev depth : String → ℕ
  depth w = length (parts_of expanduser w)

  abbrev covers : String → Bool
  covers w = is_prefix (parts_of expanduser w) parts

  -- No worktree of the list that covers the directory is deeper than `n`.
  abbrev NoDeeper : ℕ → List String → Type 0
  NoDeeper n worktrees = All (λ w. covers w ≡ true → depth w ≤ n) worktrees

  -- A match of depth `n`, or no match and depth 0
  abbrev Found : Option String → ℕ → Type 0
  Found none n = n ≡ 0
  Found (some w) n = (covers w ≡ true) × (depth w ≡ n) × (0 < n)

  abbrev Listed : Option String → List String → Type 0
  Listed none worktrees = ⊥
  Listed (some w) worktrees = contains worktrees w ≡ true

  record Searched (worktrees : List String) (best : Option String) (n : ℕ) (r : Option String)
      : Type 0 where
    reached : ℕ
    found : Found r reached
    deeper : n ≤ reached
    deepest : NoDeeper reached worktrees
    origin : (r ≡ best) ⊎ Listed r worktrees

  Listed-cons :
      (w : String) (ws : List String) (r : Option String) → Listed r ws → Listed r (w ∷ ws)
  Listed-cons w ws none h = absurd h
  Listed-cons w ws (some x) h = ground arith

  Listed-head : (w : String) (ws : List String) (r : Option String) → r ≡ some w → Listed r (w ∷ ws)
  Listed-head w ws r e = subst (λ o. Listed o (w ∷ ws)) (sym e) (ground (arith, eq_self w))

  Searched-loop :
      (worktrees : List String) (best : Option String) (n : ℕ)
      → Found best n
      → Searched worktrees best n (best_worktree expanduser parts worktrees best n)
  unfolding best_worktree
  Searched-loop [] best n f = record {
    reached = n;
    found = f;
    deeper = omega arith;
    deepest = tt;
    origin = inl refl;
  }
  Searched-loop (w ∷ ws) best n f = elim (Bool-cases (ltb n (depth w) && covers w)) [
    | inl better ↦
        let s = Searched-loop ws (some w) (depth w) (ground arith) in
        rw better (record {
          reached = s.reached;
          found = s.found;
          deeper = ground (arith, s.deeper);
          deepest = (λ _. s.deeper, s.deepest);
          origin = elim s.origin [
            | inl e ↦ inr (Listed-head w ws _ e)
            | inr l ↦ inr (Listed-cons w ws _ l)
          ];
        })
    | inr worse ↦
        let s = Searched-loop ws best n f in
        rw worse (record {
          reached = s.reached;
          found = s.found;
          deeper = s.deeper;
          deepest = (λ c. ground (arith, s.deeper), s.deepest);
          origin = elim s.origin [ inl e ↦ inl e | inr l ↦ inr (Listed-cons w ws _ l) ];
        })
  ]

-- What `worktree_for` promises: the worktree that it answers is listed, covers the directory by whole
-- components, and no listed worktree that covers it has more; with no answer none covers it.
abbrev pub Deepest : (String → String) → List String → List String → Option String → Type 0
Deepest expanduser parts worktrees none =
    All (λ w. is_prefix (parts_of expanduser w) parts ≡ true → length (parts_of expanduser w) ≤ 0)
      worktrees
Deepest expanduser parts worktrees (some best) =
    (contains worktrees best ≡ true)
    × (is_prefix (parts_of expanduser best) parts ≡ true)
    × (0 < length (parts_of expanduser best))
    × All
        (λ w.
          is_prefix (parts_of expanduser w) parts ≡ true
          → length (parts_of expanduser w) ≤ length (parts_of expanduser best))
        worktrees

Searched-Deepest :
    (expanduser : String → String) (parts worktrees : List String) (r : Option String)
    → Searched expanduser parts worktrees none 0 r
    → Deepest expanduser parts worktrees r
Searched-Deepest expanduser parts worktrees none s =
    subst (λ n. NoDeeper expanduser parts n worktrees) s.found s.deepest
Searched-Deepest expanduser parts worktrees (some best) s = (
  listed s.origin,
  s.found.0,
  omega arith,
  subst (λ n. NoDeeper expanduser parts n worktrees) (sym s.found.1) s.deepest,
)
  where
    listed :
        (some best ≡ none) ⊎ Listed expanduser parts (some best) worktrees
        → contains worktrees best ≡ true
    listed (inl e) = cc e
    listed (inr l) = l

-- For a directory that is not the empty string, `worktree_for` answers the deepest listed worktree
-- that contains it by whole components, and nothing if none does.
pub worktree_for-Deepest :
    (expanduser : String → String) (m : RunManifest) (cwd : String)
    → is_empty cwd ≡ false
    → Deepest expanduser (parts_of expanduser cwd) m.worktrees (worktree_for expanduser m cwd)
unfolding worktree_for
worktree_for-Deepest expanduser m cwd h = rw h (
    Searched-Deepest expanduser (parts_of expanduser cwd) m.worktrees _
      (Searched-loop expanduser (parts_of expanduser cwd) m.worktrees none 0 refl))
