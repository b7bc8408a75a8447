-- ===== src/Worktrees/Reclaimable.antt =====
-- The trees that `classify` and `reclaimable` of src/toolbench/worktrees.py list, and their evidence.
use mathlib.Core.List.{Memᴰ}
use mathlib.Core.Path.{subst}
use tool_benchmarks.Base.{◌≡◌, refl, ◌∙◌, ap, String, true, inl, inr, ◌↔◌}
use tool_benchmarks.Base.{Option, List, [], ◌∷◌, All, Bool-cases}
use tool_benchmarks.Base.Dict.{Dict}
use tool_benchmarks.Outcome.{ok_inj, Result, ok, ◌>>=◌, >>=-eq-ok}
use tool_benchmarks.Paths.{NormalPath, path_text}
use tool_benchmarks.Worktrees.Porcelain.{Stanza, parse_worktree_list, parse_upstreams}
use tool_benchmarks.Worktrees.Probes.{Runner, Clock, check}
use tool_benchmarks.Worktrees.Classify.{
  Tree, tree, trees, split_main, collect, classify, is_reclaimable, reclaimable,
}
use tool_benchmarks.Worktrees.Safety.{Removable, tree-Removable, Removable-is_reclaimable}

-- The linked worktrees: all that git lists but the first, which is the main checkout.
abbrev pub linked_of : List Stanza → List Stanza
linked_of [] = []
linked_of (main_checkout ∷ linked) = linked

abbrev rest_of : List NormalPath → List NormalPath
rest_of [] = []
rest_of (p ∷ ps) = ps

module _ (runner : Runner) (repo : NormalPath) where
  -- The two listings that a report starts from.
  abbrev pub worktree_listing : Result String
  worktree_listing =
      runner ("git" ∷ "-C" ∷ path_text repo ∷ "worktree" ∷ "list" ∷ "--porcelain" ∷ []) >>= check

  abbrev pub branch_listing : Result String
  branch_listing =
      runner (
        "git"
        ∷ "-C"
        ∷ path_text repo
        ∷ "for-each-ref"
        ∷ "--format=%(refname)%09%(objectname)%09%(upstream)"
        ∷ "refs/heads/"
        ∷ [])
      >>= check

  module _ (clock : Clock) where
    -- Each tree of a list comes from a stanza of the list.
    abbrev pub Named : Dict String String → List Stanza → Tree → Type 0
    Named upstreams linked t =
        (stanza : Stanza) × Memᴰ stanza linked × Removable runner repo clock upstreams stanza t

    Named-tail :
        (upstreams : Dict String String) (s : Stanza) (linked : List Stanza) (ts : List Tree)
        → All (Named upstreams linked) ts
        → All (Named upstreams (s ∷ linked)) ts
    Named-tail upstreams s linked [] h = tt
    Named-tail upstreams s linked (t ∷ ts) (n, h) =
        ((n.0, Memᴰ.tail n.1, n.2), Named-tail upstreams s linked ts h)

    Named-cons :
        (upstreams : Dict String String) (linked : List Stanza) (t : Tree) (ts : List Tree)
        → (is_reclaimable t ≡ true → Named upstreams linked t)
        → All (Named upstreams linked) (reclaimable ts)
        → All (Named upstreams linked) (reclaimable (t ∷ ts))
    unfolding reclaimable
    Named-cons upstreams linked t ts h rest = elim (Bool-cases (is_reclaimable t)) [
      | inl r ↦ rw r (h r, rest)
      | inr r ↦ rw r rest
    ]

    trees-Named :
        (upstreams : Dict String String) (linked : List Stanza) (ts : List Tree)
        → trees runner repo clock upstreams linked ≡ ok ts
        → All (Named upstreams linked) (reclaimable ts)
    unfolding trees reclaimable
    trees-Named upstreams [] ts h =
        subst (λ us. All (Named upstreams []) (reclaimable us)) (ok_inj h) tt
    trees-Named upstreams (s ∷ linked) ts h =
        let (t, e, h') = >>=-eq-ok (tree runner repo clock upstreams s) _ h in
        let (rest, e', h'') = >>=-eq-ok (trees runner repo clock upstreams linked) _ h' in
        subst (λ us. All (Named upstreams (s ∷ linked)) (reclaimable us)) (ok_inj h'')
          (Named-cons upstreams (s ∷ linked) t rest
            (λ r. (s, Memᴰ.head refl, tree-Removable runner repo clock upstreams s t e r))
            (Named-tail upstreams s linked (reclaimable rest)
              (trees-Named upstreams linked rest e')))

    -- What a successful `classify` has read and listed.
    collected :
        (ts : List Tree)
        → classify runner repo clock ≡ ok ts
        → (listing : String) × (refs : String) × (worktree_listing ≡ ok listing)
          × (branch_listing ≡ ok refs)
          × (trees runner repo clock
                (parse_upstreams refs)
                (linked_of (parse_worktree_list listing))
              ≡ ok ts)
    unfolding classify collect
    collected ts h =
        let (c, e, h1) = >>=-eq-ok (collect runner repo clock) _ h in
        let (listing, f, h2) = >>=-eq-ok worktree_listing _ e in
        let (refs, g, h3) = >>=-eq-ok branch_listing _ h2 in
        (listing, refs, f, g, listed (parse_upstreams refs) (parse_worktree_list listing) c h3 ∙ h1)
      where
        listed :
            (upstreams : Dict String String) (stanzas : List Stanza) (c : Option Stanza × List Tree)
            → split_main runner repo clock upstreams stanzas ≡ ok c
            → trees runner repo clock upstreams (linked_of stanzas) ≡ ok c.1
        listed upstreams [] c h3 = ap (λ (q : Option Stanza × List Tree). ok q.1) (ok_inj h3)
        listed upstreams (main_checkout ∷ linked) c h3 =
            let (rest, e, h4) = >>=-eq-ok (trees runner repo clock upstreams linked) _ h3 in
            e ∙ ap (λ (q : Option Stanza × List Tree). ok q.1) (ok_inj h4)

    -- Every tree that `reclaimable` names after a `classify` that returned stands for a worktree that git
    -- listed after the main checkout, and for that worktree: it is not locked, its working tree is present
    -- and clean, its head is in some ref, no live upstream backs its branch by the listed upstreams, and
    -- its idle age was measured and is at least the threshold.
    pub classify-Removable :
        (ts : List Tree)
        → classify runner repo clock ≡ ok ts
        → (listing : String) × (refs : String) × (worktree_listing ≡ ok listing)
          × (branch_listing ≡ ok refs)
          × All
              (Named (parse_upstreams refs) (linked_of (parse_worktree_list listing)))
              (reclaimable ts)
    classify-Removable ts h =
        let (listing, refs, f, g, e) = collected ts h in
        (
          listing,
          refs,
          f,
          g,
          trees-Named (parse_upstreams refs) (linked_of (parse_worktree_list listing)) ts e,
        )

    -- If a stanza was classified as a tree, then the tree is reclaimable exactly when the worktree is
    -- unlocked, present, clean, contained in a ref and unclaimed, with a measured idle age of at least the
    -- threshold.
    pub tree-is_reclaimable :
        (upstreams : Dict String String) (stanza : Stanza) (t : Tree)
        → tree runner repo clock upstreams stanza ≡ ok t
        → (is_reclaimable t ≡ true) ↔ Removable runner repo clock upstreams stanza t
    tree-is_reclaimable upstreams stanza t h = (
      tree-Removable runner repo clock upstreams stanza t h,
      Removable-is_reclaimable runner repo clock upstreams stanza t h,
    )
