-- ===== src/Worktrees/Safety.antt =====
-- What `reclaimable` may name: the evidence behind the verdict SAFE of src/toolbench/worktrees.py.
use mathlib.Core.Path.{subst}
use tool_benchmarks.Base.{
  ℕ, zero, suc, ◌≤◌, ◌≡◌, refl, sym, ◌∙◌, ap, String, Bool, true, false, inl, inr,
}
use tool_benchmarks.Base.{List, [], ◌∷◌, arith, leb, if◌then◌else◌, Bool-cases}
use tool_benchmarks.Base.Dict.{Dict}
use tool_benchmarks.Base.Int.{ℤ, pos, negsuc}
use tool_benchmarks.Outcome.{ok_inj, Result, ok, err, ◌>>=◌, >>=-eq-ok}
use tool_benchmarks.Paths.{NormalPath}
use tool_benchmarks.Worktrees.Porcelain.{Stanza}
use tool_benchmarks.Worktrees.Probes.{
  Runner, Clock, containing_refs, is_claimed, dirty_count, idle_days, megabytes,
}
use tool_benchmarks.Worktrees.Classify.{
  Verdict, safe, claimed, Tree, idle_threshold, judged, reachability, is_safe, clean_verdict,
  verdict, measured, tree_of, tree, is_reclaimable,
}

leb-true : (a b : ℕ) → a ≤ b → leb a b ≡ true
leb-true a b h = ground arith

abbrev safe_result : Result (Verdict × String) → Bool
safe_result (ok (v, reason)) = is_safe v
safe_result (err e) = false

>>=-safe {ℓ} :
    {A : Type ℓ} (m : Result A) (f : A → Result (Verdict × String))
    → safe_result (m >>= f) ≡ true
    → (a : A) × (m ≡ ok a) × (safe_result (f a) ≡ true)
>>=-safe (ok a) f h = (a, refl, h)
>>=-safe (err e) f h = cc

safe-not_ours :
    (ours : Bool) (a b : String)
    → safe_result (ok (if ours then (claimed, a) else (safe, b))) ≡ true
    → ours ≡ false
safe-not_ours true a b h = cc
safe-not_ours false a b h = refl

module _ (runner : Runner) (repo : NormalPath) where
  -- The head is in some ref and no live upstream backs the branch.
  pub record Spare (upstreams : Dict String String) (stanza : Stanza) : Type 0 where
    pub first : String
    pub more : List String
    pub contained : containing_refs runner repo stanza.head ≡ ok (first ∷ more)
    pub unclaimed : is_claimed runner stanza.branch repo upstreams ≡ ok false

  judged-Spare :
      (stanza : Stanza) (upstreams : Dict String String) (refs : List String)
      → containing_refs runner repo stanza.head ≡ ok refs
      → safe_result (judged runner repo stanza upstreams refs) ≡ true
      → Spare upstreams stanza
  unfolding judged
  judged-Spare stanza upstreams [] e h = cc
  judged-Spare stanza upstreams (first ∷ more) e h =
      let (ours, c, s) = >>=-safe (is_claimed runner stanza.branch repo upstreams) _ h in
      record {
        first = first;
        more = more;
        contained = e;
        unclaimed = c ∙ ap ok (safe-not_ours ours _ _ s);
      }

  reachability-Spare :
      (stanza : Stanza) (upstreams : Dict String String)
      → safe_result (reachability runner repo stanza upstreams) ≡ true
      → Spare upstreams stanza
  unfolding reachability
  reachability-Spare stanza upstreams h =
      let (refs, e, s) = >>=-safe (containing_refs runner repo stanza.head) _ h in
      judged-Spare stanza upstreams refs e s

  clean-safe :
      (stanza : Stanza) (upstreams : Dict String String) (n : ℕ)
      → safe_result (clean_verdict runner repo stanza upstreams n) ≡ true
      → (n ≡ 0) × Spare upstreams stanza
  clean-safe stanza upstreams zero h =
      let (r, e, s) = >>=-safe (reachability runner repo stanza upstreams) _ h in
      (refl, reachability-Spare stanza upstreams (ap safe_result e ∙ s))
  clean-safe stanza upstreams (suc n) h = cc

  verdict-safe :
      (stanza : Stanza) (upstreams : Dict String String)
      → stanza.prunable ≡ false
      → safe_result (verdict runner repo stanza upstreams) ≡ true
      → (stanza.locked ≡ false) × (dirty_count runner stanza.path ≡ ok 0) × Spare upstreams stanza
  unfolding verdict
  verdict-safe stanza upstreams p h = elim (Bool-cases stanza.locked) [
    | inl l ↦ let no = rw l at h in cc
    | inr l ↦
        let (n, d, s) = >>=-safe (dirty_count runner stanza.path) _ (rw (l, p) at h) in
        let (clean, spare) = clean-safe stanza upstreams n s in (l, d ∙ ap ok clean, spare)
  ]

  module _ (clock : Clock) where
    -- A tree that may be removed, and the stanza it stands for.
    pub record Removable (upstreams : Dict String String) (stanza : Stanza) (t : Tree)
        : Type 0 where
      pub same_path : t.path ≡ stanza.path
      pub same_branch : t.branch ≡ stanza.branch
      pub present : stanza.prunable ≡ false
      pub unlocked : stanza.locked ≡ false
      pub clean : dirty_count runner stanza.path ≡ ok 0
      pub spare : Spare upstreams stanza
      pub days : ℕ
      pub idle : idle_days runner clock stanza.path ≡ ok (pos days)
      pub enough : idle_threshold ≤ days

    -- A tree is made of its stanza, of a verdict and of two measurements.
    pub tree-parts :
        (upstreams : Dict String String) (stanza : Stanza) (t : Tree)
        → tree runner repo clock upstreams stanza ≡ ok t
        → (v : Verdict × String) × (m : ℤ × ℤ) × (verdict runner repo stanza upstreams ≡ ok v)
          × (measured runner repo clock stanza ≡ ok m)
          × (tree_of runner repo clock stanza v m ≡ t)
    unfolding tree
    tree-parts upstreams stanza t h =
        let (v, e, h') = >>=-eq-ok (verdict runner repo stanza upstreams) _ h in
        let (m, f, h'') = >>=-eq-ok (measured runner repo clock stanza) _ h' in
        (v, m, e, f, ok_inj h'')

    reclaimable-parts :
        (v : Verdict) (days : ℤ) (s : Stanza) (reason : String) (size : ℤ)
        → is_reclaimable (tree_of runner repo clock s (v, reason) (days, size)) ≡ true
        → (is_safe v ≡ true) × (n : ℕ) × (days ≡ pos n) × (idle_threshold ≤ n)
    reclaimable-parts v (pos n) s reason size h = (ground arith, n, refl, ground arith)
    reclaimable-parts v (negsuc n) s reason size h = ground arith

    measured-idle :
        (stanza : Stanza) (n : ℕ) (size : ℤ)
        → measured runner repo clock stanza ≡ ok (pos n, size)
        → (stanza.prunable ≡ false) × (idle_days runner clock stanza.path ≡ ok (pos n))
    measured-idle stanza n size h = elim (Bool-cases stanza.prunable) [
      | inl p ↦ let no = rw p at h in cc
      | inr p ↦
          let (days, d, h') = >>=-eq-ok (idle_days runner clock stanza.path) _ (rw p at h) in
          let (mb, s, h'') = >>=-eq-ok (megabytes runner stanza.path) _ h' in
          (p, d ∙ ap (λ (q : ℤ × ℤ). ok q.0) (ok_inj h''))
    ]

    pub tree-Removable :
        (upstreams : Dict String String) (stanza : Stanza) (t : Tree)
        → tree runner repo clock upstreams stanza ≡ ok t
        → is_reclaimable t ≡ true
        → Removable upstreams stanza t
    tree-Removable upstreams stanza t h r =
        let (v, m, e, f, p) = tree-parts upstreams stanza t h in
        let (is_s, n, d, enough) =
          reclaimable-parts v.0 m.0 stanza v.1 m.1
            (subst (λ u. is_reclaimable u ≡ true) (sym p) r) in
        let (here, idle) = measured-idle stanza n m.1 (f ∙ ap (λ k. ok (k, m.1)) d) in
        let (unlocked, clean, spare) =
          verdict-safe stanza upstreams here (ap safe_result e ∙ is_s) in
        record {
          same_path = ap (λ (u : Tree). u.path) (sym p);
          same_branch = ap (λ (u : Tree). u.branch) (sym p);
          present = here;
          unlocked = unlocked;
          clean = clean;
          spare = spare;
          days = n;
          idle = idle;
          enough = enough;
        }

    verdict-Removable :
        (upstreams : Dict String String) (stanza : Stanza) (t : Tree)
        → Removable upstreams stanza t
        → safe_result (verdict runner repo stanza upstreams) ≡ true
    unfolding verdict reachability judged
    verdict-Removable upstreams stanza t r =
        rw (r.unlocked, r.present, r.clean, r.spare.contained, r.spare.unclaimed) refl

    measured-Removable :
        (upstreams : Dict String String) (stanza : Stanza) (t : Tree) (m : ℤ × ℤ)
        (r : Removable upstreams stanza t)
        → measured runner repo clock stanza ≡ ok m
        → m.0 ≡ pos r.days
    measured-Removable upstreams stanza t m r h =
        let (days, d, h') = >>=-eq-ok (idle_days runner clock stanza.path) _ (rw r.present at h) in
        let (mb, s, h'') = >>=-eq-ok (megabytes runner stanza.path) _ h' in
        ap (λ (q : ℤ × ℤ). q.0) (sym (ok_inj h'')) ∙ ok_inj (sym d ∙ r.idle)

    pub Removable-is_reclaimable :
        (upstreams : Dict String String) (stanza : Stanza) (t : Tree)
        → tree runner repo clock upstreams stanza ≡ ok t
        → Removable upstreams stanza t
        → is_reclaimable t ≡ true
    Removable-is_reclaimable upstreams stanza t h r =
        let (v, m, e, f, p) = tree-parts upstreams stanza t h in
        let is_s = rw e at (verdict-Removable upstreams stanza t r) in
        let days = measured-Removable upstreams stanza t m r f in
        subst (λ u. is_reclaimable u ≡ true) p
          (rw (days, is_s) (leb-true idle_threshold r.days r.enough))
