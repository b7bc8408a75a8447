-- ===== src/Complex/Split.antt =====
-- What a score of src/toolbench/complex.py says of a trial.
use mathlib.Core.List.{Memᴰ}
use tool_benchmarks.Base.{
  ◌+◌, ◌≡◌, refl, sym, ap, ◌∙◌, String, Bool, true, false, ◌||◌, Option, none, some, List, [],
}
use tool_benchmarks.Base.{◌∷◌, length, sum_by, All, Bool-cases, inl, inr, ◌⊎◌, string_eq, ◌==◌}
use tool_benchmarks.Json.{Json, Fields}
use tool_benchmarks.Outcome.{ok_inj, ok}
use tool_benchmarks.Paths.{normpath}
use tool_benchmarks.Transcript.{ToolCall, tokens}
use tool_benchmarks.Transcript.Lines.{Decoder}
use tool_benchmarks.Shell.Gate.{gate_prefixes}
use tool_benchmarks.Shell.Audit.{is_gated, bash_command, arm_violations}
use tool_benchmarks.Shell.Permitted.{Permitted, arm_violations-Permitted}
use tool_benchmarks.Shell.Reads.{expand_home, audited_paths, read_escapes}
use tool_benchmarks.Shell.Contained.{Inside, resolved, read_escapes-Inside}
use tool_benchmarks.Complex.{Truth, TrialResult, void, is_nonempty}
use tool_benchmarks.Complex.Locate.{Hit, find_located, located_correct}
use tool_benchmarks.Complex.Spent.{
  spent_before, spent_from, tokens_where-before, tokens_where-from, spent_split,
}
use tool_benchmarks.Complex.Score.{load_calls, correct_hit, TrialOf, scored, score_trial}

-- The first claim is correct, and this is its time.
abbrev pub LocatedAt : Truth → Option Hit → String → Type 0
LocatedAt truth hit ts =
    (claim : Fields) × (hit ≡ some (ts, claim)) × (located_correct claim truth ≡ true)

-- The cost of a trial: if it located the defect, halves that its claim's time divides, else none.
abbrev pub Costs : Truth → Option Hit → List ToolCall → TrialResult → Type 0
Costs truth hit calls r =
    ((r.located ≡ true)
      × ((ts : String) × LocatedAt truth hit ts
          × (r.n1 ≡ some (spent_before ts calls))
          × (r.n2 ≡ some (spent_from ts calls))
          × (spent_before ts calls + spent_from ts calls ≡ r.total)))
    ⊎ ((r.located ≡ false)
        × (¬ ((ts : String) × LocatedAt truth hit ts))
        × (r.n1 ≡ none)
        × (r.n2 ≡ none))

false-ne-true : false ≡ true → ⊥
false-ne-true h = cc

empty_lists :
    (xs ys : List String) → (is_nonempty xs || is_nonempty ys) ≡ false → (xs ≡ []) × (ys ≡ [])
empty_lists [] [] h = (refl, refl)
empty_lists [] (y ∷ ys) h = cc
empty_lists (x ∷ xs) ys h = cc

void-false : (r : TrialResult) → void r ≡ false → (r.violations ≡ []) × (r.read_escapes ≡ [])
unfolding void
void-false r h = empty_lists r.violations r.read_escapes h

abbrev claim_of : Fields → Option Hit → Fields
claim_of default none = default
claim_of default (some (ts, claim)) = claim

module _ (loads : Decoder) (repr : Json → String) (expanduser : String → String)
    (shlex_split : String → Option (List String)) where
  abbrev score : TrialOf → Bool → String → List ToolCall → Option String → TrialResult
  score = scored loads repr expanduser shlex_split

  found-Costs :
      (t : TrialOf) (fixed : Bool) (trial_root : String) (calls : List ToolCall) (hit : Option Hit)
      (ts : String)
      → LocatedAt t.truth hit ts
      → Costs t.truth hit calls (score t fixed trial_root calls (some ts))
  found-Costs t fixed trial_root calls hit ts l = inl (
    refl,
    (
      ts,
      l,
      ap some (tokens_where-before ts calls),
      ap some (tokens_where-from ts calls),
      spent_split ts calls,
    ),
  )

  LocatedAt-none : (truth : Truth) → ((ts : String) × LocatedAt truth none ts) → ⊥
  LocatedAt-none truth (ts, (claim, h, c)) = cc

  LocatedAt-wrong :
      (truth : Truth) (ts : String) (claim : Fields)
      → located_correct claim truth ≡ false
      → ((ts' : String) × LocatedAt truth (some (ts, claim)) ts')
      → ⊥
  LocatedAt-wrong truth ts claim wrong (ts', (claim', h, c)) =
      let same = ap (claim_of claim) h in false-ne-true (sym wrong ∙ rw (← same) at c)

  scored-Costs :
      (t : TrialOf) (fixed : Bool) (trial_root : String) (calls : List ToolCall) (hit : Option Hit)
      → Costs t.truth hit calls (score t fixed trial_root calls (correct_hit t.truth hit))
  scored-Costs t fixed trial_root calls none = inr (refl, LocatedAt-none t.truth, refl, refl)
  scored-Costs t fixed trial_root calls (some (ts, claim)) =
      elim (Bool-cases (located_correct claim t.truth)) [
        | inl right ↦
            rw right
              (found-Costs t fixed trial_root calls (some (ts, claim)) ts (claim, refl, right))
        | inr wrong ↦ rw wrong (inr (refl, LocatedAt-wrong t.truth ts claim wrong, refl, refl))
      ]

  -- If the calls of the session can be loaded, the trial gets a score. It counts as located exactly if
  -- its first claim is correct. Then N1 is the tokens of the calls with a timestamp before the claim's,
  -- N2 the tokens of all other calls, and they add up to the total; else both are absent, also of a
  -- trial that was fixed. The total and the steps are those of all calls, whichever it is.
  pub score_trial-Costs :
      (t : TrialOf) (fixed : Bool) (trial_root project : String) (lines : List String)
      (calls : List ToolCall)
      → load_calls loads project lines ≡ ok calls
      → (r : TrialResult) × (score_trial loads repr expanduser shlex_split t fixed trial_root
            project lines
          ≡ ok r)
        × Costs t.truth (find_located loads repr lines) calls r
        × (r.total ≡ sum_by tokens calls)
        × (r.steps ≡ length calls)
  unfolding score_trial
  score_trial-Costs t fixed trial_root project lines calls loaded =
      let hit = find_located loads repr lines in
      (
        score t fixed trial_root calls (correct_hit t.truth hit),
        rw loaded refl,
        scored-Costs t fixed trial_root calls hit,
        refl,
        refl,
      )

  -- A call that kept to the rules of an arm and to a tree
  abbrev pub Kept : List String → String → ToolCall → Type 0
  Kept allowed_tools trial_root call =
      (((call.name == "Bash") ≡ true)
        × ((is_gated loads allowed_tools ≡ false)
            ⊎ ((text : String) × (bash_command loads call ≡ some text)
                × Permitted (gate_prefixes allowed_tools) text)))
      ⊎ (((call.name == "Bash") ≡ false)
          × All
              (λ p.
                Inside (normpath trial_root)
                  (resolved (normpath trial_root) (expand_home expanduser shlex_split p)))
              (audited_paths expanduser shlex_split loads call))

  quiet-Kept :
      (allowed_tools : List String) (trial_root : String) (calls : List ToolCall) (call : ToolCall)
      → Memᴰ call calls
      → arm_violations loads allowed_tools calls ≡ []
      → read_escapes expanduser shlex_split loads calls trial_root ≡ []
      → Kept allowed_tools trial_root call
  quiet-Kept allowed_tools trial_root calls call m quiet inside =
      elim (Bool-cases (call.name == "Bash")) [
        | inl shell ↦ elim (Bool-cases (is_gated loads allowed_tools)) [
          | inl gated ↦ inl (
            shell,
            inr (arm_violations-Permitted loads allowed_tools calls call m gated shell quiet),
          )
          | inr free ↦ inl (shell, inl free)
        ]
        | inr tool ↦ inr (
          tool,
          read_escapes-Inside expanduser shlex_split loads calls trial_root call m tool inside,
        )
      ]

  -- A trial that is not void kept to its arm and to its tree: each of its Bash calls, if the arm is
  -- gated, ran a command that the arm's rules permit, and every path argument that is audited of its
  -- other calls resolves to its root or below.
  pub score_trial-Kept :
      (t : TrialOf) (fixed : Bool) (trial_root project : String) (lines : List String)
      (r : TrialResult) (calls : List ToolCall) (call : ToolCall)
      → score_trial loads repr expanduser shlex_split t fixed trial_root project lines ≡ ok r
      → load_calls loads project lines ≡ ok calls
      → void r ≡ false
      → Memᴰ call calls
      → Kept t.arm.allowed_tools trial_root call
  unfolding score_trial
  score_trial-Kept t fixed trial_root project lines r calls call h loaded kept m =
      let is_r = ok_inj (rw loaded at h) in
      let (quiet, inside) = void-false r kept in
      quiet-Kept t.arm.allowed_tools trial_root calls call m
        (ap (λ (x : TrialResult). x.violations) is_r ∙ quiet)
        (ap (λ (x : TrialResult). x.read_escapes) is_r ∙ inside)
