-- ===== src/Shell/Lawful.antt =====
-- What a silent audit of src/toolbench/shell_safety.py says of every call, and what makes it silent.
use mathlib.Core.List.{Memᴰ}
use tool_benchmarks.Base.{
  ◌≡◌, refl, sym, ap, ◌∙◌, String, Bool, true, false, not, ◌&&◌, ◌||◌, some, ◌⊎◌, inl, inr, ◌↔◌,
}
use tool_benchmarks.Base.{List, [], ◌∷◌, contains, string_eq, ◌==◌, All, Bool-cases, arith}
use tool_benchmarks.Base.Text.{startswith, strip}
use tool_benchmarks.Base.Sorting.{any}
use tool_benchmarks.Base.Membership.{contains-select}
use tool_benchmarks.Transcript.{ToolCall}
use tool_benchmarks.Transcript.Lines.{Decoder}
use tool_benchmarks.Shell.Gate.{gate_prefixes, matches_prefix_at_boundary, command_escapes_gate}
use tool_benchmarks.Shell.Audit.{
  bash_command, is_nonempty, plain_tools, is_gated, granted, is_forbidden, arm_violations,
}
use tool_benchmarks.Shell.Prefixes.{matches-of_append}
use tool_benchmarks.Shell.Presence.{or_left, or_right, is_any}
use tool_benchmarks.Shell.Permitted.{
  Permitted, is_ungated, is_violation, arm_violations-is_violation, gated_command,
}

any-mem :
    (test : String → Bool) (x : String) (xs : List String)
    → Memᴰ x xs
    → test x ≡ true
    → any test xs ≡ true
any-mem test x [] m h = elim m [ ]
any-mem test x (y ∷ xs) (Memᴰ.head e) h = rw (sym (ap test e) ∙ h) refl
any-mem test x (y ∷ xs) (Memᴰ.tail m) h = ground (arith, any-mem test x xs m h)

-- A permitted command does not escape the gate.
Permitted-command_escapes_gate :
    (command : String) (prefixes : List String)
    → Permitted prefixes command
    → command_escapes_gate command prefixes ≡ false
unfolding command_escapes_gate
Permitted-command_escapes_gate command prefixes p =
    let found : any (λ q. matches_prefix_at_boundary (strip command) q) prefixes ≡ true =
      any-mem (λ q. matches_prefix_at_boundary (strip command) q) p.prefix prefixes p.is_granted
        (rw (p.starts) (matches-of_append p.prefix p.rest p.ends)) in
    rw found (p.single)

same_text : (a b : String) → (a == b) ≡ true → a ≡ b
same_text a b h = ground arith

no_prefix : startswith "Bash(" "Bash" ≡ false
unfolding startswith
no_prefix = refl

is_any-false : (xs : List String) → is_any xs ≡ false → xs ≡ []
is_any-false [] h = refl
is_any-false (x ∷ xs) h = cc

module _ (loads : Decoder) (allowed_tools : List String) where
  -- The arm lists the tool by its name.
  abbrev pub IsListed : String → Type 0
  IsListed name = (contains allowed_tools name ≡ true) × (startswith "Bash(" name ≡ false)

  -- A call of Bash in an arm that has the full shell, or with a command that a rule permits
  abbrev pub LawfulShell : ToolCall → Type 0
  LawfulShell call =
      (contains allowed_tools "Bash" ≡ true)
      ⊎ ((text : String) × (bash_command loads call ≡ some text)
          × Permitted (gate_prefixes allowed_tools) text)

  -- A call of neither banned tool: of Bash as above, or of another tool that the arm lists
  abbrev pub Lawful : ToolCall → Type 0
  Lawful call =
      ((call.name == "Task") ≡ false)
      × ((call.name == "Agent") ≡ false)
      × ((((call.name == "Bash") ≡ true) × LawfulShell call)
          ⊎ (((call.name == "Bash") ≡ false) × IsListed call.name))

  plain_lem :
      (name : String)
      → contains (plain_tools loads allowed_tools) name
        ≡ (contains allowed_tools name && not (startswith "Bash(" name))
  plain_lem name = contains-select (λ n. not (startswith "Bash(" n)) allowed_tools name

  shell_lem : contains (plain_tools loads allowed_tools) "Bash" ≡ contains allowed_tools "Bash"
  shell_lem = ground (arith, plain_lem "Bash", no_prefix)

  granted_lem :
      (name : String)
      → contains (granted loads allowed_tools) name ≡ (
          (is_nonempty (gate_prefixes allowed_tools) && name == "Bash")
          || contains (plain_tools loads allowed_tools) name)
  granted_lem name = elim (Bool-cases (is_nonempty (gate_prefixes allowed_tools))) [
    | inl some_gate ↦ rw some_gate (ground arith)
    | inr no_gate ↦ rw no_gate (ground arith)
  ]

  -- The name test of the audit, for an arm whose full shell and gate are known
  forbidden_lem :
      (name : String)
      → is_forbidden loads allowed_tools name ≡ (
          not (
            (is_nonempty (gate_prefixes allowed_tools) && name == "Bash")
            || (contains allowed_tools name && not (startswith "Bash(" name)))
          || (name == "Task" || name == "Agent"))
  forbidden_lem name = ground (arith, granted_lem name, plain_lem name)

  gated_lem :
      is_gated loads allowed_tools
      ≡ (not (contains allowed_tools "Bash") && is_nonempty (gate_prefixes allowed_tools))
  gated_lem = ap (λ b. not b && is_nonempty (gate_prefixes allowed_tools)) shell_lem

  listed_shell :
      (name : String)
      → (name == "Bash") ≡ true
      → (contains allowed_tools name && not (startswith "Bash(" name))
        ≡ contains allowed_tools "Bash"
  listed_shell name h =
      ap (λ n. contains allowed_tools n && not (startswith "Bash(" n)) (same_text name "Bash" h)
      ∙ ground (arith, no_prefix)

  quiet-LawfulShell :
      (call : ToolCall)
      → is_violation loads allowed_tools call ≡ false
      → (call.name == "Bash") ≡ true
      → LawfulShell call
  quiet-LawfulShell call h shell = elim (Bool-cases (contains allowed_tools "Bash")) [
    | inl full ↦ inl full
    | inr gated ↦
        let named = or_left (is_forbidden loads allowed_tools call.name) _ h in
        let command = or_right (is_forbidden loads allowed_tools call.name) _ h in
        let is_one : is_gated loads allowed_tools ≡ true =
          ground (arith, gated_lem, forbidden_lem call.name, listed_shell call.name shell) in
        inr (
          gated_command loads allowed_tools (bash_command loads call)
            (rw (is_one, shell) at command))
  ]

  quiet-Lawful : (call : ToolCall) → is_violation loads allowed_tools call ≡ false → Lawful call
  quiet-Lawful call h =
      let named = or_left (is_forbidden loads allowed_tools call.name) _ h in
      let names = forbidden_lem call.name in
      (
        ground (arith, names, named),
        ground (arith, names, named),
        elim (Bool-cases (call.name == "Bash")) [
          | inl shell ↦ inl (shell, quiet-LawfulShell call h shell)
          | inr tool ↦ inr (tool, (ground (arith, names, named), ground (arith, names, named)))
        ],
      )

  is_nonempty-mem : (x : String) (xs : List String) → Memᴰ x xs → is_nonempty xs ≡ true
  is_nonempty-mem x [] m = elim m [ ]
  is_nonempty-mem x (y ∷ xs) m = refl

  LawfulShell-quiet :
      (call : ToolCall)
      → (call.name == "Bash") ≡ true
      → (call.name == "Task") ≡ false
      → (call.name == "Agent") ≡ false
      → LawfulShell call
      → is_violation loads allowed_tools call ≡ false
  LawfulShell-quiet call shell not_task not_agent (inl full) =
      ground (arith, gated_lem, forbidden_lem call.name, listed_shell call.name shell)
  LawfulShell-quiet call shell not_task not_agent (inr (text, read, p)) =
      let some_gate = is_nonempty-mem p.prefix (gate_prefixes allowed_tools) p.is_granted in
      let stays : is_ungated loads allowed_tools (bash_command loads call) ≡ false =
        rw read (Permitted-command_escapes_gate text (gate_prefixes allowed_tools) p) in
      ground (arith, some_gate, stays, forbidden_lem call.name)

  Lawful-quiet : (call : ToolCall) → Lawful call → is_violation loads allowed_tools call ≡ false
  Lawful-quiet call (not_task, not_agent, inl (shell, l)) =
      LawfulShell-quiet call shell not_task not_agent l
  Lawful-quiet call (not_task, not_agent, inr (tool, listed)) =
      let by_name = listed.0 in
      let no_rule = listed.1 in ground (arith, by_name, no_rule, forbidden_lem call.name)

  calls-Lawful :
      (calls : List ToolCall)
      → any (is_violation loads allowed_tools) calls ≡ false
      → All Lawful calls
  calls-Lawful [] h = tt
  calls-Lawful (call ∷ calls) h =
      (quiet-Lawful call (or_left _ _ h), calls-Lawful calls (or_right _ _ h))

  none_violates :
      (calls : List ToolCall)
      → All Lawful calls
      → any (is_violation loads allowed_tools) calls ≡ false
  none_violates [] l = refl
  none_violates (call ∷ calls) l = rw (Lawful-quiet call (l.0), none_violates calls (l.1)) refl

  -- The audit of an arm reports nothing exactly if each call is lawful: it is of neither banned tool;
  -- if it is of Bash, then the arm lists the full shell, or the call has a readable command that is,
  -- stripped, a prefix granted by a rule, whole or before white space, and has no shell operator; and
  -- if it is of another tool, then the arm lists that tool, by a name that is no Bash rule.
  pub arm_violations-Lawful :
      (calls : List ToolCall) → (arm_violations loads allowed_tools calls ≡ []) ↔ All Lawful calls
  arm_violations-Lawful calls =
      let same = arm_violations-is_violation loads allowed_tools calls in
      (
        (λ quiet. calls-Lawful calls (sym same ∙ ap is_any quiet)),
        (λ lawful.
            is_any-false (arm_violations loads allowed_tools calls)
              (same ∙ none_violates calls lawful)),
      )
