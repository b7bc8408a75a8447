-- ===== src/Shell/Permitted.antt =====
-- Which calls the audit of src/toolbench/shell_safety.py lets pass without a violation.
use mathlib.Core.List.{Memᴰ}
use tool_benchmarks.Base.{
  ◌≡◌, refl, sym, ap, ◌∙◌, String, ◌<>◌, Bool, true, false, ◌&&◌, ◌||◌, Option, none, some,
}
use tool_benchmarks.Base.{List, [], ◌∷◌, string_eq, ◌==◌, Bool-cases, inl, inr, is_some}
use tool_benchmarks.Base.Text.{strip, without_prefix}
use tool_benchmarks.Transcript.{ToolCall}
use tool_benchmarks.Transcript.Lines.{Decoder}
use tool_benchmarks.Base.Sorting.{any, any-sorted}
use tool_benchmarks.Shell.Gate.{
  gate_prefixes, matches_prefix_at_boundary, at_boundary, reaches_second, command_escapes_gate,
}
use tool_benchmarks.Base.Sorting.{text_before}
use tool_benchmarks.Shell.Audit.{
  bash_command, is_gated, is_forbidden, escaping, gate_violation, gate_violations, forbidden_names,
  arm_violations,
}
use tool_benchmarks.Shell.Prefixes.{without_prefix-append}
use tool_benchmarks.Shell.Presence.{
  or_right, none_of, is_any, is_any-set_of, is_any-append, is_any-if, is_any-add, is_some-if,
  any-or,
}

-- A command that is a granted prefix, whole or before white space, and has no shell operator.
pub record Permitted (prefixes : List String) (command : String) : Type 0 where
  pub prefix : String
  pub rest : String
  pub is_granted : Memᴰ prefix prefixes
  pub starts : strip command ≡ prefix <> rest
  pub ends : at_boundary rest ≡ true
  pub single : reaches_second (strip command) ≡ false

any-find :
    (test : String → Bool) (xs : List String)
    → any test xs ≡ true
    → (x : String) × Memᴰ x xs × (test x ≡ true)
any-find test [] h = cc
any-find test (x ∷ xs) h = elim (Bool-cases (test x)) [
  | inl t ↦ (x, Memᴰ.head refl, t)
  | inr f ↦ let (y, m, t) = any-find test xs (rw f at h) in (y, Memᴰ.tail m, t)
]

matched :
    (command prefix : String)
    → matches_prefix_at_boundary command prefix ≡ true
    → (rest : String) × (without_prefix prefix command ≡ some rest) × (at_boundary rest ≡ true)
unfolding matches_prefix_at_boundary
matched command prefix h = of_rest (without_prefix prefix command) h refl
  where
    of_rest :
        (r : Option String)
        → elim r [ none ↦ false | some rest ↦ at_boundary rest ] ≡ true
        → without_prefix prefix command ≡ r
        → (rest : String) × (without_prefix prefix command ≡ some rest) × (at_boundary rest ≡ true)
    of_rest none h e = cc
    of_rest (some rest) h e = (rest, e, h)

-- A command that does not escape the gate is a permitted one.
pub command_escapes_gate-Permitted :
    (command : String) (prefixes : List String)
    → command_escapes_gate command prefixes ≡ false
    → Permitted prefixes command
unfolding command_escapes_gate
command_escapes_gate-Permitted command prefixes h =
    elim (Bool-cases (any (λ p. matches_prefix_at_boundary (strip command) p) prefixes)) [
      | inl found ↦
          let (p, m, t) =
            any-find (λ p. matches_prefix_at_boundary (strip command) p) prefixes found in
          let (rest, s, b) = matched (strip command) p t in
          record {
            prefix = p;
            rest = rest;
            is_granted = m;
            starts = without_prefix-append p (strip command) rest s;
            ends = b;
            single = rw found at h;
          }
      | inr absent ↦ let no = rw absent at h in cc
    ]

module _ (loads : Decoder) (allowed_tools : List String) where
  -- A Bash call without a readable command, or with one that escapes the gate
  abbrev pub is_ungated : Option String → Bool
  is_ungated none = true
  is_ungated (some command) = command_escapes_gate command (gate_prefixes allowed_tools)

  -- A call by a tool that is not granted or is banned, or an ungated Bash call of a gated arm
  abbrev pub is_violation : ToolCall → Bool
  is_violation call =
      is_forbidden loads allowed_tools call.name
      || (is_gated loads allowed_tools
          && call.name == "Bash"
          && is_ungated (bash_command loads call))

  is_any-forbidden :
      (calls : List ToolCall)
      → is_any (forbidden_names loads allowed_tools calls)
        ≡ any (λ (c : ToolCall). is_forbidden loads allowed_tools c.name) calls
  unfolding forbidden_names
  is_any-forbidden [] = refl
  is_any-forbidden (c ∷ calls) =
      is_any-if (is_forbidden loads allowed_tools c.name) c.name _
      ∙ ap (λ b. is_forbidden loads allowed_tools c.name || b) (is_any-forbidden calls)

  escaping-is_ungated :
      (command : Option String)
      → is_some (escaping loads allowed_tools command) ≡ is_ungated command
  escaping-is_ungated none = refl
  escaping-is_ungated (some command) =
      elim (Bool-cases (command_escapes_gate command (gate_prefixes allowed_tools))) [
        | inl e ↦ rw e refl
        | inr e ↦ rw e refl
      ]

  one_call :
      (c : ToolCall)
      → is_some (gate_violation loads allowed_tools c)
        ≡ (is_gated loads allowed_tools && c.name == "Bash" && is_ungated (bash_command loads c))
  unfolding gate_violation
  one_call c =
      is_some-if (is_gated loads allowed_tools) (c.name == "Bash") _
      ∙ ap (λ b. is_gated loads allowed_tools && c.name == "Bash" && b)
          (escaping-is_ungated (bash_command loads c))

  is_any-gate :
      (calls : List ToolCall)
      → is_any (gate_violations loads allowed_tools calls)
        ≡ any
            (λ (c : ToolCall).
              is_gated loads allowed_tools && c.name == "Bash" && is_ungated (bash_command loads c))
            calls
  unfolding gate_violations gate_violation
  is_any-gate [] = refl
  is_any-gate (c ∷ calls) =
      is_any-add (gate_violation loads allowed_tools c) _
      ∙ ap (λ b. is_some (gate_violation loads allowed_tools c) || b) (is_any-gate calls)
      ∙ ap
          (λ b.
            b
            || any
                (λ (d : ToolCall).
                  is_gated loads allowed_tools
                  && d.name == "Bash"
                  && is_ungated (bash_command loads d))
                calls)
          (one_call c)

  -- The audit of an arm reports something exactly when some call is a violation.
  pub arm_violations-is_violation :
      (calls : List ToolCall)
      → is_any (arm_violations loads allowed_tools calls) ≡ any is_violation calls
  unfolding arm_violations
  arm_violations-is_violation calls =
      any-sorted text_before (λ x. true) _
      ∙ is_any-set_of _
      ∙ is_any-append (forbidden_names loads allowed_tools calls) _
      ∙ ap (λ b. b || is_any (gate_violations loads allowed_tools calls)) (is_any-forbidden calls)
      ∙ ap (λ b. any (λ (c : ToolCall). is_forbidden loads allowed_tools c.name) calls || b)
          (is_any-gate calls)
      ∙ any-or _ _ calls

  pub gated_command :
      (command : Option String)
      → is_ungated command ≡ false
      → (text : String) × (command ≡ some text) × Permitted (gate_prefixes allowed_tools) text
  gated_command none h = cc
  gated_command (some text) h =
      (text, refl, command_escapes_gate-Permitted text (gate_prefixes allowed_tools) h)

  -- If the audit of a gated arm reports nothing, then every Bash call has a readable command, and the
  -- command is, without the white space around it, a granted prefix followed by nothing or by white
  -- space, and holds no shell operator.
  pub arm_violations-Permitted :
      (calls : List ToolCall) (call : ToolCall)
      → Memᴰ call calls
      → is_gated loads allowed_tools ≡ true
      → (call.name == "Bash") ≡ true
      → arm_violations loads allowed_tools calls ≡ []
      → (text : String) × (bash_command loads call ≡ some text)
        × Permitted (gate_prefixes allowed_tools) text
  arm_violations-Permitted calls call m g b h =
      let quiet =
        none_of is_violation call calls m (sym (arm_violations-is_violation calls) ∙ ap is_any h) in
      gated_command (bash_command loads call)
        (rw (g, b) at (or_right (is_forbidden loads allowed_tools call.name) _ quiet))
