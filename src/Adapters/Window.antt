-- ===== src/Adapters/Window.antt =====
-- What `detect_parser` of src/toolbench/adapters.py decides, reads and replays, and what the composed
-- adapter makes of it.
use tool_benchmarks.Base.{ℕ, zero, suc, ◌+◌, ◌-◌, ◌≤◌, ◌≡◌, refl, ◌∙◌, ap, String, true, false}
use tool_benchmarks.Base.{Option, none, some, List, [], ◌∷◌, ◌++◌, map, append_assoc, arith}
use tool_benchmarks.Base.{take, leb, leb→le, length, if◌then◌else◌, Bool-cases, inl, inr, string_eq}
use tool_benchmarks.Base.Text.{is_empty, strip}
use tool_benchmarks.Outcome.{Result, ok, err, unknown_schema, ◌>>=◌}
use tool_benchmarks.Transcript.Lines.{Decoder}
use tool_benchmarks.Parsers.Pending.{Origin}
use tool_benchmarks.Adapters.{
  Parser, detect_window, sniff, Detection, settle, detect_from, detect_parser, run_parser,
  composed_parse,
}

-- The first decision in a list.
unfoldable pub decide : List (Result (Option Parser)) → Result Parser
decide [] = err unknown_schema
decide (ok none ∷ rest) = decide rest
decide (ok (some p) ∷ rest) = ok p
decide (err e ∷ rest) = err e

module _ (loads : Decoder) where
  -- The stripped lines that are not blank.
  abbrev pub text_lines : List String → List String
  text_lines [] = []
  text_lines (raw ∷ lines) =
      let rest = text_lines lines in if is_empty (strip raw) then rest else strip raw ∷ rest

  abbrev pub sniff_line : String → Result (Option Parser)
  sniff_line line = sniff (loads line)

  abbrev pub text_count : List String → ℕ
  text_count lines = length (text_lines lines)

  text_count-append : (xs ys : List String) → text_count (xs ++ ys) ≡ text_count xs + text_count ys
  text_count-append [] ys = omega arith
  text_count-append (raw ∷ xs) ys = ground (arith, text_count-append xs ys)

take-nil {ℓ} : {A : Type ℓ} (n : ℕ) → take {A = A} n [] ≡ []
take-nil zero = refl
take-nil (suc n) = refl

decide-settle :
    (r : Result (Option Parser)) (read lines : List String) (next : Detection)
    (more : List (Result (Option Parser)))
    → next.outcome ≡ decide more
    → (settle r read lines next).outcome ≡ decide (r ∷ more)
unfolding decide
decide-settle (ok none) read lines next more h = h
decide-settle (ok (some p)) read lines next more h = refl
decide-settle (err e) read lines next more h = refl

abbrev Replays : List String → Detection → Type 0
Replays lines d = d.buffered ++ d.rest ≡ lines

Replays-settle :
    (r : Result (Option Parser)) (read lines all : List String) (next : Detection)
    → read ++ lines ≡ all
    → Replays all next
    → Replays all (settle r read lines next)
Replays-settle (ok none) read lines all next e h = h
Replays-settle (ok (some p)) read lines all next e h = e
Replays-settle (err x) read lines all next e h = e

abbrev Bounded : Decoder → ℕ → Detection → Type 0
Bounded loads n d = text_count loads d.buffered ≤ n

Bounded-settle :
    (loads : Decoder) (n : ℕ) (r : Result (Option Parser)) (read lines : List String)
    (next : Detection)
    → text_count loads read ≤ n
    → Bounded loads n next
    → Bounded loads n (settle r read lines next)
Bounded-settle loads n (ok none) read lines next e h = h
Bounded-settle loads n (ok (some p)) read lines next e h = e
Bounded-settle loads n (err x) read lines next e h = e

module _ (loads : Decoder) (window : ℕ) where
  decide-detect_from :
      (buffered : List String) (seen : ℕ) (lines : List String)
      → (detect_from loads window buffered seen lines).outcome
        ≡ decide (map (sniff_line loads) (take (window - seen) (text_lines loads lines)))
  unfolding detect_from decide
  decide-detect_from buffered seen [] = rw (take-nil {A = String} (window - seen))
  decide-detect_from buffered seen (raw ∷ lines) = elim (Bool-cases (is_empty (strip raw))) [
    | inl blank ↦ rw blank (decide-detect_from (buffered ++ (raw ∷ [])) seen lines)
    | inr text ↦ elim (Bool-cases (leb window seen)) [
      | inl full ↦ rw (text, full, no_room full)
      | inr room ↦
          rw (text, room, one_more room)
            (decide-settle (sniff (loads (strip raw))) _ _ _ _
              (decide-detect_from (buffered ++ (raw ∷ [])) (suc seen) lines))
    ]
  ]
    where
      no_room : leb window seen ≡ true → window - seen ≡ 0
      no_room h = omega (arith, leb→le window seen h)

      one_more : leb window seen ≡ false → window - seen ≡ suc (window - suc seen)
      one_more h = ground arith

  replay-detect_from :
      (buffered : List String) (seen : ℕ) (lines : List String)
      → Replays (buffered ++ lines) (detect_from loads window buffered seen lines)
  unfolding detect_from
  replay-detect_from buffered seen [] = refl
  replay-detect_from buffered seen (raw ∷ lines) = cases (
      replay-detect_from (buffered ++ (raw ∷ [])) (if is_empty (strip raw) then seen else suc seen)
        lines
      ∙ moved)
    where
      moved : (buffered ++ (raw ∷ [])) ++ lines ≡ buffered ++ (raw ∷ lines)
      moved = append_assoc buffered (raw ∷ []) lines

      cases :
          Replays (buffered ++ (raw ∷ lines)) (
            detect_from loads window
              (buffered ++ (raw ∷ []))
              (if is_empty (strip raw) then seen else suc seen)
              lines)
          → Replays
              (buffered ++ (raw ∷ lines))
              (detect_from loads window buffered seen (raw ∷ lines))
      cases h = elim (Bool-cases (is_empty (strip raw))) [
        | inl blank ↦ rw blank (rw blank at h)
        | inr text ↦ elim (Bool-cases (leb window seen)) [
          | inl full ↦ rw (text, full) moved
          | inr room ↦
              rw (text, room)
                (Replays-settle (sniff (loads (strip raw))) _ lines _ _ moved (rw text at h))
        ]
      ]

  bound-detect_from :
      (buffered : List String) (seen : ℕ) (lines : List String)
      → text_count loads buffered ≡ seen
      → seen ≤ window
      → Bounded loads (suc window) (detect_from loads window buffered seen lines)
  unfolding detect_from
  bound-detect_from buffered seen [] c h = omega arith
  bound-detect_from buffered seen (raw ∷ lines) c h = elim (Bool-cases (is_empty (strip raw))) [
    | inl blank ↦ rw blank (
        bound-detect_from (buffered ++ (raw ∷ [])) seen lines
          (rw (text_count-append loads, blank) (omega arith)) h)
    | inr text ↦ elim (Bool-cases (leb window seen)) [
      | inl full ↦ rw (text, full, text_count-append loads, text) (omega arith)
      | inr room ↦
          rw (text, room)
            (Bounded-settle loads (suc window) (sniff (loads (strip raw))) _ lines _
              (rw (text_count-append loads, text) (omega arith))
              (bound-detect_from (buffered ++ (raw ∷ [])) (suc seen) lines
                (rw (text_count-append loads, text) (omega arith)) (ground arith)))
    ]
  ]

  -- The outcome of the detection is decided by the first of the first `window` non-blank lines that
  -- says anything; it is `UnknownSchema` if none does.
  pub outcome-detect_parser :
      (lines : List String)
      → (detect_parser loads window lines).outcome
        ≡ decide (map (sniff_line loads) (take window (text_lines loads lines)))
  unfolding detect_parser
  outcome-detect_parser lines =
      decide-detect_from [] 0 lines
      ∙ ap (λ n. decide (map (sniff_line loads) (take n (text_lines loads lines)))) (omega arith)

  -- Whatever the outcome, what was read and what was not read are together the input, and at most
  -- one non-blank line beyond the window was read.
  pub detect_parser_reads :
      (lines : List String)
      → let d = detect_parser loads window lines in
        (d.buffered ++ d.rest ≡ lines) × (text_count loads d.buffered ≤ suc window)
  unfolding detect_parser
  detect_parser_reads lines =
      (replay-detect_from [] 0 lines, bound-detect_from [] 0 lines refl (omega arith))

-- The composed adapter runs the parser that the detection decides on over all of the lines: those
-- that the detection read are read again, and its errors are the adapter's.
pub composed_parse_lem :
    (o : Origin) (loads : Decoder) (lines : List String)
    → composed_parse o loads lines ≡ (do
      parser ← decide (map (sniff_line loads) (take detect_window (text_lines loads lines)))
      run_parser parser o loads lines)
unfolding composed_parse
composed_parse_lem o loads lines = rw (
  (detect_parser_reads loads detect_window lines).0,
  outcome-detect_parser loads detect_window lines,
)
