-- ===== src/Transcript/Lines.antt =====
-- `JsonLines` of src/toolbench/transcript.py. The decoder `json.loads` is a parameter of the model:
-- `none` is its `JSONDecodeError`.
use tool_benchmarks.Base.{ℕ, suc, ◌+◌, ◌≡◌, String, Bool, Option, some}
use tool_benchmarks.Base.{List, [], ◌∷◌, ◌++◌, arith, length, if◌then◌else◌, Bool-cases, inl, inr}
use tool_benchmarks.Base.Text.{is_empty, strip}
use tool_benchmarks.Json.{Json, obj, Fields}

pub record Records : Type 0 where
  pub entries : List Fields
  pub malformed : ℕ

abbrev pub Decoder : Type 0
Decoder = String → Option Json

abbrev no_records : Records
no_records = record { entries = []; malformed = 0 }

abbrev yield_entry : Fields → Records → Records
yield_entry entry r = record r { entries = entry ∷ r.entries }

abbrev bad_line : Records → Records
bad_line r = record r { malformed = suc r.malformed }

-- What one stripped, non-blank line adds to what the lines below it give.
add_line : Option Json → Records → Records
add_line (some (obj entry)) r = yield_entry entry r
add_line _ r = bad_line r

module _ (loads : Decoder) where
  -- The whole iteration over the reader: the entries that it yields, and `malformed` at its end.
  unfoldable pub json_lines : List String → Records
  unfolding add_line
  json_lines [] = no_records
  json_lines (raw ∷ lines) =
      let line = strip raw in
      let rest = json_lines lines in if is_empty line then rest else add_line (loads line) rest

  abbrev pub is_blank : String → Bool
  is_blank raw = is_empty (strip raw)

  abbrev pub blank_lines : List String → ℕ
  blank_lines [] = 0
  blank_lines (raw ∷ lines) = if is_blank raw then suc (blank_lines lines) else blank_lines lines

  add_line_count :
      (o : Option Json) (r : Records)
      → length (add_line o r).entries + (add_line o r).malformed
        ≡ suc (length r.entries + r.malformed)
  unfolding add_line
  add_line_count o r = ground arith

  -- Every line is blank, yields exactly one entry or adds exactly one to `malformed`: none is lost
  -- and none is counted twice, whatever the decoder answers.
  pub json_lines-accounts :
      (lines : List String)
      → length (json_lines lines).entries + (json_lines lines).malformed + blank_lines lines
        ≡ length lines
  unfolding json_lines
  json_lines-accounts [] = omega arith
  json_lines-accounts (raw ∷ lines) = elim (Bool-cases (is_blank raw)) [
    | inl blank ↦ rw blank (omega (arith, json_lines-accounts lines))
    | inr text ↦ rw text (
        omega
          (arith, json_lines-accounts lines, add_line_count (loads (strip raw)) (json_lines lines)))
  ]

  -- The reader goes over a concatenation as over its parts.
  pub entries-append :
      (xs ys : List String)
      → (json_lines (xs ++ ys)).entries ≡ (json_lines xs).entries ++ (json_lines ys).entries
  unfolding json_lines
  entries-append [] ys = λ i. (json_lines ys).entries
  entries-append (raw ∷ lines) ys = ground (arith, entries-append lines ys)
