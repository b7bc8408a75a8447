-- ===== src/Complex/Locate.antt =====
-- `find_located` and `located_correct` of src/toolbench/complex.py.
use Prim.Native.Char.{Char, code}
use tool_benchmarks.Base.{String, Bool, true, false, not, ◌&&◌, ◌||◌, Option, none, some}
use tool_benchmarks.Base.{
  List, [], ◌∷◌, eqb, leb, length, drop, if◌then◌else◌, string_eq, ◌==◌, ◌-◌,
}
use tool_benchmarks.Base.Int.{ℤ, pos, ◌+ℤ◌, ◌-ℤ◌, ltb_ℤ}
use tool_benchmarks.Base.Text.{is_empty, strip, without_prefix}
use tool_benchmarks.Json.{
  Json, bool, int, str, arr, obj, Items, nil, cons, Fields, get, is_text, truthy,
}
use tool_benchmarks.Freeze.Reader.{py_str}
use tool_benchmarks.Transcript.Lines.{Decoder, json_lines}
use tool_benchmarks.Complex.{Truth}

abbrev pub located_prefix : String
located_prefix = "LOCATED:"

abbrev or_later : Option String → Option String → Option String
or_later none later = later
or_later (some rest) later = some rest

-- What follows the first occurrence of `sought`: `text[text.find(sought) + len(sought):]`
unfoldable pub after_first : String → String → Option String
unfolding without_prefix
after_first sought String.[] = without_prefix sought ""
after_first sought (String.◌∷◌ c s) =
    or_later (without_prefix sought (String.◌∷◌ c s)) (after_first sought s)

abbrev put_front : Char → Option String → Option String
put_front c none = none
put_front c (some s) = some (String.◌∷◌ c s)

-- `payload[: payload.find("}") + 1]`
unfoldable pub through_brace : String → Option String
through_brace String.[] = none
through_brace (String.◌∷◌ c s) =
    let rest = put_front c (through_brace s) in
    if eqb (code c) b'}' then some (String.◌∷◌ c String.[]) else rest

-- A claim: the time of its entry, and the object that it gives
abbrev pub Hit : Type 0
Hit = String × Fields

module _ (loads : Decoder) (repr : Json → String) where
  abbrev as_claim : Option Json → Option Fields
  as_claim (some (obj claim)) = some claim
  as_claim _ = none

  abbrev braced : Option String → Option Fields
  braced none = none
  braced (some text) = as_claim (loads text)

  abbrev stripped : Option String → Option Fields
  stripped none = none
  stripped (some payload) = braced (through_brace (strip payload))

  -- The claim that a text makes
  unfoldable pub text_claim : String → Option Fields
  unfolding after_first through_brace strip
  text_claim text = stripped (after_first located_prefix text)

  abbrev claimed_by : Json → Option Fields
  claimed_by (str text) = text_claim text
  claimed_by _ = none

  -- The claim of one block of a message
  abbrev block_claim : Json → Option Fields
  block_claim (obj block) =
      if is_text "text" (get "type" block) then claimed_by (get "text" block) else none
  block_claim _ = none

  abbrev first_claim : Option Fields → Option Fields → Option Fields
  first_claim none later = later
  first_claim (some claim) later = some claim

  unfoldable pub blocks_claim : Items → Option Fields
  unfolding text_claim
  blocks_claim nil = none
  blocks_claim (cons block blocks) = first_claim (block_claim block) (blocks_claim blocks)

  abbrev content_claim : Json → Option Fields
  content_claim (arr blocks) = blocks_claim blocks
  content_claim _ = none

  abbrev message_claim : Json → Option Fields
  message_claim (obj message) = content_claim (get "content" message)
  message_claim _ = none

  -- `str(entry.get("timestamp") or "")`
  abbrev timestamp : Json → String
  timestamp v = if truthy v then py_str repr v else ""

  abbrev or_hit : Fields → Option Fields → Option Hit → Option Hit
  or_hit entry none later = later
  or_hit entry (some claim) later = some (timestamp (get "timestamp" entry), claim)

  -- The loop of `find_located` over the entries
  unfoldable pub located_in : List Fields → Option Hit
  unfolding blocks_claim truthy
  located_in [] = none
  located_in (entry ∷ entries) =
      or_hit entry
        (if is_text "assistant" (get "type" entry)
          then message_claim (get "message" entry)
          else none)
        (located_in entries)

  unfoldable pub find_located : List String → Option Hit
  unfolding located_in json_lines
  find_located lines = located_in (json_lines loads lines).entries

abbrev is_separator : Char → Bool
is_separator c = let n = code c in eqb n b'.' || (eqb n b'/' || (eqb n b':' || eqb n b'#'))

-- The parts read so far: the one being read, and those behind it.
abbrev close_part : String × List String → List String
close_part (part, parts) = if is_empty part then parts else part ∷ parts

abbrev read_part : Char → String × List String → String × List String
read_part c (part, parts) =
    if is_separator c then ("", close_part (part, parts)) else (String.◌∷◌ c part, parts)

parts_from : String → String × List String
parts_from String.[] = ("", [])
parts_from (String.◌∷◌ c s) = read_part c (parts_from s)

-- `[p for p in _NAME_PATH_SEP_RE.split(name) if p]`
unfoldable pub name_parts : String → List String
unfolding parts_from
name_parts name = close_part (parts_from name)

abbrev same_parts : List String → List String → Bool
same_parts [] [] = true
same_parts (x ∷ xs) (y ∷ ys) = x == y && same_parts xs ys
same_parts _ _ = false

-- `longer[len(longer) - len(shorter):] == shorter`
abbrev ends_with : List String → List String → Bool
ends_with longer shorter = same_parts (drop (length longer - length shorter) longer) shorter

abbrev one_ends_other : List String → List String → Bool
one_ends_other [] truth = false
one_ends_other claim [] = false
one_ends_other claim truth =
    if leb (length claim) (length truth) then ends_with truth claim else ends_with claim truth

unfoldable pub name_path_matches : Json → String → Bool
unfolding name_parts
name_path_matches (str claim) truth_symbol =
    one_ends_other (name_parts claim) (name_parts truth_symbol)
name_path_matches _ truth_symbol = false

abbrev pub max_located_slack : ℤ
max_located_slack = pos 30

-- `isinstance(v, int)`, which a bool passes
abbrev pub as_int : Json → Option ℤ
as_int (int n) = some n
as_int (bool b) = some (if b then pos 1 else pos 0)
as_int _ = none

abbrev pub span : ℤ → ℤ → ℤ
span low high = high -ℤ low +ℤ pos 1

abbrev pub lines_correct : Truth → ℤ → ℤ → Bool
lines_correct truth low high =
    if ltb_ℤ high low
    then false
    else if ltb_ℤ high truth.first_line || ltb_ℤ truth.last_line low
    then false
    else not (ltb_ℤ max_located_slack (span low high -ℤ span truth.first_line truth.last_line))

abbrev ints_correct : Truth → Option ℤ → Option ℤ → Bool
ints_correct truth (some low) (some high) = lines_correct truth low high
ints_correct truth _ _ = false

abbrev range_correct : Truth → Json → Bool
range_correct truth (arr (cons low (cons high nil))) = ints_correct truth (as_int low) (as_int high)
range_correct truth _ = false

unfoldable pub located_correct : Fields → Truth → Bool
unfolding name_path_matches
located_correct claim truth =
    if not (is_text truth.file (get "file" claim))
      || not (name_path_matches (get "symbol" claim) truth.symbol)
    then false
    else range_correct truth (get "lines" claim)
