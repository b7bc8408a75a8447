-- ===== src/Json/Dumps.antt =====
-- `json.dumps` with its default arguments, and `str` of the values that are no containers.
use Prim.Native.Char.{Char, code}
use Prim.Native.String.{[], ◌∷◌}
use tool_benchmarks.Base.{ℕ, zero, suc, ◌+◌, ◌-◌, ◌*◌, ◌/◌, ◌%◌, ◌<◌, ◌≡◌, refl, String, ◌<>◌}
use tool_benchmarks.Base.{true, false, ◌&&◌, List, arith, ltb, leb, eqb}
use tool_benchmarks.Base.{if◌then◌else◌, Bool-cases, inl, inr}
use tool_benchmarks.Base.Int.{ℤ, pos, negsuc}
use tool_benchmarks.Json.{
  finite, infinity, nan, Float, Json, null, bool, int, float, str, arr, obj, Items, nil, cons,
  Fields, end, field,
}

-- The digits of a number in a base, the last one first. The fuel is one more than the number.
digits_fuel : ℕ → ℕ → ℕ → List ℕ
digits_fuel base zero n = List.[]
digits_fuel base (suc f) n =
    let rest = digits_fuel base f (n / base) in
    List.◌∷◌ (n % base) (if ltb n base then List.[] else rest)

digits : ℕ → ℕ → List ℕ
digits base n = digits_fuel base (suc n) n

value_of : ℕ → List ℕ → ℕ
value_of base List.[] = 0
value_of base (List.◌∷◌ d ds) = d + base * value_of base ds

digits_fuel-decimal : (f n : ℕ) → n < f → value_of 10 (digits_fuel 10 f n) ≡ n
unfolding digits_fuel value_of
digits_fuel-decimal zero n h = elim h [ ]
digits_fuel-decimal (suc f) n h = elim (Bool-cases (ltb n 10)) [
  | inl small ↦ rw small (ground arith)
  | inr large ↦ rw large (ground (arith, digits_fuel-decimal f (n / 10)))
]

-- The fuel suffices: the digits stand for the number.
digits-decimal : (n : ℕ) → value_of 10 (digits 10 n) ≡ n
unfolding digits
digits-decimal n = digits_fuel-decimal (suc n) n (omega arith)

digit_text : ℕ → String
digit_text n =
    if eqb n 0
    then "0"
    else if eqb n 1
    then "1"
    else if eqb n 2
    then "2"
    else if eqb n 3
    then "3"
    else if eqb n 4
    then "4"
    else if eqb n 5
    then "5"
    else if eqb n 6
    then "6"
    else if eqb n 7
    then "7"
    else if eqb n 8
    then "8"
    else if eqb n 9
    then "9"
    else if eqb n 10
    then "a"
    else if eqb n 11
    then "b"
    else if eqb n 12
    then "c"
    else if eqb n 13
    then "d"
    else if eqb n 14
    then "e"
    else "f"

text_of : List ℕ → String → String
text_of List.[] tail = tail
text_of (List.◌∷◌ d ds) tail = text_of ds (digit_text d <> tail)

-- `str(n)`
unfoldable pub show_ℕ : ℕ → String
unfolding digits digits_fuel text_of digit_text
show_ℕ n = text_of (digits 10 n) ""

unfoldable pub show_ℤ : ℤ → String
unfolding show_ℕ
show_ℤ (pos n) = show_ℕ n
show_ℤ (negsuc n) = "-" <> show_ℕ (suc n)

-- `'{0:04x}'.format(n)` for n < 2 ** 16
hex4 : ℕ → String
unfolding digit_text
hex4 n =
    digit_text (n / 4096)
    <> digit_text (n / 256 % 16)
    <> digit_text (n / 16 % 16)
    <> digit_text (n % 16)

-- One character of a string literal, under `ensure_ascii`.
escape : Char → String
unfolding hex4
escape c =
    let n = code c in
    if eqb n 34
    then "\\\""
    else if eqb n 92
    then "\\\\"
    else if eqb n 10
    then "\\n"
    else if eqb n 13
    then "\\r"
    else if eqb n 9
    then "\\t"
    else if eqb n 12
    then "\\f"
    else if eqb n 8
    then "\\b"
    else if leb 32 n && leb n 126
    then c ∷ []
    else if ltb n 0x10000
    then "\\u" <> hex4 n
    else "\\u"
      <> hex4 (0xd800 + (n - 0x10000) / 1024)
      <> "\\u"
      <> hex4 (0xdc00 + (n - 0x10000) % 1024)

escaped : String → String
unfolding escape
escaped [] = []
escaped (c ∷ s) = escape c <> escaped s

unfoldable pub quoted : String → String
unfolding escaped
quoted s = "\"" <> escaped s <> "\""

float_text : Float → String
float_text f = elim f.value [
  | finite m e ↦ f.repr
  | infinity true ↦ "-Infinity"
  | infinity false ↦ "Infinity"
  | nan ↦ "NaN"
]

-- `json.dumps(v)`
unfoldable mutual
  unfolding show_ℤ quoted float_text

  pub dumps : Json → String
  dumps null = "null"
  dumps (bool true) = "true"
  dumps (bool false) = "false"
  dumps (int n) = show_ℤ n
  dumps (float f) = float_text f
  dumps (str s) = quoted s
  dumps (arr nil) = "[]"
  dumps (arr (cons x xs)) = "[" <> dumps x <> dumps_items xs
  dumps (obj end) = "{}"
  dumps (obj (field k v fs)) = "{" <> quoted k <> ": " <> dumps v <> dumps_fields fs

  pub dumps_items : Items → String
  dumps_items nil = "]"
  dumps_items (cons x xs) = ", " <> dumps x <> dumps_items xs

  pub dumps_fields : Fields → String
  dumps_fields end = "}"
  dumps_fields (field k v fs) = ", " <> quoted k <> ": " <> dumps v <> dumps_fields fs

-- `str(v)` of a value that is no string and no container
unfoldable pub str_text : Json → String
unfolding show_ℤ
str_text (bool true) = "True"
str_text (bool false) = "False"
str_text (int n) = show_ℤ n
str_text (float f) = f.repr
str_text _ = "None"

dumps_runs :
    dumps (
      obj
        (field "a\n" (arr (cons (int (pos 120)) (cons null nil))) (field "é" (int (negsuc 6)) end)))
    ≡ "{\"a\\n\": [120, null], \"\\u00e9\": -7}"
unfolding dumps
dumps_runs = refl
