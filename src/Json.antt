-- ===== src/Json.antt =====
-- The values that Python's `json` module reads and writes, and the accesses that src/toolbench
-- makes to them. The text forms are in Json/Dumps.antt.
pub mod Dumps
use tool_benchmarks.Base.{ℕ, zero, String, Bool, true, false, not, Option, none, some, string_eq}
use tool_benchmarks.Base.{◌==◌, if◌then◌else◌}
use tool_benchmarks.Base.Text.{is_empty}
use tool_benchmarks.Base.Int.{ℤ, pos}

-- `finite m e` is m / 2 ^ e, which every finite double is for some m and e.
pub data FloatValue : Type 0 where
  finite : ℤ → ℕ → FloatValue
  infinity : Bool → FloatValue
  nan : FloatValue

-- A float and the text that `repr` gives for it.
pub record Float : Type 0 where
  pub value : FloatValue
  pub repr : String

mutual
  pub data Json : Type 0 where
    null : Json
    bool : Bool → Json
    int : ℤ → Json
    float : Float → Json
    str : String → Json
    arr : Items → Json
    obj : Fields → Json

  pub data Items : Type 0 where
    nil : Items
    cons : Json → Items → Items

  pub data Fields : Type 0 where
    end : Fields
    field : String → Json → Fields → Fields

abbrev is_zero : ℤ → Bool
is_zero (pos zero) = true
is_zero _ = false

-- `d.get(key)`: Python's `None` is the JSON null, for an absent key too.
unfoldable pub get : String → Fields → Json
get key end = null
get key (field k v fs) = if key == k then v else get key fs

-- `key in d`
unfoldable pub has : String → Fields → Bool
has key end = false
has key (field k v fs) = if key == k then true else has key fs

-- `v if isinstance(v, str) else None`, and the same for a dict and a list
abbrev pub as_str : Json → Option String
as_str (str s) = some s
as_str _ = none

abbrev pub as_obj : Json → Option Fields
as_obj (obj fs) = some fs
as_obj _ = none

abbrev pub as_arr : Json → Option Items
as_arr (arr xs) = some xs
as_arr _ = none

-- `v if isinstance(v, str) else ""`
abbrev pub str_or_empty : Json → String
str_or_empty (str s) = s
str_or_empty _ = ""

-- `v == text`, for a value that may be no string
abbrev pub is_text : String → Json → Bool
is_text text (str s) = s == text
is_text text _ = false

-- `bool(v)`
unfoldable pub truthy : Json → Bool
truthy null = false
truthy (bool b) = b
truthy (int n) = not (is_zero n)
truthy (float f) = elim f.value [ finite m e ↦ not (is_zero m) | _ ↦ true ]
truthy (str s) = not (is_empty s)
truthy (arr nil) = false
truthy (arr _) = true
truthy (obj end) = false
truthy (obj _) = true
