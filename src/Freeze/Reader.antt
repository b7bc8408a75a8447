-- ===== src/Freeze/Reader.antt =====
-- `read_manifest` of src/toolbench/freeze.py, from the decoded value on. `repr`, which `str` calls for a
-- list or a dict, is a parameter of the model.
use tool_benchmarks.Base.{String, Bool, false, Option, none, some, List, [], ◌∷◌}
use tool_benchmarks.Base.{if◌then◌else◌, ◌||◌, ◌⊎◌, inl, inr}
use tool_benchmarks.Base.Dict.{Dict}
use tool_benchmarks.Base.Int.{ℤ, pos}
use tool_benchmarks.Base.Text.{strip}
use tool_benchmarks.Json.{
  Json, null, bool, int, float, str, arr, obj, Items, nil, cons, Fields, end, field, get, has,
  as_str,
}
use tool_benchmarks.Json.Dumps.{str_text}
use tool_benchmarks.Outcome.{Result, ok, err, Error}
use tool_benchmarks.Parsers.Usage.{truncated}
use tool_benchmarks.Worktrees.Probes.{int_of}
use tool_benchmarks.Sources.{AgentCensus, SessionRef}
use tool_benchmarks.Sources.Loading.{has_text}

pub record CorpusManifest : Type 0 where
  pub version : String
  pub fingerprint : String
  pub count : ℤ
  pub refs : List SessionRef
  pub census : Option AgentCensus
  pub census_includes_subagents : Option Bool

-- Which refusal a `MalformedFreezeManifest` stands for
pub data Refusal : Type 0 where
  not_an_object refs_not_a_list invalid_ref missing_field : Refusal

-- What `read_manifest` does: it returns, raises `MalformedFreezeManifest`, or lets another exception
-- out.
pub data Reading {ℓ} (A : Type ℓ) : Type ℓ where
  reads : A → Reading A
  refused : Refusal → Reading A
  crashes : Reading A

infixl 5 ◌>>=◌
abbrev pub ◌>>=◌ {ℓ κ} : {A : Type ℓ} {B : Type κ} → Reading A → (A → Reading B) → Reading B
reads a >>= f = f a
refused r >>= f = refused r
crashes >>= f = crashes

-- How `int(v)` fails
pub data IntFault : Type 0 where
  type_or_value overflow : IntFault

abbrev int_of_text : Option ℤ → ℤ ⊎ IntFault
int_of_text (some n) = inl n
int_of_text none = inr type_or_value

abbrev int_of_float : Result ℤ → ℤ ⊎ IntFault
int_of_float (ok n) = inl n
int_of_float (err Error.overflow_error) = inr overflow
int_of_float (err _) = inr type_or_value

-- `int(v)`
unfoldable pub py_int : Json → ℤ ⊎ IntFault
unfolding truncated int_of strip
py_int (bool b) = inl (if b then pos 1 else pos 0)
py_int (int n) = inl n
py_int (float f) = int_of_float (truncated f.value)
py_int (str s) = int_of_text (int_of (strip s))
py_int _ = inr type_or_value

abbrev pub under_subagents : Option String → Bool
under_subagents none = false
under_subagents (some path) = has_text "/subagents/" path

abbrev is_true : Json → Bool
is_true (bool b) = b
is_true _ = false

unfoldable pub is_subagent_from_manifest : Fields → Option String → Bool
is_subagent_from_manifest d path = is_true (get "is_subagent" d) || under_subagents path

abbrev as_bool : Json → Option Bool
as_bool (bool b) = some b
as_bool _ = none

module _ (repr : Json → String) where
  -- `str(v)`
  unfoldable pub py_str : Json → String
  py_str (str s) = s
  py_str (arr xs) = repr (arr xs)
  py_str (obj fs) = repr (obj fs)
  py_str v = str_text v

  abbrev path_of : Json → Option String
  path_of null = none
  path_of v = some (py_str v)

  -- `str(d[key])`, whose KeyError is refused
  abbrev required : Refusal → String → Fields → Reading String
  required r key d = if has key d then reads (py_str (get key d)) else refused r

  unfoldable pub ref_from_dict : Json → Reading SessionRef
  ref_from_dict (obj d) = do
    let path = path_of (get "path" d)
    agent ← required invalid_ref "agent" d
    source ← required invalid_ref "source" d
    project ← required invalid_ref "project" d
    session_id ← required invalid_ref "session_id" d
    reads (record {
      agent = agent;
      source = source;
      project = project;
      session_id = session_id;
      path = path;
      is_subagent = is_subagent_from_manifest d path;
    })
  ref_from_dict _ = crashes

  unfoldable pub refs_from_items : Items → Reading (List SessionRef)
  unfolding ref_from_dict
  refs_from_items nil = reads []
  refs_from_items (cons r items) = do
    ref ← ref_from_dict r
    rest ← refs_from_items items
    reads (ref ∷ rest)

  abbrev refs_of : Json → Reading (List SessionRef)
  refs_of (arr items) = refs_from_items items
  refs_of _ = refused refs_not_a_list

  -- An exception of `int` in the census is not caught.
  abbrev or_crash : ℤ ⊎ IntFault → Reading ℤ
  or_crash (inl n) = reads n
  or_crash (inr _) = crashes

  unfoldable pub totals_from_fields : Fields → Reading (Dict String ℤ)
  totals_from_fields end = reads []
  totals_from_fields (field agent v fs) = do
    n ← or_crash (py_int v)
    rest ← totals_from_fields fs
    reads ((agent, n) ∷ rest)

  abbrev totals_of : Json → Reading (Dict String ℤ)
  totals_of (obj fs) = totals_from_fields fs
  totals_of _ = reads []

  -- `int(v) if isinstance(v, (int, str)) else 0`
  abbrev archive_total_of : Json → Reading ℤ
  archive_total_of (float f) = reads (pos 0)
  archive_total_of null = reads (pos 0)
  archive_total_of (arr xs) = reads (pos 0)
  archive_total_of (obj fs) = reads (pos 0)
  archive_total_of v = or_crash (py_int v)

  unfoldable pub census_from_dict : Fields → Reading AgentCensus
  unfolding totals_from_fields
  census_from_dict d = do
    totals ← totals_of (get "totals" d)
    archive_total ← archive_total_of (get "archive_total" d)
    reads (record {
      totals = totals;
      archive_total = archive_total;
      unavailable_reason = as_str (get "unavailable_reason" d);
    })

  abbrev census_of : Json → Reading (Option AgentCensus)
  census_of (obj d) = (census_from_dict d >>= λ c. reads (some c))
  census_of _ = reads none

  abbrev counted : ℤ ⊎ IntFault → Reading ℤ
  counted (inl n) = reads n
  counted (inr type_or_value) = refused missing_field
  counted (inr overflow) = crashes

  abbrev count_of : Fields → Reading ℤ
  count_of d = if has "count" d then counted (py_int (get "count" d)) else refused missing_field

  -- `read_manifest`, from the decoded value on.
  unfoldable pub read_manifest : Json → Reading CorpusManifest
  unfolding refs_from_items census_from_dict py_int
  read_manifest (obj d) = do
    refs ← refs_of (get "refs" d)
    census ← census_of (get "census" d)
    version ← required missing_field "version" d
    fingerprint ← required missing_field "fingerprint" d
    count ← count_of d
    reads (record {
      version = version;
      fingerprint = fingerprint;
      count = count;
      refs = refs;
      census = census;
      census_includes_subagents = as_bool (get "census_includes_subagents" d);
    })
  read_manifest _ = refused not_an_object
