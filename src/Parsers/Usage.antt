-- ===== src/Parsers/Usage.antt =====
-- The usage accounting of src/toolbench/parsers.py: billing keys, the session tally and its buckets.
pub mod Partition
pub mod Charges
use Prim.Native.Nat.{◌^◌}
use tool_benchmarks.Base.{ℕ, suc, ◌/◌, String, Bool, true, false, Option, none, some, List, [], ◌∷◌}
use tool_benchmarks.Base.{string_eq, ◌==◌, contains, if◌then◌else◌, ◌&&◌, not}
use tool_benchmarks.Base.Dict.{Dict, update}
use tool_benchmarks.Base.Int.{ℤ, pos, negsuc, ◌+ℤ◌, ◌-ℤ◌}
use tool_benchmarks.Base.Text.{is_empty}
use tool_benchmarks.Json.{
  FloatValue, finite, infinity, nan, Json, int, float, str, obj, Fields, get, str_or_empty,
}
use tool_benchmarks.Outcome.{Result, ok, err, overflow_error, value_error, ◌>>=◌}
use tool_benchmarks.Transcript.{BranchUsage, no_usage, detached_branch}
use tool_benchmarks.Transcript.Totals.{plus}

-- `int(value)` of a float: towards zero.
unfoldable pub truncated : FloatValue → Result ℤ
truncated (finite (pos n) e) = ok (pos (n / 2 ^ e))
truncated (finite (negsuc n) e) = ok (pos 0 -ℤ pos (suc n / 2 ^ e))
truncated (infinity negative) = err overflow_error
truncated nan = err value_error

unfoldable pub as_usage_int : Json → Result ℤ
unfolding truncated
as_usage_int (int n) = ok n
as_usage_int (float f) = truncated f.value
as_usage_int _ = ok (pos 0)

pub record UsageTally : Type 0 where
  pub cache_read : ℤ
  pub cache_creation : ℤ
  pub input_tokens : ℤ
  pub output_tokens : ℤ
  pub usage_messages : ℤ
  pub by_branch : Dict String BranchUsage
  pub detached_by_cwd : Dict String BranchUsage
  pub charged : List String

abbrev pub no_tally : UsageTally
no_tally = record {
  cache_read = pos 0;
  cache_creation = pos 0;
  input_tokens = pos 0;
  output_tokens = pos 0;
  usage_messages = pos 0;
  by_branch = [];
  detached_by_cwd = [];
  charged = [];
}

-- `value if isinstance(value, str) and value`
abbrev pub nonempty_str : Json → Option String
nonempty_str (str s) = if is_empty s then none else some s
nonempty_str _ = none

abbrev or_else : Option String → Option String → Option String
or_else none k = k
or_else (some k) _ = some k

unfoldable pub billing_key : Fields → Fields → Option String
billing_key entry message =
    or_else (nonempty_str (get "requestId" entry)) (nonempty_str (get "id" message))

-- Whether the response was charged before, and the tally with its key marked.
unfoldable pub already_charged : UsageTally → Option String → Bool × UsageTally
already_charged tally none = (false, tally)
already_charged tally (some key) =
    if contains tally.charged key
    then (true, tally)
    else (false, record tally { charged = key ∷ tally.charged })

unfoldable pub branch_key : Fields → String
branch_key entry = str_or_empty (get "gitBranch" entry)

unfoldable pub cwd_key : Fields → String
cwd_key entry = str_or_empty (get "cwd" entry)

-- The usage of one entry, as what it adds to a bucket.
unfoldable pub entry_usage : Fields → Result BranchUsage
entry_usage usage = do
  read ← as_usage_int (get "cache_read_input_tokens" usage)
  creation ← as_usage_int (get "cache_creation_input_tokens" usage)
  input ← as_usage_int (get "input_tokens" usage)
  output ← as_usage_int (get "output_tokens" usage)
  ok (record { read = read; creation = creation; input = input; output = output; messages = pos 1 })

-- `_usage_buckets` and the loop over them: the branch bucket, and for a detached entry its `cwd`
-- bucket too.
unfoldable pub fold_buckets : UsageTally → Fields → BranchUsage → UsageTally
fold_buckets tally entry u = record tally {
  by_branch = update (branch_key entry) no_usage (λ b. plus b u) tally.by_branch;
  detached_by_cwd =
      if branch_key entry == detached_branch
      then update (cwd_key entry) no_usage (λ b. plus b u) tally.detached_by_cwd
      else tally.detached_by_cwd;
}

-- `_account_usage` from the test on `charged` on.
unfoldable pub charge : UsageTally → Fields → BranchUsage → UsageTally
unfolding fold_buckets
charge tally entry u =
    fold_buckets
      (record tally {
        cache_read = tally.cache_read +ℤ u.read;
        cache_creation = tally.cache_creation +ℤ u.creation;
        input_tokens = tally.input_tokens +ℤ u.input;
        output_tokens = tally.output_tokens +ℤ u.output;
        usage_messages = tally.usage_messages +ℤ pos 1;
      })
      entry u

abbrev charge_unless : Bool × UsageTally → Fields → Fields → Result UsageTally
charge_unless (true, tally) entry usage = ok tally
charge_unless (false, tally) entry usage = do u ← entry_usage usage; ok (charge tally entry u)

abbrev account_dict : UsageTally → Fields → Fields → Json → Result UsageTally
account_dict tally entry message (obj usage) =
    charge_unless (already_charged tally (billing_key entry message)) entry usage
account_dict tally entry message _ = ok tally

unfoldable pub account_usage : UsageTally → Fields → Json → Result UsageTally
account_usage tally entry (obj message) = account_dict tally entry message (get "usage" message)
account_usage tally entry _ = ok tally

-- The accounting of a whole transcript, which `ClaudeParser.parse` does entry by entry.
unfoldable pub account_all : UsageTally → List Fields → Result UsageTally
account_all tally [] = ok tally
account_all tally (entry ∷ entries) = do
  tally' ← account_usage tally entry (get "message" entry)
  account_all tally' entries
