-- ===== src/Parsers/Usage/Partition.antt =====
-- The buckets of a tally partition its totals, and the `cwd` buckets partition the detached bucket.
use mathlib.Core.Path.{subst}
use tool_benchmarks.Base.{
  ◌≡◌, refl, ◌∙◌, ap, String, Bool, true, false, Option, none, some, [], ◌∷◌,
}
use tool_benchmarks.Base.{arith, string_eq, ◌==◌, if◌then◌else◌, Bool-cases, inl, inr, List}
use tool_benchmarks.Base.{contains}
use tool_benchmarks.Base.Dict.{Dict, update, lookup, lookup-update, or_start}
use tool_benchmarks.Base.Int.{pos, ◌+ℤ◌}
use tool_benchmarks.Json.{Json, obj, Fields, get}
use tool_benchmarks.Outcome.{ok, >>=-eq-ok}
use tool_benchmarks.Transcript.{BranchUsage, no_usage, detached_branch}
use tool_benchmarks.Transcript.Totals.{plus, total, total-update}
use tool_benchmarks.Parsers.Usage.{
  UsageTally, no_tally, billing_key, already_charged, branch_key, cwd_key, entry_usage, charge,
  account_usage, account_all, charge_unless, account_dict,
}

-- The session totals, as one bucket.
abbrev pub session_total : UsageTally → BranchUsage
session_total t = record {
  read = t.cache_read;
  creation = t.cache_creation;
  input = t.input_tokens;
  output = t.output_tokens;
  messages = t.usage_messages;
}

abbrev pub bucket_of : String → Dict String BranchUsage → BranchUsage
bucket_of k d = or_start no_usage (lookup k d)

pub record IsPartition (t : UsageTally) : Type 0 where
  pub branches : total t.by_branch ≡ session_total t
  pub detached : total t.detached_by_cwd ≡ bucket_of detached_branch t.by_branch

bucket_of-update :
    (j k : String) (u : BranchUsage) (d : Dict String BranchUsage)
    → bucket_of j (update k no_usage (λ b. plus b u) d)
      ≡ (if j == k then plus (bucket_of j d) u else bucket_of j d)
bucket_of-update j k u d = rw lookup-update (ground arith)

subst_ok : {s t : UsageTally} → ok s ≡ ok t → IsPartition s → IsPartition t
subst_ok {s} {t} e h = subst IsPartition (cc) h

charge-IsPartition :
    (t : UsageTally) (entry : Fields) (u : BranchUsage)
    → u.messages ≡ pos 1
    → IsPartition t
    → IsPartition (charge t entry u)
unfolding charge plus
charge-IsPartition t entry u one h = record {
  branches =
      total-update (branch_key entry) u t.by_branch
      ∙ ap (λ b. plus b u) h.branches
      ∙ (λ i. record (session_total (charge t entry u)) { messages = t.usage_messages +ℤ one i });
  detached = ground (
    arith,
    h.detached,
    total-update (cwd_key entry) u t.detached_by_cwd,
    bucket_of-update detached_branch (branch_key entry) u t.by_branch,
  );
}

pub entry_usage-messages :
    (usage : Fields) (u : BranchUsage) → entry_usage usage ≡ ok u → u.messages ≡ pos 1
unfolding entry_usage
entry_usage-messages usage u h = ground arith

already_charged-IsPartition :
    (t : UsageTally) (key : Option String) → IsPartition t → IsPartition (already_charged t key).1
unfolding already_charged
already_charged-IsPartition t none h = h
already_charged-IsPartition t (some key) h = elim (Bool-cases (contains t.charged key)) [
  | inl seen ↦ rw seen h
  | inr new ↦ rw new (record { branches = h.branches; detached = h.detached })
]

charge_unless-IsPartition :
    (p : Bool × UsageTally) (entry usage : Fields) (t : UsageTally)
    → charge_unless p entry usage ≡ ok t
    → IsPartition p.1
    → IsPartition t
charge_unless-IsPartition (true, s) entry usage t e h = subst_ok e h
charge_unless-IsPartition (false, s) entry usage t e h =
    let (u, eu, et) = >>=-eq-ok (entry_usage usage) _ e in
    subst_ok et (charge-IsPartition s entry u (entry_usage-messages usage u eu) h)

account_dict-IsPartition :
    (t : UsageTally) (entry message : Fields) (usage : Json) (t' : UsageTally)
    → account_dict t entry message usage ≡ ok t'
    → IsPartition t
    → IsPartition t'
account_dict-IsPartition t entry message (obj usage) t' e h =
    charge_unless-IsPartition (already_charged t (billing_key entry message)) entry usage t' e
      (already_charged-IsPartition t (billing_key entry message) h)
account_dict-IsPartition t entry message _ t' e h = subst_ok e h

-- One entry keeps the partition, if its usage can be read at all.
account_usage-IsPartition :
    (t : UsageTally) (entry : Fields) (message : Json) (t' : UsageTally)
    → account_usage t entry message ≡ ok t'
    → IsPartition t
    → IsPartition t'
unfolding account_usage
account_usage-IsPartition t entry (obj message) t' e h =
    account_dict-IsPartition t entry message (get "usage" message) t' e h
account_usage-IsPartition t entry _ t' e h = subst_ok e h

pub account_all-IsPartition :
    (t : UsageTally) (entries : List Fields) (t' : UsageTally)
    → account_all t entries ≡ ok t'
    → IsPartition t
    → IsPartition t'
unfolding account_all
account_all-IsPartition t [] t' e h = subst_ok e h
account_all-IsPartition t (entry ∷ entries) t' e h =
    let (s, es, et) = >>=-eq-ok (account_usage t entry (get "message" entry)) _ e in
    account_all-IsPartition s entries t' et
      (account_usage-IsPartition t entry (get "message" entry) s es h)

pub no_tally-IsPartition : IsPartition no_tally
unfolding lookup
no_tally-IsPartition = record { branches = refl; detached = refl }
