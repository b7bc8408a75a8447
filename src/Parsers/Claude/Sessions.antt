-- ===== src/Parsers/Claude/Sessions.antt =====
-- The session totals and buckets that a parse returns.
use mathlib.Core.Path.{subst}
use tool_benchmarks.Base.{◌≡◌, sym, ◌∙◌, ap, String}
use tool_benchmarks.Base.{List, [], string_eq}
use tool_benchmarks.Outcome.{ok, >>=-eq-ok}
use tool_benchmarks.Transcript.{detached_branch, ParseResult}
use tool_benchmarks.Transcript.Totals.{total}
use tool_benchmarks.Transcript.Lines.{Decoder, json_lines}
use tool_benchmarks.Parsers.Pending.{Origin}
use tool_benchmarks.Parsers.Usage.{no_tally}
use tool_benchmarks.Parsers.Usage.Partition.{
  bucket_of, account_all-IsPartition, no_tally-IsPartition,
}
use tool_benchmarks.Parsers.Usage.Charges.{copies_of, first_copies, summed, summed_none}
use tool_benchmarks.Parsers.Claude.{Variant, Flags, start, parse_entries, parse}
use tool_benchmarks.Parsers.Claude.Accounts.{
  session_bucket, result_inj, parse_entries-tally, session_bucket-parse_result, Partitioned,
  parse_result-Partitioned, tally_sum,
}

module _ (v : Variant) (flags : Flags) (o : Origin) (loads : Decoder) (lines : List String) where
  -- If the parse returns, its session totals are the sum of the usage of the first copy of every
  -- response, and of every copy without a key.
  pub parse-session_bucket :
      (r : ParseResult)
      → parse v flags o loads lines ≡ ok r
      → summed (first_copies [] (copies_of (json_lines loads lines).entries))
        ≡ ok (session_bucket r)
  unfolding parse
  parse-session_bucket r e =
      let entries = (json_lines loads lines).entries in
      let (st, es, er) = >>=-eq-ok (parse_entries v flags o start entries) _ e in
      let sum = tally_sum st entries (parse_entries-tally v flags o start entries st es) in
      subst
        (λ (s : ParseResult). summed (first_copies [] (copies_of entries)) ≡ ok (session_bucket s))
        (result_inj er)
        (sum
          ∙ ap ok (
              sym (
                session_bucket-parse_result v flags o (json_lines loads lines).malformed st
                  (summed_none _ _ sum))))

  -- If the parse returns, the branch buckets add up to the session totals, and the `cwd` buckets to the
  -- bucket of the detached branch.
  pub parse-partition :
      (r : ParseResult)
      → parse v flags o loads lines ≡ ok r
      → (total r.usage_by_branch ≡ session_bucket r)
        × (total r.detached_usage_by_cwd ≡ bucket_of detached_branch r.usage_by_branch)
  unfolding parse
  parse-partition r e =
      let entries = (json_lines loads lines).entries in
      let (st, es, er) = >>=-eq-ok (parse_entries v flags o start entries) _ e in
      let tallied = parse_entries-tally v flags o start entries st es in
      subst Partitioned (result_inj er) (
        parse_result-Partitioned v flags o (json_lines loads lines).malformed st
          (account_all-IsPartition no_tally entries st.tally tallied no_tally-IsPartition))
