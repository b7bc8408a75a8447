-- ===== src/Parsers/Claude/Accounts.antt =====
-- The tally that a claude parse carries, and the session totals of its result.
use mathlib.Core.Path.{subst}
use tool_benchmarks.Base.{ℕ, zero, suc, ◌≡◌, refl, sym, ◌∙◌, ap, String, true, Option}
use tool_benchmarks.Base.{List, [], ◌∷◌, string_eq, Bool-cases, inl, inr}
use tool_benchmarks.Base.Dict.{or_start, lookup}
use tool_benchmarks.Base.Int.{ℤ, pos, negsuc}
use tool_benchmarks.Json.{Fields, get}
use tool_benchmarks.Outcome.{ok_inj, ok, >>=-eq-ok, map_ok}
use tool_benchmarks.Transcript.{BranchUsage, no_usage, detached_branch, ParseResult}
use tool_benchmarks.Transcript.Totals.{total}
use tool_benchmarks.Parsers.Pending.{Origin}
use tool_benchmarks.Parsers.Turns.{track_turn}
use tool_benchmarks.Parsers.Usage.{no_tally, account_usage, account_all}
use tool_benchmarks.Parsers.Usage.Partition.{session_total, bucket_of, IsPartition}
use tool_benchmarks.Parsers.Usage.Charges.{
  copies_of, first_copies, summed, added-no_usage, session_total-account_all,
}
use tool_benchmarks.Parsers.Claude.{
  Variant, Flags, message_get, ParseState, open_and_join, is_unmeasured, parse_entry, parse_entries,
  parse_result,
}

-- The session totals of a result as one bucket; what was not measured reads as 0.
abbrev pub session_bucket : ParseResult → BranchUsage
session_bucket r = record {
  read = or_start (pos 0) r.session_cache_read_tokens;
  creation = or_start (pos 0) r.session_cache_creation_tokens;
  input = r.session_input_tokens;
  output = r.session_output_tokens;
  messages = r.session_usage_messages;
}

pub result_inj : {s t : ParseResult} → ok s ≡ ok t → s ≡ t
result_inj h = cc

module _ (v : Variant) (flags : Flags) (o : Origin) where
  pub tally-open_and_join :
      (entry : Fields) (turn : Option String) (st : ParseState)
      → (open_and_join v flags o entry turn st).tally ≡ st.tally
  unfolding open_and_join
  tally-open_and_join entry turn st = refl

  pub parse_entry-tally :
      (st : ParseState) (entry : Fields) (st' : ParseState)
      → parse_entry v flags o st entry ≡ ok st'
      → account_usage st.tally entry (get "message" entry) ≡ ok st'.tally
  unfolding parse_entry open_and_join
  parse_entry-tally st entry st' e =
      let (t, et, e') = >>=-eq-ok (account_usage st.tally entry (get "message" entry)) _ e in
      let (tracked, _, e'') =
        >>=-eq-ok
          (track_turn flags.track_turns st.turns entry (get "message" entry)
            (message_get "content" (get "message" entry)))
          _ e' in
      subst (λ (s : ParseState). account_usage st.tally entry (get "message" entry) ≡ ok s.tally)
        (ok_inj e'') et

  pub parse_entries-tally :
      (st : ParseState) (entries : List Fields) (st' : ParseState)
      → parse_entries v flags o st entries ≡ ok st'
      → account_all st.tally entries ≡ ok st'.tally
  unfolding parse_entries account_all
  parse_entries-tally st [] st' e = ap (λ (s : ParseState). ok s.tally) (ok_inj e)
  parse_entries-tally st (entry ∷ entries) st' e =
      let (s, es, e') = >>=-eq-ok (parse_entry v flags o st entry) _ e in
      rw (parse_entry-tally st entry s es) (parse_entries-tally s entries st' e')

pub unmeasured_zero : (n : ℤ) → is_unmeasured n ≡ true → n ≡ pos 0
unmeasured_zero (pos zero) h = refl
unmeasured_zero (pos (suc n)) h = cc
unmeasured_zero (negsuc n) h = cc

-- The session totals of the result are the usage of each response once.
pub session_bucket-parse_result :
    (v : Variant) (flags : Flags) (o : Origin) (malformed : ℕ) (st : ParseState)
    → (st.tally.usage_messages ≡ pos 0 → session_total st.tally ≡ no_usage)
    → session_bucket (parse_result v flags o malformed st) ≡ session_total st.tally
unfolding parse_result
session_bucket-parse_result v flags o malformed st unused =
    elim (Bool-cases (is_unmeasured st.tally.usage_messages)) [
      | inl nothing ↦ rw nothing (sym (unused (unmeasured_zero _ nothing)))
      | inr measured ↦ rw measured
    ]

abbrev pub Partitioned : ParseResult → Type 0
Partitioned r =
    (total r.usage_by_branch ≡ session_bucket r)
    × (total r.detached_usage_by_cwd ≡ bucket_of detached_branch r.usage_by_branch)

pub parse_result-Partitioned :
    (v : Variant) (flags : Flags) (o : Origin) (malformed : ℕ) (st : ParseState)
    → IsPartition st.tally
    → Partitioned (parse_result v flags o malformed st)
unfolding parse_result lookup
parse_result-Partitioned v flags o malformed st h =
    elim (Bool-cases (is_unmeasured st.tally.usage_messages)) [
      | inl nothing ↦ rw nothing (refl, refl)
      | inr measured ↦ rw measured (h.branches, h.detached)
    ]

pub tally_sum :
    (st : ParseState) (entries : List Fields)
    → account_all no_tally entries ≡ ok st.tally
    → summed (first_copies [] (copies_of entries)) ≡ ok (session_total st.tally)
tally_sum st entries e =
    sym (added-no_usage _)
    ∙ sym (session_total-account_all no_tally entries)
    ∙ ap (map_ok session_total) e
