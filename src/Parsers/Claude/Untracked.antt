-- ===== src/Parsers/Claude/Untracked.antt =====
-- A claude parse without turn tracking: when it returns, and what it raises.
use tool_benchmarks.Base.{ℕ, ◌≡◌, refl, sym, ◌∙◌, ap, String, Bool, false, Option}
use tool_benchmarks.Base.{none, List, [], ◌∷◌, arith, string_eq}
use tool_benchmarks.Json.{Json, Fields, get}
use tool_benchmarks.Outcome.{Result, ok, err, ◌>>=◌, map_ok}
use tool_benchmarks.Transcript.Lines.{Decoder, json_lines}
use tool_benchmarks.Parsers.Pending.{Origin}
use tool_benchmarks.Parsers.Turns.{Turns, track_turn}
use tool_benchmarks.Parsers.Usage.{UsageTally, no_tally, account_usage, account_all}
use tool_benchmarks.Parsers.Usage.Partition.{session_total}
use tool_benchmarks.Parsers.Usage.Charges.{
  copies_of, first_copies, summed, added-no_usage, session_total-account_all, summed_none,
}
use tool_benchmarks.Parsers.Claude.{
  Variant, Flags, message_get, ParseState, start, open_and_join, parse_entry, parse_entries,
  parse_result, parse,
}
use tool_benchmarks.Parsers.Claude.Accounts.{session_bucket, session_bucket-parse_result, tally_sum}

track_turn_off :
    (b : Bool) (turns : Turns) (entry : Fields) (message content : Json)
    → b ≡ false
    → track_turn b turns entry message content ≡ ok (none, turns)
unfolding track_turn
track_turn_off b turns entry message content off = ground arith

parse_entry-account :
    (v : Variant) (flags : Flags) (o : Origin) (st : ParseState) (entry : Fields)
    → flags.track_turns ≡ false
    → map_ok (λ (s : ParseState). s.tally) (parse_entry v flags o st entry)
      ≡ account_usage st.tally entry (get "message" entry)
unfolding parse_entry open_and_join
parse_entry-account v flags o st entry off =
    accounted (account_usage st.tally entry (get "message" entry))
  where
    tracked_kept :
        (tally : UsageTally) (r : Result (Option String × Turns))
        → r ≡ ok (none, st.turns)
        → map_ok
            (λ (s : ParseState). s.tally)
            (do
              tracked ← r
              ok (
                  open_and_join v flags o entry tracked.0
                    (record st { tally = tally; turns = tracked.1 })))
          ≡ ok tally
    tracked_kept tally (ok tracked) e = refl
    tracked_kept tally (err x) e = cc

    accounted :
        (r : Result UsageTally)
        → map_ok
            (λ (s : ParseState). s.tally)
            (do
              tally ← r
              tracked ←
                  track_turn flags.track_turns st.turns entry
                    (get "message" entry)
                    (message_get "content" (get "message" entry))
              ok (
                  open_and_join v flags o entry tracked.0
                    (record st { tally = tally; turns = tracked.1 })))
          ≡ r
    accounted (ok tally) =
        tracked_kept tally
          (track_turn flags.track_turns st.turns entry (get "message" entry)
            (message_get "content" (get "message" entry)))
          (track_turn_off flags.track_turns st.turns entry _ _ off)
    accounted (err x) = refl

parse_entries-account :
    (v : Variant) (flags : Flags) (o : Origin) (st : ParseState) (entries : List Fields)
    → flags.track_turns ≡ false
    → map_ok (λ (s : ParseState). s.tally) (parse_entries v flags o st entries)
      ≡ account_all st.tally entries
unfolding parse_entries account_all
parse_entries-account v flags o st [] off = refl
parse_entries-account v flags o st (entry ∷ entries) off =
    rest (parse_entry v flags o st entry) (parse_entry-account v flags o st entry off)
      (λ s. parse_entries-account v flags o s entries off)
  where
    rest :
        (r : Result ParseState)
        → map_ok (λ (s : ParseState). s.tally) r
          ≡ account_usage st.tally entry (get "message" entry)
        → ((s : ParseState)
            → map_ok (λ (s : ParseState). s.tally) (parse_entries v flags o s entries)
              ≡ account_all s.tally entries)
        → map_ok (λ (s : ParseState). s.tally) (do s ← r; parse_entries v flags o s entries)
          ≡ (do t ← account_usage st.tally entry (get "message" entry); account_all t entries)
    rest (ok s) e ih = rw (← e) (ih s)
    rest (err x) e ih = rw (← e)

-- Without turn tracking, the parse returns exactly when the usage of the first copy of every response
-- can be read as integers, with the sum of those for session totals, and raises the error of the
-- first copy that cannot otherwise. Nothing else in a transcript makes it raise.
pub session_bucket-parse :
    (v : Variant) (flags : Flags) (o : Origin) (loads : Decoder) (lines : List String)
    → flags.track_turns ≡ false
    → map_ok session_bucket (parse v flags o loads lines)
      ≡ summed (first_copies [] (copies_of (json_lines loads lines).entries))
unfolding parse
session_bucket-parse v flags o loads lines off =
    summed_up (parse_entries v flags o start entries)
      (parse_entries-account v flags o start entries off)
  where
    entries : List Fields
    entries = (json_lines loads lines).entries

    malformed : ℕ
    malformed = (json_lines loads lines).malformed

    summed_up :
        (r : Result ParseState)
        → map_ok (λ (s : ParseState). s.tally) r ≡ account_all no_tally entries
        → map_ok session_bucket (do st ← r; ok (parse_result v flags o malformed st))
          ≡ summed (first_copies [] (copies_of entries))
    summed_up (ok st) e =
        let sum = tally_sum st entries (sym e) in
        ap ok (session_bucket-parse_result v flags o malformed st (summed_none _ _ sum)) ∙ sym sum
    summed_up (err x) e =
        ap (map_ok session_total) e ∙ session_total-account_all no_tally entries ∙ added-no_usage _
