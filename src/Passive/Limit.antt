-- ===== src/Passive/Limit.antt =====
-- What src/toolbench/passive.py collects under `--limit`, and what its probe beyond the limit answers.
use tool_benchmarks.Base.{
  ℕ, zero, suc, ◌+◌, ◌<◌, ◌≡◌, refl, Bool, true, false, not, ◌&&◌, ◌||◌, Option, none, some,
}
use tool_benchmarks.Base.{List, [], ◌∷◌, arith, leb, length, take, drop, if◌then◌else◌}
use tool_benchmarks.Base.{Bool-cases, inl, inr}
use tool_benchmarks.Base.Sorting.{any}
use tool_benchmarks.Sources.{
  Attempt, returns, raises, running, ◌>>=◌, Fault, is_runtime_error, is_os_error, is_value_error,
  Stream, ends, fails, SessionRef,
}
use tool_benchmarks.Sources.Discovery.{append_stream}
use tool_benchmarks.Base.Int.{ℤ, pos, negsuc}
use tool_benchmarks.Passive.Collect.{
  limit_reached, Truncated, probe_truncation, put_first, collect_from, collect_refs,
}

-- How many references a limit leaves room for: it is noticed after the first.
abbrev pub at_least_one : ℤ → ℕ
at_least_one (pos zero) = 1
at_least_one (pos (suc n)) = suc n
at_least_one (negsuc n) = 1

pub at_least_one_pos : (limit : ℤ) → 0 < at_least_one limit
at_least_one_pos (pos zero) = omega arith
at_least_one_pos (pos (suc n)) = omega arith
at_least_one_pos (negsuc n) = omega arith

pub reached-at_least_one :
    (limit : ℤ) (taken : ℕ)
    → limit_reached (some limit) (suc taken) ≡ leb (at_least_one limit) (suc taken)
reached-at_least_one (pos zero) taken = ground arith
reached-at_least_one (pos (suc n)) taken = ground arith
reached-at_least_one (negsuc n) taken = ground arith

-- A listing: its references, and the exception that it ends by, if it does not end of itself.
abbrev ending : Option Fault → Stream SessionRef
ending none = ends
ending (some e) = fails e

abbrev pub listing_of : List SessionRef → Option Fault → Stream SessionRef
listing_of refs broken = append_stream refs (ending broken)

-- A reference that the report counts
abbrev pub is_reported : Bool → SessionRef → Bool
is_reported exclude_subagents ref = not (exclude_subagents && ref.is_subagent)

-- A failure of the source itself
abbrev pub is_source_fault : Fault → Bool
is_source_fault e = is_os_error e.class || (is_runtime_error e.class || is_value_error e.class)

abbrev pub unanswered : Option Fault → Attempt Truncated
unanswered none = returns (some false)
unanswered (some e) = if is_source_fault e then returns none else raises e

-- Whether a reference that counts is among `beyond`: it is, it is not, or the listing broke first.
abbrev pub answer : Bool → List SessionRef → Option Fault → Attempt Truncated
answer exclude_subagents beyond broken =
    if any (is_reported exclude_subagents) beyond then returns (some true) else unanswered broken

abbrev pub whole : List SessionRef → Option Fault → Attempt (List SessionRef × Truncated)
whole refs none = returns (refs, some false)
whole refs (some e) = raises e

-- A complete sample of `room` references, or all that there is
abbrev pub sampled :
    ℕ → Bool → List SessionRef → Option Fault → Attempt (List SessionRef × Truncated)
sampled room exclude_subagents refs broken =
    if leb room (length refs)
    then (answer exclude_subagents (drop room refs) broken >>= λ truncated.
        returns (take room refs, truncated))
    else whole refs broken

module _ (exclude_subagents : Bool) (broken : Option Fault) where
  probe_truncation_lem :
      (refs : List SessionRef)
      → probe_truncation exclude_subagents (listing_of refs broken)
        ≡ answer exclude_subagents refs broken
  unfolding probe_truncation
  probe_truncation_lem [] = ended broken
    where
      ended : (b : Option Fault) → probe_truncation exclude_subagents (ending b) ≡ unanswered b
      ended none = refl
      ended (some e) = refl
  probe_truncation_lem (ref ∷ refs) = elim (Bool-cases (exclude_subagents && ref.is_subagent)) [
    | inl hidden ↦ rw hidden (probe_truncation_lem refs)
    | inr counted ↦ rw counted
  ]

  put_first-whole :
      (ref : SessionRef) (refs : List SessionRef) (b : Option Fault)
      → (whole refs b >>= λ found. returns (put_first ref found)) ≡ whole (ref ∷ refs) b
  put_first-whole ref refs none = refl
  put_first-whole ref refs (some e) = refl

  put_first-answer :
      (ref : SessionRef) (refs : List SessionRef) (m : Attempt Truncated)
      → ((m >>= λ truncated. returns (refs, truncated)) >>= λ found. returns (put_first ref found))
        ≡ (m >>= λ truncated. returns (ref ∷ refs, truncated))
  put_first-answer ref refs (returns a) = refl
  put_first-answer ref refs (raises e) = refl
  put_first-answer ref refs running = refl

  put_first-sampled :
      (n : ℕ) (ref : SessionRef) (refs : List SessionRef)
      → (sampled n exclude_subagents refs broken >>= λ found. returns (put_first ref found))
        ≡ sampled (suc n) exclude_subagents (ref ∷ refs) broken
  put_first-sampled n ref refs = elim (Bool-cases (leb n (length refs))) [
    | inl enough ↦
        rw (enough, up enough)
          (put_first-answer ref (take n refs) (answer exclude_subagents (drop n refs) broken))
    | inr short ↦ rw (short, down short) (put_first-whole ref refs broken)
  ]
    where
      up : leb n (length refs) ≡ true → leb (suc n) (suc (length refs)) ≡ true
      up h = ground arith

      down : leb n (length refs) ≡ false → leb (suc n) (suc (length refs)) ≡ false
      down h = ground arith

  collect_from-sampled :
      (limit : ℤ) (taken n : ℕ) (refs : List SessionRef)
      → at_least_one limit ≡ taken + suc n
      → collect_from (some limit) exclude_subagents taken (listing_of refs broken)
        ≡ sampled (suc n) exclude_subagents refs broken
  unfolding collect_from
  collect_from-sampled limit taken n [] e = rw none_left (short broken)
    where
      none_left : leb (suc n) 0 ≡ false
      none_left = ground arith

      short :
          (b : Option Fault)
          → collect_from (some limit) exclude_subagents taken (ending b) ≡ whole [] b
      short none = refl
      short (some x) = refl
  collect_from-sampled limit taken zero (ref ∷ refs) e =
      rw (reached, probe_truncation_lem refs) (rw one_there)
    where
      one_there : leb 1 (suc (length refs)) ≡ true
      one_there = ground arith

      reached : limit_reached (some limit) (suc taken) ≡ true
      reached = ground (arith, reached-at_least_one limit taken)
  collect_from-sampled limit taken (suc n) (ref ∷ refs) e =
      let rest = collect_from-sampled limit (suc taken) n refs (omega arith) in
      rw (below, rest) (put_first-sampled (suc n) ref refs)
    where
      below : limit_reached (some limit) (suc taken) ≡ false
      below = ground (arith, reached-at_least_one limit taken)

  -- Let a listing give some references and then end or raise. Under a limit n, and one below 1 counts
  -- as 1: if there are n references or more, the first n are returned. The limit is then reported to
  -- have cut the listing short if a reference that the report counts lies beyond, and not to have if
  -- none does and the listing ends. If none does and the listing raises, the report is that this is
  -- not known, if the exception is an `OSError`, a `RuntimeError` or a `ValueError`; any other
  -- exception goes on, and nothing is returned. A listing of fewer than n gives all of its references,
  -- or its exception if it raises.
  pub collect_refs-sampled :
      (limit : ℤ) (refs : List SessionRef)
      → collect_refs (some limit) exclude_subagents (listing_of refs broken)
        ≡ sampled (at_least_one limit) exclude_subagents refs broken
  unfolding collect_refs
  collect_refs-sampled limit refs = at_room (at_least_one limit) refl (at_least_one_pos limit)
    where
      at_room :
          (room : ℕ)
          → at_least_one limit ≡ room
          → 0 < room
          → collect_from (some limit) exclude_subagents 0 (listing_of refs broken)
            ≡ sampled room exclude_subagents refs broken
      at_room zero e h = absurd (omega arith)
      at_room (suc n) e h = collect_from-sampled limit 0 n refs (omega arith)
