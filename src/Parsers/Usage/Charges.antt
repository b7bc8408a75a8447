-- ===== src/Parsers/Usage/Charges.antt =====
-- What the accounting charges, against a description that keeps no state: of the responses in the
-- transcript, the first copy of each.
use tool_benchmarks.Base.{ℕ, ◌+◌, ◌≤◌, ◌≡◌, refl, sym, ◌∙◌, ap, String, true}
use tool_benchmarks.Base.{
  length, Option, none, some, List, [], ◌∷◌, arith, string_eq, ◌==◌, contains,
}
use tool_benchmarks.Base.{if◌then◌else◌, Bool-cases, inl, inr}
use tool_benchmarks.Base.Int.{pos, ◌+ℤ◌}
use tool_benchmarks.Json.{Json, obj, Fields, get}
use tool_benchmarks.Outcome.{ok_inj, Result, ok, err, ◌>>=◌, >>=-eq-ok, map_ok}
use tool_benchmarks.Transcript.{BranchUsage, no_usage}
use tool_benchmarks.Transcript.Totals.{plus, plus_comm, plus_assoc, plus-no_usage}
use tool_benchmarks.Parsers.Usage.{
  UsageTally, billing_key, already_charged, entry_usage, charge, account_usage, account_all,
  charge_unless, account_dict,
}
use tool_benchmarks.Parsers.Usage.Partition.{session_total, entry_usage-messages}

-- One copy of a response's usage: the key that names the response, if any, and the usage.
pub data Copy : Type 0 where
  copy : Option String → Fields → Copy

abbrev add_copy : Fields → Fields → Json → List Copy → List Copy
add_copy entry message (obj usage) copies = copy (billing_key entry message) usage ∷ copies
add_copy entry message _ copies = copies

abbrev add_copies : Fields → Json → List Copy → List Copy
add_copies entry (obj message) copies = add_copy entry message (get "usage" message) copies
add_copies entry _ copies = copies

-- Every copy of a usage dict that the transcript holds.
unfoldable pub copies_of : List Fields → List Copy
copies_of [] = []
copies_of (entry ∷ entries) = add_copies entry (get "message" entry) (copies_of entries)

-- Of the copies of one response, the first; none of a response that was seen before.
unfoldable pub first_copies : List String → List Copy → List Copy
first_copies seen [] = []
first_copies seen (copy none usage ∷ copies) = copy none usage ∷ first_copies seen copies
first_copies seen (copy (some k) usage ∷ copies) =
    let old = first_copies seen copies in
    let new = copy (some k) usage ∷ first_copies (k ∷ seen) copies in
    if contains seen k then old else new

unfoldable pub summed : List Copy → Result BranchUsage
summed [] = ok no_usage
summed (copy key usage ∷ copies) = do u ← entry_usage usage; rest ← summed copies; ok (plus u rest)

abbrev pub added : BranchUsage → Result BranchUsage → Result BranchUsage
added start r = map_ok (plus start) r

session_total-charge :
    (t : UsageTally) (entry : Fields) (u : BranchUsage)
    → u.messages ≡ pos 1
    → session_total (charge t entry u) ≡ plus (session_total t) u
unfolding charge plus
session_total-charge t entry u one =
    λ i. record (session_total (charge t entry u)) { messages = t.usage_messages +ℤ sym one i }

added-plus :
    (a u : BranchUsage) (r : Result BranchUsage)
    → added (plus a u) r ≡ added a (do rest ← r; ok (plus u rest))
added-plus a u (ok rest) = ap ok (plus_assoc a u rest)
added-plus a u (err e) = refl

module _ (entry : Fields) (entries : List Fields) where
  abbrev Sums : UsageTally → Type 0
  Sums t =
      map_ok session_total (account_all t entries)
      ≡ added (session_total t) (summed (first_copies t.charged (copies_of entries)))

  charged_sum :
      (t : UsageTally) (r : Result BranchUsage)
      → ((u : BranchUsage) → r ≡ ok u → u.messages ≡ pos 1)
      → ((s : UsageTally) → Sums s)
      → map_ok session_total ((do u ← r; ok (charge t entry u)) >>= λ s. account_all s entries)
        ≡ added
            (session_total t)
            (do u ← r; rest ← summed (first_copies t.charged (copies_of entries)); ok (plus u rest))
  unfolding charge
  charged_sum t (ok u) one ih =
      ih (charge t entry u)
      ∙ rw (session_total-charge t entry u (one u refl))
          (added-plus (session_total t) u (summed (first_copies t.charged (copies_of entries))))
  charged_sum t (err e) one ih = refl

  dict_sum :
      (t : UsageTally) (message : Fields) (usage : Json)
      → ((s : UsageTally) → Sums s)
      → map_ok session_total (account_dict t entry message usage >>= λ s. account_all s entries)
        ≡ added
            (session_total t)
            (summed (first_copies t.charged (add_copy entry message usage (copies_of entries))))
  unfolding already_charged first_copies summed
  dict_sum t message (obj usage) ih = keyed (billing_key entry message)
    where
      keyed :
          (key : Option String)
          → map_ok session_total
              (charge_unless (already_charged t key) entry usage >>= λ s. account_all s entries)
            ≡ added
                (session_total t)
                (summed (first_copies t.charged (copy key usage ∷ copies_of entries)))
      keyed none = charged_sum t (entry_usage usage) (entry_usage-messages usage) ih
      keyed (some k) = elim (Bool-cases (contains t.charged k)) [
        | inl old ↦ rw old (ih t)
        | inr new ↦ rw new (
            charged_sum (record t { charged = k ∷ t.charged }) (entry_usage usage)
              (entry_usage-messages usage) ih)
      ]
  dict_sum t message _ ih = ih t

  entry_sum :
      (t : UsageTally) (message : Json)
      → ((s : UsageTally) → Sums s)
      → map_ok session_total (account_usage t entry message >>= λ s. account_all s entries)
        ≡ added
            (session_total t)
            (summed (first_copies t.charged (add_copies entry message (copies_of entries))))
  unfolding account_usage
  entry_sum t (obj message) ih = dict_sum t message (get "usage" message) ih
  entry_sum t _ ih = ih t

-- The session totals are those at the start plus the usage of each response once, by its first copy;
-- an error is that of the first copy that has one.
pub session_total-account_all :
    (t : UsageTally) (entries : List Fields)
    → map_ok session_total (account_all t entries)
      ≡ added (session_total t) (summed (first_copies t.charged (copies_of entries)))
unfolding account_all copies_of first_copies summed
session_total-account_all t [] = ap ok (sym (plus-no_usage (session_total t)))
session_total-account_all t (entry ∷ entries) =
    entry_sum entry entries t (get "message" entry) (λ s. session_total-account_all s entries)

summed-messages :
    (copies : List Copy) (u : BranchUsage) → summed copies ≡ ok u → u.messages ≡ pos (length copies)
unfolding summed plus ◌+ℤ◌
summed-messages [] u h = ap (λ (b : BranchUsage). b.messages) (ok_inj (sym h))
summed-messages (copy key usage ∷ copies) u h =
    let (v, ev, h') = >>=-eq-ok (entry_usage usage) _ h in
    let (rest, er, e) = >>=-eq-ok (summed copies) _ h' in
    let n = summed-messages copies rest er in
    let one = entry_usage-messages usage v ev in ground arith

-- A sum of no messages is a sum over no copies.
pub summed_none :
    (copies : List Copy) (u : BranchUsage)
    → summed copies ≡ ok u
    → u.messages ≡ pos 0
    → u ≡ no_usage
unfolding summed
summed_none [] u h z = ok_inj (sym h)
summed_none (c ∷ copies) u h z = absurd (ground (arith, summed-messages (c ∷ copies) u h))

abbrev pub copies_with : String → List Copy → ℕ
copies_with k [] = 0
copies_with k (copy none usage ∷ copies) = copies_with k copies
copies_with k (copy (some j) usage ∷ copies) = (if k == j then 1 else 0) + copies_with k copies

seen_not_kept :
    (seen : List String) (k : String) (copies : List Copy)
    → contains seen k ≡ true
    → copies_with k (first_copies seen copies) ≡ 0
unfolding first_copies
seen_not_kept seen k [] h = refl
seen_not_kept seen k (copy none usage ∷ copies) h = seen_not_kept seen k copies h
seen_not_kept seen k (copy (some j) usage ∷ copies) h =
    ground (arith, seen_not_kept seen k copies h, seen_not_kept (j ∷ seen) k copies)

-- Of the copies that carry one key, at most one is among the first copies.
pub first_copies_once :
    (seen : List String) (k : String) (copies : List Copy)
    → copies_with k (first_copies seen copies) ≤ 1
unfolding first_copies
first_copies_once seen k [] = omega arith
first_copies_once seen k (copy none usage ∷ copies) = first_copies_once seen k copies
first_copies_once seen k (copy (some j) usage ∷ copies) = ground (
  arith,
  first_copies_once seen k copies,
  first_copies_once (j ∷ seen) k copies,
  seen_not_kept (j ∷ seen) k copies,
)

pub added-no_usage : (r : Result BranchUsage) → added no_usage r ≡ r
added-no_usage (ok u) = ap ok (plus_comm no_usage u ∙ plus-no_usage u)
added-no_usage (err e) = refl
