-- ===== src/Sources/Drained.antt =====
-- What the listings of src/toolbench/sources.py yield of the pages that AgentsView serves.
use tool_benchmarks.Base.{
  ℕ, zero, suc, ◌<◌, ◌≡◌, refl, ap, ◌∙◌, String, Option, none, some, List, [], ◌∷◌, ◌++◌, map,
  arith, length,
}
use tool_benchmarks.Base.Int.{ℤ}
use tool_benchmarks.Sources.{
  Attempt, returns, raises, Fault, Stream, ends, yields, fails, SessionRef,
}
use tool_benchmarks.Sources.Listing.{Runner, Decoded, Scope, Row, Payload, page_at, pages, go_on}
use tool_benchmarks.Sources.Discovery.{append_stream, row_ref, refs_from, drain, rows_of}

abbrev pub ending {ℓ} : {A : Type ℓ} → Option Fault → Stream A
ending none = ends
ending (some e) = fails e

-- The listing is over, and did not break.
abbrev Finished : List Payload → Option Fault → Type 0
Finished [] none = Unit
Finished _ _ = ⊥

-- What holds of the page that follows, by the cursor of this one
abbrev After : (String → Type 0) → Type 0 → Option String → Type 0
After follows over none = over
After follows over (some next) = follows next

-- The rows of the pages
abbrev pub all_rows : List Payload → List Row
all_rows [] = []
all_rows (page ∷ served) = page.sessions ++ all_rows served

abbrev pub or_raised {ℓ} : {A : Type ℓ} → A → Option Fault → Attempt A
or_raised a none = returns a
or_raised a (some e) = raises e

append_stream-append :
    (parents : List String) (xs ys : List Row) (s : Stream SessionRef)
    → append_stream (map (row_ref parents) xs) (append_stream (map (row_ref parents) ys) s)
      ≡ append_stream (map (row_ref parents) (xs ++ ys)) s
append_stream-append parents [] ys s = refl
append_stream-append parents (x ∷ xs) ys s =
    ap (yields (row_ref parents x)) (append_stream-append parents xs ys s)

module _ (loads : String → Decoded) (runner : Runner) (scope : Scope) (limit : ℤ)
    (includes : List String) where
  -- AgentsView serves these pages from a cursor on: each request is answered by the next page, the
  -- cursor that a page holds is asked for next, and the last page holds none, or the request that
  -- follows it raises.
  abbrev pub Served : Option String → List Payload → Option Fault → Type 0
  Served cursor [] none = ⊥
  Served cursor [] (some e) = page_at loads runner scope limit includes cursor ≡ raises e
  Served cursor (page ∷ served) broken =
      (page_at loads runner scope limit includes cursor ≡ returns page)
      × After (λ next. Served (some next) served broken) (Finished served broken) page.next_cursor

  pages-Served :
      (cursor : Option String) (served : List Payload) (broken : Option Fault) (fuel : ℕ)
      → Served cursor served broken
      → length served < fuel
      → pages loads runner scope limit includes fuel cursor ≡ append_stream served (ending broken)
  unfolding pages
  pages-Served cursor served broken zero h enough = absurd (omega arith)
  pages-Served cursor [] none (suc fuel) h enough = absurd h
  pages-Served cursor [] (some e) (suc fuel) h enough = rw h refl
  pages-Served cursor (page ∷ served) broken (suc fuel) h enough = rw (h.0) (
      ap (yields page) (
        go_on-Served (λ d k. pages-Served (some d) served broken fuel k (omega arith))
          page.next_cursor h.1))
    where
      go_on-Served :
          ((d : String)
            → Served (some d) served broken
            → pages loads runner scope limit includes fuel (some d)
              ≡ append_stream served (ending broken))
          → (next : Option String)
          → After (λ d. Served (some d) served broken) (Finished served broken) next
          → go_on next (pages loads runner scope limit includes fuel)
            ≡ append_stream served (ending broken)
      go_on-Served later none k = finished served broken k
        where
          finished :
              (ps : List Payload) (b : Option Fault)
              → Finished ps b
              → ends ≡ append_stream ps (ending b)
          finished [] none k = refl
          finished [] (some e) k = absurd k
          finished (p ∷ ps) b k = absurd k
      go_on-Served later (some d) k = later d k

  refs_from-append :
      (parents : List String) (served : List Payload) (broken : Option Fault)
      → refs_from parents (append_stream served (ending broken))
        ≡ append_stream (map (row_ref parents) (all_rows served)) (ending broken)
  unfolding refs_from
  refs_from-append parents [] none = refl
  refs_from-append parents [] (some e) = refl
  refs_from-append parents (page ∷ served) broken =
      ap (append_stream (map (row_ref parents) page.sessions))
        (refs_from-append parents served broken)
      ∙ append_stream-append parents page.sessions (all_rows served) (ending broken)

  drain-append :
      (served : List Payload) (broken : Option Fault)
      → drain rows_of (append_stream served (ending broken)) ≡ or_raised (all_rows served) broken
  unfolding drain
  drain-append [] none = refl
  drain-append [] (some e) = refl
  drain-append (page ∷ served) none = rw (drain-append served none) refl
  drain-append (page ∷ served) (some e) = rw (drain-append served (some e)) refl

  -- If AgentsView serves these pages from the first request on, then the iterator of references yields
  -- one for each of their rows, in the order of the pages, and then ends, or raises where the listing
  -- broke; and a pass that drains the listing returns those rows, or raises. Any fuel above the number
  -- of the pages gives this.
  pub refs_from-Served :
      (parents : List String) (served : List Payload) (broken : Option Fault) (fuel : ℕ)
      → Served none served broken
      → length served < fuel
      → (refs_from parents (pages loads runner scope limit includes fuel none)
          ≡ append_stream (map (row_ref parents) (all_rows served)) (ending broken))
        × (drain rows_of (pages loads runner scope limit includes fuel none)
            ≡ or_raised (all_rows served) broken)
  refs_from-Served parents served broken fuel h enough =
      let read = pages-Served none served broken fuel h enough in
      (
        ap (refs_from parents) read ∙ refs_from-append parents served broken,
        ap (drain rows_of) read ∙ drain-append served broken,
      )
