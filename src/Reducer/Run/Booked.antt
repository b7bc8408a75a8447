-- ===== src/Reducer/Run/Booked.antt =====
-- What the run statistics of src/toolbench/reducer.py hold of the cache tokens, wherever they book them.
use mathlib.Core.Path.{subst}
use tool_benchmarks.Base.{
  ℕ, zero, suc, ◌+◌, ◌≡◌, refl, sym, ◌∙◌, ap, String, Bool, true, false, not, ◌&&◌, ◌||◌,
}
use tool_benchmarks.Base.{arith, string_eq, ◌⊎◌}
use tool_benchmarks.Base.{if◌then◌else◌, inl, inr}
use tool_benchmarks.Base.Dict.{Dict, lookup, or_start}
use tool_benchmarks.Base.Int.{ℤ, pos, negsuc, ◌+ℤ◌, int_laws, +ℤ_assoc}
use tool_benchmarks.Transcript.{BranchUsage, no_usage, detached_branch}
use tool_benchmarks.Transcript.Totals.{plus, minus}
use tool_benchmarks.Reducer.Run.{RunStats, is_zero, spent_anything}

-- All cache reads that the statistics hold, wherever they are booked; and all cache creations.
abbrev pub booked_read : RunStats → ℤ
booked_read s = s.read +ℤ s.unattributed_read +ℤ s.detached_read

abbrev pub booked_creation : RunStats → ℤ
booked_creation s = s.creation +ℤ s.unattributed_creation +ℤ s.detached_creation

abbrev pub Booked : RunStats → RunStats → ℤ → ℤ → Type 0
Booked s s' read creation =
    (booked_read s' ≡ booked_read s +ℤ read) × (booked_creation s' ≡ booked_creation s +ℤ creation)

abbrev pub bucket : Dict String BranchUsage → BranchUsage
bucket d = or_start no_usage (lookup detached_branch d)

-- A count of at least one message
abbrev pub IsCounted : ℤ → Type 0
IsCounted (pos (suc n)) = Unit
IsCounted _ = ⊥

pub zero_of : (n : ℤ) → is_zero n ≡ true → n ≡ pos 0
zero_of (pos zero) h = refl
zero_of (pos (suc n)) h = cc
zero_of (negsuc n) h = cc

pub idle_zero :
    (u : BranchUsage) → spent_anything u ≡ false → (u.read ≡ pos 0) × (u.creation ≡ pos 0)
unfolding spent_anything
idle_zero u h = (zero_of u.read (ground arith), zero_of u.creation (ground arith))

pub counted_nonzero : (n : ℤ) → IsCounted n → is_zero n ≡ false
counted_nonzero (pos zero) c = absurd c
counted_nonzero (pos (suc n)) c = refl
counted_nonzero (negsuc n) c = absurd c

pub Booked-trans :
    (s t v : RunStats) (r c r' c' : ℤ)
    → Booked s t r c
    → Booked t v r' c'
    → Booked s v (r +ℤ r') (c +ℤ c')
Booked-trans s t v r c r' c' h k = (
  k.0 ∙ ap (λ n. n +ℤ r') h.0 ∙ +ℤ_assoc (booked_read s) r r',
  k.1 ∙ ap (λ n. n +ℤ c') h.1 ∙ +ℤ_assoc (booked_creation s) c c',
)

pub Booked-plus :
    (s t v : RunStats) (a b : BranchUsage)
    → Booked s t a.read a.creation
    → Booked t v b.read b.creation
    → Booked s v (plus a b).read (plus a b).creation
unfolding plus
Booked-plus s t v a b = Booked-trans s t v a.read a.creation b.read b.creation

-- A claimed sum is empty or has messages.
abbrev pub IsClaim : BranchUsage → Type 0
IsClaim u = (u ≡ no_usage) ⊎ IsCounted u.messages

pub pos_suc_add : (a b : ℕ) → pos a +ℤ pos (suc b) ≡ pos (suc (a + b))
unfolding ◌+ℤ◌
pos_suc_add a b = ground arith

pub IsCounted-add : (a b : ℤ) → IsCounted a → IsCounted b → IsCounted (a +ℤ b)
IsCounted-add (pos (suc a)) (pos (suc b)) x y = subst IsCounted (sym (pos_suc_add (suc a) b)) tt
IsCounted-add (pos (suc a)) (pos zero) x y = absurd y
IsCounted-add (pos (suc a)) (negsuc b) x y = absurd y
IsCounted-add (pos zero) b x y = absurd x
IsCounted-add (negsuc a) b x y = absurd x

pub IsCounted-zero : (n : ℤ) → IsCounted n → IsCounted (pos 0 +ℤ n)
IsCounted-zero (pos (suc n)) c = subst IsCounted (sym (pos_suc_add 0 n)) tt
IsCounted-zero (pos zero) c = absurd c
IsCounted-zero (negsuc n) c = absurd c

pub IsClaim-plus : (a u : BranchUsage) → IsClaim a → IsCounted u.messages → IsClaim (plus a u)
unfolding plus
IsClaim-plus a u (inl e) c = inr (rw e (IsCounted-zero u.messages c))
IsClaim-plus a u (inr x) c = inr (IsCounted-add a.messages u.messages x c)

pub not_skipped : (here claims : Bool) → (here || not claims) ≡ true → (not here && claims) ≡ false
not_skipped here claims h = ground arith

-- What is booked outside the branches and on them adds up to the session's tokens.
pub books_sum :
    (t b c : BranchUsage) (listed : Bool)
    → let left = minus t (if listed then no_usage else b) in
      let again = if listed then b else no_usage in
      ((pos 0 +ℤ ((minus b c).read +ℤ (c.read +ℤ left.read))) ≡ t.read +ℤ again.read)
      × ((pos 0 +ℤ ((minus b c).creation +ℤ (c.creation +ℤ left.creation)))
          ≡ t.creation +ℤ again.creation)
unfolding minus
books_sum t b c true = (omega int_laws, omega int_laws)
books_sum t b c false = (omega int_laws, omega int_laws)
