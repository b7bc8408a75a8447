-- ===== src/Base/Dict.antt =====
-- Dicts in insertion order, as association lists whose keys differ.
use Prim.Native.Nat.{ℕ, ◌+◌}
use mathlib.Core.Path.{◌≡◌, refl}
use mathlib.Core.Logic.{◌≢◌}
use mathlib.Core.Bool.{Bool}
use mathlib.Core.Option.{Option, none, some}
use mathlib.Core.List.{List, [], ◌∷◌}
use native.Mathlib.Omega.{arith}
use tool_benchmarks.Base.Equality.{Eq, ◌==◌, if◌then◌else◌}
use tool_benchmarks.Base.Lists.{sum_by}
use tool_benchmarks.Base.Tests.{is_some}

abbrev pub Dict {ℓ κ} : Type ℓ → Type κ → Type (ℓ ⊔ κ)
Dict K V = List (K × V)

-- `d.values()`
abbrev pub values {ℓ κ} : {K : Type ℓ} {V : Type κ} → Dict K V → List V
values [] = []
values ((k, v) ∷ d) = v ∷ values d

-- `o if o is not None else start`
abbrev pub or_start {ℓ} : {V : Type ℓ} → V → Option V → V
or_start start none = start
or_start start (some v) = v

module _ {ℓ κ} {K : Type ℓ} {V : Type κ} ⦃e : Eq K⦄ where
  -- `d.get(k)`
  unfoldable pub lookup : K → Dict K V → Option V
  lookup k [] = none
  lookup k ((j, v) ∷ d) = if k == j then some v else lookup k d

  -- `d[k] = v`: an old key keeps its place.
  unfoldable pub insert : K → V → Dict K V → Dict K V
  insert k v [] = (k, v) ∷ []
  insert k v ((j, w) ∷ d) = if k == j then (k, v) ∷ d else (j, w) ∷ insert k v d

  -- `d.pop(k)`
  unfoldable pub erase : K → Dict K V → Dict K V
  erase k [] = []
  erase k ((j, w) ∷ d) = if k == j then d else (j, w) ∷ erase k d

  -- `f` applied in place to `d.setdefault(k, start)`
  unfoldable pub update : K → V → (V → V) → Dict K V → Dict K V
  update k start f [] = (k, f start) ∷ []
  update k start f ((j, w) ∷ d) = if k == j then (j, f w) ∷ d else (j, w) ∷ update k start f d

  abbrev pub has_key : K → Dict K V → Bool
  has_key k d = is_some (lookup k d)

  abbrev pub NodupKeys : Dict K V → Type κ
  NodupKeys [] = Unit
  NodupKeys ((k, _) ∷ d) = (lookup k d ≡ none) × NodupKeys d

  pub lookup-insert :
      (j k : K) (v : V) (d : Dict K V)
      → lookup j (insert k v d) ≡ (if j == k then some v else lookup j d)
  unfolding insert lookup
  lookup-insert j k v [] = refl
  lookup-insert j k v (_ ∷ d) = ground (arith, lookup-insert j k v d)

  pub lookup-update :
      (j k : K) (start : V) (f : V → V) (d : Dict K V)
      → lookup j (update k start f d)
        ≡ (if j == k then some (f (or_start start (lookup k d))) else lookup j d)
  unfolding update lookup
  lookup-update j k start f [] = refl
  lookup-update j k start f (_ ∷ d) = ground (arith, lookup-update j k start f d)

  pub insert-NodupKeys : (k : K) (v : V) (d : Dict K V) → NodupKeys d → NodupKeys (insert k v d)
  unfolding insert lookup
  insert-NodupKeys k v [] _ = (refl, tt)
  insert-NodupKeys k v ((j, _) ∷ d) (fresh, u) =
      ground (arith, insert-NodupKeys k v d u, lookup-insert j k v d)

  pub update-NodupKeys :
      (k : K) (start : V) (f : V → V) (d : Dict K V) → NodupKeys d → NodupKeys (update k start f d)
  unfolding update lookup
  update-NodupKeys k start f [] _ = (refl, tt)
  update-NodupKeys k start f ((j, _) ∷ d) (fresh, u) =
      ground (arith, update-NodupKeys k start f d u, lookup-update j k start f d)

  pub lookup-erase_ne : (j k : K) (d : Dict K V) → j ≢ k → lookup j (erase k d) ≡ lookup j d
  unfolding erase lookup
  lookup-erase_ne j k [] h = refl
  lookup-erase_ne j k (_ ∷ d) h = ground (arith, lookup-erase_ne j k d)

  pub lookup-erase-none : (j k : K) (d : Dict K V) → lookup j d ≡ none → lookup j (erase k d) ≡ none
  unfolding erase lookup
  lookup-erase-none j k [] h = refl
  lookup-erase-none j k (_ ∷ d) h = ground (arith, lookup-erase-none j k d)

  pub erase-NodupKeys : (k : K) (d : Dict K V) → NodupKeys d → NodupKeys (erase k d)
  unfolding erase lookup
  erase-NodupKeys k [] _ = tt
  erase-NodupKeys k ((j, _) ∷ d) (fresh, u) =
      ground (arith, erase-NodupKeys k d u, lookup-erase-none j k d)

-- `d[k] = d.get(k, 0) + n`
unfoldable pub add_count {ℓ} : {K : Type ℓ} ⦃e : Eq K⦄ → K → ℕ → Dict K ℕ → Dict K ℕ
unfolding update
add_count k n d = update k 0 (λ m. m + n) d

pub sum-add_count {ℓ} :
    {K : Type ℓ} ⦃e : Eq K⦄ (k : K) (n : ℕ) (d : Dict K ℕ)
    → sum_by (λ (_, m). m) (add_count k n d) ≡ sum_by (λ (_, m). m) d + n
unfolding add_count
sum-add_count k n [] = omega arith
sum-add_count k n ((j, m) ∷ d) = ground (arith, sum-add_count k n d)
