-- ===== src/Base/Equality.antt =====
-- Python's `==` and `in`, for every type whose equality can be decided.
use Prim.Native.String.{String}
use mathlib.Core.Path.{◌≡◌, refl, ap}
use mathlib.Core.Logic.{ite, dite}
use mathlib.Core.Bool.{Bool, true, false, ◌||◌, Bool-discrete}
use mathlib.Core.List.{List, [], ◌∷◌}
use text.Mathlib.Text
use text.Mathlib.TextEquality.{eq_iff}

infix 1 if◌then◌else◌
abbrev pub if◌then◌else◌ {ℓ} : {A : Type ℓ} → Bool → A → A → A
if true then x else y = x
if false then x else y = y

pub record Eq {ℓ} (A : Type ℓ) : Type ℓ where
  pub dec : Discrete A

module _ {ℓ} {A : Type ℓ} ⦃e : Eq A⦄ where
  infix 50 ◌==◌
  abbrev pub ◌==◌ : A → A → Bool
  a == b = ite (e.dec a b) true false

  -- `a in xs`
  abbrev pub contains : List A → A → Bool
  contains [] a = false
  contains (x ∷ xs) a = a == x || contains xs a

  pub eq_self : (a : A) → (a == a) ≡ true
  eq_self a = elim (e.dec a a) as (λ d. ite d true false ≡ true) [
    | yes p ↦ refl
    | no n ↦ absurd (n refl)
  ]

-- Shut in proofs, where a split on `s == t` yields the equation or its negation.
instance unfoldable pub string_eq : Eq String
string_eq = record {
  dec = λ s t.
      dite (Bool-discrete (Text.◌==◌ s t) true) (λ same. yes ((eq_iff s t).0 same))
        (λ differ. no (λ p. differ ((eq_iff s t).1 p)));
}

pair_dec {ℓ κ} : {A : Type ℓ} {B : Type κ} → Discrete A → Discrete B → Discrete (A × B)
pair_dec da db (a, b) (c, d) =
    dite (da a c)
      (λ p.
        dite (db b d) (λ q. yes (λ i. (p i, q i))) (λ n. no (λ e. n (ap (λ (t : _ × _). t.1) e))))
      (λ n. no (λ e. n (ap (λ (t : _ × _). t.0) e)))

instance unfoldable pub pair_eq {ℓ κ} : {A : Type ℓ} {B : Type κ} ⦃x : Eq A⦄ ⦃y : Eq B⦄ → Eq (A × B)
unfolding pair_dec
pair_eq ⦃x⦄ ⦃y⦄ = record { dec = pair_dec x.dec y.dec }
