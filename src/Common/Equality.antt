-- ===== src/Common/Equality.antt =====
-- Go's `==` on comparable types, the conditional, and `slices.Contains`, `slices.Equal`.
use Prim.Native.Nat.{ℕ}
use Prim.Native.String.{String}
use mathlib.Core.Path.{◌≡◌, refl}
use mathlib.Core.Logic.{ite, dite}
use mathlib.Core.Bool.{Bool, true, false, cond, ◌||◌, ◌&&◌, Bool-discrete}
use mathlib.Core.List.{List, [], ◌∷◌}
use native.Mathlib.Decide.{ℕ_discrete}
use native.Mathlib.Omega.{arith}
use text.Mathlib.Text
use text.Mathlib.TextEquality.{eq_iff}

infix 1 if◌then◌else◌
abbrev pub if◌then◌else◌ {ℓ} : {A : Type ℓ} → Bool → A → A → A
if b then x else y = cond b x y

pub record Eq {ℓ} (A : Type ℓ) : Type ℓ where
  pub dec : Discrete A

module _ {ℓ} {A : Type ℓ} ⦃e : Eq A⦄ where
  infix 50 ◌==◌
  abbrev pub ◌==◌ : A → A → Bool
  a == b = ite (e.dec a b) true false

  -- `slices.Contains`, and membership in a set kept as a list
  unfoldable pub contains : List A → A → Bool
  contains [] a = false
  contains (x ∷ xs) a = a == x || contains xs a

  -- `slices.Equal`
  unfoldable pub equal : List A → List A → Bool
  equal [] [] = true
  equal (x ∷ xs) (y ∷ ys) = x == y && equal xs ys
  equal _ _ = false

  pub equal_sound : (xs ys : List A) → equal xs ys ≡ true → xs ≡ ys
  unfolding equal
  equal_sound [] [] h = refl
  equal_sound [] (y ∷ ys) h = ground arith
  equal_sound (x ∷ xs) [] h = ground arith
  equal_sound (x ∷ xs) (y ∷ ys) h = ground (arith, equal_sound xs ys)

  pub equal_refl : (xs : List A) → equal xs xs ≡ true
  unfolding equal
  equal_refl [] = refl
  equal_refl (x ∷ xs) = ground (arith, equal_refl xs)

instance unfoldable pub nat_eq : Eq ℕ
unfolding ℕ_discrete
nat_eq = record { dec = ℕ_discrete }

-- Shut in proofs, where a split on `s == t` yields the equation or its negation.
instance unfoldable pub string_eq : Eq String
string_eq = record {
  dec = λ s t.
      dite (Bool-discrete (Text.◌==◌ s t) true) (λ same. yes ((eq_iff s t).0 same))
        (λ differ. no (λ p. differ ((eq_iff s t).1 p)));
}
