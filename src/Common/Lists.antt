-- ===== src/Common/Lists.antt =====
-- Lists measured and indexed by native numbers, under the library's names.
use Prim.Native.Nat.{ℕ, zero, suc, ◌+◌}
use mathlib.Core.Path.{◌≡◌, refl}
use mathlib.Core.Bool.{Bool, true, false, ◌&&◌, ◌||◌}
use mathlib.Core.List.{List, [], ◌∷◌, ◌++◌}
use mathlib.Core.Option.{Option, none, some}
use native.Mathlib.Omega.{arith}
use cloud_profile_sync.Common.Equality.{Eq, contains, if◌then◌else◌}

module _ {ℓ} {A : Type ℓ} where
  abbrev pub length : List A → ℕ
  length [] = 0
  length (x ∷ xs) = suc (length xs)

  -- `len(l) == 0`
  abbrev pub is_empty : List A → Bool
  is_empty [] = true
  is_empty (x ∷ xs) = false

  abbrev pub get_elem? : List A → ℕ → Option A
  get_elem? [] i = none
  get_elem? (x ∷ xs) zero = some x
  get_elem? (x ∷ xs) (suc i) = get_elem? xs i

  -- The write through a pointer to the element at an index. Out of bounds it changes nothing.
  unfoldable pub modify : List A → ℕ → (A → A) → List A
  modify [] i f = []
  modify (x ∷ xs) zero f = f x ∷ xs
  modify (x ∷ xs) (suc i) f = x ∷ modify xs i f

  unfoldable pub take : ℕ → List A → List A
  take zero xs = []
  take (suc n) [] = []
  take (suc n) (x ∷ xs) = x ∷ take n xs

  unfoldable pub drop : ℕ → List A → List A
  drop zero xs = xs
  drop (suc n) [] = []
  drop (suc n) (x ∷ xs) = drop n xs

  -- The elements on which a test holds: the loops that append what they do not skip.
  unfoldable pub select : (A → Bool) → List A → List A
  select p [] = []
  select p (x ∷ xs) = let rest = select p xs in if p x then x ∷ rest else rest

  -- One round of a loop that appends what it does not skip; none is `continue`.
  unfoldable pub keep_some : Option A → List A → List A
  keep_some none rest = rest
  keep_some (some x) rest = x ∷ rest

  -- `slices.ContainsFunc`
  unfoldable pub any : (A → Bool) → List A → Bool
  any p [] = false
  any p (x ∷ xs) = if p x then true else any p xs

  -- `slices.IndexFunc`; none is -1
  unfoldable pub index_func : (A → Bool) → List A → Option ℕ
  index_func p [] = none
  index_func p (x ∷ xs) =
      let rest = index_func p xs in
      if p x then some 0 else elim rest [ none ↦ none | some i ↦ some (suc i) ]

  abbrev pub All {κ} : (A → Type κ) → List A → Type κ
  All P [] = Unit
  All P (x ∷ xs) = P x × All P xs

  pub length-append : (xs ys : List A) → length (xs ++ ys) ≡ length xs + length ys
  length-append [] ys = omega arith
  length-append (x ∷ xs) ys = omega (arith, length-append xs ys)

module _ {ℓ} {A : Type ℓ} ⦃e : Eq A⦄ where
  pub contains-append :
      (xs ys : List A) (a : A) → contains (xs ++ ys) a ≡ contains xs a || contains ys a
  unfolding contains
  contains-append [] ys a = refl
  contains-append (x ∷ xs) ys a = ground (arith, contains-append xs ys a)

  pub contains-select :
      (p : A → Bool) (xs : List A) (a : A) → contains (select p xs) a ≡ contains xs a && p a
  unfolding contains select
  contains-select p [] a = refl
  contains-select p (x ∷ xs) a = ground (arith, contains-select p xs a)

module _ {ℓ} {A : Type ℓ} where
  pub index_func-append :
      (p : A → Bool) (xs : List A) (y : A)
      → index_func p (xs ++ y ∷ [])
        ≡ elim (index_func p xs) [ some i ↦ some i | none ↦ if p y then some (length xs) else none ]
  unfolding index_func
  index_func-append p [] y = ground arith
  index_func-append p (x ∷ xs) y = ground (arith, index_func-append p xs y)

  pub index_func-modify :
      (p : A → Bool) (f : A → A)
      → ((x : A) → p (f x) ≡ p x)
      → (xs : List A) (i : ℕ) → index_func p (modify xs i f) ≡ index_func p xs
  unfolding index_func modify
  index_func-modify p f h [] i = refl
  index_func-modify p f h (x ∷ xs) zero = ground (arith, h x)
  index_func-modify p f h (x ∷ xs) (suc i) = ground (arith, index_func-modify p f h xs i)

  pub length-modify : (xs : List A) (i : ℕ) (f : A → A) → length (modify xs i f) ≡ length xs
  unfolding modify
  length-modify [] i f = refl
  length-modify (x ∷ xs) zero f = refl
  length-modify (x ∷ xs) (suc i) f = omega (arith, length-modify xs i f)
