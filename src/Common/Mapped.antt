-- ===== src/Common/Mapped.antt =====
-- Selecting, sorting and slicing a list after a map, and before it.
use Prim.Native.Nat.{Ordering, ℕ, zero, suc}
use mathlib.Core.Path.{◌≡◌, refl, ap, ◌∙◌}
use mathlib.Core.Bool.{Bool}
use mathlib.Core.List.{List, [], ◌∷◌, map}
use native.Mathlib.Omega.{arith}
use cloud_profile_sync.Common.Lists.{length, select, take, drop}
use cloud_profile_sync.Common.Sort.{insert_sorted, sort_func}

module _ {ℓ κ} {A : Type ℓ} {B : Type κ} (f : A → B) where
  pub length-map : (xs : List A) → length (map f xs) ≡ length xs
  length-map [] = refl
  length-map (x ∷ xs) = ap suc (length-map xs)

  pub select-map :
      (p : B → Bool) (xs : List A) → select p (map f xs) ≡ map f (select (λ x. p (f x)) xs)
  unfolding select
  select-map p [] = refl
  select-map p (x ∷ xs) = ground (arith, select-map p xs)

  pub take-map : (n : ℕ) (xs : List A) → take n (map f xs) ≡ map f (take n xs)
  unfolding take
  take-map zero [] = refl
  take-map zero (x ∷ xs) = refl
  take-map (suc n) [] = refl
  take-map (suc n) (x ∷ xs) = ap (◌∷◌ (f x)) (take-map n xs)

  pub drop-map : (n : ℕ) (xs : List A) → drop n (map f xs) ≡ map f (drop n xs)
  unfolding drop
  drop-map zero [] = refl
  drop-map zero (x ∷ xs) = refl
  drop-map (suc n) [] = refl
  drop-map (suc n) (x ∷ xs) = drop-map n xs

  module _ (before : A → A → Ordering) (after : B → B → Ordering)
      (same : (x y : A) → after (f x) (f y) ≡ before x y) where
    insert_sorted-map :
        (x : A) (xs : List A)
        → insert_sorted after (f x) (map f xs) ≡ map f (insert_sorted before x xs)
    unfolding insert_sorted
    insert_sorted-map x [] = refl
    insert_sorted-map x (y ∷ ys) = ground (arith, same x y, insert_sorted-map x ys)

    pub sort_func-map : (xs : List A) → sort_func after (map f xs) ≡ map f (sort_func before xs)
    unfolding sort_func
    sort_func-map [] = refl
    sort_func-map (x ∷ xs) =
        ap (insert_sorted after (f x)) (sort_func-map xs)
        ∙ insert_sorted-map x (sort_func before xs)
