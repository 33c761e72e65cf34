-- ===== src/Common/Sort.antt =====
-- `slices.SortFunc`, as an insertion sort.
pub mod Sorted
pub mod Unique
use Prim.Native.Nat.{Ordering}
use mathlib.Core.List.{List, [], ◌∷◌}

module _ {ℓ} {A : Type ℓ} (cmp : A → A → Ordering) where
  unfoldable pub insert_sorted : A → List A → List A
  insert_sorted x [] = x ∷ []
  insert_sorted x (y ∷ ys) =
      let later = y ∷ insert_sorted x ys in elim (cmp x y) [ Ordering.gt ↦ later | _ ↦ x ∷ y ∷ ys ]

  unfoldable pub sort_func : List A → List A
  unfolding insert_sorted
  sort_func [] = []
  sort_func (x ∷ xs) = insert_sorted x (sort_func xs)
