-- ===== src/Common/Sort/Unique.antt =====
-- Where no two elements compare as equal, the order of the input does not show in the result of
-- `slices.SortFunc`.
use Prim.Native.Nat.{Ordering}
use mathlib.Core.Path.{◌≡◌, refl, ◌∙◌, ap₂}
use mathlib.Core.List.{List, [], ◌∷◌, Mem, Permᴰ, mem-cons_self, mem-cons_of_mem}
use mathlib.Core.List.Permᴰ
use native.Mathlib.Omega.{arith}
use cloud_profile_sync.Common.Order.{IsOrder}
use cloud_profile_sync.Common.Sort.{insert_sorted, sort_func}

module _ {ℓ} {A : Type ℓ} (cmp : A → A → Ordering) (o : IsOrder cmp) where
  module _ (a b : A) (separate : cmp a b ≡ Ordering.eq → a ≡ b) where
    insert_sorted_comm :
        (l : List A)
        → insert_sorted cmp a (insert_sorted cmp b l) ≡ insert_sorted cmp b (insert_sorted cmp a l)
    unfolding insert_sorted
    insert_sorted_comm [] = ground (arith, o.turn a b)
    insert_sorted_comm (y ∷ l) = ground (
      arith,
      o.turn a b,
      insert_sorted_comm l,
      o.le_trans a b y,
      o.le_trans b a y,
      o.le_trans a y b,
      o.le_trans b y a,
      o.turn a y,
      o.turn b y,
    )

  -- Elements of a list that compare as equal are equal.
  abbrev pub AreSeparate : List A → Type ℓ
  AreSeparate l = (x y : A) → Mem x l → Mem y l → cmp x y ≡ Ordering.eq → x ≡ y

  AreSeparate-tail : (a : A) (l : List A) → AreSeparate (a ∷ l) → AreSeparate l
  AreSeparate-tail a l s x y m n e = s x y (mem-cons_of_mem a m) (mem-cons_of_mem a n) e

  pub sort_func-Permᴰ :
      {l m : List A} → Permᴰ l m → AreSeparate l → sort_func cmp l ≡ sort_func cmp m
  unfolding sort_func
  sort_func-Permᴰ Permᴰ.nil s = refl
  sort_func-Permᴰ (Permᴰ.cons {a = a} {b = b} {l₁ = l₁} e p) s =
      ap₂ (insert_sorted cmp) e (sort_func-Permᴰ p (AreSeparate-tail a l₁ s))
  sort_func-Permᴰ (Permᴰ.swap {a = a} {b = b} {a' = a'} {b' = b'} {l = l} e f) s =
      insert_sorted_comm a b (s a b mem-cons_self (mem-cons_of_mem a mem-cons_self))
        (sort_func cmp l)
      ∙ ap₂ (λ x y. insert_sorted cmp x (insert_sorted cmp y (sort_func cmp l))) f e
  sort_func-Permᴰ (Permᴰ.trans p q) s =
      sort_func-Permᴰ p s
      ∙ sort_func-Permᴰ q
          (λ x y m n e. s x y (Permᴰ.mem (Permᴰ.symm p) m) (Permᴰ.mem (Permᴰ.symm p) n) e)
