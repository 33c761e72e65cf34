-- ===== src/Common/Sort/Sorted.antt =====
-- The result of `slices.SortFunc` holds the same elements, in order.
use Prim.Native.Nat.{Ordering}
use mathlib.Core.Path.{◌≡◌, refl, sym, subst}
use mathlib.Core.Logic.{◌≢◌}
use mathlib.Core.List.{List, [], ◌∷◌, Perm}
use mathlib.Core.List.Perm
use native.Mathlib.Omega.{arith}
use cloud_profile_sync.Common.Lists.{All}
use cloud_profile_sync.Common.Order.{IsOrder}
use cloud_profile_sync.Common.Sort.{insert_sorted, sort_func}

module _ {ℓ} {A : Type ℓ} (cmp : A → A → Ordering) where
  abbrev pub IsSorted : List A → Type 0
  IsSorted [] = Unit
  IsSorted (x ∷ xs) = All (λ y. cmp x y ≢ Ordering.gt) xs × IsSorted xs

  pub insert_sorted-perm : (x : A) (xs : List A) → Perm (insert_sorted cmp x xs) (x ∷ xs)
  unfolding insert_sorted
  insert_sorted-perm x [] = Perm.refl (x ∷ [])
  insert_sorted-perm x (y ∷ ys) = go (cmp x y) (insert_sorted-perm x ys)
    where
      go :
          (o : Ordering)
          → Perm (insert_sorted cmp x ys) (x ∷ ys)
          → Perm (elim o [ Ordering.gt ↦ y ∷ insert_sorted cmp x ys | _ ↦ x ∷ y ∷ ys ]) (x ∷ y ∷ ys)
      go Ordering.gt ih = Perm.trans (Perm.cons y ih) (Perm.swap x y ys)
      go Ordering.lt ih = Perm.refl (x ∷ y ∷ ys)
      go Ordering.eq ih = Perm.refl (x ∷ y ∷ ys)

  pub sort_func-perm : (xs : List A) → Perm (sort_func cmp xs) xs
  unfolding sort_func
  sort_func-perm [] = Perm.refl []
  sort_func-perm (x ∷ xs) =
      Perm.trans (insert_sorted-perm x (sort_func cmp xs)) (Perm.cons x (sort_func-perm xs))

  pub All-insert_sorted {κ} :
      (P : A → Type κ) (x : A) (xs : List A) → P x → All P xs → All P (insert_sorted cmp x xs)
  unfolding insert_sorted
  All-insert_sorted P x [] p h = (p, tt)
  All-insert_sorted P x (y ∷ ys) p (q, h) = go (cmp x y) (All-insert_sorted P x ys p h)
    where
      go :
          (o : Ordering)
          → All P (insert_sorted cmp x ys)
          → All P (elim o [ Ordering.gt ↦ y ∷ insert_sorted cmp x ys | _ ↦ x ∷ y ∷ ys ])
      go Ordering.gt ih = (q, ih)
      go Ordering.lt ih = (p, (q, h))
      go Ordering.eq ih = (p, (q, h))

  pub All-sort_func {κ} : (P : A → Type κ) (xs : List A) → All P xs → All P (sort_func cmp xs)
  unfolding sort_func
  All-sort_func P [] h = tt
  All-sort_func P (x ∷ xs) (p, h) =
      All-insert_sorted P x (sort_func cmp xs) p (All-sort_func P xs h)

  All-of_insert_sorted {κ} :
      (P : A → Type κ) (x : A) (xs : List A) → All P (insert_sorted cmp x xs) → P x × All P xs
  unfolding insert_sorted
  All-of_insert_sorted P x [] h = h
  All-of_insert_sorted P x (y ∷ ys) h = go (cmp x y) h (All-of_insert_sorted P x ys)
    where
      go :
          (o : Ordering)
          → All P (elim o [ Ordering.gt ↦ y ∷ insert_sorted cmp x ys | _ ↦ x ∷ y ∷ ys ])
          → (All P (insert_sorted cmp x ys) → P x × All P ys)
          → P x × (P y × All P ys)
      go Ordering.gt (q, k) ih = ((ih k).0, (q, (ih k).1))
      go Ordering.lt k ih = k
      go Ordering.eq k ih = k

  pub All-of_sort_func {κ} : (P : A → Type κ) (xs : List A) → All P (sort_func cmp xs) → All P xs
  unfolding sort_func
  All-of_sort_func P [] h = tt
  All-of_sort_func P (x ∷ xs) h =
      let (p, q) = All-of_insert_sorted P x (sort_func cmp xs) h in (p, All-of_sort_func P xs q)

  module _ (o : IsOrder cmp) where
    pub le_refl : (x : A) → cmp x x ≢ Ordering.gt
    le_refl x = ground (arith, o.turn x x)

    -- The head of what is sorted is at most every element of the list.
    pub head-le-All :
        (xs : List A) {y : A} {ys : List A}
        → sort_func cmp xs ≡ y ∷ ys
        → IsSorted (sort_func cmp xs)
        → All (λ x. cmp y x ≢ Ordering.gt) xs
    head-le-All xs {y} {ys} e s =
        All-of_sort_func (λ x. cmp y x ≢ Ordering.gt) xs
          (subst (All (λ x. cmp y x ≢ Ordering.gt)) (sym e) (le_refl y, (subst IsSorted e s).0))

    All-le_trans :
        (x y : A) (ys : List A)
        → cmp x y ≢ Ordering.gt
        → All (λ z. cmp y z ≢ Ordering.gt) ys
        → All (λ z. cmp x z ≢ Ordering.gt) ys
    All-le_trans x y [] h _ = tt
    All-le_trans x y (z ∷ ys) h (k, ks) = (o.le_trans x y z h k, All-le_trans x y ys h ks)

    insert_sorted-IsSorted : (x : A) (xs : List A) → IsSorted xs → IsSorted (insert_sorted cmp x xs)
    unfolding insert_sorted
    insert_sorted-IsSorted x [] _ = (tt, tt)
    insert_sorted-IsSorted x (y ∷ ys) (h, s) = go (cmp x y) refl (insert_sorted-IsSorted x ys s)
      where
        before : cmp x y ≢ Ordering.gt → IsSorted (x ∷ y ∷ ys)
        before le = ((le, All-le_trans x y ys le h), (h, s))

        go :
            (c : Ordering)
            → cmp x y ≡ c
            → IsSorted (insert_sorted cmp x ys)
            → IsSorted (elim c [ Ordering.gt ↦ y ∷ insert_sorted cmp x ys | _ ↦ x ∷ y ∷ ys ])
        go Ordering.gt e ih =
            let le : cmp y x ≢ Ordering.gt = ground (arith, o.turn x y) in
            (All-insert_sorted (λ z. cmp y z ≢ Ordering.gt) x ys le h, ih)
        go Ordering.lt e ih = before (ground arith)
        go Ordering.eq e ih = before (ground arith)

    pub sort_func-IsSorted : (xs : List A) → IsSorted (sort_func cmp xs)
    unfolding sort_func
    sort_func-IsSorted [] = tt
    sort_func-IsSorted (x ∷ xs) =
        insert_sorted-IsSorted x (sort_func cmp xs) (sort_func-IsSorted xs)
