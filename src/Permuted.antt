-- ===== src/Permuted.antt =====
-- Loops over a list that append something for each element: what they build, from a list and from
-- the same list in another order.
use mathlib.Core.List.{Permᴰ}
use mathlib.Core.List.Permᴰ
use cloud_profile_sync.Common.{◌≡◌, refl, ap, subst, List, [], ◌∷◌, ◌++◌, All}

module _ {ℓ} {A : Type ℓ} where
  pub append_assoc : (xs ys zs : List A) → (xs ++ ys) ++ zs ≡ xs ++ (ys ++ zs)
  append_assoc [] ys zs = refl
  append_assoc (x ∷ xs) ys zs = ap (◌∷◌ x) (append_assoc xs ys zs)

  pub append-nil : (xs : List A) → xs ++ [] ≡ xs
  append-nil [] = refl
  append-nil (x ∷ xs) = ap (◌∷◌ x) (append-nil xs)

  -- Two parts change places.
  pub append-swap : (xs ys zs : List A) → Permᴰ (xs ++ (ys ++ zs)) (ys ++ (xs ++ zs))
  append-swap [] ys zs = Permᴰ.refl (ys ++ zs)
  append-swap (x ∷ xs) ys zs =
      Permᴰ.trans (Permᴰ.cons refl (append-swap xs ys zs))
        (Permᴰ.symm (Permᴰ.middle x ys (xs ++ zs)))

  pub Permᴰ_of_eq : {l m : List A} → l ≡ m → Permᴰ l m
  Permᴰ_of_eq {l} e = subst (Permᴰ l) e (Permᴰ.refl l)

  pub All-Permᴰ {κ} : (P : A → Type κ) (l m : List A) → Permᴰ l m → All P l → All P m
  All-Permᴰ P _ _ Permᴰ.nil h = h
  All-Permᴰ P _ _ (Permᴰ.cons {l₁ = l} {l₂ = m} e p) (h, hs) = (subst P e h, All-Permᴰ P l m p hs)
  All-Permᴰ P _ _ (Permᴰ.swap e f) (h, (k, hs)) = (subst P f k, (subst P e h, hs))
  All-Permᴰ P l m (Permᴰ.trans {l₂ = k} p q) h = All-Permᴰ P k m q (All-Permᴰ P l k p h)

  pub nil_of_Permᴰ : (m : List A) → Permᴰ [] m → m ≡ []
  nil_of_Permᴰ [] p = refl
  nil_of_Permᴰ (x ∷ m) p = absurd (All-Permᴰ (λ _. ⊥) [] (x ∷ m) p tt).0

module _ {ℓ κ} {A : Type ℓ} {B : Type κ} (loop : List A → List B) (round : A → List B)
    (loop-nil : loop [] ≡ [])
    (loop-cons : (x : A) (xs : List A) → loop (x ∷ xs) ≡ round x ++ loop xs) where
  pub loop-Permᴰ : (l m : List A) → Permᴰ l m → Permᴰ (loop l) (loop m)
  loop-Permᴰ _ _ Permᴰ.nil = Permᴰ.refl (loop [])
  loop-Permᴰ _ _ (Permᴰ.cons {a = a} {b = b} {l₁ = l} {l₂ = m} e p) =
      rw (loop-cons a l)
        (rw (loop-cons b m) (rw e (Permᴰ.append_left (round b) (loop-Permᴰ l m p))))
  loop-Permᴰ _ _ (Permᴰ.swap {a = a} {b = b} {a' = a'} {b' = b'} {l = l} e f) =
      rw (loop-cons a (b ∷ l), loop-cons b l, loop-cons a' (b' ∷ l), loop-cons b' l)
        (rw (e, f) (append-swap (round b') (round a') (loop l)))
  loop-Permᴰ l m (Permᴰ.trans {l₂ = k} p q) = Permᴰ.trans (loop-Permᴰ l k p) (loop-Permᴰ k m q)
