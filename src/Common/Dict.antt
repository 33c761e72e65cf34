-- ===== src/Common/Dict.antt =====
-- Go maps as association lists: at most one entry of a key. A key's lookup does not depend on the
-- order of the entries, and a loop over a map takes them in some order.
use Prim.Native.Nat.{◌≤◌, ◌<◌}
use mathlib.Core.Path.{◌≡◌, refl, sym}
use mathlib.Core.Logic.{◌≢◌, inl, inr}
use mathlib.Core.Option.{Option, none, some}
use mathlib.Core.List.{List, [], ◌∷◌}
use native.Mathlib.Omega.{arith}
use cloud_profile_sync.Common.Lists.{length}
use cloud_profile_sync.Common.Tests.{Option-cases}
use cloud_profile_sync.Common.Equality.{Eq, ◌==◌, if◌then◌else◌}

abbrev pub Dict {ℓ κ} : Type ℓ → Type κ → Type (ℓ ⊔ κ)
Dict K V = List (K × V)

module _ {ℓ κ} {K : Type ℓ} {V : Type κ} ⦃e : Eq K⦄ where
  -- `v, ok := m[k]`
  unfoldable pub lookup : K → Dict K V → Option V
  lookup k [] = none
  lookup k ((j, v) ∷ m) = if k == j then some v else lookup k m

  -- `m[k] = v`
  unfoldable pub insert : K → V → Dict K V → Dict K V
  insert k v [] = (k, v) ∷ []
  insert k v ((j, w) ∷ m) = if k == j then (k, v) ∷ m else (j, w) ∷ insert k v m

  abbrev pub NodupKeys : Dict K V → Type κ
  NodupKeys [] = Unit
  NodupKeys ((k, _) ∷ m) = (lookup k m ≡ none) × NodupKeys m

  pub lookup-nil : (k : K) → lookup k [] ≡ none
  unfolding lookup
  lookup-nil k = refl

  pub lookup-cons :
      (j k : K) (v : V) (m : Dict K V)
      → lookup j ((k, v) ∷ m) ≡ (if j == k then some v else lookup j m)
  unfolding lookup
  lookup-cons j k v m = refl

  pub lookup-insert :
      (j k : K) (v : V) (m : Dict K V)
      → lookup j (insert k v m) ≡ (if j == k then some v else lookup j m)
  unfolding insert lookup
  lookup-insert j k v [] = refl
  lookup-insert j k v (_ ∷ m) = ground (arith, lookup-insert j k v m)

  pub insert-NodupKeys : (k : K) (v : V) (m : Dict K V) → NodupKeys m → NodupKeys (insert k v m)
  unfolding insert
  insert-NodupKeys k v [] _ = (lookup-nil k, tt)
  insert-NodupKeys k v ((j, _) ∷ m) (fresh, u) =
      ground (arith, insert-NodupKeys k v m u, lookup-insert j k v m)

  -- `delete(m, k)`, for proofs.
  unfoldable pub erase : K → Dict K V → Dict K V
  erase k [] = []
  erase k ((j, w) ∷ m) = let rest = erase k m in if k == j then rest else (j, w) ∷ rest

  pub lookup-erase :
      (j k : K) (m : Dict K V) → lookup j (erase k m) ≡ (if j == k then none else lookup j m)
  unfolding erase lookup
  lookup-erase j k [] = ground arith
  lookup-erase j k (_ ∷ m) = ground (arith, lookup-erase j k m)

  length-erase-le : (k : K) (m : Dict K V) → length (erase k m) ≤ length m
  unfolding erase
  length-erase-le k [] = omega arith
  length-erase-le k (_ ∷ m) = ground (arith, length-erase-le k m)

  length-erase-lt : (k : K) (m : Dict K V) → lookup k m ≢ none → length (erase k m) < length m
  unfolding erase lookup
  length-erase-lt k [] h = absurd (h refl)
  length-erase-lt k (_ ∷ m) h = ground (arith, length-erase-lt k m, length-erase-le k m)

  -- Every entry of the one map is in the other.
  abbrev pub SubDict : Dict K V → Dict K V → Type (ℓ ⊔ κ)
  SubDict a b = (k : K) (v : V) → lookup k a ≡ some v → lookup k b ≡ some v

  SubDict-length : (a b : Dict K V) → NodupKeys a → SubDict a b → length a ≤ length b
  SubDict-length [] b u h = omega arith
  SubDict-length ((k, v) ∷ a) b (fresh, u) h = omega (
    arith,
    length-erase-lt k b (λ e. ground (arith, h k v, lookup-cons k k v a)),
    SubDict-length a (erase k b) u
        (λ j w e. ground (arith, h j w, lookup-cons j k v a, lookup-erase j k b)),
  )

  -- Of two maps of one size, one within the other, both hold the same.
  pub SubDict-lookup :
      (a b : Dict K V)
      → NodupKeys a
      → length a ≡ length b
      → SubDict a b
      → (k : K) → lookup k a ≡ lookup k b
  SubDict-lookup a b u n h k = elim (Option-cases (lookup k a)) [
    | inr (v, e) ↦ rw e (sym (h k v e))
    | inl absent ↦ elim (Option-cases (lookup k b)) [
      | inl e ↦ rw (absent, e)
      | inr (w, e) ↦ absurd (
          omega (
            arith,
            SubDict-length ((k, w) ∷ a) b (absent, u)
                (λ j x p. ground (arith, h j x, lookup-cons j k w a)),
          ))
    ]
  ]

  pub same_length :
      (a b : Dict K V)
      → NodupKeys a
      → NodupKeys b
      → ((k : K) → lookup k a ≡ lookup k b)
      → length a ≡ length b
  same_length a b u v h = omega (
    arith,
    SubDict-length a b u (λ k x e. rw (← h k) e),
    SubDict-length b a v (λ k x e. rw (h k) e),
  )
