-- ===== src/Common/Keys.antt =====
-- The keys of two maps that hold the same keys: the same, in some order.
use mathlib.Core.Path.{◌∙◌, ◌≡◌, refl, sym, ap, subst}
use mathlib.Core.Logic.{◌≢◌, ◌↔◌}
use mathlib.Core.Option.{none, some}
use mathlib.Core.List.{List, [], ◌∷◌, Permᴰ}
use mathlib.Core.List.Permᴰ
use native.Mathlib.Omega.{arith}
use cloud_profile_sync.Common.Lists.{All}
use cloud_profile_sync.Common.Equality.{Eq}
use cloud_profile_sync.Common.Dict.{
  Dict, lookup, erase, NodupKeys, lookup-nil, lookup-cons, lookup-erase,
}

module _ {ℓ κ} {K : Type ℓ} {V : Type κ} ⦃e : Eq K⦄ where
  abbrev pub keys : Dict K V → List K
  keys [] = []
  keys ((k, _) ∷ m) = k ∷ keys m

  erase-absent : (k : K) (m : Dict K V) → lookup k m ≡ none → erase k m ≡ m
  unfolding erase lookup
  erase-absent k [] h = refl
  erase-absent k ((j, v) ∷ m) h = ground (arith, h, erase-absent k m)

  erase-NodupKeys : (k : K) (m : Dict K V) → NodupKeys m → NodupKeys (erase k m)
  unfolding erase
  erase-NodupKeys k [] h = tt
  erase-NodupKeys k ((j, v) ∷ m) (fresh, h) =
      ground (arith, fresh, erase-NodupKeys k m h, lookup-erase j k m)

  keys-erase :
      (k : K) (m : Dict K V)
      → NodupKeys m
      → lookup k m ≢ none
      → Permᴰ (k ∷ keys (erase k m)) (keys m)
  unfolding erase lookup
  keys-erase k [] u h = absurd (h refl)
  keys-erase k ((j, v) ∷ m) (fresh, u) h = elim (e.dec k j) [
    | yes p ↦
        let absent : lookup k m ≡ none = ap (λ i. lookup i m) p ∙ fresh in
        let erased : erase k ((j, v) ∷ m) ≡ m = ground (arith, p, erase-absent k m absent) in
        Permᴰ.cons p (subst (λ r. Permᴰ (keys r) (keys m)) (sym erased) (Permᴰ.refl (keys m)))
    | no n ↦
        let erased : erase k ((j, v) ∷ m) ≡ (j, v) ∷ erase k m = ground (arith, n) in
        let has : lookup k m ≢ none = λ q. h (ground (arith, n, q)) in
        subst (λ r. Permᴰ (k ∷ keys r) (j ∷ keys m)) (sym erased)
          (Permᴰ.trans (Permᴰ.swap refl refl) (Permᴰ.cons refl (keys-erase k m u has)))
  ]

  -- Each entry is what its key gives.
  abbrev IsEntry : Dict K V → K × V → Type κ
  IsEntry m (k, v) = lookup k m ≡ some v

  All-IsEntry-cons :
      (k : K) (v : V) (m n : Dict K V)
      → lookup k m ≡ none
      → All (IsEntry m) n
      → All (IsEntry ((k, v) ∷ m)) n
  All-IsEntry-cons k v m [] fresh h = tt
  All-IsEntry-cons k v m ((j, w) ∷ n) fresh (p, h) =
      (lookup-cons j k v m ∙ ground (arith, fresh, p), All-IsEntry-cons k v m n fresh h)

  pub NodupKeys-All : (m : Dict K V) → NodupKeys m → All (IsEntry m) m
  NodupKeys-All [] u = tt
  NodupKeys-All ((k, v) ∷ m) (fresh, u) =
      (lookup-cons k k v m ∙ ground arith, All-IsEntry-cons k v m m fresh (NodupKeys-All m u))

  abbrev pub HaveSameKeys : Dict K V → Dict K V → Type (ℓ ⊔ κ)
  HaveSameKeys a b = (k : K) → lookup k a ≡ none ↔ lookup k b ≡ none

  erase-HaveSameKeys :
      (k : K) (v : V) (a b : Dict K V)
      → lookup k a ≡ none
      → HaveSameKeys ((k, v) ∷ a) b
      → HaveSameKeys a (erase k b)
  erase-HaveSameKeys k v a b fresh h j = elim (e.dec j k) [
    | yes p ↦ (λ _. lookup-erase j k b ∙ ground (arith, p), λ _. ap (λ i. lookup i a) p ∙ fresh)
    | no n ↦
        let (to, from) = h j in
        let one : lookup j ((k, v) ∷ a) ≡ lookup j a = lookup-cons j k v a ∙ ground (arith, n) in
        let other : lookup j (erase k b) ≡ lookup j b = lookup-erase j k b ∙ ground (arith, n) in
        (λ p. other ∙ to (one ∙ p), λ p. sym one ∙ from (sym other ∙ p))
  ]

  pub keys-Permᴰ :
      (a b : Dict K V) → NodupKeys a → NodupKeys b → HaveSameKeys a b → Permᴰ (keys a) (keys b)
  keys-Permᴰ [] [] u v h = Permᴰ.nil
  keys-Permᴰ [] ((k, w) ∷ b) u v h =
      absurd (ground (arith, (h k).0 (lookup-nil k), lookup-cons k k w b))
  keys-Permᴰ ((k, v) ∷ a) b (fresh, u) w h =
      let has : lookup k b ≢ none = λ p. absurd (ground (arith, (h k).1 p, lookup-cons k k v a)) in
      Permᴰ.trans
        (Permᴰ.cons refl
          (keys-Permᴰ a (erase k b) u (erase-NodupKeys k b w) (erase-HaveSameKeys k v a b fresh h)))
        (keys-erase k b w has)
