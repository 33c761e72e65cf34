-- ===== src/Glance/Same.antt =====
-- Images that are the same but for the order of their regions, and slices of a list of them.
use mathlib.Core.List.{Permᴰ}
use cloud_profile_sync.Common.{
  leb, Bool-cases, inl, inr, ℕ, ◌-◌, ◌≡◌, refl, ap, subst, ◌∙◌, String, Option, none, some, Bool,
  true, false, ◌||◌, ltb, zero, suc, List, [], ◌∷◌, map, string_eq, length, modify, min, take, drop,
  nat_eq, if◌then◌else◌, arith,
}
use cloud_profile_sync.Common.Int.{ℤ, pos, negsuc, ltb_ℤ}
use cloud_profile_sync.Common.Mapped.{length-map, take-map, drop-map}
use cloud_profile_sync.Common.Result.{Result, ok, err}
use cloud_profile_sync.Gardener.{Time}
use cloud_profile_sync.Source.{SourceImage}
use cloud_profile_sync.Glance.Versions.{
  window, slice, slice_end, classify, classify_supported, classify_last,
}

-- The same but for the order of the regions.
abbrev pub IsSameImage : SourceImage → SourceImage → Type 0
IsSameImage a b =
    (record a { regions = [] } ≡ record b { regions = [] }) × Permᴰ a.regions b.regions

abbrev pub AreSameImages : List SourceImage → List SourceImage → Type 0
AreSameImages [] [] = Unit
AreSameImages [] (b ∷ bs) = ⊥
AreSameImages (a ∷ xs) [] = ⊥
AreSameImages (a ∷ xs) (b ∷ bs) = IsSameImage a b × AreSameImages xs bs

-- Two runs panic both, fail both, or show the same images.
abbrev pub IsSameAnswer :
    Option (Result (List SourceImage)) → Option (Result (List SourceImage)) → Type 0
IsSameAnswer none none = Unit
IsSameAnswer (some (err _)) (some (err _)) = Unit
IsSameAnswer (some (ok xs)) (some (ok ys)) = AreSameImages xs ys
IsSameAnswer _ _ = ⊥

unfoldable pub map_option {ℓ κ} :
    {A : Type ℓ} {B : Type κ} → (A → B) → Option (List A) → Option (List B)
map_option f none = none
map_option f (some xs) = some (map f xs)

module _ {ℓ κ} {A : Type ℓ} {B : Type κ} (f : A → B) where
  slice-map :
      (lo : ℕ) (hi : ℤ) (xs : List A) → slice lo hi (map f xs) ≡ map_option f (slice lo hi xs)
  unfolding map_option
  slice-map lo (negsuc k) xs = refl
  slice-map lo (pos hi) xs = elim (Bool-cases (leb lo hi)) [
    | inl inside ↦
        rw inside
          (ap some (ap (take (hi - lo)) (drop-map f lo xs) ∙ take-map f (hi - lo) (drop lo xs)))
    | inr outside ↦ rw outside refl
  ]

  window_if :
      (limited : Bool) (hi : ℤ) (lo : ℕ) (xs : List A)
      → (if limited then slice lo hi (map f xs) else some (map f xs))
        ≡ map_option f (if limited then slice lo hi xs else some xs)
  unfolding map_option
  window_if true hi lo xs = slice-map lo hi xs
  window_if false hi lo xs = refl

  pub window-map :
      (keep_latest : ℤ) (offset : ℕ) (xs : List A)
      → window keep_latest offset (map f xs) ≡ map_option f (window keep_latest offset xs)
  unfolding window
  window-map keep_latest offset xs =
      let limited = ltb_ℤ (pos 0) keep_latest || ltb 0 offset in
      ap
        (λ n.
          if limited
          then slice (min offset n) (slice_end (min offset n) keep_latest n) (map f xs)
          else some (map f xs))
        (length-map f xs)
      ∙ window_if limited (slice_end (min offset (length xs)) keep_latest (length xs))
          (min offset (length xs)) xs

same_supported :
    (xs ys : List SourceImage)
    → AreSameImages xs ys
    → AreSameImages (map classify_supported xs) (map classify_supported ys)
unfolding classify_supported
same_supported [] [] h = tt
same_supported [] (y ∷ ys) h = elim h [ ]
same_supported (x ∷ xs) [] h = elim h [ ]
same_supported (x ∷ xs) (y ∷ ys) ((e, p), h) =
    ((ap (λ (v : SourceImage). classify_supported v) e, p), same_supported xs ys h)

same_length : (xs ys : List SourceImage) → AreSameImages xs ys → length xs ≡ length ys
same_length [] [] h = refl
same_length [] (y ∷ ys) h = elim h [ ]
same_length (x ∷ xs) [] h = elim h [ ]
same_length (x ∷ xs) (y ∷ ys) (_, h) = omega (arith, same_length xs ys h)

same_last :
    (now : Time) (xs ys : List SourceImage) (i : ℕ)
    → AreSameImages xs ys
    → AreSameImages (modify xs i (classify_last now)) (modify ys i (classify_last now))
unfolding modify classify_last
same_last now [] [] i h = tt
same_last now [] (y ∷ ys) i h = elim h [ ]
same_last now (x ∷ xs) [] i h = elim h [ ]
same_last now (x ∷ xs) (y ∷ ys) zero ((e, p), h) = ((ap (classify_last now) e, p), h)
same_last now (x ∷ xs) (y ∷ ys) (suc i) (e, h) = (e, same_last now xs ys i h)

pub classify-AreSameImages :
    (now : Time) (xs ys : List SourceImage)
    → AreSameImages xs ys
    → AreSameImages (classify now xs) (classify now ys)
unfolding classify
classify-AreSameImages now xs ys h =
    let all_xs = map classify_supported xs in
    let all_ys = map classify_supported ys in
    let supported = same_supported xs ys h in
    subst
      (λ n.
        AreSameImages (modify all_xs (length all_xs - 1) (classify_last now))
          (modify all_ys (n - 1) (classify_last now)))
      (same_length all_xs all_ys supported)
      (same_last now all_xs all_ys (length all_xs - 1) supported)

pub same_entries :
    (a b : String → SourceImage) (ks : List String)
    → ((k : String) → IsSameImage (a k) (b k))
    → AreSameImages (map a ks) (map b ks)
same_entries a b [] h = tt
same_entries a b (k ∷ ks) h = (h k, same_entries a b ks h)
