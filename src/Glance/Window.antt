-- ===== src/Glance/Window.antt =====
-- Which versions `GetVersions` shows, and how it classifies them.
use Prim.Native.Nat.{◌^◌, ◌%◌}
use cloud_profile_sync.Common.{
  ◌∙◌, true, false, ◌↔◌, ltb, leb, inl, inr, Bool-cases, if◌then◌else◌, ℕ, zero, suc, ◌+◌, ◌-◌, ◌≤◌,
  ◌<◌, min, ◌≡◌, refl, ap, none, some, List, [], ◌∷◌, ◌++◌, map, length, length-append, take, drop,
  modify, string_eq, arith,
}
use cloud_profile_sync.Common.Int.{ℤ, pos, negsuc}
use cloud_profile_sync.Gardener.{Time, supported, deprecated}
use cloud_profile_sync.Source.{SourceImage}
use cloud_profile_sync.Glance.Versions.{
  window, int_bound, wrap_int, min_int, slice, classify, classify_supported, classify_last,
}

length-drop : (n : ℕ) (xs : List SourceImage) → length (drop n xs) ≡ length xs - n
unfolding drop
length-drop zero xs = omega arith
length-drop (suc n) [] = omega arith
length-drop (suc n) (x ∷ xs) = omega (arith, length-drop n xs)

length-take : (n : ℕ) (xs : List SourceImage) → length (take n xs) ≡ min n (length xs)
unfolding take
length-take zero xs = omega arith
length-take (suc n) [] = omega arith
length-take (suc n) (x ∷ xs) = omega (arith, length-take n xs)

take-agree :
    (m n : ℕ) (xs : List SourceImage)
    → min m (length xs) ≡ min n (length xs)
    → take m xs ≡ take n xs
unfolding take
take-agree zero zero xs h = refl
take-agree zero (suc n) [] h = refl
take-agree zero (suc n) (x ∷ xs) h = absurd (omega arith)
take-agree (suc m) zero [] h = refl
take-agree (suc m) zero (x ∷ xs) h = absurd (omega arith)
take-agree (suc m) (suc n) [] h = refl
take-agree (suc m) (suc n) (x ∷ xs) h = ap (◌∷◌ x) (take-agree m n xs (omega arith))

drop-agree :
    (m n : ℕ) (xs : List SourceImage)
    → min m (length xs) ≡ min n (length xs)
    → drop m xs ≡ drop n xs
unfolding drop
drop-agree zero zero xs h = refl
drop-agree zero (suc n) [] h = refl
drop-agree zero (suc n) (x ∷ xs) h = absurd (omega arith)
drop-agree (suc m) zero [] h = refl
drop-agree (suc m) zero (x ∷ xs) h = absurd (omega arith)
drop-agree (suc m) (suc n) [] h = refl
drop-agree (suc m) (suc n) (x ∷ xs) h = drop-agree m n xs (omega arith)

wrap_int_small : (n : ℕ) → n < int_bound → wrap_int n ≡ pos n
wrap_int_small n h =
    let same : n % 2 ^ 64 ≡ n = omega arith in
    let below : ltb n int_bound ≡ true = ground arith in
    ap (λ m. if ltb m int_bound then pos m else negsuc (2 ^ 64 - 1 - m)) same ∙ rw below refl

wrap_int_large : (n : ℕ) → int_bound ≤ n → n < 2 ^ 64 → wrap_int n ≡ negsuc (2 ^ 64 - 1 - n)
wrap_int_large n h bound =
    let same : n % 2 ^ 64 ≡ n = omega arith in
    let above : ltb n int_bound ≡ false = ground arith in
    ap (λ m. if ltb m int_bound then pos m else negsuc (2 ^ 64 - 1 - m)) same ∙ rw above refl

-- The window, from what the sum wraps to.
window_of_wrap :
    (k offset : ℕ) (versions : List SourceImage)
    → let lo = min offset (length versions) in
      window (pos (suc k)) offset versions
      ≡ slice lo (min_int (wrap_int (lo + suc k)) (length versions)) versions
unfolding window
window_of_wrap k offset versions = ground arith

-- With a positive limit, and an offset and limit whose sum is in the range of `int`, the answer is
-- the versions behind the first `offset`, at most `keep_latest` of them; there is no panic.
pub window_shows :
    (k offset : ℕ) (versions : List SourceImage)
    → offset + suc k < int_bound
    → window (pos (suc k)) offset versions ≡ some (take (suc k) (drop offset versions))
window_shows k offset versions h =
    let len = length versions in
    let lo = min offset len in
    let dropped : drop lo versions ≡ drop offset versions =
      drop-agree lo offset versions (omega arith) in
    let taken : take (min (lo + suc k) len - lo) (drop offset versions)
        ≡ take (suc k) (drop offset versions) =
      take-agree (min (lo + suc k) len - lo) (suc k) (drop offset versions)
        (omega (arith, length-drop offset versions)) in
    let inside : leb lo (min (lo + suc k) len) ≡ true = ground arith in
    window_of_wrap k offset versions
    ∙ ap (λ (z : ℤ). slice lo (min_int z len) versions) (wrap_int_small (lo + suc k) (omega arith))
    ∙ rw inside (ap some (ap (take (min (lo + suc k) len - lo)) dropped ∙ taken))

-- With a positive limit, the slice expression panics exactly if the sum of the skipped versions and
-- the limit, as an `int`, is negative because it is out of range. The limit and the number of versions
-- are in the range of `int`.
pub window_panics :
    (k offset : ℕ) (versions : List SourceImage)
    → suc k < int_bound
    → length versions < int_bound
    → (window (pos (suc k)) offset versions ≡ none)
      ↔ (int_bound ≤ min offset (length versions) + suc k)
window_panics k offset versions limit short =
    let len = length versions in
    let lo = min offset len in
    let n = lo + suc k in
    let wrapped = λ (z : ℤ). slice lo (min_int z len) versions in
    let from_wrap = window_of_wrap k offset versions in
    (
      λ h. elim (Bool-cases (leb int_bound n)) [
        | inl above ↦ ground arith
        | inr below ↦
            let shown : window (pos (suc k)) offset versions ≡ slice lo (pos (min n len)) versions =
              from_wrap ∙ ap wrapped (wrap_int_small n (ground arith)) in
            let inside : leb lo (min n len) ≡ true = ground arith in
            absurd (ground (arith, shown, h, inside))
      ],
      λ above. from_wrap ∙ ap wrapped (wrap_int_large n above (omega arith)),
    )

modify-last :
    (f : SourceImage → SourceImage) (xs : List SourceImage) (y : SourceImage)
    → modify (xs ++ y ∷ []) (length xs) f ≡ xs ++ f y ∷ []
unfolding modify
modify-last f [] y = refl
modify-last f (x ∷ xs) y = ap (◌∷◌ x) (modify-last f xs y)

map-append :
    (f : SourceImage → SourceImage) (xs ys : List SourceImage)
    → map f (xs ++ ys) ≡ map f xs ++ map f ys
map-append f [] ys = refl
map-append f (x ∷ xs) ys = ap (◌∷◌ (f x)) (map-append f xs ys)

abbrev pub as_supported : SourceImage → SourceImage
as_supported v = record v { classification = some supported }

-- All versions but the last become supported and nothing else of them changes; the last one becomes
-- deprecated, and expires now if it has no date.
pub classify_shape :
    (now : Time) (vs : List SourceImage) (v : SourceImage)
    → classify now (vs ++ v ∷ [])
      ≡ map as_supported vs
        ++ record v {
          classification = some deprecated;
          expiration_date = elim v.expiration_date [ none ↦ some now | some t ↦ some t ];
        }
          ∷ []
unfolding classify classify_supported classify_last
classify_shape now vs v =
    let last : length (map classify_supported vs ++ classify_supported v ∷ []) - 1
        ≡ length (map classify_supported vs) =
      omega (arith, length-append (map classify_supported vs) (classify_supported v ∷ [])) in
    rw (map-append classify_supported vs (v ∷ []))
      (rw last (modify-last (classify_last now) (map classify_supported vs) (classify_supported v)))
