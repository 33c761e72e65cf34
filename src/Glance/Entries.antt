-- ===== src/Glance/Entries.antt =====
-- The map that `GetVersions` gathers: each entry is what its version and its regions make it.
use cloud_profile_sync.Common.{
  ◌≡◌, ◌≢◌, refl, sym, ap, subst, ◌∙◌, ◌↔◌, inl, inr, String, none, some, false, List, [], ◌∷◌,
  ◌++◌, map, All, Option-cases, Bool-cases, string_eq, arith,
}
use cloud_profile_sync.Common.Dict.{Dict, lookup, insert, NodupKeys, insert-NodupKeys}
use cloud_profile_sync.Common.Keys.{keys, HaveSameKeys, NodupKeys-All}
use cloud_profile_sync.Common.Result.{Result, ok, err, ok_inj}
use cloud_profile_sync.Permuted.{nil_of_Permᴰ}
use mathlib.Core.Path.{ap₂}
use mathlib.Core.List.{Permᴰ}
use mathlib.Core.List.Permᴰ
use cloud_profile_sync.Source.{SourceImage, RegionImage}
use cloud_profile_sync.Capabilities.{architecture_capability}
use cloud_profile_sync.OciSource.{is_context_error}
use cloud_profile_sync.Glance.Versions.{Gathered, entry_for, add_images, gather}
use cloud_profile_sync.Glance.Gather.{regions_of}

-- The image that `discoverRegion` makes of a version, with these regions.
abbrev pub with_regions : String → List RegionImage → SourceImage
with_regions version regions = record {
  version = version;
  clean_version = version;
  architectures = "amd64" ∷ [];
  capabilities = some ((architecture_capability, "amd64" ∷ []) ∷ []);
  support_in_place_update = false;
  regions = regions;
  classification = none;
  expiration_date = none;
}

abbrev pub IsPlain : SourceImage → Type 0
IsPlain img = (img ≡ with_regions img.version img.regions) × (img.regions ≢ [])

abbrev pub IsKept : String × SourceImage → Type 0
IsKept (k, v) = (v ≡ with_regions k v.regions) × (v.regions ≢ [])

abbrev pub HasKept : Dict String SourceImage → Type 0
HasKept images = NodupKeys images × All IsKept images

insert-IsKept :
    (k : String) (v : SourceImage) (m : Dict String SourceImage)
    → IsKept (k, v)
    → All IsKept m
    → All IsKept (insert k v m)
unfolding insert
insert-IsKept k v [] p h = (p, tt)
insert-IsKept k v ((j, w) ∷ m) p (q, h) = elim (string_eq.dec k j) [
  | yes e ↦ ground (arith, e, p, h)
  | no n ↦ ground (arith, n, q, insert-IsKept k v m p h)
]

lookup-IsKept :
    (k : String) (v : SourceImage) (m : Dict String SourceImage)
    → All IsKept m
    → lookup k m ≡ some v
    → IsKept (k, v)
unfolding lookup
lookup-IsKept k v [] h e = absurd (ground (arith, e))
lookup-IsKept k v ((j, w) ∷ m) (p, h) e = elim (string_eq.dec k j) [
  | yes d ↦
      let same : w ≡ v = ground (arith, d, e) in
      subst (λ i. IsKept (i, v)) (sym d) (subst (λ u. IsKept (j, u)) same p)
  | no n ↦ lookup-IsKept k v m h (ground (arith, n, e))
]

append-ne_nil : (xs ys : List RegionImage) → ys ≢ [] → xs ++ ys ≢ []
append-ne_nil [] ys n e = n e
append-ne_nil (x ∷ xs) ys n e = absurd (ground (arith, e))

abbrev put_entry : SourceImage → SourceImage → SourceImage
put_entry img entry = record entry { regions = entry.regions ++ img.regions }

abbrev fresh_entry : SourceImage → SourceImage
fresh_entry img = record img {
  support_in_place_update = false;
  regions = [];
  classification = none;
  expiration_date = none;
}

put_entry-IsKept :
    (images : Dict String SourceImage) (img : SourceImage)
    → All IsKept images
    → IsPlain img
    → IsKept (img.version, put_entry img (entry_for images img))
unfolding entry_for
put_entry-IsKept images img h (p, n) = elim (Option-cases (lookup img.version images)) [
  | inl e ↦
      let same : entry_for images img ≡ fresh_entry img = ground (arith, e) in
      subst (λ v. IsKept (img.version, put_entry img v)) (sym same)
        (ap (λ v. put_entry img (fresh_entry v)) p, n)
  | inr (old, e) ↦
      let (q, _) = lookup-IsKept img.version old images h e in
      let same : entry_for images img ≡ old = ground (arith, e) in
      subst (λ v. IsKept (img.version, put_entry img v)) (sym same)
        (ap (put_entry img) q, append-ne_nil old.regions img.regions n)
]

add_images-HasKept :
    (imgs : List SourceImage) (s : Gathered)
    → All IsPlain imgs
    → HasKept s.images
    → HasKept (add_images s imgs).images
unfolding add_images
add_images-HasKept [] s _ h = h
add_images-HasKept (img ∷ imgs) s (p, ps) (u, h) =
    let entry = put_entry img (entry_for s.images img) in
    add_images-HasKept imgs _ ps (
      insert-NodupKeys img.version entry s.images u,
      insert-IsKept img.version entry s.images (put_entry-IsKept s.images img h p) h,
    )

-- An answer whose images are as `discoverRegion` makes them.
abbrev pub IsPlainAnswer : Result (List SourceImage) → Type 0
IsPlainAnswer (ok imgs) = All IsPlain imgs
IsPlainAnswer (err e) = Unit {0}

pub gather-HasKept :
    (arrivals : List (Result (List SourceImage))) (s : Gathered) {t : Gathered}
    → All IsPlainAnswer arrivals
    → HasKept s.images
    → gather s arrivals ≡ ok t
    → HasKept t.images
unfolding gather
gather-HasKept [] s {t} _ h e = subst (λ (u : Gathered). HasKept u.images) (ok_inj e) h
gather-HasKept (ok imgs ∷ rest) s (p, ps) h e =
    gather-HasKept rest (add_images s imgs) ps (add_images-HasKept imgs s p h) e
gather-HasKept (err d ∷ rest) s {t} (_, ps) h e = elim (Bool-cases (is_context_error d)) [
  | inl c ↦ absurd (ground (arith, c, e))
  | inr c ↦
      let next : gather (record s { skipped = s.skipped ++ d ∷ [] }) rest ≡ ok t =
        ground (arith, c, e) in
      gather-HasKept rest (record s { skipped = s.skipped ++ d ∷ [] }) {t = t} ps h next
]

no_regions :
    (k : String) (m : Dict String SourceImage)
    → All IsKept m
    → lookup k m ≡ none ↔ regions_of k m ≡ []
unfolding regions_of
no_regions k m h = (
  λ e. ground (arith, e),
  λ e. elim (Option-cases (lookup k m)) [
    | inl p ↦ p
    | inr (v, p) ↦ absurd ((lookup-IsKept k v m h p).1 (ground (arith, e, p)))
  ],
)

-- Where each version has the same regions in some order, the versions are the same.
pub regions-HaveSameKeys :
    (a b : Dict String SourceImage)
    → HasKept a
    → HasKept b
    → ((k : String) → Permᴰ (regions_of k a) (regions_of k b))
    → HaveSameKeys a b
regions-HaveSameKeys a b (_, h) (_, g) p k =
    let (to_a, from_a) = no_regions k a h in
    let (to_b, from_b) = no_regions k b g in
    (
      λ e. from_b (nil_of_Permᴰ _ (subst (λ r. Permᴰ r (regions_of k b)) (to_a e) (p k))),
      λ e.
          from_a
            (nil_of_Permᴰ _ (subst (λ r. Permᴰ r (regions_of k a)) (to_b e) (Permᴰ.symm (p k)))),
    )

abbrev pub entry_of : Dict String SourceImage → String → SourceImage
entry_of images k = with_regions k (regions_of k images)

abbrev pub values : Dict String SourceImage → List SourceImage
values = map (λ (_, img). img)

values_within :
    (images m : Dict String SourceImage)
    → All (λ (p : String × SourceImage). lookup p.0 images ≡ some p.1) m
    → All IsKept m
    → values m ≡ map (entry_of images) (keys m)
unfolding regions_of
values_within images [] _ _ = refl
values_within images ((k, v) ∷ m) (e, es) ((p, _), h) =
    let here : regions_of k images ≡ v.regions = ground (arith, e) in
    ap₂ ◌∷◌ (p ∙ ap (with_regions k) (sym here)) (values_within images m es h)

-- The loop over the map gives its entries.
pub values-keys :
    (images : Dict String SourceImage)
    → HasKept images
    → values images ≡ map (entry_of images) (keys images)
values-keys images (u, h) = values_within images images (NodupKeys-All images u) h
