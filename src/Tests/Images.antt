-- ===== src/Tests/Images.antt =====
-- Image versions: capabilities and the image updater.
use Prim.Native.Nat.{Ordering}
use mathlib.Core.Logic.Or
use mathlib.Core.List.{Mem, eq-or-mem_of_mem-cons, not-mem-nil, foldl, Permᴰ, Perm}
use cloud_profile_sync.Common.{
  ◌≡◌, ◌≢◌, refl, sym, subst, ◌∙◌, ◌↔◌, String, string_eq, Option, none, some, true, ◌&&◌, List, [],
  ◌∷◌, All, select, keep_some, arith,
}
use cloud_profile_sync.Common.Dict.{Dict, lookup}
use cloud_profile_sync.Common.Result.{ok, err}
use cloud_profile_sync.Common.Sort.Sorted.{IsSorted}
use cloud_profile_sync.Common.Sort.Unique.{AreSeparate}
use cloud_profile_sync.Gardener.{MachineImage, RawExtension, MachineImageFlavor}
use cloud_profile_sync.Common.Order.{compare_text}
use cloud_profile_sync.Source.{SourceImage, effective_version}
use cloud_profile_sync.Capabilities.{entries, capabilities_equal, filter_capabilities}
use cloud_profile_sync.Capabilities.Equal.{capabilities_equal_iff}
use cloud_profile_sync.Capabilities.Allowed.{has_value, filter_capabilities_values}
use cloud_profile_sync.Updater.{
  fetch, compare_images, validate_version, validate_image_versions, upsert_all, apply,
}
use cloud_profile_sync.Indexed.{find, AreDistinct}
use cloud_profile_sync.Updater.Index.{version_of}
use cloud_profile_sync.Updater.Refine.{catalog, put, upsert_all-refines}
use cloud_profile_sync.Updater.Apply.{upsert_all-AreDistinct, is_other, apply_others}
use cloud_profile_sync.Updater.Fetch.{fetch-perm, compare_images-IsOrder, fetch_total}
use cloud_profile_sync.Updater.Validate.{IsUsable}
use cloud_profile_sync.Common.{is_some, any, ◌||◌}
use cloud_profile_sync.Updater.Listing.{listed_versions, brings, apply_lists}
use cloud_profile_sync.Tests.Data.{SourceImage-IsSet, texts, amd64, image, linux, windows, updater}

abbrev images : List SourceImage
images = image "2-amd64" "2" ∷ image "3-amd64" "3" ∷ []

upsert_all-refines_example :
    catalog (upsert_all texts updater images linux).versions
    ≡ foldl (put texts updater) (catalog linux.versions) images
unfolding find string_eq
upsert_all-refines_example = upsert_all-refines texts updater images linux (refl, (refl, tt))

versions_stay_distinct : AreDistinct version_of (upsert_all texts updater images linux).versions
unfolding find string_eq
versions_stay_distinct = upsert_all-AreDistinct texts updater images linux (refl, (refl, tt))

abbrev applied : List MachineImage × Option RawExtension
applied = elim (apply texts updater [] (linux ∷ windows ∷ []) (some "raw") images) [
  | ok r ↦ r
  | err _ ↦ ([], none)
]

apply_others_example :
    (select (is_other texts updater) applied.0
      ≡ select (is_other texts updater) (linux ∷ windows ∷ []))
    × (updater.provider ≡ none → applied.1 ≡ some "raw")
unfolding apply
apply_others_example =
    apply_others texts updater [] (linux ∷ windows ∷ []) (some "raw") images {result = applied} refl

apply_lists_example : is_some (find version_of "3" (listed_versions texts updater applied.0)) ≡ (
    is_some (find version_of "3" (listed_versions texts updater (linux ∷ windows ∷ [])))
    || any (brings texts updater "3") images)
unfolding apply find string_eq
apply_lists_example =
    apply_lists texts updater [] (linux ∷ windows ∷ []) (some "raw") images {result = applied} refl
      (refl, (refl, tt)) "3"

one_of_two :
    (a b x : SourceImage) (P : Type 0)
    → IsProp P
    → Mem x (a ∷ b ∷ [])
    → (x ≡ a → P)
    → (x ≡ b → P)
    → P
one_of_two a b x P prop m f g =
    Or.elim prop (eq-or-mem_of_mem-cons m) f
      (λ n. Or.elim prop (eq-or-mem_of_mem-cons n) g (λ k. absurd (not-mem-nil k)))

two_AreSeparate :
    (a b : SourceImage)
    → compare_images a b ≢ Ordering.eq
    → compare_images b a ≢ Ordering.eq
    → AreSeparate compare_images compare_images-IsOrder (a ∷ b ∷ [])
two_AreSeparate a b p q x y m n e =
    let prop : IsProp (x ≡ y) = SourceImage-IsSet x y in
    one_of_two a b x (x ≡ y) prop m
      (λ xa.
        one_of_two a b y (x ≡ y) prop n (λ ya. xa ∙ sym ya)
          (λ yb. absurd (
            p (
              subst (λ u. compare_images u b ≡ Ordering.eq) xa
                (subst (λ u. compare_images x u ≡ Ordering.eq) yb e)))))
      (λ xb.
        one_of_two a b y (x ≡ y) prop n
          (λ ya. absurd (
            q (
              subst (λ u. compare_images u a ≡ Ordering.eq) xb
                (subst (λ u. compare_images x u ≡ Ordering.eq) ya e))))
          (λ yb. xb ∙ sym yb))

first_two_AreSeparate :
    AreSeparate compare_images compare_images-IsOrder
      (validate_image_versions texts (image "2" "" ∷ image "3" "" ∷ []))
unfolding validate_image_versions compare_images keep_some validate_version compare_text
    effective_version string_eq
first_two_AreSeparate =
    two_AreSeparate (image "2" "") (image "3" "") (λ h. ground arith) (λ h. ground arith)

fetch-perm_example :
    fetch texts (record updater { source = ok (image "2" "" ∷ image "3" "" ∷ []) })
    ≡ fetch texts (record updater { source = ok (image "3" "" ∷ image "2" "" ∷ []) })
unfolding validate_image_versions compare_images
fetch-perm_example =
    fetch-perm texts updater (image "2" "" ∷ image "3" "" ∷ []) (image "3" "" ∷ image "2" "" ∷ [])
      (Permᴰ.swap refl refl) first_two_AreSeparate

fetch_total_example :
    (imgs : List SourceImage) × (fetch texts (record updater { source = ok images }) ≡ ok imgs)
    × IsSorted compare_images imgs
    × Perm imgs (validate_image_versions texts images)
    × All (IsUsable texts) imgs
fetch_total_example = fetch_total texts updater images refl

capabilities_equal_iff_example :
    (capabilities_equal amd64 amd64 ≡ true)
    ↔ ((k : String) → lookup k (entries amd64) ≡ lookup k (entries amd64))
unfolding lookup string_eq
capabilities_equal_iff_example = capabilities_equal_iff amd64 amd64 (refl, tt) (refl, tt)

abbrev flavor : MachineImageFlavor
flavor = record { capabilities = some (("architecture", "arm64" ∷ []) ∷ []) }

abbrev allowed : Dict String (List String)
allowed = ("architecture", "arm64" ∷ []) ∷ []

filter_capabilities_values_example :
    has_value (entries (filter_capabilities amd64 allowed)) "architecture" "amd64"
    ≡ has_value (entries amd64) "architecture" "amd64" && has_value allowed "architecture" "amd64"
unfolding lookup string_eq
filter_capabilities_values_example =
    filter_capabilities_values amd64 allowed "architecture" "amd64" (refl, tt)
