-- ===== src/Updater/Fetch.antt =====
-- `Fetch` of os_image_updater.go: the images of the source, their order and the filter.
use mathlib.Core.List.{Perm, Permᴰ}
use cloud_profile_sync.Common.{
  ◌≡◌, refl, ap, none, List, ◌∷◌, All, keep_some, Option-cases, inl, inr, [], ◌++◌, ◌∙◌,
}
use cloud_profile_sync.Common.Order.{IsOrder, compare_text-IsOrder, or_then-IsOrder, by_key-IsOrder}
use cloud_profile_sync.Permuted.{loop-Permᴰ}
use cloud_profile_sync.Common.Result.{ok}
use cloud_profile_sync.Common.Sort.{sort_func}
use cloud_profile_sync.Common.Sort.Sorted.{
  IsSorted, sort_func-IsSorted, sort_func-perm, All-sort_func,
}
use cloud_profile_sync.Common.Sort.Unique.{AreSeparate, sort_func-Permᴰ}
use cloud_profile_sync.Semver.{Semver}
use cloud_profile_sync.Source.{SourceImage, effective_version}
use cloud_profile_sync.Updater.{
  ImageUpdater, apply_filter, fetch, compare_images, validate_version, validate_image_versions,
}
use cloud_profile_sync.Updater.Validate.{IsUsable, validate-All-IsUsable}

pub compare_images-IsOrder : IsOrder compare_images
unfolding compare_images
compare_images-IsOrder =
    or_then-IsOrder (by_key-IsOrder effective_version compare_text-IsOrder)
      (by_key-IsOrder (λ (a : SourceImage). a.version) compare_text-IsOrder)

module _ (S : Semver) where
  validate-cons :
      (img : SourceImage) (imgs : List SourceImage)
      → validate_image_versions S (img ∷ imgs)
        ≡ keep_some (validate_version S img) (validate_image_versions S imgs)
  unfolding validate_image_versions
  validate-cons img imgs = refl

  validate-append :
      (img : SourceImage) (imgs : List SourceImage)
      → validate_image_versions S (img ∷ imgs)
        ≡ keep_some (validate_version S img) [] ++ validate_image_versions S imgs
  unfolding keep_some
  validate-append img imgs = elim (Option-cases (validate_version S img)) [
    | inl e ↦ validate-cons img imgs ∙ rw e refl
    | inr (kept, e) ↦ validate-cons img imgs ∙ rw e refl
  ]

  validate-Permᴰ :
      (l m : List SourceImage)
      → Permᴰ l m
      → Permᴰ (validate_image_versions S l) (validate_image_versions S m)
  unfolding validate_image_versions
  validate-Permᴰ =
      loop-Permᴰ (validate_image_versions S) (λ img. keep_some (validate_version S img) []) refl
        validate-append

  -- If no two different images that pass validation compare as equal, then a source that lists the
  -- same images in another order gives the same result, whatever the filter is.
  pub fetch-perm :
      (iu : ImageUpdater) (l m : List SourceImage)
      → Permᴰ l m
      → AreSeparate compare_images compare_images-IsOrder (validate_image_versions S l)
      → fetch S (record iu { source = ok l }) ≡ fetch S (record iu { source = ok m })
  unfolding fetch
  fetch-perm iu l m p s =
      ap (λ imgs. ok (apply_filter iu.filter imgs))
        (sort_func-Permᴰ compare_images compare_images-IsOrder (validate-Permᴰ l m p) s)

  -- Without a filter and with a source that answers, `Fetch` succeeds: the result is in order,
  -- holds just the images that pass validation, and all of them are usable.
  pub fetch_total :
      (iu : ImageUpdater) (l : List SourceImage)
      → iu.filter ≡ none
      → (imgs : List SourceImage) × (fetch S (record iu { source = ok l }) ≡ ok imgs)
        × IsSorted compare_images imgs
        × Perm imgs (validate_image_versions S l)
        × All (IsUsable S) imgs
  unfolding fetch
  fetch_total iu l e = (
    sort_func compare_images (validate_image_versions S l),
    rw e,
    sort_func-IsSorted compare_images compare_images-IsOrder _,
    sort_func-perm compare_images _,
    All-sort_func compare_images (IsUsable S) _ (validate-All-IsUsable S l),
  )
