-- ===== src/Updater/Validate.antt =====
-- Which images `validateImageVersions` keeps, and in what form.
use cloud_profile_sync.Common.{
  ◌≡◌, refl, ap, ◌⊎◌, inl, inr, Option, none, some, true, false, List, [], ◌∷◌, string_eq, is_empty,
  All, keep_some, ◌≢◌, arith,
}
use cloud_profile_sync.Common.Result.{Result, ok, err}
use cloud_profile_sync.Semver.{Semver, IsSemver}
use cloud_profile_sync.Source.{SourceImage}
use cloud_profile_sync.Updater.{is_ok, normalize_clean, validate_version, validate_image_versions}

module _ (S : Semver) where
  -- It has an architecture, and either a clean version in the form that semver prints or none and a
  -- tag that is a version.
  abbrev pub IsUsable : SourceImage → Type 0
  IsUsable img =
      (is_empty img.architectures ≡ false)
      × (((img.clean_version ≡ "") × (is_ok (S.parse img.version) ≡ true))
          ⊎ ((v : S.Version) × (img.clean_version ≡ S.string v)))

  normalize_clean_cases :
      (img : SourceImage)
      → (normalize_clean S img ≡ (record img { clean_version = "" }, false))
        ⊎ ((v : S.Version) × (normalize_clean S img
              ≡ (record img { clean_version = S.string v }, true)))
  unfolding normalize_clean
  normalize_clean_cases img = elim (string_eq.dec img.clean_version "") [
    | yes e ↦ inl (ground arith)
    | no n ↦ go n (S.parse_tolerant img.clean_version) refl
  ]
    where
      go :
          img.clean_version ≢ ""
          → (r : Result S.Version) → S.parse_tolerant img.clean_version ≡ r
          → (normalize_clean S img ≡ (record img { clean_version = "" }, false))
            ⊎ ((v : S.Version) × (normalize_clean S img
                  ≡ (record img { clean_version = S.string v }, true)))
      go n (ok v) e = inr (v, ground arith)
      go n (err x) e = inl (ground arith)

  validate_version-IsUsable :
      (img img' : SourceImage) → validate_version S img ≡ some img' → IsUsable img'
  unfolding validate_version
  validate_version-IsUsable img img' h = elim (normalize_clean_cases img) [
    | inl e ↦ (ground arith, inl (ground arith, ground arith))
    | inr (v, e) ↦ (ground arith, inr (v, ground arith))
  ]

  All-keep_some :
      (o : Option SourceImage) (rest : List SourceImage)
      → ((img : SourceImage) → o ≡ some img → IsUsable img)
      → All IsUsable rest
      → All IsUsable (keep_some o rest)
  unfolding keep_some
  All-keep_some none rest h hs = hs
  All-keep_some (some img) rest h hs = (h img refl, hs)

  pub validate-All-IsUsable :
      (imgs : List SourceImage) → All IsUsable (validate_image_versions S imgs)
  unfolding validate_image_versions
  validate-All-IsUsable [] = tt
  validate-All-IsUsable (img ∷ imgs) =
      All-keep_some (validate_version S img) _ (validate_version-IsUsable img)
        (validate-All-IsUsable imgs)

  module _ (L : IsSemver S) where
    validate_version_usable : (img : SourceImage) → IsUsable img → validate_version S img ≡ some img
    unfolding validate_version
    validate_version_usable img (archs, inl (unclean, legacy)) = ground arith
    validate_version_usable img (archs, inr (v, e)) =
        ground (arith, L.parse_tolerant-string v, L.string-ne-nil v)

    validate_usable :
        (imgs : List SourceImage) → All IsUsable imgs → validate_image_versions S imgs ≡ imgs
    unfolding validate_image_versions keep_some
    validate_usable [] _ = refl
    validate_usable (img ∷ imgs) (u, us) =
        rw (validate_version_usable img u, keep_some) (ap (◌∷◌ img) (validate_usable imgs us))

    -- With the laws of semver, every image that is kept is usable, and validating what is kept
    -- once more changes nothing.
    pub validate_idempotent :
        (imgs : List SourceImage)
        → All IsUsable (validate_image_versions S imgs)
          × (validate_image_versions S (validate_image_versions S imgs)
              ≡ validate_image_versions S imgs)
    validate_idempotent imgs =
        (validate-All-IsUsable imgs, validate_usable _ (validate-All-IsUsable imgs))
