-- ===== src/Updater/Index.antt =====
-- The loop of `Apply` in os_image_updater.go: the list of versions and the index by version.
use cloud_profile_sync.Common.{
  ℕ, ◌≡◌, refl, sym, subst, String, none, some, true, false, not, ◌&&◌, List, [], modify,
  Option-cases, Bool-cases, inl, inr, ◌==◌, string_eq, arith,
}
use cloud_profile_sync.Common.Dict.{lookup}
use cloud_profile_sync.Indexed.{
  IsIndexed, AreDistinct, index-IsIndexed, append-IsIndexed, modify-IsIndexed,
}
use cloud_profile_sync.Semver.{Semver}
use cloud_profile_sync.Gardener.{MachineImageVersion}
use cloud_profile_sync.Source.{SourceImage}
use cloud_profile_sync.Updater.{
  ImageUpdater, Versions, index_versions, append_version, update_legacy, update_clean, new_legacy,
  new_clean, upsert_legacy_version, upsert_clean_version, upsert, is_ok,
}

abbrev pub version_of : MachineImageVersion → String
version_of v = v.version

-- The index has the position of each version that is listed, and of no other.
abbrev pub IsIn : Versions → Type 0
IsIn s = IsIndexed version_of s.list s.existing

-- The index that `Apply` starts from agrees with a list of distinct versions.
pub start-IsIn :
    (vs : List MachineImageVersion)
    → AreDistinct version_of vs
    → IsIn (record { list = vs; existing = index_versions vs 0 [] })
unfolding index_versions
start-IsIn vs d = index-IsIndexed version_of index_versions (λ i m. refl) (λ v vs i m. refl) vs d

module _ (S : Semver) (iu : ImageUpdater) (s : Versions) (src : SourceImage) where
  -- What the two upserts do, case by case.
  pub upsert_legacy_found :
      (i : ℕ)
      → lookup src.version s.existing ≡ some i
      → upsert_legacy_version S iu s src
        ≡ record s { list = modify s.list i (update_legacy S iu src) }
  unfolding upsert_legacy_version
  upsert_legacy_found i e = ground arith

  pub upsert_legacy_new :
      lookup src.version s.existing ≡ none
      → is_ok (S.parse src.version) ≡ true
      → upsert_legacy_version S iu s src ≡ append_version s (new_legacy S iu src)
  unfolding upsert_legacy_version
  upsert_legacy_new e p = ground arith

  pub upsert_legacy_skip :
      lookup src.version s.existing ≡ none
      → is_ok (S.parse src.version) ≡ false
      → upsert_legacy_version S iu s src ≡ s
  unfolding upsert_legacy_version
  upsert_legacy_skip e p = ground arith

  pub upsert_clean_found :
      (i : ℕ)
      → lookup src.clean_version s.existing ≡ some i
      → upsert_clean_version S iu s src
        ≡ record s { list = modify s.list i (update_clean S iu src) }
  unfolding upsert_clean_version
  upsert_clean_found i e = ground arith

  pub upsert_clean_new :
      lookup src.clean_version s.existing ≡ none
      → upsert_clean_version S iu s src ≡ append_version s (new_clean S iu src)
  unfolding upsert_clean_version
  upsert_clean_new e = ground arith

  pub upsert_legacy-IsIn : IsIn s → IsIn (upsert_legacy_version S iu s src)
  unfolding update_legacy new_legacy
  upsert_legacy-IsIn h = elim (Option-cases (lookup src.version s.existing)) [
    | inr (i, e) ↦
        subst IsIn (sym (upsert_legacy_found i e))
          (modify-IsIndexed version_of (update_legacy S iu src) (λ v. refl) s.list s.existing i h)
    | inl e ↦ elim (Bool-cases (is_ok (S.parse src.version))) [
      | inl p ↦
          subst IsIn (sym (upsert_legacy_new e p)) (
            append-IsIndexed version_of s.list s.existing (new_legacy S iu src) src.version refl h
              e)
      | inr p ↦ subst IsIn (sym (upsert_legacy_skip e p)) h
    ]
  ]

  pub upsert_clean-IsIn : IsIn s → IsIn (upsert_clean_version S iu s src)
  unfolding update_clean new_clean
  upsert_clean-IsIn h = elim (Option-cases (lookup src.clean_version s.existing)) [
    | inr (i, e) ↦
        subst IsIn (sym (upsert_clean_found i e))
          (modify-IsIndexed version_of (update_clean S iu src) (λ v. refl) s.list s.existing i h)
    | inl e ↦ subst IsIn (sym (upsert_clean_new e)) (
        append-IsIndexed version_of s.list s.existing (new_clean S iu src) src.clean_version refl h
          e)
  ]

module _ (S : Semver) (iu : ImageUpdater) where
  -- One source image keeps the index in agreement with the list.
  pub upsert-IsIn : (s : Versions) (src : SourceImage) → IsIn s → IsIn (upsert S iu s src)
  unfolding upsert
  upsert-IsIn s src h =
      let h' = upsert_legacy-IsIn S iu s src h in
      elim (Bool-cases (iu.enable_capabilities && not (src.clean_version == ""))) [
        | inl t ↦ rw t (upsert_clean-IsIn S iu (upsert_legacy_version S iu s src) src h')
        | inr t ↦ rw t h'
      ]
