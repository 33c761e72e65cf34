-- ===== src/Updater/Refine.antt =====
-- The loop of `Apply` over a list with an index, against an update of a map from versions to
-- entries.
use mathlib.Core.Path.{fun_ext}
use mathlib.Core.List.{foldl}
use cloud_profile_sync.Common.{
  ◌≡◌, refl, sym, ap, ◌∙◌, String, Option, none, some, not, ◌&&◌, List, [], ◌∷◌, Option-cases,
  Bool-cases, inl, inr, ◌==◌, string_eq, if◌then◌else◌, arith,
}
use cloud_profile_sync.Common.Dict.{lookup}
use cloud_profile_sync.Semver.{Semver}
use cloud_profile_sync.Gardener.{MachineImage, MachineImageVersion}
use cloud_profile_sync.Source.{SourceImage}
use cloud_profile_sync.Updater.{
  ImageUpdater, Versions, update_legacy, update_clean, new_legacy, new_clean, upsert_legacy_version,
  upsert_clean_version, upsert, upsert_all, is_ok,
}
use cloud_profile_sync.Indexed.{
  find, AreDistinct, find_absent, find_present, find-append, find-modify_self, find-modify_ne,
}
use cloud_profile_sync.Updater.Index.{
  version_of, IsIn, start-IsIn, upsert_legacy_found, upsert_legacy_new, upsert_legacy_skip,
  upsert_clean_found, upsert_clean_new, upsert-IsIn, upsert_legacy-IsIn,
}

-- What an image lists, as a map from version to entry.
abbrev pub Catalog : Type 0
Catalog = String → Option MachineImageVersion

abbrev pub catalog : List MachineImageVersion → Catalog
catalog vs k = find version_of k vs

module _ (S : Semver) (iu : ImageUpdater) where
  -- An entry is updated under its version; a new one is made if the tag is a version.
  abbrev pub put_legacy : Catalog → SourceImage → Catalog
  put_legacy m src k =
      if k == src.version
      then elim (m src.version) [
        | some v ↦ some (update_legacy S iu src v)
        | none ↦ if is_ok (S.parse src.version) then some (new_legacy S iu src) else none
      ]
      else m k

  abbrev pub put_clean : Catalog → SourceImage → Catalog
  put_clean m src k =
      if k == src.clean_version
      then elim (m src.clean_version) [
        | some v ↦ some (update_clean S iu src v)
        | none ↦ some (new_clean S iu src)
      ]
      else m k

  abbrev pub put : Catalog → SourceImage → Catalog
  put m src =
      if iu.enable_capabilities && not (src.clean_version == "")
      then put_clean (put_legacy m src) src
      else put_legacy m src

  module _ (s : Versions) (src : SourceImage) (h : IsIn s) (k : String) where
    find-upsert_legacy :
        find version_of k (upsert_legacy_version S iu s src).list
        ≡ put_legacy (catalog s.list) src k
    unfolding update_legacy new_legacy
    find-upsert_legacy = elim (Option-cases (lookup src.version s.existing)) [
      | inr (i, e) ↦
          let at = sym (h src.version) ∙ e in
          let (v, p) = find_present version_of src.version s.list i at in
          rw (upsert_legacy_found S iu s src i e) (
            ground (
              arith,
              find-modify_self version_of (update_legacy S iu src) (λ w. refl) src.version s.list i
                  v at p,
              find-modify_ne version_of (update_legacy S iu src) (λ w. refl) k src.version s.list i
                  at,
            ))
      | inl e ↦
          let absent = find_absent version_of src.version s.list (sym (h src.version) ∙ e) in
          elim (Bool-cases (is_ok (S.parse src.version))) [
            | inl p ↦
                rw (upsert_legacy_new S iu s src e p)
                  (rw (find-append version_of k s.list (new_legacy S iu src)) (ground arith))
            | inr p ↦ rw (upsert_legacy_skip S iu s src e p) (ground arith)
          ]
    ]

    find-upsert_clean :
        find version_of k (upsert_clean_version S iu s src).list ≡ put_clean (catalog s.list) src k
    unfolding update_clean new_clean
    find-upsert_clean = elim (Option-cases (lookup src.clean_version s.existing)) [
      | inr (i, e) ↦
          let at = sym (h src.clean_version) ∙ e in
          let (v, p) = find_present version_of src.clean_version s.list i at in
          rw (upsert_clean_found S iu s src i e) (
            ground (
              arith,
              find-modify_self version_of (update_clean S iu src) (λ w. refl) src.clean_version
                  s.list i v at p,
              find-modify_ne version_of (update_clean S iu src) (λ w. refl) k src.clean_version
                  s.list i at,
            ))
      | inl e ↦
          let absent =
            find_absent version_of src.clean_version s.list (sym (h src.clean_version) ∙ e) in
          rw (upsert_clean_new S iu s src e)
            (rw (find-append version_of k s.list (new_clean S iu src)) (ground arith))
    ]

  catalog-upsert :
      (s : Versions) (src : SourceImage)
      → IsIn s
      → catalog (upsert S iu s src).list ≡ put (catalog s.list) src
  unfolding upsert
  catalog-upsert s src h =
      let legacy = fun_ext (find-upsert_legacy s src h) in
      elim (Bool-cases (iu.enable_capabilities && not (src.clean_version == ""))) [
        | inl t ↦ rw t (
            fun_ext (
              find-upsert_clean (upsert_legacy_version S iu s src) src
                (upsert_legacy-IsIn S iu s src h))
            ∙ ap (λ m. put_clean m src) legacy)
        | inr t ↦ rw t legacy
      ]

  catalog-foldl :
      (imgs : List SourceImage) (s : Versions)
      → IsIn s
      → catalog (foldl (upsert S iu) s imgs).list ≡ foldl put (catalog s.list) imgs
  catalog-foldl [] s h = refl
  catalog-foldl (src ∷ imgs) s h =
      catalog-foldl imgs (upsert S iu s src) (upsert-IsIn S iu s src h)
      ∙ ap (λ m. foldl put m imgs) (catalog-upsert s src h)

  -- If the versions of the image are distinct, the entries after the loop of `Apply` are those of a
  -- map from versions to entries that is updated once for each source image, in their order.
  pub upsert_all-refines :
      (imgs : List SourceImage) (image : MachineImage)
      → AreDistinct version_of image.versions
      → catalog (upsert_all S iu imgs image).versions ≡ foldl put (catalog image.versions) imgs
  unfolding upsert_all
  upsert_all-refines imgs image d = catalog-foldl imgs _ (start-IsIn image.versions d)
