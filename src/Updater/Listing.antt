-- ===== src/Updater/Listing.antt =====
-- Which versions `Apply` of os_image_updater.go lists.
use mathlib.Core.List.{foldl}
use cloud_profile_sync.Common.{
  ℕ, ◌≡◌, refl, sym, ap, ◌∙◌, String, Option, none, some, Bool, true, not, ◌&&◌, ◌||◌, List, [],
  ◌∷◌, ◌++◌, map, modify, index_func, is_some, any, ◌==◌, string_eq, if◌then◌else◌, arith,
}
use cloud_profile_sync.Common.Result.{ok, >>=-eq-ok}
use cloud_profile_sync.Semver.{Semver}
use cloud_profile_sync.Gardener.{
  MachineImage, MachineImageVersion, CapabilityDefinition, RawExtension,
}
use cloud_profile_sync.Source.{SourceImage}
use cloud_profile_sync.Indexed as Indexed
use cloud_profile_sync.Indexed.{modify-snoc}
use cloud_profile_sync.Updater.{
  ImageUpdater, upsert_all, ensure_at, ensure_image, restrict, apply, invoke_provider, is_ok,
}
use cloud_profile_sync.Indexed.{find, AreDistinct}
use cloud_profile_sync.Updater.Index.{version_of}
use cloud_profile_sync.Updater.Refine.{Catalog, catalog, put, upsert_all-refines}

abbrev pub name_of : MachineImage → String
name_of img = img.name

abbrev pub versions_of : Option MachineImage → List MachineImageVersion
versions_of none = []
versions_of (some img) = img.versions

abbrev pub versions_named : String → List MachineImage → List MachineImageVersion
versions_named name images = versions_of (Indexed.find name_of name images)

module _ (S : Semver) (iu : ImageUpdater) where
  -- Whether a source image brings a version: its tag, if that is a version, or its clean version.
  abbrev pub brings : String → SourceImage → Bool
  brings k src =
      (k == src.version && is_ok (S.parse src.version))
      || (iu.enable_capabilities && not (src.clean_version == "") && k == src.clean_version)

  put-some :
      (m : Catalog) (src : SourceImage) (k : String)
      → is_some (put S iu m src k) ≡ (is_some (m k) || brings k src)
  put-some m src k = ground arith

  foldl-put-some :
      (imgs : List SourceImage) (m : Catalog) (k : String)
      → is_some (foldl (put S iu) m imgs k) ≡ (is_some (m k) || any (brings k) imgs)
  unfolding any
  foldl-put-some [] m k = ground arith
  foldl-put-some (src ∷ imgs) m k =
      foldl-put-some imgs (put S iu m src) k ∙ ground (arith, put-some m src k)

  -- Restricting the capabilities leaves the versions.
  any-restrict :
      (defs : List CapabilityDefinition) (k : String) (imgs : List SourceImage)
      → any (brings k) (map (restrict S iu defs) imgs) ≡ any (brings k) imgs
  unfolding any restrict
  any-restrict defs k [] = refl
  any-restrict defs k (src ∷ imgs) =
      ap (λ b. if brings k src then true else b) (any-restrict defs k imgs)

  -- The versions that the first image of the updater's name lists.
  abbrev pub listed_versions : List MachineImage → List MachineImageVersion
  listed_versions images = versions_named iu.image_name images

  module _ (f : MachineImage → MachineImage) (same : (img : MachineImage) → (f img).name ≡ img.name)
      (g : List MachineImageVersion → List MachineImageVersion)
      (inside : (img : MachineImage) → (f img).versions ≡ g img.versions)
      (base : List MachineImage) where
    listed_at :
        (o : Option ℕ)
        → index_func (λ img. img.name == iu.image_name) base ≡ o
        → listed_versions (modify (ensure_at S iu base o).0 (ensure_at S iu base o).1 f)
          ≡ g (listed_versions base)
    listed_at (some i) e =
        let (img, found) = Indexed.find_present name_of iu.image_name base i e in
        ap versions_of (Indexed.find-modify_self name_of f same iu.image_name base i img e found)
        ∙ inside img
        ∙ ap (λ o. g (versions_of o)) (sym found)
    listed_at none e =
        let new : MachineImage = record { name = iu.image_name; versions = [] } in
        let absent = Indexed.find_absent name_of iu.image_name base e in
        let appended : Indexed.find name_of iu.image_name (base ++ f new ∷ []) ≡ some (f new) =
          ground
            (arith, Indexed.find-append name_of iu.image_name base (f new), absent, same new) in
        ap (λ images. versions_of (Indexed.find name_of iu.image_name images))
          (modify-snoc base new f)
        ∙ ap versions_of appended
        ∙ inside new
        ∙ ap (λ o. g (versions_of o)) (sym absent)

  -- The images after `Apply`, and the versions that the image of the updater's name then lists.
  module _ (defs : List CapabilityDefinition) (base : List MachineImage)
      (config : Option RawExtension) (imgs : List SourceImage)
      {result : List MachineImage × Option RawExtension}
      (h : apply S iu defs base config imgs ≡ ok result) where
    abbrev pub restricted : List SourceImage
    restricted = map (restrict S iu defs) imgs

    abbrev before : MachineImage
    before = record { name = iu.image_name; versions = listed_versions base }

    pub apply_images :
        result.0
        ≡ modify (ensure_image S iu base).0 (ensure_image S iu base).1 (upsert_all S iu restricted)
    unfolding apply
    apply_images =
        let (config', e, final) =
          >>=-eq-ok (invoke_provider S iu iu.provider config restricted) _ h in
        ground arith

    pub apply_versions : listed_versions result.0 ≡ (upsert_all S iu restricted before).versions
    unfolding ensure_image upsert_all
    apply_versions =
        let update = upsert_all S iu restricted in
        ap listed_versions apply_images
        ∙ listed_at update (λ img. refl)
            (λ vs. (update (record { name = iu.image_name; versions = vs })).versions) (λ img. refl)
            base (index_func (λ img. img.name == iu.image_name) base) refl

  -- After `Apply` the image of the updater's name lists a version exactly if it did so before, or a
  -- source image brings it: as its tag, if that is a version, or as its clean version, if
  -- capabilities are enabled. The condition is that `Apply` succeeds and that the versions were
  -- listed once each.
  pub apply_lists :
      (defs : List CapabilityDefinition) (base : List MachineImage) (config : Option RawExtension)
      (imgs : List SourceImage) {result : List MachineImage × Option RawExtension}
      → apply S iu defs base config imgs ≡ ok result
      → AreDistinct version_of (listed_versions base)
      → (k : String)
      → is_some (find version_of k (listed_versions result.0))
        ≡ (is_some (find version_of k (listed_versions base)) || any (brings k) imgs)
  apply_lists defs base config imgs h d k =
      let limited = map (restrict S iu defs) imgs in
      ap (λ vs. is_some (find version_of k vs)) (apply_versions defs base config imgs h)
      ∙ ap (λ m. is_some (m k))
          (upsert_all-refines S iu limited
            (record { name = iu.image_name; versions = listed_versions base }) d)
      ∙ foldl-put-some limited (catalog (listed_versions base)) k
      ∙ ap (λ b. is_some (find version_of k (listed_versions base)) || b) (any-restrict defs k imgs)
