-- ===== src/Openstack/Laws.antt =====
-- What `Configure` does to the configuration's images.
use mathlib.Core.Path.{fun_ext}
use mathlib.Core.List.{foldl}
use cloud_profile_sync.Common.{
  ℕ, ◌≡◌, refl, sym, ap, subst, ◌∙◌, String, Option, none, some, Bool, not, List, [], ◌∷◌, ◌++◌,
  length, modify, select, index_func, Option-cases, inl, inr, ◌==◌, string_eq, if◌then◌else◌, arith,
}
use cloud_profile_sync.Common.Dict.{lookup, insert}
use cloud_profile_sync.Indexed.{
  IsIndexed, find, AreDistinct, index-IsIndexed, append-IsIndexed, find_absent, find_present,
  find-append, modify-IsIndexed, find-modify_self, find-modify_ne, modify-snoc, select-snoc,
  select-modify_first,
}
use cloud_profile_sync.Source.{RegionImage, SourceImage}
use cloud_profile_sync.Openstack.{
  RegionIdMapping, Version, Image, Config, OpenStackProvider, upsert_region, upsert_regions,
  update_entry, Versions, index_versions, ensure_entry, write_version, write_versions,
  update_config,
}

-- The id of a region, the first one if it is listed twice.
unfoldable pub region_id : String → List RegionIdMapping → Option String
region_id name [] = none
region_id name (r ∷ rs) = if r.name == name then some r.id else region_id name rs

-- The last id that the source's images give for a region.
unfoldable pub source_id : String → List RegionImage → Option String → Option String
source_id name [] id = id
source_id name (r ∷ rs) id = source_id name rs (if r.region == name then some r.id else id)

region_id-upsert_region :
    (regions : List RegionIdMapping) (name id other : String)
    → region_id other (upsert_region regions name id)
      ≡ (if name == other then some id else region_id other regions)
unfolding region_id upsert_region
region_id-upsert_region [] name id other = ground arith
region_id-upsert_region (r ∷ rs) name id other =
    ground (arith, region_id-upsert_region rs name id other)

-- A region's id becomes the last one that the source gives for it, and stays as it was if the
-- source gives none.
pub upsert_regions_ids :
    (imgs : List RegionImage) (regions : List RegionIdMapping) (name : String)
    → region_id name (upsert_regions regions imgs) ≡ source_id name imgs (region_id name regions)
unfolding upsert_regions source_id
upsert_regions_ids [] regions name = refl
upsert_regions_ids (r ∷ rs) regions name =
    upsert_regions_ids rs (upsert_region regions r.region r.id) name
    ∙ ap (source_id name rs) (region_id-upsert_region regions r.region r.id name)

abbrev pub version_of : Version → String
version_of v = v.version

abbrev pub empty_entry : String → Version
empty_entry version = record { version = version; regions = []; capability_flavors = [] }

abbrev pub Catalog : Type 0
Catalog = String → Option Version

abbrev pub catalog : List Version → Catalog
catalog vs k = find version_of k vs

module _ (p : OpenStackProvider) where
  -- The entry of a source image's version is updated, an empty one if there is none.
  abbrev pub put : Catalog → SourceImage → Catalog
  put m src k =
      if k == src.version
      then some (
          update_entry p src (elim (m src.version) [ some v ↦ v | none ↦ empty_entry src.version ]))
      else m k

  update_entry-version :
      (src : SourceImage) (v : Version) → (update_entry p src v).version ≡ v.version
  unfolding update_entry
  update_entry-version src v = ground arith

  write_found :
      (s : Versions) (src : SourceImage) (i : ℕ)
      → lookup src.version s.existing ≡ some i
      → write_version p s src ≡ record s { list = modify s.list i (update_entry p src) }
  unfolding write_version ensure_entry
  write_found s src i e = ground arith

  write_new :
      (s : Versions) (src : SourceImage)
      → lookup src.version s.existing ≡ none
      → write_version p s src ≡ record {
        list = s.list ++ update_entry p src (empty_entry src.version) ∷ [];
        existing = insert src.version (length s.list) s.existing;
      }
  unfolding write_version ensure_entry
  write_new s src e =
      ground (arith, modify-snoc s.list (empty_entry src.version) (update_entry p src))

  abbrev IsIn : Versions → Type 0
  IsIn s = IsIndexed version_of s.list s.existing

  write-IsIndexed : (s : Versions) (src : SourceImage) → IsIn s → IsIn (write_version p s src)
  write-IsIndexed s src h = elim (Option-cases (lookup src.version s.existing)) [
    | inr (i, e) ↦ subst IsIn (sym (write_found s src i e)) (
        modify-IsIndexed version_of (update_entry p src) (update_entry-version src) s.list
          s.existing i h)
    | inl e ↦
        let v = update_entry p src (empty_entry src.version) in
        subst IsIn (sym (write_new s src e)) (
          append-IsIndexed version_of s.list s.existing v src.version
            (update_entry-version src (empty_entry src.version)) h e)
  ]

  find-write :
      (s : Versions) (src : SourceImage)
      → IsIn s
      → (k : String) → catalog (write_version p s src).list k ≡ put (catalog s.list) src k
  find-write s src h k = elim (Option-cases (lookup src.version s.existing)) [
    | inr (i, e) ↦
        let at = sym (h src.version) ∙ e in
        let (v, q) = find_present version_of src.version s.list i at in
        rw (write_found s src i e) (
          ground (
            arith,
            find-modify_self version_of (update_entry p src) (update_entry-version src) src.version
                s.list i v at q,
            find-modify_ne version_of (update_entry p src) (update_entry-version src) k src.version
                s.list i at,
          ))
    | inl e ↦
        let absent = find_absent version_of src.version s.list (sym (h src.version) ∙ e) in
        rw (write_new s src e) (
          rw (find-append version_of k s.list (update_entry p src (empty_entry src.version)))
            (ground (arith, update_entry-version src (empty_entry src.version))))
  ]

  catalog-foldl :
      (imgs : List SourceImage) (s : Versions)
      → IsIn s
      → catalog (foldl (write_version p) s imgs).list ≡ foldl put (catalog s.list) imgs
  catalog-foldl [] s h = refl
  catalog-foldl (src ∷ imgs) s h =
      catalog-foldl imgs (write_version p s src) (write-IsIndexed s src h)
      ∙ ap (λ m. foldl put m imgs) (fun_ext (find-write s src h))

  -- If the versions of the image are distinct, the entries that `Configure` leaves are those of a
  -- map from versions to entries that is updated once for each source image, in their order.
  pub write_versions-refines :
      (imgs : List SourceImage) (image : Image)
      → AreDistinct version_of image.versions
      → catalog (write_versions p imgs image).versions ≡ foldl put (catalog image.versions) imgs
  unfolding write_versions index_versions
  write_versions-refines imgs image d =
      catalog-foldl imgs _ (
        index-IsIndexed version_of index_versions (λ i m. refl) (λ v vs i m. refl) image.versions d)

  abbrev pub is_named : Image → Bool
  is_named m = m.name == p.image_name

  -- `Configure` leaves the images of every other name, their order, and the rest of the
  -- configuration as they were.
  pub update_config_others :
      (imgs : List SourceImage) (cfg : Config)
      → let cfg' = update_config p imgs cfg in
        (select (λ m. not (is_named m)) cfg'.machine_images
          ≡ select (λ m. not (is_named m)) cfg.machine_images)
        × (cfg'.rest ≡ cfg.rest)
  unfolding update_config write_versions
  update_config_others imgs cfg = elim (Option-cases (index_func is_named cfg.machine_images)) [
    | inr (i, e) ↦
        rw (update_config, e)
          (
            select-modify_first is_named (write_versions p imgs) (λ m. refl) cfg.machine_images i e,
            refl,
          )
    | inl e ↦
        rw (update_config, e)
          (
            select-snoc (λ m. not (is_named m)) cfg.machine_images
                (write_versions p imgs (record { name = p.image_name; versions = [] }))
                (ground arith),
            refl,
          )
  ]
