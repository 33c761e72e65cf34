-- ===== src/Updater.antt =====
-- `ImageUpdater` of cloudprofilesync/ossync/os_image_updater.go. Log lines are left out.
pub mod Validate
pub mod Fetch
pub mod Index
pub mod Refine
pub mod Apply
pub mod Listing
pub mod Kept
use Prim.Native.Nat.{Ordering}
use mathlib.Core.List.{foldl}
use cloud_profile_sync.Common.{
  ℕ, zero, suc, ◌+◌, String, Option, none, some, Bool, true, false, not, ◌&&◌, List, [], ◌∷◌, ◌++◌,
  map, length, is_empty, keep_some, modify, contains, index_func, ◌==◌, nat_eq, string_eq,
  if◌then◌else◌,
}
use cloud_profile_sync.Common.Dict.{Dict, lookup, insert}
use cloud_profile_sync.Common.Order.{compare_text, or_then}
use cloud_profile_sync.Common.Result.{Result, ok, err, ◌>>=◌, wrapped}
use cloud_profile_sync.Common.Sort.{sort_func}
use cloud_profile_sync.Semver.{Semver}
use cloud_profile_sync.Gardener.{
  Time, RawExtension, Classification, InPlaceUpdates, MachineImage, MachineImageVersion,
  CapabilityDefinition,
}
use cloud_profile_sync.Source.{SourceImage, Source, Provider, VersionFilter, effective_version}
use cloud_profile_sync.Capabilities.{
  merge_capability_flavor, allowed_capability_values, filter_capabilities,
}

-- Whether a call returned no error.
abbrev pub is_ok {ℓ} : {A : Type ℓ} → Result A → Bool
is_ok (ok a) = true
is_ok (err e) = false

module _ (S : Semver) where
  -- The clean version as semver prints it, or "" if it cannot be read, and whether it can.
  unfoldable pub normalize_clean : SourceImage → SourceImage × Bool
  normalize_clean img =
      if img.clean_version == "" then (img, false) else elim (S.parse_tolerant img.clean_version) [
        | ok parsed ↦ (record img { clean_version = S.string parsed }, true)
        | err _ ↦ (record img { clean_version = "" }, false)
      ]

  -- One round of the loop; none is `continue`.
  unfoldable pub validate_version : SourceImage → Option SourceImage
  unfolding normalize_clean
  validate_version img =
      let (img', valid_clean) = normalize_clean img in
      if is_empty img.architectures
      then none
      else if not (is_ok (S.parse img.version)) && not valid_clean
      then none
      else some img'

  unfoldable pub validate_image_versions : List SourceImage → List SourceImage
  validate_image_versions [] = []
  validate_image_versions (img ∷ imgs) =
      keep_some (validate_version img) (validate_image_versions imgs)

unfoldable pub resolve_expiration : SourceImage → Option Time → Option Time
resolve_expiration src (some t) = some t
resolve_expiration src none = src.expiration_date

unfoldable pub build_in_place_updates : Bool → Option String → Option InPlaceUpdates
build_in_place_updates false min_version = none
build_in_place_updates true min_version =
    some (record { supported = true; min_version_for_update = min_version })

unfoldable pub compare_images : SourceImage → SourceImage → Ordering
compare_images a b =
    or_then (compare_text (effective_version a) (effective_version b))
      (compare_text a.version b.version)

pub record ImageUpdater : Type 0 where
  pub source : Source
  pub provider : Option Provider
  pub image_name : String
  pub enable_capabilities : Bool
  pub min_version_for_update : Option String
  pub filter : Option VersionFilter

abbrev pub apply_filter : Option VersionFilter → List SourceImage → List SourceImage
apply_filter none imgs = imgs
apply_filter (some f) imgs = f imgs

unfoldable pub fetch : Semver → ImageUpdater → Result (List SourceImage)
unfolding validate_image_versions compare_images
fetch S iu = do
  imgs ← wrapped "failed to retrieve image versions from OCI registry: %w" [] iu.source
  ok (apply_filter iu.filter (sort_func compare_images (validate_image_versions S imgs)))

-- `image.Versions` with the index by version that `Apply` keeps beside it.
pub record Versions : Type 0 where
  pub list : List MachineImageVersion
  pub existing : Dict String ℕ

unfoldable pub index_versions : List MachineImageVersion → ℕ → Dict String ℕ → Dict String ℕ
index_versions [] idx existing = existing
index_versions (v ∷ vs) idx existing = index_versions vs (suc idx) (insert v.version idx existing)

-- `image.Versions = append(image.Versions, v)` and the entry of the index for it
abbrev append_version : Versions → MachineImageVersion → Versions
append_version s v = record {
  list = s.list ++ v ∷ [];
  existing = insert v.version (length s.list) s.existing;
}

abbrev add_architectures : List String → List String → List String
add_architectures existing [] = existing
add_architectures existing (arch ∷ archs) =
    add_architectures (if contains existing arch then existing else existing ++ arch ∷ []) archs

module _ (S : Semver) (iu : ImageUpdater) where
  unfoldable pub update_legacy : SourceImage → MachineImageVersion → MachineImageVersion
  unfolding resolve_expiration build_in_place_updates
  update_legacy src v = record v {
    architectures = src.architectures;
    classification = src.classification;
    expiration_date = resolve_expiration src v.expiration_date;
    in_place_updates = build_in_place_updates src.support_in_place_update iu.min_version_for_update;
  }

  unfoldable pub new_legacy : SourceImage → MachineImageVersion
  unfolding build_in_place_updates
  new_legacy src = record {
    version = src.version;
    classification = src.classification;
    expiration_date = src.expiration_date;
    architectures = src.architectures;
    capability_flavors = [];
    in_place_updates = build_in_place_updates src.support_in_place_update iu.min_version_for_update;
  }

  unfoldable pub upsert_legacy_version : Versions → SourceImage → Versions
  upsert_legacy_version s src = elim (lookup src.version s.existing) [
    | some idx ↦ record s { list = modify s.list idx (update_legacy src) }
    | none ↦ if is_ok (S.parse src.version) then append_version s (new_legacy src) else s
  ]

  unfoldable pub update_clean : SourceImage → MachineImageVersion → MachineImageVersion
  unfolding resolve_expiration build_in_place_updates contains merge_capability_flavor
  update_clean src v = record v {
    architectures = add_architectures v.architectures src.architectures;
    classification = src.classification;
    expiration_date = resolve_expiration src v.expiration_date;
    in_place_updates = build_in_place_updates src.support_in_place_update iu.min_version_for_update;
    capability_flavors = merge_capability_flavor v.capability_flavors src.capabilities;
  }

  unfoldable pub new_clean : SourceImage → MachineImageVersion
  unfolding build_in_place_updates merge_capability_flavor
  new_clean src = record {
    version = src.clean_version;
    classification = src.classification;
    expiration_date = src.expiration_date;
    architectures = src.architectures;
    capability_flavors = merge_capability_flavor [] src.capabilities;
    in_place_updates = build_in_place_updates src.support_in_place_update iu.min_version_for_update;
  }

  unfoldable pub upsert_clean_version : Versions → SourceImage → Versions
  upsert_clean_version s src = elim (lookup src.clean_version s.existing) [
    | some idx ↦ record s { list = modify s.list idx (update_clean src) }
    | none ↦ append_version s (new_clean src)
  ]

  -- One round of the loop of `Apply` over the source images.
  unfoldable pub upsert : Versions → SourceImage → Versions
  upsert s src =
      let s' = upsert_legacy_version s src in
      if iu.enable_capabilities && not (src.clean_version == "")
      then upsert_clean_version s' src
      else s'

  unfoldable pub upsert_all : List SourceImage → MachineImage → MachineImage
  upsert_all imgs image =
      let start : Versions = record {
        list = image.versions;
        existing = index_versions image.versions 0 [];
      } in
      record image { versions = (foldl upsert start imgs).list }

  abbrev invoke_provider :
      Option Provider → Option RawExtension → List SourceImage → Result (Option RawExtension)
  invoke_provider none config imgs = ok config
  invoke_provider (some configure) config imgs =
      wrapped "failed to invoke provider: %w" [] (configure config imgs)

  unfoldable pub restrict : List CapabilityDefinition → SourceImage → SourceImage
  restrict defs img = record img {
    capabilities = filter_capabilities img.capabilities (allowed_capability_values defs);
  }

  abbrev pub ensure_at : List MachineImage → Option ℕ → List MachineImage × ℕ
  ensure_at images (some i) = (images, i)
  ensure_at images none =
      (images ++ record { name = iu.image_name; versions = [] } ∷ [], length images)

  -- The images with one of the updater's name among them, and that one's index.
  unfoldable pub ensure_image : List MachineImage → List MachineImage × ℕ
  ensure_image images = ensure_at images (index_func (λ img. img.name == iu.image_name) images)

  unfoldable pub apply :
      List CapabilityDefinition
      → List MachineImage
      → Option RawExtension
      → List SourceImage
      → Result (List MachineImage × Option RawExtension)
  apply defs base base_config imgs = do
    let (images, i) = ensure_image base
    let restricted = map (restrict defs) imgs
    config ← invoke_provider iu.provider base_config restricted
    ok (modify images i (upsert_all restricted), config)
