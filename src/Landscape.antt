-- ===== src/Landscape.antt =====
-- cloudprofilesync/k8ssync/source/landscape/landscape_source.go. The OCI repository, the decoders
-- of JSON and YAML and the reader of tar archives are parameters, in the record `Repo`.
pub mod Resolution
pub mod Tags
pub mod Versions
pub mod Source
use Prim.Native.Nat.{Ordering}
use cloud_profile_sync.Common.{
  String, Option, none, some, Bool, true, false, ◌||◌, List, [], ◌∷◌, map, select, contains,
  is_empty, ◌==◌, string_eq, if◌then◌else◌,
}
use cloud_profile_sync.Common.Int.{ℤ}
use cloud_profile_sync.Common.Text.{cut, trim_prefix, has_suffix, ◌<>◌}
use cloud_profile_sync.Common.Sort.{sort_func}
use cloud_profile_sync.Common.Result.{Result, ok, err, plain, wrapped, ◌>>=◌}
use cloud_profile_sync.Semver.{Semver}
use cloud_profile_sync.Gardener.{Time, Classification, ExpirableVersion}

abbrev pub component_descriptor_file : String
component_descriptor_file = "component-descriptor.yaml"

abbrev pub kube_api_server_resource_name : String
kube_api_server_resource_name = "kube-apiserver"

abbrev pub kubernetes_version_data_resource_name : String
kubernetes_version_data_resource_name = "kubernetes-version-data"

abbrev pub gardener_component_name : String
gardener_component_name = "github.com/gardener/gardener"

pub record ResourceAccess : Type 0 where
  pub type : String
  pub local_reference : String
  pub media_type : String
  pub size : ℤ

pub record Resource : Type 0 where
  pub name : String
  pub version : String
  pub access : ResourceAccess

pub record ComponentReference : Type 0 where
  pub component_name : String
  pub version : String

pub record ComponentDescriptor : Type 0 where
  pub resources : List Resource
  pub component_references : List ComponentReference

pub record YamlExpirableVersion : Type 0 where
  pub version : String
  pub classification : Option Classification
  pub expiration_date : Option Time

pub record ProviderVersions : Type 0 where
  pub name : String
  pub versions : List YamlExpirableVersion

unfoldable pub gardener_version_from_cd : List ComponentReference → Option String
gardener_version_from_cd [] = none
gardener_version_from_cd (ref ∷ refs) =
    if ref.component_name == gardener_component_name
    then some ref.version
    else gardener_version_from_cd refs

-- "MAJOR.MINOR" of a version, or all of a text with no dot.
unfoldable pub minor_version : String → String
unfolding cut
minor_version v = elim (cut v b'.') [
  | none ↦ v
  | some (major, rest) ↦ elim (cut rest b'.') [
    | none ↦ major <> "." <> rest
    | some (minor, _) ↦ major <> "." <> minor
  ]
]

unfoldable pub matches_file : String → String → Bool
unfolding trim_prefix has_suffix
matches_file name target =
    let name' = trim_prefix name "./" in name' == target || has_suffix name' ("/" <> target)

-- One step of a tar reader: an entry, whose content may fail to be read, or an error.
abbrev pub TarEntry : Type 0
TarEntry = Result (String × Result String)

pub record Repo : Type 0 where
  -- `Reference`, as it is printed
  pub reference : String
  pub tags : Result (List String)
  -- the manifest of a tag
  pub fetch_bytes : String → Result String
  -- the descriptors of its layers
  pub decode_manifest : String → Result (List String)
  pub fetch_all : String → Result String
  pub read_tar : String → List TarEntry
  pub decode_descriptor : String → Result ComponentDescriptor
  -- `Blobs().Fetch`, and reading what it returns
  pub fetch_blob : ResourceAccess → Result (Result String)
  pub decode_versions : String → Result (List ProviderVersions)

module _ (repo : Repo) where
  unfoldable pub extract_component_descriptor : List TarEntry → Result ComponentDescriptor
  unfolding matches_file
  extract_component_descriptor [] =
      err (plain "%s not found in layer" (component_descriptor_file ∷ []))
  extract_component_descriptor (err e ∷ rest) = wrapped "reading tar: %w" [] (err e)
  extract_component_descriptor (ok (name, content) ∷ rest) =
      let later = extract_component_descriptor rest in
      if matches_file name component_descriptor_file
      then (do
        raw ← wrapped "reading %s: %w" (component_descriptor_file ∷ []) content
        wrapped "parsing %s: %w" (component_descriptor_file ∷ []) (repo.decode_descriptor raw))
      else later

  abbrev first_layer : List String → Result String
  first_layer [] = err (plain "manifest has no layers" [])
  first_layer (layer ∷ layers) = ok layer

  unfoldable pub fetch_component_descriptor : String → Result ComponentDescriptor
  unfolding extract_component_descriptor
  fetch_component_descriptor tag = do
    manifest_bytes ← wrapped "fetching manifest: %w" [] (repo.fetch_bytes tag)
    layers ← wrapped "decoding manifest: %w" [] (repo.decode_manifest manifest_bytes)
    layer ← first_layer layers
    layer_bytes ← wrapped "fetching layer blob: %w" [] (repo.fetch_all layer)
    wrapped "extracting component descriptor: %w" []
        (extract_component_descriptor (repo.read_tar layer_bytes))

  unfoldable pub fetch_supported_versions : String → Result (List String)
  unfolding fetch_component_descriptor select
  fetch_supported_versions tag = do
    cd ← wrapped "tag %s: %w" (tag ∷ []) (fetch_component_descriptor tag)
    ok (
        map (λ res. res.version)
          (select (λ res. res.name == kube_api_server_resource_name) cd.resources))

  -- The body of the loop at the resource that is looked for.
  unfoldable pub fetch_local_blob : ResourceAccess → Result String
  fetch_local_blob access =
      let name = kubernetes_version_data_resource_name in
      if access.type == "localBlob/v1"
      then if access.local_reference == ""
        then err (plain "resource %q has empty localReference" (name ∷ []))
        else (do
          rc ← wrapped "fetching blob %s: %w" (access.local_reference ∷ []) (repo.fetch_blob access)
          wrapped "reading blob %s: %w" (access.local_reference ∷ []) rc)
      else err (
          plain "resource %q has unexpected access type %q, want localBlob/v1"
            (name ∷ access.type ∷ []))

  unfoldable pub find_versions_blob : String → List Resource → Result String
  unfolding fetch_local_blob
  find_versions_blob tag [] = err (
      plain "resource %q not found in component descriptor at tag %s"
        (kubernetes_version_data_resource_name ∷ tag ∷ []))
  find_versions_blob tag (res ∷ rest) =
      let later = find_versions_blob tag rest in
      if res.name == kubernetes_version_data_resource_name
      then fetch_local_blob res.access
      else later

  unfoldable pub fetch_kubernetes_versions_blob : String → Result String
  unfolding fetch_component_descriptor find_versions_blob
  fetch_kubernetes_versions_blob tag = do
    cd ← wrapped "fetching component descriptor: %w" [] (fetch_component_descriptor tag)
    find_versions_blob tag cd.resources

  -- `convertExpirationDate` keeps the instant.
  abbrev pub to_expirable : YamlExpirableVersion → ExpirableVersion
  to_expirable v = record {
    version = v.version;
    classification = v.classification;
    expiration_date = v.expiration_date;
  }

  unfoldable pub find_provider : String → List ProviderVersions → Result (List ExpirableVersion)
  find_provider provider [] =
      err (plain "provider %q not found in the fetched data" (provider ∷ []))
  find_provider provider (p ∷ ps) =
      let later = find_provider provider ps in
      if p.name == provider
      then if is_empty p.versions
        then err (plain "provider %q has no versions" (provider ∷ []))
        else ok (map to_expirable p.versions)
      else later

  unfoldable pub parse_provider_versions : String → String → Result (List ExpirableVersion)
  unfolding find_provider
  parse_provider_versions raw provider = do
    providers ← wrapped "parsing versions file: %w" [] (repo.decode_versions raw)
    find_provider provider providers

  unfoldable pub fetch_classification : String → String → Result (List ExpirableVersion)
  unfolding fetch_kubernetes_versions_blob parse_provider_versions
  fetch_classification provider tag =
      if provider == "" then err (plain "provider must be set" []) else (do
        raw ←
            wrapped "fetching kubernetes versions blob: %w" [] (fetch_kubernetes_versions_blob tag)
        parse_provider_versions raw provider)
