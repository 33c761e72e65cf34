-- ===== src/Collection.antt =====
-- controllers/garbage_collection.go: which source images are collected. The registry client, the
-- clock and the lister of shoots are parameters.
pub mod Laws
pub mod Aged
use cloud_profile_sync.Common.{
  ℕ, String, Option, none, some, Bool, true, false, not, ◌&&◌, List, [], ◌∷◌, ◌++◌, select,
  contains, is_some, ◌==◌, string_eq, if◌then◌else◌,
}
use cloud_profile_sync.Common.Int.{ℤ, pos, ltb_ℤ, ◌-ℤ◌}
use cloud_profile_sync.Common.Dict.{Dict, lookup, insert}
use cloud_profile_sync.Common.Text.{has_text, to_lower}
use cloud_profile_sync.Common.Result.{Result, ok, err, plain, ◌>>=◌, wrapped}
use cloud_profile_sync.Gardener.{Time, Shoot, Worker}
use cloud_profile_sync.Source.{SourceImage, VersionFilter}
use cloud_profile_sync.Keppel.{normalize_tag}
use cloud_profile_sync.Api.{ManagedCloudProfile, MachineImageUpdate, Oci, GarbageCollectionConfig}

pub record Filter : Type 0 where
  pub tags : Dict String Time
  pub protected : List String
  pub cutoff : Time

unfoldable pub keep : Filter → SourceImage → Bool
unfolding contains lookup
keep f img =
    if contains f.protected img.version
    then true
    else if not (img.clean_version == "") && contains f.protected img.clean_version
    then true
    else elim (lookup img.version f.tags) [
      | none ↦ true
      | some pushed_at ↦ not (ltb_ℤ pushed_at f.cutoff)
    ]

unfoldable pub filter_images : Filter → List SourceImage → List SourceImage
unfolding select keep
filter_images f images = select (keep f) images

-- What one worker adds to the set.
abbrev worker_version : String → Worker → List String
worker_version image_name w = elim w.image [
  | none ↦ []
  | some image ↦
      if image.name == image_name
      then elim image.version [ none ↦ [] | some v ↦ normalize_tag v ∷ [] ]
      else []
]

unfoldable pub workers_versions : String → List Worker → List String
workers_versions image_name [] = []
workers_versions image_name (w ∷ ws) = worker_version image_name w ++ workers_versions image_name ws

abbrev refers_to : String → Shoot → Bool
refers_to cloud_profile_name shoot = elim shoot.cloud_profile [
  | none ↦ false
  | some name ↦ name == cloud_profile_name
]

-- The set is the list of what was added to it.
unfoldable pub referenced_versions : List Shoot → String → String → List String
unfolding workers_versions
referenced_versions [] cloud_profile_name image_name = []
referenced_versions (shoot ∷ shoots) cloud_profile_name image_name =
    (if refers_to cloud_profile_name shoot then workers_versions image_name shoot.workers else [])
    ++ referenced_versions shoots cloud_profile_name image_name

unfoldable pub normalize_tags : Dict String Time → Dict String Time → Dict String Time
unfolding insert normalize_tag
normalize_tags [] tags = tags
normalize_tags ((tag, pushed_at) ∷ raw) tags =
    normalize_tags raw (insert (normalize_tag tag) pushed_at tags)

-- `RegistryClient`: `GetTags` of a registry and a repository
abbrev pub RegistryClient : Type 0
RegistryClient = String → String → Result (Dict String Time)

-- `KeppelClient` is the one registry client; it is a parameter here.
unfoldable pub get_registry_provider : RegistryClient → String → Result RegistryClient
unfolding has_text to_lower
get_registry_provider keppel registry =
    if registry == ""
    then err (plain "registry cannot be empty" [])
    else if has_text (to_lower registry) "keppel"
    then ok keppel
    else err (plain "no registry provider found for registry" [])

module _ (registry_provider : String → Result RegistryClient) (now : Time)
    (mcp : ManagedCloudProfile) (shoots : List Shoot) (update : MachineImageUpdate) where
  -- The part behind the early returns.
  unfoldable pub build_filter : GarbageCollectionConfig → Oci → Result Filter
  unfolding normalize_tags referenced_versions
  build_filter config oci = do
    client ←
        wrapped "no registry provider found for registry %q: %w" (oci.registry ∷ [])
          (registry_provider oci.registry)
    raw_tags ← wrapped "failed to fetch tags: %w" [] (client oci.registry oci.repository)
    ok (record {
      tags = normalize_tags raw_tags [];
      protected = referenced_versions shoots mcp.name update.image_name;
      cutoff = now -ℤ config.max_age;
    })

  abbrev build_for_oci : GarbageCollectionConfig → Option Oci → Result (Option Filter)
  build_for_oci config none = ok none
  build_for_oci config (some oci) =
      if ltb_ℤ config.max_age (pos 0)
      then err (plain "invalid garbage collection maxAge: %s" [])
      else (do f ← build_filter config oci; ok (some f))

  unfoldable pub build_gc_filter : Result (Option Filter)
  unfolding build_filter
  build_gc_filter = elim mcp.spec.garbage_collection [
    | none ↦ ok none
    | some config ↦
        if not config.enabled
        then ok none
        else if mcp.spec.machine_images_paused
        then ok none
        else build_for_oci config update.source.oci
  ]
