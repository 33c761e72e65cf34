-- ===== src/Landscape/Resolution.antt =====
-- Which tag of the landscape repository `FetchVersions` of landscape_source.go takes, and what it
-- returns.
use Prim.Native.Nat.{Ordering}
use cloud_profile_sync.Common.{
  String, Option, none, some, Bool, false, List, [], ◌∷◌, map, select, contains, is_empty, ◌==◌,
  string_eq, if◌then◌else◌,
}
use cloud_profile_sync.Common.Sort.{sort_func}
use cloud_profile_sync.Common.Result.{Result, ok, err, plain, wrapped, ◌>>=◌}
use cloud_profile_sync.Semver.{Semver}
use cloud_profile_sync.Gardener.{ExpirableVersion}
use cloud_profile_sync.Landscape.{
  Repo, fetch_component_descriptor, gardener_version_from_cd, minor_version,
  fetch_supported_versions, fetch_classification,
}

module _ (repo : Repo) (S : Semver) where
  -- The tags that can be read, with what is read.
  unfoldable pub parseable : List String → List (String × S.Version)
  parseable [] = []
  parseable (t ∷ ts) =
      let rest = parseable ts in elim (S.parse_tolerant t) [ err _ ↦ rest | ok v ↦ (t, v) ∷ rest ]

  abbrev pub compare_tags_desc : String × S.Version → String × S.Version → Ordering
  compare_tags_desc a b = S.compare b.1 a.1

  abbrev pub nonempty_tags : List (String × S.Version) → Result (List String)
  nonempty_tags [] = err (plain "no semver tags found in %s" (repo.reference ∷ []))
  nonempty_tags (p ∷ ps) = ok (map (λ t. t.0) (sort_func compare_tags_desc (p ∷ ps)))

  unfoldable pub list_semver_tags : Result (List String)
  unfolding parseable
  list_semver_tags = do
    tags ← wrapped "listing tags: %w" [] repo.tags
    (if is_empty tags
        then err (plain "no tags found in %s" (repo.reference ∷ []))
        else nonempty_tags (parseable tags))

  -- `tags[0]`; the list is never empty, and an empty one would panic.
  abbrev pub first_tag : List String → Result String
  first_tag [] = err (plain "index out of range" [])
  first_tag (t ∷ ts) = ok t

  unfoldable pub latest_tag : Result String
  unfolding list_semver_tags
  latest_tag = do tags ← list_semver_tags; first_tag tags

  -- Whether the descriptor of a tag can be had and names a Gardener of this minor version.
  unfoldable pub matches_gardener : String → String → Bool
  unfolding fetch_component_descriptor gardener_version_from_cd minor_version
  matches_gardener want_minor tag = elim (fetch_component_descriptor repo tag) [
    | err _ ↦ false
    | ok cd ↦ elim (gardener_version_from_cd cd.component_references) [
      | none ↦ false
      | some cd_version ↦ minor_version cd_version == want_minor
    ]
  ]

  unfoldable pub first_match : String → List String → Result String
  unfolding matches_gardener
  first_match gardener_version [] = err (
      plain "no RBSC tag found matching Gardener version %s in %s"
        (gardener_version ∷ repo.reference ∷ []))
  first_match gardener_version (t ∷ ts) =
      let later = first_match gardener_version ts in
      if matches_gardener (minor_version gardener_version) t then ok t else later

  unfoldable pub tag_for_gardener_version : String → Result String
  unfolding list_semver_tags first_match
  tag_for_gardener_version gardener_version = do
    tags ← list_semver_tags
    first_match gardener_version tags

  abbrev pub resolve_tag : Option String → Result String
  resolve_tag none = wrapped "resolving latest OCI tag: %w" [] latest_tag
  resolve_tag (some v) =
      wrapped "resolving OCI tag for Gardener %s: %w" (v ∷ []) (tag_for_gardener_version v)

  unfoldable pub fetch_versions : String → Option String → Result (List ExpirableVersion)
  unfolding latest_tag tag_for_gardener_version fetch_supported_versions fetch_classification
  fetch_versions provider gardener_version = do
    tag ← resolve_tag gardener_version
    supported ← wrapped "fetching supported versions: %w" [] (fetch_supported_versions repo tag)
    classification ←
        wrapped "fetching classification: %w" [] (fetch_classification repo provider tag)
    ok (select (λ v. contains supported v.version) classification)
