-- ===== src/Tests/Sources.antt =====
-- The sources: the OCI registry, Glance and the landscape repository.
use Prim.Native.Nat.{Ordering}
use cloud_profile_sync.Common.{
  min, ◌≤◌, ◌+◌, ◌≡◌, ◌≢◌, refl, String, string_eq, nat_eq, none, some, true, List, [], ◌∷◌, ◌++◌,
  All, take, drop, arith,
}
use cloud_profile_sync.Common.Int.{pos}
use cloud_profile_sync.Common.Order.{compare_text}
use cloud_profile_sync.Common.Sort.{sort_func}
use cloud_profile_sync.Common.Result.{ok, err, plain, wrap, is_kind}
use cloud_profile_sync.Gardener.{deprecated}
use cloud_profile_sync.Source.{SourceImage}
use cloud_profile_sync.OciSource.{CollectedImage, is_context_error, join_errors, apply_image_filter}
use cloud_profile_sync.OciSource as OciSource
use cloud_profile_sync.OciSource.Laws.{collected_items, errors_where, get_versions_answer}
use cloud_profile_sync.Glance.Versions.{
  Gathered, window, classify, add_images, filter_require_regions, get_versions, fold_errors,
}
use cloud_profile_sync.Glance.Window.{window_shows, window_panics, classify_shape, as_supported}
use cloud_profile_sync.Glance.Gather.{
  HasAll, filter_require_regions-All, get_versions_failed, context_ends,
}
use cloud_profile_sync.Landscape.{Repo}
use cloud_profile_sync.Landscape.Resolution.{
  parseable, list_semver_tags, latest_tag, tag_for_gardener_version,
}
use cloud_profile_sync.Landscape.Tags.{
  FirstOrNone, tag_for_gardener_version_cases, latest_tag_is_highest,
}
use cloud_profile_sync.Common.{◌↔◌, String, Bool, false, select, contains}
use cloud_profile_sync.Common.Dict.{lookup, insert}
use cloud_profile_sync.Common.Text.{◌<>◌}
use cloud_profile_sync.Gardener.{ExpirableVersion}
use cloud_profile_sync.Landscape.{Resource, YamlExpirableVersion}
use cloud_profile_sync.Landscape.Resolution.{fetch_versions, resolve_tag}
use cloud_profile_sync.Landscape.Versions.{Source, fetch_versions_source}
use cloud_profile_sync.Glance.{
  GlanceImage, canonical_images, parse_version, prefer_image, is_excluded,
}
use cloud_profile_sync.Glance.Canonical.{IsBest, canonical-IsBest}
use cloud_profile_sync.Glance.Names.{Names, parse_version_iff, parse_version-name}
use cloud_profile_sync.Tests.Data.{glance, gone, broken, texts, texts-IsSemver, image}

abbrev item : CollectedImage
item = record { image = image "1" "1"; feature_set_raw = "_usi" }

get_versions_answer_example :
    (collected_items (ok item ∷ err broken ∷ []) ≢ []
      → OciSource.get_versions none (ok item ∷ err broken ∷ [])
        ≡ ok (apply_image_filter none (collected_items (ok item ∷ err broken ∷ []))))
    × (collected_items (ok item ∷ err broken ∷ []) ≡ []
        → OciSource.get_versions none (ok item ∷ err broken ∷ [])
          ≡ err (plain "all %d tags were skipped; possible registry issue" []))
unfolding errors_where is_kind
get_versions_answer_example = get_versions_answer none (ok item ∷ err broken ∷ []) refl

abbrev versions : List SourceImage
versions = image "3" "" ∷ image "2" "" ∷ image "1" "" ∷ []

window_shows_example : window (pos 2) 1 versions ≡ some (take 2 (drop 1 versions))
window_shows_example = window_shows 1 1 versions (omega arith)

window_panics_example :
    (window (pos 9223372036854775807) 1 versions ≡ none)
    ↔ (9223372036854775808 ≤ min 1 3 + 9223372036854775807)
window_panics_example = window_panics 9223372036854775806 1 versions (omega arith) (omega arith)

classify_shape_run :
    classify (pos 7) ((image "3" "" ∷ image "2" "" ∷ []) ++ image "1" "" ∷ [])
    ≡ (as_supported (image "3" "") ∷ as_supported (image "2" "") ∷ [])
      ++ record (image "1" "") { classification = some deprecated; expiration_date = some (pos 7) }
        ∷ []
classify_shape_run = classify_shape (pos 7) (image "3" "" ∷ image "2" "" ∷ []) (image "1" "")

abbrev start : Gathered
start = record { images = []; all_regions = []; skipped = [] }

-- A region that answers with no image leaves no trace in what is gathered, so it is no part of the
-- baseline.
empty_region : (add_images start []).all_regions ≡ []
unfolding add_images
empty_region = refl

filter_require_regions-All_run :
    All (HasAll ("eu" ∷ "us" ∷ [])) (filter_require_regions versions ("eu" ∷ "us" ∷ []))
    × (All (HasAll ("eu" ∷ "us" ∷ [])) versions
        → filter_require_regions versions ("eu" ∷ "us" ∷ []) ≡ versions)
filter_require_regions-All_run = filter_require_regions-All versions ("eu" ∷ "us" ∷ [])

get_versions_failed_example :
    get_versions texts glance (pos 1) (err broken ∷ err broken ∷ [])
    ≡ some (err (wrap "all %d regions failed: %w" [] (fold_errors (broken ∷ broken ∷ []))))
unfolding is_kind
get_versions_failed_example =
    get_versions_failed texts glance (pos 1) (broken ∷ broken ∷ []) (refl, (refl, tt)) refl

context_ends_example :
    get_versions texts glance (pos 1) (ok versions ∷ err gone ∷ []) ≡ some (err gone)
unfolding is_kind
context_ends_example = context_ends texts glance (pos 1) (ok versions ∷ []) [] gone (tt, tt) refl

-- A repository with two tags, whose descriptors name a Gardener of the version of the tag.
abbrev repo : Repo
repo = record {
  reference = "landscape";
  tags = ok ("1.2.0" ∷ "1.3.0" ∷ []);
  fetch_bytes = λ tag. ok tag;
  decode_manifest = λ raw. ok (raw ∷ []);
  fetch_all = λ layer. ok layer;
  read_tar = λ layer. ok ("component-descriptor.yaml", ok layer) ∷ [];
  decode_descriptor = λ raw. ok (record {
    resources = [];
    component_references =
        record { component_name = "github.com/gardener/gardener"; version = raw } ∷ [];
  });
  fetch_blob = λ _. err broken;
  decode_versions = λ _. err broken;
}

tag_for_gardener_version_cases_example :
    FirstOrNone repo texts "1.2.9"
      ("1.3.0" ∷ "1.2.0" ∷ [])
      (tag_for_gardener_version repo texts "1.2.9")
unfolding list_semver_tags sort_func compare_text
tag_for_gardener_version_cases_example =
    tag_for_gardener_version_cases repo texts "1.2.9" ("1.3.0" ∷ "1.2.0" ∷ []) refl

-- The tag is the second of the list.
older_tag : tag_for_gardener_version repo texts "1.2.9" ≡ ok "1.2.0"
unfolding tag_for_gardener_version sort_func compare_text string_eq nat_eq
older_tag = refl

latest_tag_is_highest_example :
    (t : String) × (latest_tag repo texts ≡ ok t)
    × ((v : texts.Version) × (texts.parse_tolerant t ≡ ok v)
        × All
            (λ p. texts.compare p.1 v ≢ Ordering.gt)
            (parseable repo texts ("1.2.0" ∷ "1.3.0" ∷ [])))
unfolding parseable
latest_tag_is_highest_example =
    latest_tag_is_highest repo texts texts-IsSemver ("1.2.0" ∷ "1.3.0" ∷ []) refl
      (λ h. ground arith)

abbrev resource : String → String → Resource
resource name version = record {
  name = name;
  version = version;
  access = record {
    type = "localBlob/v1";
    local_reference = "blob";
    media_type = "";
    size = pos 1;
  };
}

abbrev kubernetes_version : String → YamlExpirableVersion
kubernetes_version version = record {
  version = version;
  classification = none;
  expiration_date = none;
}

-- A descriptor with one API server, and a blob with two versions of the provider.
abbrev stocked : Repo
stocked = record repo {
  decode_descriptor = λ raw. ok (record {
    resources = resource "kube-apiserver" "1.31" ∷ resource "kubernetes-version-data" "1" ∷ [];
    component_references =
        record { component_name = "github.com/gardener/gardener"; version = raw } ∷ [];
  });
  fetch_blob = λ _. ok (ok "blob");
  decode_versions = λ _. ok (
      record {
        name = "openstack";
        versions = kubernetes_version "1.30" ∷ kubernetes_version "1.31" ∷ [];
      }
      ∷ []);
}

abbrev available : List ExpirableVersion
available = record { version = "1.31"; classification = none; expiration_date = none } ∷ []

fetched : fetch_versions stocked texts "openstack" (some "1.2.9") ≡ ok available
unfolding fetch_versions tag_for_gardener_version sort_func compare_text string_eq nat_eq select
    contains
fetched = refl

fetch_versions_source_example :
    (tag : String) × (resolve_tag stocked texts (some "1.2.9") ≡ ok tag)
    × Source stocked texts "openstack" tag available
fetch_versions_source_example =
    fetch_versions_source stocked texts "openstack" (some "1.2.9") available fetched

-- Two images of one version, the second of them active.
abbrev glance_image : String → Bool → GlanceImage
glance_image name is_active = record {
  name = name;
  is_active = is_active;
  created_at = pos 1;
  id = name;
}

canonical-IsBest_example :
    IsBest texts glance "2" (glance_image "linux-2-a" false ∷ glance_image "linux-2-b" true ∷ []) (
      lookup "2" (
        canonical_images texts glance
          (glance_image "linux-2-a" false ∷ glance_image "linux-2-b" true ∷ [])
          []))
canonical-IsBest_example =
    canonical-IsBest texts glance "2"
      (glance_image "linux-2-a" false ∷ glance_image "linux-2-b" true ∷ [])

second_is_taken :
    lookup "2" (
      canonical_images texts glance
        (glance_image "linux-2-a" false ∷ glance_image "linux-2-b" true ∷ [])
        [])
    ≡ some (glance_image "linux-2-b" true)
unfolding canonical_images parse_version prefer_image lookup insert string_eq nat_eq
second_is_taken = refl

parse_version_iff_example : (parse_version texts glance "linux-2-a" ≡ some "2") ↔ (
    (is_excluded glance.params.excluded_suffixes "linux-2-a" ≡ false)
    × Names texts glance "linux-2-a" "2")
parse_version_iff_example = parse_version_iff texts glance "linux-2-a" "2"

parse_version-name_example :
    parse_version texts glance (glance.name_prefix <> "2" <> "-" <> "a") ≡ some "2"
unfolding is_excluded
parse_version-name_example =
    parse_version-name texts glance texts-IsSemver ("2", "") "a" ((λ h. ground arith), tt) refl
