-- ===== src/Tests/Required.antt =====
-- What the Glance source shows where one version is missing from one of the two regions.
use cloud_profile_sync.Common.{
  ◌≡◌, refl, ◌↔◌, String, some, true, List, [], ◌∷◌, map, All, contains, ◌==◌, string_eq, nat_eq,
  if◌then◌else◌,
}
use cloud_profile_sync.Common.Int.{pos, negsuc}
use cloud_profile_sync.Common.Keys.{keys}
use cloud_profile_sync.Common.Result.{Result, ok, err, is_kind}
use cloud_profile_sync.Source.{SourceImage}
use cloud_profile_sync.Glance.{
  Glance, GlanceImage, AuthOptions, discover_region, compare_semver_desc,
}
use cloud_profile_sync.Glance.Versions.{Gathered, gather, get_versions}
use cloud_profile_sync.Glance.Gather.{regions_of}
use cloud_profile_sync.Glance.Order.{nothing}
use cloud_profile_sync.Glance.Shown.{ask}
use cloud_profile_sync.Glance.Required.{version_of, required_shown_iff}
use cloud_profile_sync.Tests.Data.{texts, texts-IsSemver, glance}

abbrev unlimited : Glance
unlimited = record glance { keep_latest = negsuc 0 }

abbrev sprintf : String → String → String
sprintf format region = region

abbrev authenticate : String → AuthOptions → Result String
authenticate url options = ok url

abbrev named : String → GlanceImage
named name = record { name = name; is_active = true; created_at = pos 1; id = "id" }

abbrev list_images : String → String → Result (List GlanceImage)
list_images client region =
    ok (
      if region == "eu" then named "linux-2-a" ∷ named "linux-3-a" ∷ [] else named "linux-2-a" ∷ [])

abbrev asked : List (Result (List SourceImage))
asked =
    map (ask texts texts-IsSemver unlimited (pos 10) sprintf authenticate list_images)
      unlimited.params.regions

abbrev gathered : Gathered
gathered = elim (gather nothing asked) [ ok s ↦ s | err _ ↦ nothing ]

abbrev shown : List SourceImage
shown = elim (get_versions texts unlimited (pos 10) asked) [ some (ok vs) ↦ vs | _ ↦ [] ]

is_gathered : gather nothing asked ≡ ok gathered
unfolding gather discover_region string_eq is_kind
is_gathered = refl

is_shown : get_versions texts unlimited (pos 10) asked ≡ some (ok shown)
unfolding get_versions gather discover_region string_eq is_kind nat_eq compare_semver_desc
is_shown = refl

required_shown_iff_example : (contains (map version_of shown) "3" ≡ true) ↔ (
    (contains (keys gathered.images) "3" ≡ true)
    × All
        (λ region. contains (map (λ r. r.region) (regions_of "3" gathered.images)) region ≡ true)
        gathered.all_regions)
required_shown_iff_example =
    required_shown_iff texts texts-IsSemver unlimited (pos 10) 0 refl refl refl sprintf authenticate
      list_images gathered shown is_gathered is_shown "3"
