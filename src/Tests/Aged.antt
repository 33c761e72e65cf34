-- ===== src/Tests/Aged.antt =====
-- A tag that is past the age that the configuration of Tests/Data allows.
use cloud_profile_sync.Common.{◌≡◌, refl, String, some, false, [], ◌∷◌, string_eq, nat_eq}
use cloud_profile_sync.Common.Int.{ℤ, pos, ◌-ℤ◌}
use cloud_profile_sync.Common.Text.{has_text, to_lower, ◌<>◌}
use cloud_profile_sync.Common.Result.{Result, ok}
use cloud_profile_sync.Gardener.{Time}
use cloud_profile_sync.Keppel.{HttpClient, Response, normalize_tag, fetch_keppel_tags}
use cloud_profile_sync.Collection.{Filter, keep, get_registry_provider, build_gc_filter}
use cloud_profile_sync.Collection.Aged.{IsAged, collected_is_old}
use cloud_profile_sync.Controllers.Defaults.{get_tags}
use cloud_profile_sync.Tests.Data.{image, managed, shoot, update}

abbrev unix : ℤ → Time
unix n = n

abbrev url_string : String → String → String
url_string scheme host = scheme <> "://" <> host

abbrev new_request : String → Result String
new_request url = ok url

abbrev send : HttpClient → String → Result Response
send client req = ok (record {
  status = 200;
  body = ok (
      record {
        digest = "sha256:0";
        pushed_at = pos 1;
        tags =
            record { name = "1_2"; pushed_at = pos 1 }
            ∷ record { name = "3"; pushed_at = pos 1 }
            ∷ record { name = "4"; pushed_at = pos 0 }
            ∷ [];
      }
      ∷ []);
})

abbrev built : Filter
built = record { tags = ("1+2", pos 1) ∷ ("3", pos 1) ∷ []; protected = "3" ∷ []; cutoff = pos 5 }

is_built :
    build_gc_filter
      (get_registry_provider (get_tags unix url_string new_request send))
      (pos 10)
      managed
      (shoot "1" ∷ [])
      update
    ≡ ok (some built)
unfolding build_gc_filter get_registry_provider get_tags fetch_keppel_tags string_eq nat_eq has_text
    to_lower normalize_tag ◌-ℤ◌
is_built = refl

is_collected : keep built (image "1+2" "") ≡ false
unfolding keep string_eq
is_collected = refl

collected_is_old_example :
    IsAged unix url_string new_request send
      (pos 10)
      managed
      (shoot "1" ∷ [])
      update
      (image "1+2" "")
collected_is_old_example =
    collected_is_old unix url_string new_request send (pos 10) managed (shoot "1" ∷ []) update built
      (image "1+2" "") is_built is_collected
