-- ===== src/Tests/Filters.antt =====
-- What is collected, and how names, tags, versions and messages are read.
use cloud_profile_sync.Common.{
  ◌≡◌, ◌≢◌, refl, ◌↔◌, ◌⊎◌, String, string_eq, nat_eq, none, some, true, false, List, [], ◌∷◌, ◌++◌,
  All, length, take, ◌<◌, ◌≤◌, ◌==◌, if◌then◌else◌,
}
use cloud_profile_sync.Common.Int.{pos}
use cloud_profile_sync.Common.Order.{compare_text}
use cloud_profile_sync.Common.Sort.{sort_func}
use cloud_profile_sync.Common.Text.{Bytes, ascii, ◌<>◌}
use cloud_profile_sync.Common.Result.{ok, err, Error}
use cloud_profile_sync.Gardener.{ExpirableVersion, MachineImage}
use cloud_profile_sync.Api.{Condition, condition_true, condition_false, condition_status_eq}
use cloud_profile_sync.Collection.{Filter, keep}
use cloud_profile_sync.Keppel.{split_keppel_repository}
use cloud_profile_sync.Keppel.Laws.{Lacks, split_keppel_repository_iff}
use cloud_profile_sync.Kubernetes.{KubernetesVersionUpdater, is_expired, apply}
use cloud_profile_sync.Kubernetes.Laws.{is_past, live, apply_cases, apply_keeps}
use cloud_profile_sync.Controllers.Expiration.{carry_expiration_dates}
use cloud_profile_sync.Controllers.Shoots.{gardener_version_from_shoots}
use cloud_profile_sync.Controllers.Shoots.Laws.{IsLeastOrNone, gardener_version_cases}
use cloud_profile_sync.Controllers.Status.{apply_condition, truncate_condition_message, suffix}
use cloud_profile_sync.Controllers.Status.Laws.{find, truncate_cases, find-apply_condition}
use cloud_profile_sync.Common.{map, contains, Option}
use cloud_profile_sync.Common.Dict.{lookup, insert}
use cloud_profile_sync.Gardener.{Time, MachineImageVersion, deprecated}
use cloud_profile_sync.Controllers.Expiration.{
  expiration_date_key, carry_image, carry_version, store_images, store_versions,
}
use cloud_profile_sync.Controllers.Expiration.Stable.{redate, carry_stable}
use cloud_profile_sync.Tests.Data.{texts, texts-IsSemver, image, entry, linux, windows, shoot}

abbrev filter : Filter
filter = record { tags = ("3", pos 1) ∷ ("2", pos 1) ∷ []; protected = "3" ∷ []; cutoff = pos 5 }

-- The other version is past the age and no worker runs it.
collected : keep filter (image "2" "") ≡ false
unfolding keep string_eq
collected = refl

abbrev account : String
account = "a"

abbrev repository_name : String
repository_name = "b/c"

split_keppel_repository_iff_example :
    (split_keppel_repository "a/b/c" ≡ ok (account, repository_name)) ↔ (
      ("a/b/c" ≡ account <> "/" <> repository_name)
      × Lacks b'/' account
      × (account ≢ "")
      × (repository_name ≢ ""))
split_keppel_repository_iff_example = split_keppel_repository_iff "a/b/c" account repository_name

abbrev old : ExpirableVersion
old = record { version = "1.30"; classification = none; expiration_date = some (pos 1) }

abbrev new : ExpirableVersion
new = record { version = "1.31"; classification = none; expiration_date = none }

abbrev kubernetes : KubernetesVersionUpdater
kubernetes = record { source = λ _. ok (old ∷ new ∷ []); expiration_threshold = pos 3 }

apply_cases_example :
    (All (λ v. is_past (pos 9) kubernetes v ≡ true) (old ∷ new ∷ [])
      × ((e : Error) × (apply (pos 9) kubernetes (old ∷ new ∷ []) ≡ err e)))
    ⊎ ((ws : List ExpirableVersion) × (apply (pos 9) kubernetes (old ∷ new ∷ []) ≡ ok ws)
        × (ws ≢ [])
        × All (λ v. is_past (pos 9) kubernetes v ≡ false) ws)
apply_cases_example = apply_cases (pos 9) kubernetes (old ∷ new ∷ [])

apply_keeps_example :
    apply (pos 9) kubernetes (old ∷ new ∷ [])
    ≡ ok (live (pos 9) kubernetes (old ∷ []) ++ new ∷ live (pos 9) kubernetes [])
unfolding is_expired
apply_keeps_example = apply_keeps (pos 9) kubernetes (old ∷ []) [] new refl

abbrev dated : MachineImage
dated = record linux { versions = record (entry "1") { expiration_date = some (pos 4) } ∷ [] }

abbrev later : String → MachineImageVersion → Option Time
later name v = some (pos 9)

-- Both versions are deprecated and dated by the source; the profile has an earlier date for the
-- first.
abbrev listed : List MachineImage
listed =
    record linux {
      versions =
          record (entry "1") { classification = some deprecated; expiration_date = some (pos 6) }
          ∷ record (entry "2") { classification = some deprecated; expiration_date = some (pos 7) }
          ∷ [];
    }
    ∷ windows
    ∷ []

carried_again :
    carry_expiration_dates (carry_expiration_dates (dated ∷ []) listed) (redate later listed)
    ≡ carry_expiration_dates (dated ∷ []) listed
unfolding contains string_eq expiration_date_key
carried_again = carry_stable later (dated ∷ []) listed (refl, (refl, tt))

-- The first keeps the earlier date.
first_date :
    map
      (λ (img : MachineImage). map (λ v. v.expiration_date) img.versions)
      (carry_expiration_dates (dated ∷ []) listed)
    ≡ (some (pos 4) ∷ some (pos 7) ∷ []) ∷ [] ∷ []
unfolding carry_expiration_dates carry_image carry_version store_images store_versions lookup insert
    string_eq expiration_date_key
first_date = refl

gardener_version_cases_example : IsLeastOrNone texts (shoot "2" ∷ shoot "1" ∷ [])
gardener_version_cases_example =
    gardener_version_cases texts texts-IsSemver (shoot "2" ∷ shoot "1" ∷ [])

lowest : gardener_version_from_shoots texts (shoot "2" ∷ shoot "1" ∷ []) ≡ ok "1"
unfolding gardener_version_from_shoots sort_func string_eq compare_text
lowest = refl

abbrev message : Bytes
message = ascii "short"

truncated_or_kept :
    (length message ≤ 32768 → truncate_condition_message message ≡ message)
    × (32768 < length message
        → (truncate_condition_message message ≡ take 32754 message ++ suffix)
          × (length (truncate_condition_message message) ≡ 32768))
truncated_or_kept = truncate_cases message

abbrev ready : Condition
ready = record {
  type = "Ready";
  status = condition_true;
  observed_generation = pos 1;
  last_transition_time = some (pos 1);
  reason = "Applied";
  message = message;
}

-- The condition becomes false and its transition time with it.
abbrev unready : Condition
unready = record ready { status = condition_false; reason = "ApplyFailed" }

find-apply_condition_example : find "Ready" (apply_condition (pos 2) (ready ∷ []) unready) ≡ (
    if "Ready" == unready.type
    then some (record {
      type = "Ready";
      status = condition_false;
      observed_generation = pos 1;
      last_transition_time = some (pos 2);
      reason = "ApplyFailed";
      message = message;
    })
    else find "Ready" (ready ∷ []))
unfolding find string_eq condition_status_eq
find-apply_condition_example = find-apply_condition (pos 2) (ready ∷ []) unready "Ready"
