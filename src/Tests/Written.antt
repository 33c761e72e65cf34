-- ===== src/Tests/Written.antt =====
-- CloudProfiles that are written, and written again.
use cloud_profile_sync.Common.{
  ◌≡◌, ◌≢◌, refl, String, string_eq, Option, none, some, true, List, [], ◌∷◌,
}
use cloud_profile_sync.Common.Int.{pos}
use cloud_profile_sync.Common.Result.{Result, ok, err}
use cloud_profile_sync.Indexed.{find}
use cloud_profile_sync.Gardener.{MachineImage, RawExtension}
use cloud_profile_sync.Source.{SourceImage}
use cloud_profile_sync.Openstack as Openstack
use cloud_profile_sync.Openstack.{OpenStackProvider, upsert_regions}
use cloud_profile_sync.Controllers.Prepare.{Env}
use cloud_profile_sync.Controllers.Reconcile.{
  CloudProfile, World, Server, mutate, list_needed_shoots, prepare_all_images, prepare_versions,
}
use cloud_profile_sync.Controllers.Reconcile.Laws.{prepare_all}
use cloud_profile_sync.Common.{sym, ap, arith}
use cloud_profile_sync.Common.Result.{ok_inj}
use cloud_profile_sync.Api.{ManagedCloudProfile}
use cloud_profile_sync.Controllers.Reconcile.{reconcile}
use cloud_profile_sync.Controllers.Reconcile.History.{}
use cloud_profile_sync.Openstack.{RegionIdMapping, merge_regions}
use cloud_profile_sync.Common.{inl, is_some, nat_eq}
use cloud_profile_sync.Keppel.{normalize_tag}
use cloud_profile_sync.Indexed.{AreDistinct}
use cloud_profile_sync.Updater as Updater
use cloud_profile_sync.Updater.{validate_version, normalize_clean}
use cloud_profile_sync.Updater.Index.{version_of}
use cloud_profile_sync.Updater.Listing.{versions_named, versions_of, name_of}
use cloud_profile_sync.Controllers.Prepare.{select_source, prepare_machine_image_update}
use cloud_profile_sync.Updater.Kept.{AreAllDistinct}
use cloud_profile_sync.Common.{subst}
use cloud_profile_sync.Tests.Data.{texts, image, linux, windows, update, shoot, managed}
use cloud_profile_sync.Common.{contains, if◌then◌else◌, map, is_empty}
use cloud_profile_sync.Common.Result.{Result-cases}
use mathlib.Core.Path.{ap₂}
use cloud_profile_sync.Collection.{build_gc_filter, filter_images}
use cloud_profile_sync.Common.{keep_some, modify, inr}
use cloud_profile_sync.Common.Sort.{sort_func}
use cloud_profile_sync.Controllers.Expiration.{expiration_date_key}
use cloud_profile_sync.Gardener.{MachineImageVersion, Time, deprecated}
use cloud_profile_sync.Controllers.Reconcile.Client.{
  IsDocumented, outline, outline_version, started_from,
}
use cloud_profile_sync.Controllers.Reconcile.Written.{referenced_is_written}
use cloud_profile_sync.Controllers.Reconcile.Settled.{reconcile_settles}
use cloud_profile_sync.Controllers.Expiration.Stable.{AreOnce, keys_of, redate, redate_version}
use cloud_profile_sync.Tests.Profiles.{env, server, world}

-- A server that works as it is documented, with the default for architectures.
abbrev create_or_patch :
    String
    → (CloudProfile → Result CloudProfile)
    → Option CloudProfile
    → Result (Option CloudProfile)
create_or_patch name f stored = elim (f (started_from name stored)) [
  | ok p ↦ ok (some p)
  | err e ↦ err e
]

abbrev default_version : MachineImageVersion → MachineImageVersion
default_version v = record v {
  architectures = if is_empty v.architectures then "amd64" ∷ [] else v.architectures;
}

abbrev default_image : MachineImage → MachineImage
default_image img = record img { versions = map default_version img.versions }

abbrev set_defaults : CloudProfile → CloudProfile
set_defaults p = record p {
  spec = record p.spec { machine_images = map default_image p.spec.machine_images };
}

abbrev documented : Server
documented = record server { create_or_patch = create_or_patch; set_defaults = set_defaults }

versions_default :
    (vs : List MachineImageVersion)
    → map outline_version (map default_version vs) ≡ map outline_version vs
versions_default [] = refl
versions_default (v ∷ vs) = ap (◌∷◌ (outline_version v)) (versions_default vs)

images_default : (imgs : List MachineImage) → outline (map default_image imgs) ≡ outline imgs
images_default [] = refl
images_default (img ∷ imgs) =
    ap₂ ◌∷◌ (ap (λ vs. (img.name, vs)) (versions_default img.versions)) (images_default imgs)

documented_stores :
    (name : String) (f : CloudProfile → Result CloudProfile) (stored : Option CloudProfile)
    {result : Option CloudProfile}
    → create_or_patch name f stored ≡ ok result
    → (p : CloudProfile) × (f (started_from name stored) ≡ ok p) × (result ≡ some p)
documented_stores name f stored {result} h = elim (Result-cases (f (started_from name stored))) [
  | inl (e, q) ↦ absurd (ground (arith, h, q))
  | inr (p, q) ↦ (p, q, ground (arith, h, q))
]

documented-IsDocumented : IsDocumented documented
documented-IsDocumented = record {
  stores = documented_stores;
  leaves = λ name f stored. inl refl;
  refers = λ mcp p {q} h. (ground (arith, h), ground (arith, h));
  refers_once = λ mcp p r {q} status h e. ground (arith, ok_inj h, e);
  defaults_name = λ p. refl;
  defaults_owner = λ p. refl;
  defaults_outline = λ p. images_default p.spec.machine_images;
}

abbrev dated : Time → SourceImage
dated date = record (image "3" "") { classification = some deprecated; expiration_date = some date }

-- The registry has the only tag of the source since long, and a worker runs it.
abbrev collecting : Env
collecting = record env {
  registry_provider = λ _. ok (λ _ _. ok (("3", pos 0) ∷ []));
  create_oci_source = λ _ _ _ _. ok (ok (dated (pos 6) ∷ []));
}

abbrev base : List MachineImage × Option RawExtension
base = (linux ∷ windows ∷ [], none)

abbrev pub tracked : ManagedCloudProfile
tracked = record managed { spec = record managed.spec { machine_image_updates = update ∷ [] } }

abbrev all_of : Env → Result (List MachineImage × Option RawExtension)
all_of e = prepare_all_images e server tracked (shoot "1" ∷ [])

abbrev prepared : List MachineImage × Option RawExtension
prepared = elim (all_of collecting) [ ok r ↦ r | err _ ↦ base ]

all_prepared : prepare_all collecting documented tracked ≡ ok (prepared, [])
unfolding prepare_all list_needed_shoots prepare_versions prepare_all_images
    prepare_machine_image_update Updater.fetch Updater.apply string_eq Openstack.configure
all_prepared = refl

valid : validate_version texts (dated (pos 6)) ≡ some (dated (pos 6))
unfolding validate_version normalize_clean string_eq
valid = refl

chosen : select_source collecting update.source ≡ ok (ok (dated (pos 6) ∷ []))
unfolding select_source string_eq
chosen = refl

plain_tag : "3" ≡ normalize_tag "3"
unfolding normalize_tag nat_eq
plain_tag = refl

once : AreDistinct version_of (versions_named "linux" base.0)
unfolding find string_eq
once = (refl, (refl, tt))

once_windows : AreDistinct version_of (versions_named "windows" base.0)
unfolding find string_eq
once_windows = tt

no_other :
    (name : String)
    → ◌≢◌ {A = String} "linux" name
    → ◌≢◌ {A = String} "windows" name
    → find name_of name base.0 ≡ none
unfolding find
no_other name n m = ground (arith, n, m)

all_once : AreAllDistinct base.0
all_once name = elim (string_eq.dec "linux" name) [
  | yes e ↦ subst (λ m. AreDistinct version_of (versions_named m base.0)) e once
  | no n ↦ elim (string_eq.dec "windows" name) [
    | yes e ↦ subst (λ m. AreDistinct version_of (versions_named m base.0)) e once_windows
    | no m ↦ subst (λ o. AreDistinct version_of (versions_of o)) (sym (no_other name n m)) tt
  ]
]

abbrev taken : Option CloudProfile
taken =
    elim (create_or_patch "profile" (mutate collecting documented tracked prepared [])
      world.profile) [ ok p ↦ p | err _ ↦ none ]

is_taken :
    documented.create_or_patch tracked.name
      (mutate collecting documented tracked prepared [])
      world.profile
    ≡ ok taken
unfolding mutate
is_taken = refl

referenced_is_written_example :
    (p : CloudProfile) × ((reconcile collecting documented (ok tracked) world).1.profile ≡ some p)
    × (is_some (find version_of (normalize_tag "3") (versions_named "linux" p.spec.machine_images))
        ≡ true)
referenced_is_written_example =
    referenced_is_written collecting documented tracked refl documented-IsDocumented update "3"
      (shoot "1") [] [] [] [] (refl, refl) [] [] (dated (pos 6)) (dated (pos 6)) chosen valid
      (inl (plain_tag, refl)) [] [] {prepared = prepared} {versions = []} world {profile = taken}
      refl all_once refl all_prepared is_taken

-- The source lists the deprecated version with a later date, and a shoot's version is gone.
abbrev redated_source : Env
redated_source = record collecting {
  now = pos 20;
  create_oci_source = λ _ _ _ _. ok (ok (dated (pos 9) ∷ []));
}

abbrev later_date : String → MachineImageVersion → Option Time
later_date name v = some (pos 9)

abbrev after_one : World
after_one = (reconcile collecting documented (ok tracked) world).1

once_each : AreOnce (keys_of prepared.0)
unfolding contains string_eq expiration_date_key prepare_all_images prepare_machine_image_update
    Updater.fetch Updater.apply Openstack.configure Updater.ensure_image Updater.upsert_all
    build_gc_filter filter_images keep_some validate_version nat_eq Updater.upsert Updater.restrict
    Updater.upsert_legacy_version Updater.index_versions Updater.new_legacy modify sort_func
once_each = (refl, (refl, (refl, tt)))

prepared_again :
    prepare_all redated_source documented (record tracked { status = after_one.status })
    ≡ ok ((redate later_date prepared.0, prepared.1), [])
unfolding prepare_all list_needed_shoots prepare_versions prepare_all_images
    prepare_machine_image_update Updater.fetch Updater.apply string_eq Openstack.configure redate
    redate_version Updater.ensure_image Updater.upsert_all build_gc_filter filter_images keep_some
    validate_version nat_eq Updater.upsert Updater.restrict Updater.upsert_legacy_version
    Updater.index_versions Updater.new_legacy
prepared_again = refl

reconcile_settles_example :
    (reconcile redated_source documented
      (ok (record tracked { status = after_one.status }))
      after_one).1.profile
    ≡ after_one.profile
reconcile_settles_example =
    reconcile_settles collecting documented documented-IsDocumented tracked refl prepared []
      once_each later_date redated_source after_one.status world after_one {profile = taken}
      all_prepared is_taken refl prepared_again
