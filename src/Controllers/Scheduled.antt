-- ===== src/Controllers/Scheduled.antt =====
-- A reconciliation whose OCI sources are the default ones, as `SetupWithManager` of
-- managedcloudprofile_controller.go leaves them: what the schedules of their goroutines can change.
pub mod Updates
pub mod Reconciled
use cloud_profile_sync.Common.{
  ◌≡◌, ◌≢◌, refl, sym, ap, subst, ◌∙◌, ◌⊎◌, inl, inr, String, Option, none, some, List, [], ◌∷◌,
  map, Option-cases, Bool, true, false, if◌then◌else◌, arith,
}
use cloud_profile_sync.Common.Result.{
  Result, ok, err, Error, wrap, wrapped, ◌>>=◌, ◌>>◌, Result-cases,
}
use cloud_profile_sync.Common.Sort.Unique.{AreSeparate}
use cloud_profile_sync.Gardener.{Shoot, MachineImage, RawExtension}
use cloud_profile_sync.Source.{Source, SourceImage, Provider}
use cloud_profile_sync.Api.{ManagedCloudProfile, MachineImageUpdate, MachineImageUpdateSource}
use cloud_profile_sync.Api as Api
use cloud_profile_sync.OciRepo.{Params}
use cloud_profile_sync.OciSource.{
  Oci, Calls, GetVersions, unlisted, listed, fetching, apply_image_filter, get_versions,
  join_errors, new_oci,
}
use cloud_profile_sync.OciSource.Laws.{collected_items}
use cloud_profile_sync.OciSource.Order.{concurrent_as_sequential}
use cloud_profile_sync.Updater.{ImageUpdater, compare_images, validate_image_versions}
use cloud_profile_sync.Updater as Updater
use cloud_profile_sync.Updater.Apply.{apply_unsourced}
use cloud_profile_sync.Updater.Fetch.{compare_images-IsOrder}
use cloud_profile_sync.Controllers.Defaults.{default_create}
use cloud_profile_sync.Controllers.Prepare.{
  Env, get_credential, new_oci_source, new_glance_source, select_source, select_provider,
  validate_min_version_for_update, prepare_kubernetes_update, filter_or_none, repo_params,
  updater_for, prepare_machine_image_update,
}
use cloud_profile_sync.Controllers.Reconcile.{
  World, Server, Requeue, list_needed_shoots, prepare_images, prepare_all_images, prepare_versions,
  reconcile_cloud_profile, reconcile, write_prepared, mark_failed, write_profile,
}
use cloud_profile_sync.Controllers.Reconcile.Laws.{prepare_all, unprepared_keeps_profile}

-- What `GetVersions` answers when it fetches one tag after the other.
abbrev pub in_order : Oci → Source
in_order o = elim o.repo.tags [
  | err e ↦ err e
  | ok tags ↦ get_versions o.image_filter (map (fetching o).work tags)
]

-- No two different images that pass the filter and the validation compare as equal.
abbrev pub AreTold : Env → Oci → Type 0
AreTold env o =
    (tags : List String)
    → o.repo.tags ≡ ok tags
    → AreSeparate compare_images compare_images-IsOrder (
        validate_image_versions env.semver
          (apply_image_filter o.image_filter (collected_items (map (fetching o).work tags))))

module _ (env : Env) (new_repo : Params → Result Calls) where
  -- The reconciler with the default factory; `listing` has the answer of each source.
  abbrev pub with_sources : (Oci → Source) → Env
  with_sources listing = record env { create_oci_source = default_create new_repo listing }

  -- What is known of the sources that the reconciler makes for an update: `listing` has what some
  -- schedule of `GetVersions` answers, and the images can be told apart.
  abbrev pub IsScheduled : (Oci → Source) → MachineImageUpdate → Type 0
  IsScheduled listing update =
      (src : Api.Oci) (password : String) (o : Oci)
      → update.source.oci ≡ some src
      → get_credential env src.password ≡ ok password
      → new_oci new_repo (repo_params env src password) 1 src.feature_to_capability_map
          src.image_filter
        ≡ ok o
      → GetVersions o (listing o) × AreTold env o

-- A source failed.
abbrev pub Failed : (Oci → Source) → Type 0
Failed listing = (o : Oci) × (e : Error) × (listing o ≡ err e)
