-- ===== src/Controllers/Reconcile/Written.antt =====
-- The versions that shoots run, in the CloudProfile that `Reconcile` writes.
use cloud_profile_sync.Common.{
  ◌≡◌, refl, sym, ap, ◌∙◌, inl, inr, String, Option, none, some, true, false, List, [], ◌∷◌, ◌++◌,
  is_some, Bool-cases, arith,
}
use cloud_profile_sync.Common.Result.{ok, ◌>>=◌, ok_inj, >>=-eq-ok}
use cloud_profile_sync.Indexed.{find}
use cloud_profile_sync.Gardener.{Shoot, Worker, MachineImage, RawExtension, ExpirableVersion}
use cloud_profile_sync.Source.{SourceImage}
use cloud_profile_sync.Api.{ManagedCloudProfile, MachineImageUpdate}
use cloud_profile_sync.Keppel.{normalize_tag}
use cloud_profile_sync.Collection.{build_gc_filter}
use cloud_profile_sync.Collection.Laws.{Runs}
use cloud_profile_sync.Updater.{validate_version}
use cloud_profile_sync.Updater.Index.{version_of}
use cloud_profile_sync.Updater.Listing.{versions_named}
use cloud_profile_sync.Updater.Kept.{AreAllDistinct}
use cloud_profile_sync.Controllers.Prepare.{Env, select_source, prepare_machine_image_update}
use mathlib.Core.Path.{fun_ext}
use cloud_profile_sync.Controllers.Prepare.Referenced.{Brings}
use cloud_profile_sync.Controllers.Reconcile.{
  CloudProfile, World, Server, need_shoots, list_needed_shoots, prepare_images, prepare_all_images,
  prepare_versions, mutate, reconcile,
}
use cloud_profile_sync.Controllers.Reconcile.Laws.{prepare_all, written_profile}
use cloud_profile_sync.Controllers.Reconcile.Referenced.{referenced_is_prepared}
use cloud_profile_sync.Controllers.Reconcile.Client.{IsDocumented, started_from, mutate-lists}

-- Shoots are not needed where nothing is collected: the images are the same without them.
module _ (env : Env) (server : Server) (mcp : ManagedCloudProfile)
    (active : mcp.spec.machine_images_paused ≡ false)
    (unneeded : need_shoots env server mcp ≡ false) where
  uncollected :
      (shoots : List Shoot) (update : MachineImageUpdate)
      → build_gc_filter env.registry_provider env.now mcp shoots update ≡ ok none
  unfolding build_gc_filter need_shoots
  uncollected shoots update = ground (arith, active, unneeded)

  update_without_shoots :
      (shoots others : List Shoot) (base : List MachineImage × Option RawExtension)
      (update : MachineImageUpdate)
      → prepare_machine_image_update env mcp shoots base update
        ≡ prepare_machine_image_update env mcp others base update
  unfolding prepare_machine_image_update
  update_without_shoots shoots others base update =
      rw (uncollected shoots update) (rw (uncollected others update) refl)

  images_without_shoots :
      (shoots others : List Shoot) (updates : List MachineImageUpdate)
      (base : List MachineImage × Option RawExtension)
      → prepare_images env server mcp shoots base updates
        ≡ prepare_images env server mcp others base updates
  unfolding prepare_images
  images_without_shoots shoots others [] base = refl
  images_without_shoots shoots others (update ∷ updates) base =
      rw (update_without_shoots shoots others base update) (
        ap (λ k. prepare_machine_image_update env mcp others base update >>= k)
          (fun_ext λ next. images_without_shoots shoots others updates next))

module _ (env : Env) (server : Server) (mcp : ManagedCloudProfile)
    (active : mcp.spec.machine_images_paused ≡ false) where
  all_shoots_needed :
      {needed shoots : List Shoot}
      → list_needed_shoots env server mcp ≡ ok needed
      → need_shoots env server mcp ≡ true
      → env.list_shoots ≡ ok shoots
      → needed ≡ shoots
  unfolding list_needed_shoots
  all_shoots_needed e needs h = ground (arith, e, needs, h)

  prepared_needed :
      {prepared : List MachineImage × Option RawExtension} {versions : List ExpirableVersion}
      → prepare_all env server mcp ≡ ok (prepared, versions)
      → (needed : List Shoot) × (list_needed_shoots env server mcp ≡ ok needed)
        × (prepare_all_images env server mcp needed ≡ ok prepared)
  unfolding prepare_all
  prepared_needed h =
      let (needed, e, h1) = >>=-eq-ok (list_needed_shoots env server mcp) _ h in
      let (images, q, h2) = >>=-eq-ok (prepare_all_images env server mcp needed) _ h1 in
      let (found, _, last) = >>=-eq-ok (prepare_versions env server mcp needed) _ h2 in
      (needed, e, q ∙ ap (λ r. ok r.0) (ok_inj last))

  all_images_without_shoots :
      (shoots others : List Shoot)
      → need_shoots env server mcp ≡ false
      → prepare_all_images env server mcp shoots ≡ prepare_all_images env server mcp others
  unfolding prepare_all_images
  all_images_without_shoots shoots others unneeded =
      let base : List MachineImage × Option RawExtension =
        (mcp.spec.cloud_profile.machine_images, mcp.spec.cloud_profile.provider_config) in
      ground (
        arith,
        active,
        images_without_shoots env server mcp active unneeded shoots others
            mcp.spec.machine_image_updates base,
      )

  -- What is prepared is prepared for all shoots, whether they are asked for or not.
  prepared_for_all :
      {prepared : List MachineImage × Option RawExtension} {versions : List ExpirableVersion}
      (shoots : List Shoot)
      → prepare_all env server mcp ≡ ok (prepared, versions)
      → env.list_shoots ≡ ok shoots
      → prepare_all_images env server mcp shoots ≡ ok prepared
  prepared_for_all shoots all_prepared h =
      let (needed, e, q) = prepared_needed all_prepared in
      elim (Bool-cases (need_shoots env server mcp)) [
        | inl needs ↦ ap (prepare_all_images env server mcp) (sym (all_shoots_needed e needs h)) ∙ q
        | inr unneeded ↦ all_images_without_shoots shoots needed unneeded ∙ q
      ]

  module _ (laws : IsDocumented server) (update : MachineImageUpdate) (v : String) (shoot : Shoot)
      (before after : List Shoot) (workers_before workers_after : List Worker)
      (runs : Runs mcp.name update.image_name v workers_before workers_after shoot)
      (images_before images_after : List SourceImage) (img img' : SourceImage)
      (chosen : select_source env update.source ≡ ok (ok (images_before ++ img ∷ images_after)))
      (valid : validate_version env.semver img ≡ some img')
      (brought : Brings env mcp update v shoot before after workers_before workers_after runs
        img') where
    -- A version that a worker of a Shoot of this CloudProfile runs, and that the source has, is
    -- written: if the images are not paused, everything can be had and the server takes the change,
    -- and an image of an update's source that passes validation brings the normalised version, as
    -- its tag, if that is a version, or as its clean version, if capabilities are enabled, then the
    -- CloudProfile that `Reconcile` leaves lists it under the update's name. This holds whatever is
    -- collected, whatever the other updates do, and whatever the CloudProfile had before. The
    -- conditions are that the specification lists versions once each, and the documented behaviour
    -- of `CreateOrPatch`, `SetControllerReference` and the defaults.
    pub referenced_is_written :
        (earlier later : List MachineImageUpdate)
        {prepared : List MachineImage × Option RawExtension} {versions : List ExpirableVersion}
        (w : World) {profile : Option CloudProfile}
        → mcp.spec.machine_image_updates ≡ earlier ++ update ∷ later
        → AreAllDistinct mcp.spec.cloud_profile.machine_images
        → env.list_shoots ≡ ok (before ++ shoot ∷ after)
        → prepare_all env server mcp ≡ ok (prepared, versions)
        → server.create_or_patch mcp.name (mutate env server mcp prepared versions) w.profile
          ≡ ok profile
        → (p : CloudProfile) × ((reconcile env server (ok mcp) w).1.profile ≡ some p)
          × (is_some (
                find version_of
                  (normalize_tag v)
                  (versions_named update.image_name p.spec.machine_images))
              ≡ true)
    unfolding reconcile
    referenced_is_written earlier later {prepared} {versions} w {profile} split d listed
          all_prepared taken =
        let (p, made, stored) =
          laws.stores mcp.name (mutate env server mcp prepared versions) w.profile taken in
        let set = written_profile env server mcp prepared versions w all_prepared in
        (
          p,
          set ∙ rw taken stored,
          mutate-lists env server laws mcp prepared versions (started_from mcp.name w.profile)
                active made update.image_name (normalize_tag v)
              ∙ referenced_is_prepared env server mcp update v shoot before after workers_before
                  workers_after runs images_before images_after img img' chosen valid brought
                  earlier later {result = prepared} active split d
                  (prepared_for_all (before ++ shoot ∷ after) all_prepared listed),
        )
