-- ===== src/Controllers/Reconcile/Referenced.antt =====
-- The versions that shoots run, through the loop over the updates in `reconcileCloudProfile`.
use cloud_profile_sync.Common.{
  ◌≡◌, sym, ap, subst, ◌∙◌, String, Option, some, true, false, List, [], ◌∷◌, ◌++◌, is_some, arith,
}
use cloud_profile_sync.Common.Result.{ok, ok_inj, >>=-eq-ok}
use cloud_profile_sync.Indexed.{find}
use cloud_profile_sync.Gardener.{Shoot, Worker, MachineImage, RawExtension}
use cloud_profile_sync.Source.{SourceImage}
use cloud_profile_sync.Api.{ManagedCloudProfile, MachineImageUpdate}
use cloud_profile_sync.Keppel.{normalize_tag}
use cloud_profile_sync.Collection.Laws.{Runs}
use cloud_profile_sync.Updater.{validate_version}
use cloud_profile_sync.Updater.Index.{version_of}
use cloud_profile_sync.Updater.Listing.{versions_named}
use cloud_profile_sync.Updater.Kept.{
  AreAllDistinct, KeepsListed, apply-AreAllDistinct, apply-KeepsListed,
}
use cloud_profile_sync.Controllers.Prepare.{Env, select_source, prepare_machine_image_update}
use cloud_profile_sync.Controllers.Prepare.Referenced.{
  Brings, prepared_applies, referenced_is_listed,
}
use cloud_profile_sync.Controllers.Reconcile.{Server, prepare_images, prepare_all_images}

abbrev Prepared : Type 0
Prepared = List MachineImage × Option RawExtension

module _ (env : Env) (server : Server) (mcp : ManagedCloudProfile) where
  one_update :
      (shoots : List Shoot) (base : Prepared) (update : MachineImageUpdate) {result : Prepared}
      → prepare_machine_image_update env mcp shoots base update ≡ ok result
      → AreAllDistinct base.0
      → AreAllDistinct result.0 × KeepsListed base.0 result.0
  one_update shoots base update h d =
      let (iu, fetched, applied) = prepared_applies env mcp shoots base update h in
      let defs = mcp.spec.cloud_profile.machine_capabilities in
      (
        apply-AreAllDistinct env.semver iu defs base.0 base.1 fetched applied d,
        apply-KeepsListed env.semver iu defs base.0 base.1 fetched applied d,
      )

  -- The loop keeps what was listed.
  prepare_images-KeepsListed :
      (shoots : List Shoot) (updates : List MachineImageUpdate) (base : Prepared)
      {result : Prepared}
      → prepare_images env server mcp shoots base updates ≡ ok result
      → AreAllDistinct base.0
      → KeepsListed base.0 result.0
  unfolding prepare_images
  prepare_images-KeepsListed shoots [] base h d name k l =
      ap (λ (r : Prepared). is_some (find version_of k (versions_named name r.0))) (sym (ok_inj h))
      ∙ l
  prepare_images-KeepsListed shoots (update ∷ updates) base h d name k l =
      let (next, e, rest) =
        >>=-eq-ok (prepare_machine_image_update env mcp shoots base update) _ h in
      let (d', kept) = one_update shoots base update e d in
      prepare_images-KeepsListed shoots updates next rest d' name k (kept name k l)

  module _ (update : MachineImageUpdate) (v : String) (shoot : Shoot) (before after : List Shoot)
      (workers_before workers_after : List Worker)
      (runs : Runs mcp.name update.image_name v workers_before workers_after shoot)
      (images_before images_after : List SourceImage) (img img' : SourceImage)
      (chosen : select_source env update.source ≡ ok (ok (images_before ++ img ∷ images_after)))
      (valid : validate_version env.semver img ≡ some img')
      (brought : Brings env mcp update v shoot before after workers_before workers_after runs
        img') where
    loop_lists :
        (earlier later : List MachineImageUpdate) (base : Prepared) {result : Prepared}
        → prepare_images env server mcp (before ++ shoot ∷ after) base (earlier ++ update ∷ later)
          ≡ ok result
        → AreAllDistinct base.0
        → is_some (find version_of (normalize_tag v) (versions_named update.image_name result.0))
          ≡ true
    unfolding prepare_images
    loop_lists [] later base h d =
        let (next, e, rest) =
          >>=-eq-ok (prepare_machine_image_update env mcp (before ++ shoot ∷ after) base update) _
            h in
        let (d', _) = one_update (before ++ shoot ∷ after) base update e d in
        prepare_images-KeepsListed (before ++ shoot ∷ after) later next rest d' update.image_name
          (normalize_tag v)
          (referenced_is_listed env mcp update v shoot before after workers_before workers_after
            runs images_before images_after img img' base chosen valid brought (d update.image_name)
            e)
    loop_lists (u ∷ earlier) later base h d =
        let (next, e, rest) =
          >>=-eq-ok (prepare_machine_image_update env mcp (before ++ shoot ∷ after) base u) _ h in
        loop_lists earlier later next rest (one_update (before ++ shoot ∷ after) base u e d).0

    -- A version that a worker of a Shoot of this CloudProfile runs, and that the source has, is
    -- listed: if the images are not paused and can be prepared, and an image of an update's source
    -- that passes validation brings the normalised version, as its tag, if that is a version, or as
    -- its clean version, if capabilities are enabled, then the prepared images list it under the
    -- update's name, whatever is collected and whatever the other updates do. The condition is that
    -- the specification lists versions once each.
    pub referenced_is_prepared :
        (earlier later : List MachineImageUpdate) {result : Prepared}
        → mcp.spec.machine_images_paused ≡ false
        → mcp.spec.machine_image_updates ≡ earlier ++ update ∷ later
        → AreAllDistinct mcp.spec.cloud_profile.machine_images
        → prepare_all_images env server mcp (before ++ shoot ∷ after) ≡ ok result
        → is_some (find version_of (normalize_tag v) (versions_named update.image_name result.0))
          ≡ true
    unfolding prepare_all_images
    referenced_is_prepared earlier later {result} active split d h =
        let base : Prepared =
          (mcp.spec.cloud_profile.machine_images, mcp.spec.cloud_profile.provider_config) in
        let run : prepare_images env server mcp (before ++ shoot ∷ after) base
              mcp.spec.machine_image_updates
            ≡ ok result =
          ground (arith, h, active) in
        loop_lists earlier later base
          (subst (λ us. prepare_images env server mcp (before ++ shoot ∷ after) base us ≡ ok result)
            split run)
          d
