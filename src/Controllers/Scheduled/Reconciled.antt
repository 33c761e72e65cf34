-- ===== src/Controllers/Scheduled/Reconciled.antt =====
-- A whole reconciliation, with schedules of the sources' goroutines and with their tags in order.
use cloud_profile_sync.Common.{
  ◌≡◌, ◌≢◌, refl, sym, ap, ◌∙◌, ◌⊎◌, inl, inr, Option, none, some, List, [], Bool, true, false,
  if◌then◌else◌, All,
}
use cloud_profile_sync.Common.Result.{Result, ok, err, Error, ◌>>◌, Result-cases}
use cloud_profile_sync.Gardener.{Shoot, MachineImage, RawExtension}
use cloud_profile_sync.Source.{Source}
use cloud_profile_sync.Api.{ManagedCloudProfile}
use cloud_profile_sync.OciRepo.{Params}
use cloud_profile_sync.OciSource.{Oci, Calls}
use cloud_profile_sync.Controllers.Prepare.{Env, prepare_kubernetes_update}
use cloud_profile_sync.Controllers.Reconcile.{
  World, Server, Requeue, list_needed_shoots, prepare_all_images, prepare_versions,
  reconcile_cloud_profile, reconcile, write_prepared, mark_failed, write_profile,
}
use cloud_profile_sync.Controllers.Reconcile.Laws.{prepare_all, unprepared_keeps_profile}
use cloud_profile_sync.Controllers.Scheduled.{in_order, with_sources, IsScheduled, Failed}
use cloud_profile_sync.Controllers.Scheduled.Updates.{images_cases}

module _ (env : Env) (new_repo : Params → Result Calls) where
  module _ (listing : Oci → Source) where
    module _ (server : Server) (mcp : ManagedCloudProfile) where
      Outcomes_if :
          (b : Bool) (a : Result (List MachineImage × Option RawExtension))
          {r q : Result (List MachineImage × Option RawExtension)}
          → (r ≡ q) ⊎ (Failed listing × ((e : Error) × (r ≡ err e)))
          → ((if b then a else r) ≡ (if b then a else q))
            ⊎ (Failed listing × ((e : Error) × ((if b then a else r) ≡ err e)))
      Outcomes_if true a h = inl refl
      Outcomes_if false a h = h

      prepared_images_cases :
          (shoots : List Shoot)
          → All (IsScheduled env new_repo listing) mcp.spec.machine_image_updates
          → (prepare_all_images (with_sources env new_repo listing) server mcp shoots
              ≡ prepare_all_images (with_sources env new_repo in_order) server mcp shoots)
            ⊎ (Failed listing
                × ((e : Error) × (prepare_all_images
                        (with_sources env new_repo listing)
                        server
                        mcp
                        shoots
                      ≡ err e)))
      unfolding prepare_all_images
      prepared_images_cases shoots good =
          Outcomes_if mcp.spec.machine_images_paused (ok ([], none)) (
            images_cases env new_repo listing mcp shoots mcp.spec.machine_image_updates
              (mcp.spec.cloud_profile.machine_images, mcp.spec.cloud_profile.provider_config) server
              good)

      -- A reconciliation sees the sources only in the images that are prepared.
      same_write :
          (l : Oci → Source) (shoots : List Shoot)
          (r : Result (List MachineImage × Option RawExtension)) (w : World)
          → write_prepared (with_sources env new_repo l) server mcp shoots r w
            ≡ write_prepared env server mcp shoots r w
      unfolding mark_failed write_profile prepare_versions prepare_kubernetes_update
      same_write l shoots (err e) w = refl
      same_write l shoots (ok prepared) w = refl

      reconcile_by_images :
          (l : Oci → Source) (w : World) (shoots : List Shoot)
          → list_needed_shoots env server mcp ≡ ok shoots
          → reconcile_cloud_profile (with_sources env new_repo l) server mcp w
            ≡ write_prepared env server mcp shoots
                (prepare_all_images (with_sources env new_repo l) server mcp shoots)
                w
      unfolding list_needed_shoots reconcile_cloud_profile prepare_all_images
      reconcile_by_images l w shoots p =
          let needed : list_needed_shoots (with_sources env new_repo l) server mcp ≡ ok shoots =
            p in
          rw (reconcile_cloud_profile, needed)
            (same_write l shoots
              (prepare_all_images (with_sources env new_repo l) server mcp shoots) w)

      reconcile_unlisted :
          (l : Oci → Source) (w : World) (e : Error)
          → list_needed_shoots env server mcp ≡ err e
          → reconcile_cloud_profile (with_sources env new_repo l) server mcp w ≡ (err e, w)
      unfolding list_needed_shoots reconcile_cloud_profile prepare_all_images
      reconcile_unlisted l w e p =
          let needed : list_needed_shoots (with_sources env new_repo l) server mcp ≡ err e = p in
          rw needed refl

      unprepared :
          (l : Oci → Source) (shoots : List Shoot) (e : Error)
          → list_needed_shoots env server mcp ≡ ok shoots
          → prepare_all_images (with_sources env new_repo l) server mcp shoots ≡ err e
          → prepare_all (with_sources env new_repo l) server mcp ≡ err e
      unfolding prepare_all list_needed_shoots
      unprepared l shoots e p q =
          let needed : list_needed_shoots (with_sources env new_repo l) server mcp ≡ ok shoots =
            p in
          rw (prepare_all, needed) (rw q refl)

      abbrev answered : Result (Unit {0}) × World → Result Requeue × World
      answered (r, w) = (r >> ok (some 300), w)

      failed_answer :
          (r : Result (Unit {0}) × World) → r.0 ≢ ok tt → (d : Error) × ((answered r).0 ≡ err d)
      failed_answer (err d, w) n = (d, refl)
      failed_answer (ok _, w) n = absurd (n refl)

      -- Whatever the schedules of the OCI sources' goroutines, either a reconciliation ends as if
      -- each source fetched its tags one after the other, in the order in which its repository lists
      -- them: with the same answer, the same CloudProfile and the same status. Or a source failed;
      -- then the reconciliation fails, and the CloudProfile stays as it is. The condition is that no
      -- two different images of a source of its updates that pass the source's filter and the
      -- validation compare as equal.
      pub reconcile_as_in_order :
          (w : World)
          → All (IsScheduled env new_repo listing) mcp.spec.machine_image_updates
          → (reconcile (with_sources env new_repo listing) server (ok mcp) w
              ≡ reconcile (with_sources env new_repo in_order) server (ok mcp) w)
            ⊎ (Failed listing
                × ((reconcile (with_sources env new_repo listing) server (ok mcp) w).1.profile
                    ≡ w.profile)
                × ((e : Error) × ((reconcile
                        (with_sources env new_repo listing)
                        server
                        (ok mcp)
                        w).0
                      ≡ err e)))
      unfolding reconcile
      reconcile_as_in_order w good = elim (Result-cases (list_needed_shoots env server mcp)) [
        | inl (e, p) ↦ inl (
            ap answered
              (reconcile_unlisted listing w e p ∙ sym (reconcile_unlisted in_order w e p)))
        | inr (shoots, p) ↦ elim (prepared_images_cases shoots good) [
          | inl same ↦ inl (
              ap answered (
                reconcile_by_images listing w shoots p
                ∙ ap (λ r. write_prepared env server mcp shoots r w) same
                ∙ sym (reconcile_by_images in_order w shoots p)))
          | inr (f, (e, q)) ↦
              let (kept, failing) =
                unprepared_keeps_profile (with_sources env new_repo listing) server mcp w e
                  (unprepared listing shoots e p q) in
              inr (
                f,
                kept,
                failed_answer
                    (reconcile_cloud_profile (with_sources env new_repo listing) server mcp w)
                    failing,
              )
        ]
      ]
