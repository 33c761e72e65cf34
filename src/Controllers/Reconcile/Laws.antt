-- ===== src/Controllers/Reconcile/Laws.antt =====
-- What a reconciliation does to the CloudProfile and answers.
use cloud_profile_sync.Common.{◌≡◌, ◌≢◌, refl, Option, List, Bool-cases, inl, inr, arith}
use cloud_profile_sync.Common.Result.{
  Result, ok, err, Error, Result-cases, >>=-eq-ok, >>-eq-ok, ◌>>=◌,
}
use cloud_profile_sync.Gardener.{MachineImage, RawExtension, ExpirableVersion}
use cloud_profile_sync.Api.{ManagedCloudProfile, ReconcileStatus, Condition, succeeded, failed}
use cloud_profile_sync.Controllers.Prepare.{Env}
use cloud_profile_sync.Controllers.Status.{next_status, failed_condition, applied_condition}
use cloud_profile_sync.Controllers.Reconcile.{
  World, Server, list_needed_shoots, prepare_all_images, prepare_versions, mutate,
  patch_status_and_condition, mark_failed, write_profile, reconcile_cloud_profile,
  answer_to_apply_error,
}

module _ (env : Env) (server : Server) (mcp : ManagedCloudProfile) where
  -- What is needed before the CloudProfile is written: the images and the versions.
  unfoldable pub prepare_all :
      Result ((List MachineImage × Option RawExtension) × List ExpirableVersion)
  prepare_all = list_needed_shoots env server mcp >>= λ shoots.
      prepare_all_images env server mcp shoots >>= λ prepared.
      prepare_versions env server mcp shoots >>= λ versions. ok (prepared, versions)

  pub patch-profile :
      (status : ReconcileStatus) (cond : Condition) (w : World)
      → (patch_status_and_condition env server mcp status cond w).1.profile ≡ w.profile
  unfolding patch_status_and_condition
  patch-profile status cond w =
      elim (Bool-cases (server.status_eq mcp.status (next_status env.now status cond mcp.status))) [
        | inl same ↦ rw same refl
        | inr other ↦ rw other refl
      ]

  mark_failed-profile :
      (e : Error) (answer : Result (Unit {0})) (w : World)
      → (mark_failed env server mcp e answer w).1.profile ≡ w.profile
  unfolding mark_failed
  mark_failed-profile e answer w = patch-profile failed (failed_condition mcp (server.text e)) w

  mark_failed-ok :
      (e : Error) (answer : Result (Unit {0})) (w : World)
      → (mark_failed env server mcp e answer w).0 ≡ ok tt
      → answer ≡ ok tt
  unfolding mark_failed
  mark_failed-ok e answer w h =
      >>-eq-ok
        (patch_status_and_condition env server mcp failed (failed_condition mcp (server.text e))
          w).0
        answer h

  mark_failed-ne-ok : (e d : Error) (w : World) → (mark_failed env server mcp e (err d) w).0 ≢ ok tt
  mark_failed-ne-ok e d w h = let p = mark_failed-ok e (err d) w h in absurd (ground arith)

  -- What remains once everything is prepared.
  pub prepared_write :
      (prepared : List MachineImage × Option RawExtension) (versions : List ExpirableVersion)
      (w : World)
      → prepare_all ≡ ok (prepared, versions)
      → reconcile_cloud_profile env server mcp w ≡ write_profile env server mcp prepared versions w
  unfolding reconcile_cloud_profile prepare_all
  prepared_write prepared versions w h =
      let (shoots, p, h1) = >>=-eq-ok (list_needed_shoots env server mcp) _ h in
      let (images, q, h2) = >>=-eq-ok (prepare_all_images env server mcp shoots) _ h1 in
      let (found, r, e) = >>=-eq-ok (prepare_versions env server mcp shoots) _ h2 in
      let images_eq : images ≡ prepared = ground arith in
      let versions_eq : found ≡ versions = ground arith in
      rw p (rw q (rw r (rw images_eq (rw versions_eq refl))))

  -- If the shoots, the images or the versions cannot be had, the reconciliation fails and the
  -- CloudProfile stays as it is.
  pub unprepared_keeps_profile :
      (w : World) (e : Error)
      → prepare_all ≡ err e
      → ((reconcile_cloud_profile env server mcp w).1.profile ≡ w.profile)
        × ((reconcile_cloud_profile env server mcp w).0 ≢ ok tt)
  unfolding reconcile_cloud_profile prepare_all
  unprepared_keeps_profile w e h = elim (Result-cases (list_needed_shoots env server mcp)) [
    | inl (d, p) ↦ rw (reconcile_cloud_profile, p) (refl, λ k. absurd (ground arith))
    | inr (shoots, p) ↦ elim (Result-cases (prepare_all_images env server mcp shoots)) [
      | inl (d, q) ↦
          rw (reconcile_cloud_profile, p)
            (rw q (mark_failed-profile d (err d) w, mark_failed-ne-ok d d w))
      | inr (prepared, q) ↦ elim (Result-cases (prepare_versions env server mcp shoots)) [
        | inl (d, r) ↦
            rw (reconcile_cloud_profile, p)
              (rw q (rw r (mark_failed-profile d (err d) w, mark_failed-ne-ok d d w)))
        | inr (versions, r) ↦ absurd (ground arith)
      ]
    ]
  ]

  -- What is stored of the CloudProfile once everything is prepared.
  pub written_profile :
      (prepared : List MachineImage × Option RawExtension) (versions : List ExpirableVersion)
      (w : World)
      → prepare_all ≡ ok (prepared, versions)
      → let f = mutate env server mcp prepared versions in
        (reconcile_cloud_profile env server mcp w).1.profile
        ≡ elim (server.create_or_patch mcp.name f w.profile) [
          | err _ ↦ server.left_by_error mcp.name f w.profile
          | ok profile ↦ profile
        ]
  unfolding write_profile
  written_profile prepared versions w h =
      let f = mutate env server mcp prepared versions in
      rw (prepared_write prepared versions w h)
        (elim (Result-cases (server.create_or_patch mcp.name f w.profile)) [
          | inl (e, refused) ↦
              rw (write_profile, refused)
                (mark_failed-profile e (answer_to_apply_error env server mcp e)
                  (record w { profile = server.left_by_error mcp.name f w.profile }))
          | inr (profile, taken) ↦
              rw (write_profile, taken)
                (patch-profile succeeded (applied_condition mcp) (record w { profile = profile }))
        ])
