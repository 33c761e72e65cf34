-- ===== src/Controllers/Reconcile.antt =====
-- `reconcileCloudProfile` and `Reconcile` as functions on the state of the cluster. The API server
-- and `CreateOrPatch` of controller-runtime are parameters, in the record `Server`.
pub mod Laws
pub mod Patch
pub mod Answers
pub mod Told
pub mod History
pub mod Referenced
pub mod Client
pub mod Written
pub mod Settled
use cloud_profile_sync.Common.{
  ℕ, ◌≡◌, Option, none, some, String, Bool, true, false, not, ◌&&◌, ◌||◌, List, [], ◌∷◌, is_empty,
  is_some, if◌then◌else◌,
}
use cloud_profile_sync.Common.Text.{Bytes}
use cloud_profile_sync.Common.Result.{
  Result, ok, err, Error, wrap, wrapped, is_kind, invalid, not_found, ◌>>=◌, ◌>>◌,
}
use cloud_profile_sync.Gardener.{
  Shoot, MachineImage, RawExtension, ExpirableVersion, CloudProfileSpec, KubernetesSettings,
}
use cloud_profile_sync.Api.{
  ManagedCloudProfile, ManagedCloudProfileStatus, MachineImageUpdate, ReconcileStatus, Condition,
  GarbageCollectionConfig, KubernetesVersionUpdateConfig, succeeded, failed,
}
use cloud_profile_sync.Controllers.Status.{next_status, failed_condition, applied_condition}
use cloud_profile_sync.Controllers.Expiration.{carry_expiration_dates}
use cloud_profile_sync.Controllers.Prepare.{
  Env, prepare_machine_image_update, prepare_kubernetes_update,
}

pub record CloudProfile : Type 0 where
  pub name : String
  -- the controller reference
  pub owner : Option String
  pub spec : CloudProfileSpec

-- What the cluster stores of the two objects.
pub record World : Type 0 where
  pub profile : Option CloudProfile
  pub status : ManagedCloudProfileStatus

unfoldable pub copy_static_spec_fields : CloudProfileSpec → CloudProfileSpec → CloudProfileSpec
copy_static_spec_fields dst src = record dst {
  ca_bundle = src.ca_bundle;
  kubernetes = src.kubernetes;
  machine_types = src.machine_types;
  regions = src.regions;
  seed_selector = src.seed_selector;
  type = src.type;
  volume_types = src.volume_types;
  bastion = src.bastion;
  limits = src.limits;
  machine_capabilities = src.machine_capabilities;
  control_plane = src.control_plane;
}

pub record Server : Type 0 where
  -- `CreateOrPatch` of the CloudProfile of a name, with the function that changes it: what is
  -- stored then, or an error
  pub create_or_patch :
      String
      → (CloudProfile → Result CloudProfile)
      → Option CloudProfile
      → Result (Option CloudProfile)
  -- what is stored when `CreateOrPatch` answers with an error
  pub left_by_error :
      String → (CloudProfile → Result CloudProfile) → Option CloudProfile → Option CloudProfile
  pub set_controller_reference : ManagedCloudProfile → CloudProfile → Result CloudProfile
  pub set_defaults : CloudProfile → CloudProfile
  -- the patch from the first status to the second, on the stored one: the answer, and what is
  -- stored then
  pub patch_status :
      ManagedCloudProfileStatus
      → ManagedCloudProfileStatus
      → ManagedCloudProfileStatus
      → Result (Unit {0}) × ManagedCloudProfileStatus
  -- `equality.Semantic.DeepEqual`
  pub status_eq : ManagedCloudProfileStatus → ManagedCloudProfileStatus → Bool
  -- an error's text
  pub text : Error → Bytes

module _ (env : Env) (server : Server) (mcp : ManagedCloudProfile) where
  unfoldable pub need_shoots : Bool
  need_shoots =
      (elim mcp.spec.garbage_collection [
        | none ↦ false
        | some gc ↦ gc.enabled && not mcp.spec.machine_images_paused
      ])
      || is_some mcp.spec.kubernetes_update

  unfoldable pub list_needed_shoots : Result (List Shoot)
  unfolding need_shoots
  list_needed_shoots =
      if need_shoots then wrapped "failed to list Shoots: %w" [] env.list_shoots else ok []

  -- The loop over the updates; each starts from what the one before returned.
  unfoldable pub prepare_images :
      List Shoot
      → List MachineImage × Option RawExtension
      → List MachineImageUpdate
      → Result (List MachineImage × Option RawExtension)
  prepare_images shoots current [] = ok current
  prepare_images shoots current (update ∷ updates) =
      prepare_machine_image_update env mcp shoots current update >>= λ next.
      prepare_images shoots next updates

  unfoldable pub prepare_all_images : List Shoot → Result (List MachineImage × Option RawExtension)
  unfolding prepare_images
  prepare_all_images shoots =
      if mcp.spec.machine_images_paused
      then ok ([], none)
      else prepare_images shoots
          (mcp.spec.cloud_profile.machine_images, mcp.spec.cloud_profile.provider_config)
          mcp.spec.machine_image_updates

  unfoldable pub prepare_versions : List Shoot → Result (List ExpirableVersion)
  prepare_versions shoots = elim mcp.spec.kubernetes_update [
    | none ↦ ok []
    | some cfg ↦ prepare_kubernetes_update env cfg shoots
  ]

  -- The images and the provider's configuration that the profile gets.
  unfoldable pub chosen_images :
      List MachineImage × Option RawExtension
      → CloudProfile
      → List MachineImage × Option RawExtension
  chosen_images prepared profile =
      if mcp.spec.machine_images_paused
      then if is_empty profile.spec.machine_images
        then (mcp.spec.cloud_profile.machine_images, mcp.spec.cloud_profile.provider_config)
        else (profile.spec.machine_images, profile.spec.provider_config)
      else prepared

  abbrev chosen_kubernetes : List ExpirableVersion → KubernetesSettings
  chosen_kubernetes versions =
      if is_some mcp.spec.kubernetes_update
      then record mcp.spec.cloud_profile.kubernetes { versions = versions }
      else mcp.spec.cloud_profile.kubernetes

  -- The function that is handed to `CreateOrPatch`.
  unfoldable pub mutate :
      List MachineImage × Option RawExtension
      → List ExpirableVersion
      → CloudProfile
      → Result CloudProfile
  unfolding chosen_images copy_static_spec_fields
  mutate prepared versions stored = do
    profile ← server.set_controller_reference mcp stored
    let (images, config) = chosen_images prepared profile
    ok (
        server.set_defaults (record profile {
          spec = record (copy_static_spec_fields profile.spec mcp.spec.cloud_profile) {
            machine_images = carry_expiration_dates profile.spec.machine_images images;
            provider_config = config;
            kubernetes = chosen_kubernetes versions;
          };
        }))

  -- `patchStatusAndCondition`, with the wrapping that both of its callers do. The patch goes from
  -- the status that was read, which the stored one may differ from.
  unfoldable pub patch_status_and_condition :
      ReconcileStatus → Condition → World → Result (Unit {0}) × World
  unfolding next_status
  patch_status_and_condition status cond w =
      let next = next_status env.now status cond mcp.status in
      if server.status_eq mcp.status next
      then (ok tt, w)
      else let (r, stored) = server.patch_status mcp.status next w.status in
        (
          wrapped "failed to patch ManagedCloudProfile status: %w" [] r,
          record w { status = stored },
        )

  -- `if statusErr := r.markReconcileFailed(…); statusErr != nil { return statusErr }; return …`
  unfoldable pub mark_failed : Error → Result (Unit {0}) → World → Result (Unit {0}) × World
  unfolding patch_status_and_condition failed_condition
  mark_failed e answer w =
      let (r, w') = patch_status_and_condition failed (failed_condition mcp (server.text e)) w in
      (r >> answer, w')

  abbrev answer_to_apply_error : Error → Result (Unit {0})
  answer_to_apply_error e =
      if is_kind invalid e
      then ok tt
      else err (wrap "failed to create or patch CloudProfile: %w" [] e)

  unfoldable pub write_profile :
      List MachineImage × Option RawExtension
      → List ExpirableVersion
      → World
      → Result (Unit {0}) × World
  unfolding mark_failed mutate applied_condition is_kind
  write_profile prepared versions w =
      elim (server.create_or_patch mcp.name (mutate prepared versions) w.profile) [
        | err e ↦ mark_failed e (answer_to_apply_error e) (record w {
          profile = server.left_by_error mcp.name (mutate prepared versions) w.profile;
        })
        | ok profile ↦
            patch_status_and_condition succeeded (applied_condition mcp)
              (record w { profile = profile })
      ]

  abbrev write_versions :
      List MachineImage × Option RawExtension
      → Result (List ExpirableVersion)
      → World
      → Result (Unit {0}) × World
  write_versions prepared (err e) w = mark_failed e (err e) w
  write_versions prepared (ok versions) w = write_profile prepared versions w

  abbrev pub write_prepared :
      List Shoot
      → Result (List MachineImage × Option RawExtension)
      → World
      → Result (Unit {0}) × World
  write_prepared shoots (err e) w = mark_failed e (err e) w
  write_prepared shoots (ok prepared) w = write_versions prepared (prepare_versions shoots) w

  abbrev pub write_shoots : Result (List Shoot) → World → Result (Unit {0}) × World
  write_shoots (err e) w = (err e, w)
  write_shoots (ok shoots) w = write_prepared shoots (prepare_all_images shoots) w

  unfoldable pub reconcile_cloud_profile : World → Result (Unit {0}) × World
  unfolding list_needed_shoots prepare_all_images prepare_versions write_profile
  reconcile_cloud_profile w = write_shoots list_needed_shoots w

-- `ctrl.Result`: after how many seconds the controller comes back.
abbrev pub Requeue : Type 0
Requeue = Option ℕ

-- `Reconcile` with what `r.Get` answers.
unfoldable pub reconcile :
    Env → Server → Result ManagedCloudProfile → World → Result Requeue × World
unfolding reconcile_cloud_profile is_kind
reconcile env server (err e) w = (if is_kind not_found e then ok none else err e, w)
reconcile env server (ok mcp) w =
    let (r, w') = reconcile_cloud_profile env server mcp w in (r >> ok (some 300), w')
