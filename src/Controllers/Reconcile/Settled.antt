-- ===== src/Controllers/Reconcile/Settled.antt =====
-- A CloudProfile that `Reconcile` has written, when it is reconciled again.
use cloud_profile_sync.Common.{
  ◌≡◌, sym, ap, subst, ◌∙◌, String, Option, some, false, List, inl, inr, arith,
}
use cloud_profile_sync.Common.Result.{ok, ok_inj, Result-cases}
use cloud_profile_sync.Gardener.{
  Time, MachineImage, MachineImageVersion, RawExtension, ExpirableVersion,
}
use cloud_profile_sync.Api.{ManagedCloudProfile, ManagedCloudProfileStatus}
use cloud_profile_sync.Controllers.Prepare.{Env}
use cloud_profile_sync.Controllers.Expiration.{carry_expiration_dates}
use cloud_profile_sync.Controllers.Expiration.Stable.{AreOnce, keys_of, redate, carry_settled}
use cloud_profile_sync.Controllers.Reconcile.{
  CloudProfile, World, Server, mutate, copy_static_spec_fields, reconcile,
}
use cloud_profile_sync.Controllers.Reconcile.Laws.{prepare_all, written_profile}
use cloud_profile_sync.Controllers.Reconcile.Client.{
  IsDocumented, started_from, outline, dates_of_eq, written_spec, mutate_written, mutate-ok,
}

module _ (env : Env) (server : Server) (laws : IsDocumented server) (mcp : ManagedCloudProfile)
    (active : mcp.spec.machine_images_paused ≡ false)
    (prepared : List MachineImage × Option RawExtension) (versions : List ExpirableVersion)
    (once : AreOnce (keys_of prepared.0)) (date : String → MachineImageVersion → Option Time)
    (later : Env) (status : ManagedCloudProfileStatus) where
  abbrev pub again : ManagedCloudProfile
  again = record mcp { status = status }

  abbrev pub redated : List MachineImage × Option RawExtension
  redated = (redate date prepared.0, prepared.1)

  -- What the function of `CreateOrPatch` has made stays as it is when it is called again.
  mutate_kept :
      (stored : CloudProfile) {p : CloudProfile}
      → mutate env server mcp prepared versions stored ≡ ok p
      → mutate later server again redated versions p ≡ ok p
  unfolding copy_static_spec_fields
  mutate_kept stored {p} h =
      let (owned, e, made) = mutate_written env server laws mcp prepared versions stored active h in
      let before : CloudProfile = record owned {
        spec = written_spec env server laws mcp prepared versions stored.spec;
      } in
      let name : p.name ≡ owned.name =
        ap (λ (q : CloudProfile). q.name) made ∙ laws.defaults_name before in
      let owner : p.owner ≡ owned.owner =
        ap (λ (q : CloudProfile). q.owner) made ∙ laws.defaults_owner before in
      let images : carry_expiration_dates p.spec.machine_images redated.0
          ≡ carry_expiration_dates stored.spec.machine_images prepared.0 =
        carry_settled date stored.spec.machine_images prepared.0 p.spec.machine_images once (
          dates_of_eq p.spec.machine_images before.spec.machine_images (
            ap (λ (q : CloudProfile). outline q.spec.machine_images) made
            ∙ laws.defaults_outline before)) in
      let same : record p { spec = written_spec later server laws again redated versions p.spec }
          ≡ before =
        ground (arith, name, owner, images) in
      mutate-ok later server laws again redated versions p active
        (laws.refers_once mcp stored p status e owner)
      ∙ ap (λ q. ok (server.set_defaults q)) same
      ∙ ap ok (sym made)

  -- A CloudProfile settles: if the images are not paused, everything can be had and the server takes
  -- the change, then a later reconciliation of the same specification, which prepares the same
  -- versions with whatever dates for those deprecated ones that are dated, leaves the CloudProfile
  -- as it is, whether or not the server answers with an error. The conditions are that no two of
  -- the prepared versions have one key, and the documented behaviour of `CreateOrPatch`,
  -- `SetControllerReference` and the defaults.
  pub reconcile_settles :
      (w v : World) {profile : Option CloudProfile}
      → prepare_all env server mcp ≡ ok (prepared, versions)
      → server.create_or_patch mcp.name (mutate env server mcp prepared versions) w.profile
        ≡ ok profile
      → v.profile ≡ (reconcile env server (ok mcp) w).1.profile
      → prepare_all later server again ≡ ok (redated, versions)
      → (reconcile later server (ok again) v).1.profile ≡ v.profile
  unfolding reconcile
  reconcile_settles w v {profile} all_prepared taken follows prepared_again =
      let (p, made, stored) =
        laws.stores mcp.name (mutate env server mcp prepared versions) w.profile taken in
      let f = mutate later server again redated versions in
      let set = written_profile env server mcp prepared versions w all_prepared in
      let set_again = written_profile later server again redated versions v prepared_again in
      let has : v.profile ≡ some p = follows ∙ set ∙ rw taken stored in
      let made_from : (q : CloudProfile) → f (started_from mcp.name v.profile) ≡ ok q → q ≡ p =
        λ q e. ok_inj (
          sym (subst (λ o. f (started_from mcp.name o) ≡ ok q) has e)
          ∙ mutate_kept (started_from mcp.name w.profile) made) in
      elim (Result-cases (server.create_or_patch mcp.name f v.profile)) [
        | inl (e, refused) ↦
            set_again
            ∙ rw refused (elim (laws.leaves mcp.name f v.profile) [
              | inl left ↦ left
              | inr (q, made_again, left) ↦ left ∙ ap some (made_from q made_again) ∙ sym has
            ])
        | inr (result, accepted) ↦
            let (q, made_again, kept) = laws.stores mcp.name f v.profile accepted in
            set_again ∙ rw accepted (kept ∙ ap some (made_from q made_again) ∙ sym has)
      ]
