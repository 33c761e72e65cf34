-- ===== src/Controllers/Scheduled/Updates.antt =====
-- An update of machine images, with a schedule of the source's goroutines and with its tags in order.
use cloud_profile_sync.Common.{
  ◌≡◌, refl, sym, ap, ◌∙◌, ◌⊎◌, inl, inr, String, Option, some, List, [], ◌∷◌, map, Option-cases,
  All, arith,
}
use cloud_profile_sync.Common.Result.{
  Result, ok, err, Error, wrap, wrapped, ◌>>=◌, ◌>>◌, Result-cases,
}
use cloud_profile_sync.Gardener.{Shoot, MachineImage, RawExtension}
use cloud_profile_sync.Source.{Source, Provider}
use cloud_profile_sync.Api.{ManagedCloudProfile, MachineImageUpdate, MachineImageUpdateSource}
use cloud_profile_sync.Api as Api
use cloud_profile_sync.OciRepo.{Params}
use cloud_profile_sync.OciSource.{
  Oci, Calls, GetVersions, unlisted, listed, fetching, get_versions, join_errors, new_oci,
}
use cloud_profile_sync.OciSource.Order.{concurrent_as_sequential}
use cloud_profile_sync.Updater.{ImageUpdater, compare_images, validate_image_versions}
use cloud_profile_sync.Updater as Updater
use cloud_profile_sync.Updater.Apply.{apply_unsourced}
use cloud_profile_sync.Controllers.Defaults.{default_create}
use cloud_profile_sync.Controllers.Prepare.{
  Env, get_credential, new_oci_source, new_glance_source, select_source, select_provider,
  validate_min_version_for_update, repo_params, updater_for, prepare_machine_image_update,
}
use cloud_profile_sync.Controllers.Reconcile.{Server, prepare_images}
use cloud_profile_sync.Controllers.Scheduled.{in_order, AreTold, with_sources, IsScheduled, Failed}

module _ (env : Env) (new_repo : Params → Result Calls) where
  module _ (listing : Oci → Source) where
    -- Both readings have the same source, or the one that lists the tags of one repository.
    abbrev AreSources : Result Source → Result Source → Type 0
    AreSources r q =
        (r ≡ q)
        ⊎ ((o : Oci) × (GetVersions o (listing o) × AreTold env o)
            × (r ≡ ok (listing o))
            × (q ≡ ok (in_order o)))

    abbrev made : Result String → (String → Result Oci) → (Oci → Source) → Result Source
    made password make l = password >>= λ pw.
        wrapped "failed to initialize OCI source: %w" [] (make pw >>= λ o. ok (l o))

    made-AreSources :
        (password : Result String) (make : String → Result Oci)
        → ((pw : String) (o : Oci)
            → password ≡ ok pw
            → make pw ≡ ok o
            → GetVersions o (listing o) × AreTold env o)
        → AreSources (made password make listing) (made password make in_order)
    made-AreSources (err e) make good = inl refl
    made-AreSources (ok pw) make good = elim (Result-cases (make pw)) [
      | inl (e, p) ↦ inl (rw p refl)
      | inr (o, p) ↦ inr (o, good pw o refl p, rw p refl, rw p refl)
    ]

    new_oci_source-AreSources :
        (update : MachineImageUpdate) (src : Api.Oci)
        → update.source.oci ≡ some src
        → IsScheduled env new_repo listing update
        → AreSources
            (new_oci_source (with_sources env new_repo listing) src)
            (new_oci_source (with_sources env new_repo in_order) src)
    unfolding new_oci_source default_create get_credential
    new_oci_source-AreSources update src e good =
        made-AreSources (get_credential env src.password)
          (λ pw.
            new_oci new_repo (repo_params env src pw) 1 src.feature_to_capability_map
              src.image_filter)
          (λ pw o. good src pw o e)

    select_source-AreSources :
        (update : MachineImageUpdate)
        → IsScheduled env new_repo listing update
        → AreSources
            (select_source (with_sources env new_repo listing) update.source)
            (select_source (with_sources env new_repo in_order) update.source)
    unfolding select_source new_glance_source get_credential
    select_source-AreSources update good = elim (Option-cases update.source.oci) [
      | inl e ↦ inl (rw (select_source, e) refl)
      | inr (oci, e) ↦ rw (select_source, e) (new_oci_source-AreSources update oci e good)
    ]

  module _ (mcp : ManagedCloudProfile) (shoots : List Shoot) (update : MachineImageUpdate)
      (base : List MachineImage × Option RawExtension) where
    abbrev prepared_from : Source → Provider → Result (List MachineImage × Option RawExtension)
    prepared_from source provider =
        let iu = updater_for env mcp shoots update source provider in
        wrapped "fetching machine images failed: %w" [] (Updater.fetch env.semver iu) >>= λ imgs.
        wrapped "applying machine images failed: %w" [] (
          Updater.apply env.semver iu mcp.spec.cloud_profile.machine_capabilities base.0 base.1
            imgs)

    abbrev prepared_with :
        Result (Unit {0})
        → Result Source
        → Result Provider
        → Result (List MachineImage × Option RawExtension)
    prepared_with valid source provider =
        valid >> (source >>= λ s. provider >>= λ p. prepared_from s p)

    prepare_machine_image_update-eq :
        (l : Oci → Source)
        → prepare_machine_image_update (with_sources env new_repo l) mcp shoots base update
          ≡ prepared_with
              (validate_min_version_for_update env update.min_version_for_update)
              (select_source (with_sources env new_repo l) update.source)
              (select_provider env update)
    unfolding prepare_machine_image_update validate_min_version_for_update select_provider
    prepare_machine_image_update-eq l = refl

  module _ (listing : Oci → Source) where
    in_order_ok :
        (o : Oci) (tags : List String)
        → o.repo.tags ≡ ok tags
        → in_order o ≡ get_versions o.image_filter (map (fetching o).work tags)
    in_order_ok o tags p = rw p refl

    fetch_cases :
        (o : Oci) (iu : ImageUpdater)
        → GetVersions o (listing o)
        → AreTold env o
        → (Updater.fetch env.semver (record iu { source = listing o })
            ≡ Updater.fetch env.semver (record iu { source = in_order o }))
          ⊎ ((e : Error) × (listing o ≡ err e))
    fetch_cases o iu fair told = elim (Result-cases o.repo.tags) [
      | inl (e, p) ↦ elim fair [
        | unlisted d q a ↦ inr (d, a)
        | listed tags s q r done a ↦ absurd (ground (arith, p, q))
      ]
      | inr (tags, p) ↦
          elim (concurrent_as_sequential env.semver iu o tags p (told tags p) (listing o) fair) [
            | inl (first, others, a, _) ↦ inr (join_errors first others, a)
            | inr same ↦ inl (
                same
                ∙ ap (λ s. Updater.fetch env.semver (record iu { source = s }))
                    (sym (in_order_ok o tags p)))
          ]
    ]

    fetch_failed :
        (iu : ImageUpdater) (o : Oci) (e : Error)
        → listing o ≡ err e
        → (d : Error) × (Updater.fetch env.semver (record iu { source = listing o }) ≡ err d)
    unfolding Updater.fetch
    fetch_failed iu o e a =
        (wrap "failed to retrieve image versions from OCI registry: %w" [] e, rw a refl)

    module _ (mcp : ManagedCloudProfile) (shoots : List Shoot) where
      abbrev Outcomes : (r q : Result (List MachineImage × Option RawExtension)) → Type 0
      Outcomes r q = (r ≡ q) ⊎ (Failed listing × ((e : Error) × (r ≡ err e)))

      module _ (update : MachineImageUpdate) (base : List MachineImage × Option RawExtension) where
        from_cases :
            (provider : Provider) (o : Oci)
            → GetVersions o (listing o) × AreTold env o
            → Outcomes
                (prepared_from mcp shoots update base (listing o) provider)
                (prepared_from mcp shoots update base (in_order o) provider)
        from_cases provider o (fair, told) =
            let iu = updater_for env mcp shoots update (in_order o) provider in
            elim (fetch_cases o iu fair told) [
              | inr (e, a) ↦
                  let (d, p) = fetch_failed iu o e a in
                  inr ((o, e, a), (wrap "fetching machine images failed: %w" [] d, rw p refl))
              | inl same ↦ elim (Result-cases (Updater.fetch env.semver iu)) [
                | inl (e, p) ↦ inl (rw same (rw p refl))
                | inr (imgs, p) ↦ inl (
                    rw same (
                      rw p (
                        ap (wrapped "applying machine images failed: %w" []) (
                          apply_unsourced env.semver iu (listing o) (in_order o)
                            mcp.spec.cloud_profile.machine_capabilities base.0 base.1 imgs))))
              ]
            ]

        with_cases :
            (valid : Result (Unit {0})) (r q : Result Source) (provider : Result Provider)
            → AreSources listing r q
            → Outcomes
                (prepared_with mcp shoots update base valid r provider)
                (prepared_with mcp shoots update base valid q provider)
        with_cases valid r q provider (inl same) =
            inl (ap (λ s. prepared_with mcp shoots update base valid s provider) same)
        with_cases (err e) r q provider (inr (o, g, a, b)) = inl refl
        with_cases (ok _) r q (err e) (inr (o, g, a, b)) = inl (rw a (rw b refl))
        with_cases (ok _) r q (ok p) (inr (o, g, a, b)) = rw a (rw b (from_cases p o g))

      -- One update gives the same as with the tags in order, or fails because a source failed.
      update_cases :
          (update : MachineImageUpdate) (base : List MachineImage × Option RawExtension)
          → IsScheduled env new_repo listing update
          → (prepare_machine_image_update (with_sources env new_repo listing) mcp shoots base update
              ≡ prepare_machine_image_update
                  (with_sources env new_repo in_order)
                  mcp
                  shoots
                  base
                  update)
            ⊎ (Failed listing
                × ((e : Error) × (prepare_machine_image_update
                        (with_sources env new_repo listing)
                        mcp
                        shoots
                        base
                        update
                      ≡ err e)))
      update_cases update base good =
          rw (prepare_machine_image_update-eq mcp shoots update base listing) (
            rw (prepare_machine_image_update-eq mcp shoots update base in_order) (
              with_cases update base
                (validate_min_version_for_update env update.min_version_for_update) _ _
                (select_provider env update) (select_source-AreSources listing update good)))

      pub images_cases :
          (updates : List MachineImageUpdate) (base : List MachineImage × Option RawExtension)
          (server : Server)
          → All (IsScheduled env new_repo listing) updates
          → (prepare_images (with_sources env new_repo listing) server mcp shoots base updates
              ≡ prepare_images (with_sources env new_repo in_order) server mcp shoots base updates)
            ⊎ (Failed listing
                × ((e : Error) × (prepare_images
                        (with_sources env new_repo listing)
                        server
                        mcp
                        shoots
                        base
                        updates
                      ≡ err e)))
      unfolding prepare_images
      images_cases [] base server _ = inl refl
      images_cases (update ∷ updates) base server (good, rest) =
          elim (update_cases update base good) [
            | inr (f, (e, p)) ↦ inr (f, (e, rw p refl))
            | inl same ↦
                elim (Result-cases (
                  prepare_machine_image_update (with_sources env new_repo in_order) mcp shoots base
                    update)) [
                      | inl (e, p) ↦ inl (rw same (rw p refl))
                      | inr (next, p) ↦ rw same (rw p (images_cases updates next server rest))
                    ]
          ]
