-- ===== src/Tests/Reconciled.antt =====
-- A reconciliation with a schedule of the OCI source's goroutines.
use cloud_profile_sync.Common.{
  ◌≡◌, refl, subst, ◌⊎◌, String, none, true, [], ◌∷◌, map, nat_eq, string_eq, arith,
}
use cloud_profile_sync.Common.Result.{Result, ok, err, Error, ok_inj}
use cloud_profile_sync.Source.{Source}
use cloud_profile_sync.OciRepo.{Params}
use cloud_profile_sync.Workers.{
  Message, Pool, Run, started, acquire, finish, hand_over, work, take, here, next,
}
use cloud_profile_sync.Workers.Outcome.{answers_of}
use cloud_profile_sync.OciSource as OciSource
use cloud_profile_sync.OciSource.{
  Calls, Oci, CollectedImage, GetVersions, fetching, listed, new_oci,
}
use cloud_profile_sync.OciSource.Laws.{collected_items}
use cloud_profile_sync.Common.Sort.Unique.{AreSeparate}
use cloud_profile_sync.Updater.{compare_images, validate_image_versions}
use cloud_profile_sync.Updater.Fetch.{compare_images-IsOrder}
use cloud_profile_sync.Tests.Data.{texts}
use cloud_profile_sync.Controllers.Prepare.{get_credential}
use cloud_profile_sync.Controllers.Reconcile.{reconcile}
use cloud_profile_sync.Controllers.Scheduled.{in_order, AreTold, with_sources, IsScheduled, Failed}
use cloud_profile_sync.Controllers.Scheduled.Reconciled.{reconcile_as_in_order}
use cloud_profile_sync.Tests.Data.{oci, update}
use cloud_profile_sync.Tests.Profiles.{env, server, world}
use cloud_profile_sync.Tests.Written.{tracked}
use cloud_profile_sync.Tests.Schedules.{registry, single, only_one, listing}

-- One goroutine calls at a time, and the second tag comes first.
abbrev one_by_one : Oci
one_by_one = record registry { parallel = 1 }

abbrev fetched : String → Message String (Result CollectedImage)
fetched tag = record { job = tag; answer = (fetching one_by_one).work tag; holds = true }

abbrev fetches : Pool String (Result CollectedImage)
fetches = record {
  waiting = [];
  running = [];
  sending = [];
  buffer = [];
  received = fetched "3" ∷ fetched "2" ∷ [];
}

to_fetched : Run (fetching one_by_one) 6 (started ("2" ∷ "3" ∷ [])) fetches
unfolding fetching
to_fetched =
    next
      (next
        (next
          (next
            (next (next here (work (acquire ("2" ∷ []) [] "3" refl (omega arith) refl)))
              (work (finish [] [] "3" refl refl)))
            (take (hand_over [] [] (fetched "3") refl refl refl)))
          (work (acquire [] [] "2" refl (omega arith) refl)))
        (work (finish [] [] "2" refl refl)))
      (take (hand_over [] [] (fetched "2") refl refl refl))

abbrev answers : Oci → Source
answers o = OciSource.get_versions none (answers_of (fetching one_by_one) fetches.received)

abbrev new_repo : Params → Result Calls
new_repo params = ok registry.repo

answered : GetVersions one_by_one (answers one_by_one)
answered = listed ("2" ∷ "3" ∷ []) fetches refl to_fetched (refl, refl, refl, refl) refl

same_listing :
    validate_image_versions texts (
      OciSource.apply_image_filter none
        (collected_items (map (fetching one_by_one).work ("2" ∷ "3" ∷ []))))
    ≡ single ∷ []
unfolding fetching
same_listing = listing

told : AreTold env one_by_one
told tags e =
    subst
      (λ ts. AreSeparate compare_images compare_images-IsOrder (
        validate_image_versions texts (
          OciSource.apply_image_filter none (collected_items (map (fetching one_by_one).work ts)))))
      (ok_inj e) (only_one _ single same_listing)

scheduled : IsScheduled env new_repo answers update
unfolding new_oci get_credential
scheduled src password o is_src has made =
    let made_of_oci : src ≡ oci = ground (arith, is_src) in
    let same : one_by_one ≡ o = ground (arith, made, made_of_oci) in
    subst (λ p. GetVersions p (answers p) × AreTold env p) same (answered, told)

reconcile_as_in_order_example :
    (reconcile (with_sources env new_repo answers) server (ok tracked) world
      ≡ reconcile (with_sources env new_repo in_order) server (ok tracked) world)
    ⊎ (Failed answers
        × ((reconcile (with_sources env new_repo answers) server (ok tracked) world).1.profile
            ≡ world.profile)
        × ((e : Error) × ((reconcile
                (with_sources env new_repo answers)
                server
                (ok tracked)
                world).0
              ≡ err e)))
reconcile_as_in_order_example =
    reconcile_as_in_order env new_repo answers server tracked world (scheduled, tt)
