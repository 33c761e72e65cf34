-- ===== src/Controllers/Reconcile/Patch.antt =====
-- What the program relies on when it patches a status: the documented behaviour of the status client
-- of controller-runtime with `MergeFrom`, and of `equality.Semantic.DeepEqual`.
use cloud_profile_sync.Common.{◌≡◌, ◌⊎◌, true}
use cloud_profile_sync.Common.Result.{Error, err}
use cloud_profile_sync.Api.{ManagedCloudProfileStatus}
use cloud_profile_sync.Controllers.Reconcile.{Server}

pub record PatchesStatus (server : Server) : Type 0 where
  -- A patch on the status that it starts from gives the status that it leads to, unless it fails;
  -- then either of the two is stored.
  pub patches :
      (base next : ManagedCloudProfileStatus)
      → let (answer, stored) = server.patch_status base next base in
        (stored ≡ next) ⊎ ((stored ≡ base) × (e : Error) × (answer ≡ err e))
  -- What is equal is the same.
  pub equal : (a b : ManagedCloudProfileStatus) → server.status_eq a b ≡ true → a ≡ b
