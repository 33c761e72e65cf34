-- ===== src/Landscape/Source.antt =====
-- `NewLandscapeKubernetesSource` of landscape_source.go.
use cloud_profile_sync.Common.{String, [], ◌==◌, string_eq, if◌then◌else◌}
use cloud_profile_sync.Common.Result.{Result, ok, err, plain, wrapped, ◌>>=◌}
use cloud_profile_sync.OciRepo.{Params}
use cloud_profile_sync.Landscape.{Repo}

pub record LandscapeKubernetesSource : Type 0 where
  pub oci_repo : Repo
  pub provider : String

-- `new_repo` is `ocirepo.New`, with the calls of its result.
unfoldable pub new_landscape_kubernetes_source :
    (Params → Result Repo) → Params → String → Result LandscapeKubernetesSource
new_landscape_kubernetes_source new_repo oci_params provider =
    if provider == "" then err (plain "provider must be set" []) else (do
      repo ← wrapped "initializing OCI repository: %w" [] (new_repo oci_params)
      ok (record { oci_repo = repo; provider = provider }))
